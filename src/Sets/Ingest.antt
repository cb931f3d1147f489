-- ===== src/Sets/Ingest.antt =====
-- crates/bornera/src/set_drive.rs: the queue and the flags over a whole turn of a set.
use bornera.Prelude.{
  ℕ, ◌≡◌, refl, sym, subst, ◌∙◌, Bool, true, false, some, List, [], ◌∷◌, ◌++◌, Result, ok, err,
  Option-cases, Bool-cases, Result-cases, inl, inr,
}
use bornera.Host.Resources.{ResourceToken, ResourceTable}
use bornera.Admission.Options.{Moment}
use bornera.Slot.Limits.{ConnectionIdentity}
use bornera.Slot.Kinds.{MioError, EngineError, mio_error}
use bornera.Slot.Admission.{saturating_add}
use bornera.Sets.State.{
  Selector, ConnectionEntry, ConnectionCommand, ConnectionToken, PollEvent, resource_event,
  other_event, PollReport, ConnectionSet, entry, ensure_owner_running, same_identity,
}
use bornera.Sets.Ready.{enqueue_candidates, drive_ready}
use bornera.Sets.Queue.{
  contains, Agrees, IsQueued, Once-append, contains_last, contains_other, put-Agrees,
  enqueue-IsQueued,
}
use bornera.Sets.Turns.{latch_selector-IsQueued, ready-IsQueued}
use bornera.Sets.Drive.{
  connection_of, call_command, observe_transport_readiness, apply_command, apply_commands,
  drive_commands, push_ready, ingest_event, ingest_events, ingest_readiness, resolve_selector_poll,
  poll_selector, observe_poll, poll_io, ingest_poll_batches, turn_component,
}

module _ {sel : Selector} where
  readiness_flag :
      (readiness : sel.readiness) (transport : sel.transport) (e : ConnectionEntry sel)
      → (observe_transport_readiness readiness transport e).ready_queued ≡ e.ready_queued
  unfolding observe_transport_readiness
  readiness_flag readiness transport e = refl

module _ {sel : Selector} {S : Type 0}
    ⦃table : ResourceTable S ConnectionIdentity (ConnectionEntry sel)⦄ where
  -- An entry is written anew with the same flag.
  put-IsQueued :
      (c : ConnectionSet sel S) (r : ResourceToken) (k : ConnectionIdentity)
      (e v : ConnectionEntry sel)
      → table.get c.resources r ≡ some (k, e)
      → v.ready_queued ≡ e.ready_queued
      → IsQueued c
      → IsQueued (record c { resources = table.put c.resources r v })
  put-IsQueued c r k e v here same h = record {
    once = h.once;
    flagged =
        put-Agrees c.resources r k e v c.ready here
          (same ∙ subst (λ o. Agrees o (contains r c.ready)) here (h.flagged r))
          (λ t apart. h.flagged t);
  }

  -- An entry that was not queued is written anew, and queued.
  push-IsQueued :
      (c : ConnectionSet sel S) (r : ResourceToken) (k : ConnectionIdentity)
      (e v : ConnectionEntry sel)
      → table.get c.resources r ≡ some (k, e)
      → e.ready_queued ≡ false
      → v.ready_queued ≡ true
      → IsQueued c
      → IsQueued (record c { resources = table.put c.resources r v; ready = c.ready ++ r ∷ [] })
  push-IsQueued c r k e v here down up h =
      let flag : e.ready_queued ≡ contains r c.ready =
        subst (λ o. Agrees o (contains r c.ready)) here (h.flagged r) in
      record {
        once = Once-append r c.ready h.once (sym flag ∙ down);
        flagged =
            put-Agrees c.resources r k e v (c.ready ++ r ∷ []) here
              (up ∙ sym (contains_last r c.ready))
              (λ t apart. rw (contains_other t r c.ready apart) (h.flagged t));
      }

  apply_command-IsQueued :
      (command : ConnectionCommand) (c : ConnectionSet sel S)
      → IsQueued c
      → IsQueued (apply_command command c)
  unfolding apply_command entry
  apply_command-IsQueued command c h =
      let token : ConnectionToken = connection_of command in
      elim (Option-cases (table.get c.resources token.resource)) [
        | inl e ↦ rw (e, apply_command, entry) (record { once = h.once; flagged = h.flagged })
        | inr ((k, v), e) ↦ elim (Bool-cases (same_identity k token.identity)) [
          | inr q ↦ rw (e, q, apply_command, entry) (record { once = h.once; flagged = h.flagged })
          | inl q ↦
              rw (e, q, apply_command, entry)
                (let written : ConnectionEntry sel = record v {
                  slot = call_command command v.slot;
                } in
                  enqueue-IsQueued token.resource
                    (record c { resources = table.put c.resources token.resource written })
                    (put-IsQueued c token.resource k v written e refl h))
        ]
      ]

  apply_commands-IsQueued :
      (commands : List ConnectionCommand) (c : ConnectionSet sel S)
      → IsQueued c
      → IsQueued (apply_commands commands c)
  unfolding apply_commands
  apply_commands-IsQueued [] c h = h
  apply_commands-IsQueued (command ∷ commands) c h =
      apply_commands-IsQueued commands (apply_command command c)
        (apply_command-IsQueued command c h)

  drive_commands-IsQueued : (c : ConnectionSet sel S) → IsQueued c → IsQueued (drive_commands c).0
  unfolding drive_commands
  drive_commands-IsQueued c h =
      let drained : sel.mailbox × List ConnectionCommand × Bool × ℕ =
        sel.drain c.commands c.commands_per_turn in
      apply_commands-IsQueued drained.1
        (record c { commands = drained.0; command_more_pending = drained.2 })
        (record { once = h.once; flagged = h.flagged })

  push_ready-IsQueued :
      (c : ConnectionSet sel S) (token : ResourceToken) (k : ConnectionIdentity)
      (e v : ConnectionEntry sel)
      → table.get c.resources token ≡ some (k, e)
      → v.ready_queued ≡ e.ready_queued
      → IsQueued c
      → IsQueued (push_ready token e.ready_queued v c)
  unfolding push_ready
  push_ready-IsQueued c token k e v here same h = elim (Bool-cases e.ready_queued) [
    | inl q ↦ rw (q, push_ready) (put-IsQueued c token k e v here same h)
    | inr q ↦
        rw (q, push_ready)
          (push-IsQueued c token k e (record v { ready_queued = true }) here q refl h)
  ]

  ingest_event-IsQueued :
      (event : PollEvent sel.readiness) (c : ConnectionSet sel S)
      → IsQueued c
      → IsQueued (ingest_event event c)
  unfolding ingest_event
  ingest_event-IsQueued other_event c h = h
  ingest_event-IsQueued (resource_event token readiness) c h =
      elim (Option-cases (table.get c.resources token)) [
        | inl e ↦ rw (e, ingest_event) (record { once = h.once; flagged = h.flagged })
        | inr ((k, v), e) ↦ elim (Option-cases v.transport) [
          | inl t ↦ rw (e, t, ingest_event) (record { once = h.once; flagged = h.flagged })
          | inr (transport, t) ↦
              let observed : ConnectionEntry sel =
                observe_transport_readiness readiness transport v in
              rw (e, t, ingest_event)
                (push_ready-IsQueued c token k v observed e (readiness_flag readiness transport v)
                  h)
        ]
      ]

  ingest_events-IsQueued :
      (work : ℕ) (events : List (PollEvent sel.readiness)) (c : ConnectionSet sel S)
      → IsQueued c
      → IsQueued (ingest_events work events c).0
  unfolding ingest_events
  ingest_events-IsQueued work [] c h = h
  ingest_events-IsQueued work (event ∷ events) c h =
      ingest_events-IsQueued (saturating_add work 1) events (ingest_event event c)
        (ingest_event-IsQueued event c h)

  ingest_readiness-IsQueued :
      (c : ConnectionSet sel S) → IsQueued c → IsQueued (ingest_readiness c).0
  unfolding ingest_readiness
  ingest_readiness-IsQueued c h =
      ingest_events-IsQueued 0 c.poll_events (record c { poll_events = [] })
        (record { once = h.once; flagged = h.flagged })

  resolve-IsQueued :
      (result : Result PollReport MioError) (c : ConnectionSet sel S)
      → IsQueued c
      → IsQueued (resolve_selector_poll result c).0
  unfolding resolve_selector_poll
  resolve-IsQueued (ok report) c h = h
  resolve-IsQueued (err source) c h = latch_selector-IsQueued source c h

  poll_selector-IsQueued :
      (maximum : ℕ) (c : ConnectionSet sel S) → IsQueued c → IsQueued (poll_selector maximum c).0
  unfolding poll_selector
  poll_selector-IsQueued maximum c h =
      let polled : sel.poller × List (PollEvent sel.readiness) × Result PollReport MioError =
        sel.poll c.poller maximum c.poll_events in
      elim (Result-cases (ensure_owner_running c)) [
        | inr (error, e) ↦ rw (e, poll_selector) h
        | inl (a, e) ↦
            rw (e, poll_selector)
              (resolve-IsQueued polled.2 (record c { poller = polled.0; poll_events = polled.1 })
                (record { once = h.once; flagged = h.flagged }))
      ]

  observe_poll-IsQueued :
      (report : PollReport) (c : ConnectionSet sel S)
      → IsQueued c
      → IsQueued (observe_poll report c)
  unfolding observe_poll
  observe_poll-IsQueued report c h = record { once = h.once; flagged = h.flagged }

  poll_io-IsQueued :
      (maximum : ℕ) (c : ConnectionSet sel S) → IsQueued c → IsQueued (poll_io maximum c).0
  unfolding poll_io
  poll_io-IsQueued maximum c h =
      let polled : ConnectionSet sel S × Result PollReport EngineError = poll_selector maximum c in
      let kept : IsQueued polled.0 = poll_selector-IsQueued maximum c h in
      elim (Result-cases polled.1) [
        | inr (error, e) ↦ rw (e, poll_io) kept
        | inl (report, e) ↦ rw (e, poll_io) (observe_poll-IsQueued report polled.0 kept)
      ]

  batches-IsQueued : (c : ConnectionSet sel S) → IsQueued c → IsQueued (ingest_poll_batches c).0
  unfolding ingest_poll_batches
  batches-IsQueued c h =
      let first : ConnectionSet sel S × ℕ = ingest_readiness c in
      let kept : IsQueued first.0 = ingest_readiness-IsQueued c h in
      let polled : ConnectionSet sel S × Result PollReport EngineError = poll_selector 0 first.0 in
      let again : IsQueued polled.0 = poll_selector-IsQueued 0 first.0 kept in
      elim (Bool-cases (first.0).poll_saturated) [
        | inr q ↦ rw (q, ingest_poll_batches) kept
        | inl q ↦ elim (Result-cases polled.1) [
          | inr (error, e) ↦ rw (q, e, ingest_poll_batches) again
          | inl (report, e) ↦
              rw (q, e, ingest_poll_batches)
                (ingest_readiness-IsQueued (observe_poll report polled.0)
                  (observe_poll-IsQueued report polled.0 again))
        ]
      ]

  -- If no token is queued twice and the flag of every entry says whether its token is queued, the
  -- same holds after a whole turn of the set and after a poll of its selector, whether they
  -- succeed or fail.
  pub set_turn-IsQueued :
      (now : Moment) (maximum : ℕ) (c : ConnectionSet sel S) (queued : IsQueued c)
      → IsQueued (turn_component now c).0 × IsQueued (poll_io maximum c).0
  unfolding turn_component
  set_turn-IsQueued now maximum c queued =
      let commanded : ConnectionSet sel S × ℕ = drive_commands c in
      let ingested : ConnectionSet sel S × Result ℕ EngineError = ingest_poll_batches commanded.0 in
      let kept : IsQueued ingested.0 =
        batches-IsQueued commanded.0 (drive_commands-IsQueued c queued) in
      let scanned : ConnectionSet sel S = enqueue_candidates now ingested.0 in
      let scan : IsQueued scanned =
        (ready-IsQueued now 0 (mio_error (MioError.mio_other 0)) ingested.0 kept).1 in
      let driven : ConnectionSet sel S × Result ℕ EngineError = drive_ready now scanned in
      let last : IsQueued driven.0 =
        (ready-IsQueued now 0 (mio_error (MioError.mio_other 0)) scanned scan).2 in
      (
        elim (Result-cases (ensure_owner_running c)) [
          | inr (error, e) ↦ rw (e, turn_component) queued
          | inl (a, e) ↦ elim (Result-cases ingested.1) [
            | inr (error, e') ↦ rw (e, e', turn_component) kept
            | inl (polled, e') ↦ elim (Result-cases driven.1) [
              | inr (error, e'') ↦ rw (e, e', e'', turn_component) last
              | inl (done, e'') ↦ rw (e, e', e'', turn_component) last
            ]
          ]
        ],
        poll_io-IsQueued maximum c queued,
      )
