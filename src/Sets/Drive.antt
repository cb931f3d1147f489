-- ===== src/Sets/Drive.antt =====
-- crates/bornera/src/set_drive.rs and set_failure.rs: the turn of a set, over its commands, the readiness
-- that the selector reports, and the ready entries.
use bornera.Prelude.{
  ℕ, ◌==◌, Bool, true, ◌||◌, not, none, some, List, [], ◌∷◌, ◌++◌, if◌then◌else◌, Result, ok, err,
}
use bornera.Operation.{requested}
use bornera.Host.Resources.{ResourceToken, ResourceTable}
use bornera.Admission.Options.{Deadline, Moment}
use bornera.Slot.Limits.{ConnectionIdentity}
use bornera.Slot.Kinds.{MioError, EngineError, mio_error}
use bornera.Slot.State.{Environment, ConnectionSlot, Run, latch_failure}
use bornera.Slot.Control
use bornera.Slot.Admission.{saturating_add}
use bornera.Slot.Pressure.{capture_transport_pressure}
use bornera.Sets.State.{
  Selector, ConnectionEntry, ConnectionToken, ConnectionCommand, PollEvent, resource_event,
  other_event, PollReport, ConnectionSet, entry, enqueue, ensure_owner_running,
  latch_selector_failure,
}
use bornera.Sets.Ready.{enqueue_candidates, drive_ready, earliest_deadline}

-- `calandria::Next`
pub data Next : Type 0 where
  now_next wake : Next
  wake_or : Deadline → Next

-- `calandria::Turn`
pub record Turn : Type 0 where
  pub work : ℕ
  pub next : Next

abbrev pub connection_of : ConnectionCommand → ConnectionToken
connection_of (ConnectionCommand.open_admission connection) = connection
connection_of (ConnectionCommand.cancel connection operation) = connection
connection_of (ConnectionCommand.begin_drain connection deadline) = connection
connection_of (ConnectionCommand.close connection) = connection

module _ {env : Environment} where
  abbrev dropped : {A : Type 0} → ConnectionSlot env × Result A EngineError → ConnectionSlot env
  dropped (s, ok a) = s
  dropped (s, err error) = latch_failure error s

  -- The call of a command; its failure is latched.
  unfoldable pub call_command : ConnectionCommand → ConnectionSlot env → ConnectionSlot env
  call_command (ConnectionCommand.open_admission connection) s = dropped (Control.open_admission s)
  call_command (ConnectionCommand.cancel connection operation) s =
      dropped (Control.cancel operation s)
  call_command (ConnectionCommand.begin_drain connection deadline) s =
      dropped (Control.begin_drain deadline s)
  call_command (ConnectionCommand.close connection) s = dropped (Control.finalize requested s)

module _ {sel : Selector} where
  unfoldable pub observe_transport_readiness :
      sel.readiness → sel.transport → ConnectionEntry sel → ConnectionEntry sel
  observe_transport_readiness readiness transport e =
      let observed : sel.transport = sel.observe_readiness transport readiness in
      let captured = capture_transport_pressure ⦃port = sel.port⦄ observed e.slot in
      record e {
        transport = some observed;
        slot = elim (captured.1) [ ok _ ↦ captured.0 | err error ↦ latch_failure error captured.0 ];
      }

module _ {sel : Selector} {S : Type 0}
    ⦃table : ResourceTable S ConnectionIdentity (ConnectionEntry sel)⦄ where
  unfoldable pub apply_command : ConnectionCommand → ConnectionSet sel S → ConnectionSet sel S
  unfolding call_command
  apply_command command c = elim (entry c (connection_of command)) [
    | err error ↦ record c { stale_commands = saturating_add c.stale_commands 1 }
    | ok e ↦ enqueue (connection_of command).resource (record c {
      resources =
          table.put c.resources (connection_of command).resource
            (record e { slot = call_command command e.slot });
    })
  ]

  unfoldable pub apply_commands : List ConnectionCommand → ConnectionSet sel S → ConnectionSet sel S
  unfolding apply_command
  apply_commands [] c = c
  apply_commands (command ∷ commands) c = apply_commands commands (apply_command command c)

  unfoldable pub drive_commands : ConnectionSet sel S → ConnectionSet sel S × ℕ
  unfolding apply_commands
  drive_commands c =
      let (mailbox, buffer, more, drained) = sel.drain c.commands c.commands_per_turn in
      (
        apply_commands buffer (record c { commands = mailbox; command_more_pending = more }),
        drained,
      )

  -- An observed entry is queued, unless it was.
  unfoldable pub push_ready :
      ResourceToken → Bool → ConnectionEntry sel → ConnectionSet sel S → ConnectionSet sel S
  push_ready token queued e c =
      if queued then record c { resources = table.put c.resources token e } else record c {
        resources = table.put c.resources token (record e { ready_queued = true });
        ready = c.ready ++ token ∷ [];
      }

  unfoldable pub ingest_event : PollEvent sel.readiness → ConnectionSet sel S → ConnectionSet sel S
  unfolding observe_transport_readiness push_ready
  ingest_event other_event c = c
  ingest_event (resource_event token readiness) c =
      let stale : ConnectionSet sel S = record c {
        stale_resource_events = saturating_add c.stale_resource_events 1;
      } in
      elim (table.get c.resources token) [
        | none ↦ stale
        | some (identity, e) ↦ elim e.transport [
          | none ↦ stale
          | some transport ↦
              push_ready token e.ready_queued (observe_transport_readiness readiness transport e) c
        ]
      ]

  -- The work of the events of a batch, after some work.
  unfoldable pub ingest_events :
      ℕ → List (PollEvent sel.readiness) → ConnectionSet sel S → ConnectionSet sel S × ℕ
  unfolding ingest_event
  ingest_events work [] c = (c, work)
  ingest_events work (event ∷ events) c =
      ingest_events (saturating_add work 1) events (ingest_event event c)

  unfoldable pub ingest_readiness : ConnectionSet sel S → ConnectionSet sel S × ℕ
  unfolding ingest_events
  ingest_readiness c = ingest_events 0 c.poll_events (record c { poll_events = [] })

  unfoldable pub resolve_selector_poll :
      Result PollReport MioError → Run (ConnectionSet sel S) PollReport
  resolve_selector_poll (ok report) c = (c, ok report)
  resolve_selector_poll (err source) c = (latch_selector_failure source c, err (mio_error source))

  unfoldable pub poll_selector : ℕ → Run (ConnectionSet sel S) PollReport
  unfolding resolve_selector_poll
  poll_selector maximum c = elim (ensure_owner_running c) [
    | err error ↦ (c, err error)
    | ok _ ↦
        let (poller, events, result) = sel.poll c.poller maximum c.poll_events in
        resolve_selector_poll result (record c { poller = poller; poll_events = events })
  ]

  unfoldable pub observe_poll : PollReport → ConnectionSet sel S → ConnectionSet sel S
  observe_poll report c = record c {
    stale_backend_events = saturating_add c.stale_backend_events report.stale;
    poll_saturated = report.saturated;
  }

  -- Whether something was observed: `WaitOutcome::Notified`, not `Idle`.
  unfoldable pub poll_io : ℕ → Run (ConnectionSet sel S) Bool
  unfolding poll_selector observe_poll
  poll_io maximum c =
      let polled = poll_selector maximum c in
      elim (polled.1) [
        | err error ↦ (polled.0, err error)
        | ok report ↦ (observe_poll report polled.0, ok (not (report.observed == 0)))
      ]

  unfoldable pub ingest_poll_batches : Run (ConnectionSet sel S) ℕ
  unfolding ingest_readiness poll_selector observe_poll
  ingest_poll_batches c =
      let first = ingest_readiness c in
      if (first.0).poll_saturated
      then (let polled = poll_selector 0 first.0 in
          elim (polled.1) [
            | err error ↦ (polled.0, err error)
            | ok report ↦
                let second = ingest_readiness (observe_poll report polled.0) in
                (second.0, ok (saturating_add first.1 second.1))
          ])
      else (first.0, ok first.1)

  unfoldable pub next_of : ConnectionSet sel S → Next
  next_of c = elim c.ready [
    | _ ∷ _ ↦ now_next
    | [] ↦
        if c.command_more_pending || c.poll_saturated
        then now_next
        else (elim (earliest_deadline c) [ none ↦ wake | some deadline ↦ wake_or deadline ])
  ]

  unfoldable pub turn_component : Moment → Run (ConnectionSet sel S) Turn
  unfolding drive_commands ingest_poll_batches next_of
  turn_component now c = elim (ensure_owner_running c) [
    | err error ↦ (c, err error)
    | ok _ ↦
        let commanded = drive_commands c in
        let ingested = ingest_poll_batches commanded.0 in
        elim (ingested.1) [
          | err error ↦ (ingested.0, err error)
          | ok polled ↦
              let driven = drive_ready now (enqueue_candidates now ingested.0) in
              elim (driven.1) [
                | err error ↦ (driven.0, err error)
                | ok done ↦ (
                  driven.0,
                  ok (record {
                    work = saturating_add (saturating_add commanded.1 polled) done;
                    next = next_of driven.0;
                  }),
                )
              ]
        ]
  ]
