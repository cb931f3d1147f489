-- ===== src/Sets/Ready.antt =====
-- crates/bornera/src/set_drive/ready.rs: which entries can run, and the turns that they are given.
use bornera.Prelude.{
  ℕ, zero, suc, Bool, false, not, ◌&&◌, ◌||◌, Option, none, some, is_some, List, [], ◌∷◌,
  if◌then◌else◌, Result, ok, err,
}
use bornera.Host.Resources.{ResourceToken, ResourceTable}
use bornera.Admission.Options.{Deadline, Moment}
use bornera.Slot.Limits.{ConnectionIdentity}
use bornera.Slot.Kinds.{EngineError, failure_of}
use bornera.Transport.Port.{SlotTransport}
use bornera.Slot.State.{Environment, ConnectionSlot, latch_failure}
use bornera.Slot.Control.{next_deadline, transport_release_ready, earlier}
use bornera.Slot.Admission.{saturating_add}
use bornera.Slot.Application.{has_runnable_io}
use bornera.Slot.Shutdown.{has_runnable_shutdown}
use bornera.Slot.Quantum.{SlotProgress, drive_quantum}
use bornera.Sets.State.{Selector, ConnectionEntry, ConnectionSet, enqueue, latch_readiness_error}
use bornera.Sets.Settle.{settle_entry, sync_interest}

module _ {env : Environment} {T : Type 0} ⦃port : SlotTransport T⦄ where
  -- What the transport could do now.
  abbrev pub has_runnable : Moment → ConnectionSlot env → Option T → Bool
  has_runnable now s none = false
  has_runnable now s (some transport) =
      if is_some s.close_request
      then has_runnable_shutdown now transport s
      else has_runnable_io transport s

module _ {sel : Selector} where
  unfoldable pub should_enqueue : Moment → ConnectionEntry sel → Bool
  should_enqueue now e =
      let due : Bool = elim (next_deadline e.slot) [
        | none ↦ false
        | some deadline ↦ ((sel.slots).host).is_elapsed_at deadline now
      ] in
      due || transport_release_ready e.slot || has_runnable ⦃port = sel.port⦄ now e.slot e.transport

  -- Whether an entry goes back to the queue after its quantum.
  unfoldable pub is_runnable : Moment → SlotProgress → ConnectionEntry sel → Bool
  is_runnable now progress e =
      not (is_some (failure_of e.slot.state))
      && is_some e.transport
      && (progress.saturated
          || transport_release_ready e.slot
          || has_runnable ⦃port = sel.port⦄ now e.slot e.transport)

  -- The quantum of an entry; a failure is latched, and counts no work.
  unfoldable pub entry_quantum : Moment → ConnectionEntry sel → ConnectionEntry sel × SlotProgress
  entry_quantum now e =
      let r = drive_quantum ⦃port = sel.port⦄ now (e.slot, e.transport) in
      let driven : ConnectionEntry sel = record e { slot = r.0.0; transport = r.0.1 } in
      elim (r.1) [
        | ok progress ↦ (driven, progress)
        | err error ↦ (
          record driven { slot = latch_failure error r.0.0 },
          record { work = 0; saturated = false },
        )
      ]

  -- The turn of one entry: its quantum, its settlement, its interest, and whether it can go on.
  unfoldable pub entry_turn :
      Moment
      → ResourceToken
      → sel.poller
      → ConnectionEntry sel
      → sel.poller × ConnectionEntry sel × Result (ℕ × Bool) EngineError
  unfolding entry_quantum settle_entry sync_interest is_runnable
  entry_turn now resource poller e =
      let (driven, progress) = entry_quantum now e in
      let (poller', settled_entry, settled) = settle_entry resource poller driven in
      let (poller'', synced, interest) = sync_interest resource poller' settled_entry in
      elim settled [
        | err error ↦ (poller', settled_entry, err error)
        | ok released ↦ elim interest [
          | err error ↦ (poller'', synced, err error)
          | ok registered ↦ (
            poller'',
            synced,
            ok (
              saturating_add (saturating_add progress.work released) registered,
              is_runnable now progress synced,
            ),
          )
        ]
      ]

module _ (sel : Selector) {S : Type 0}
    ⦃table : ResourceTable S ConnectionIdentity (ConnectionEntry sel)⦄ where
  -- The deadlines of the entries that have not failed.
  unfoldable pub earliest_of : List ResourceToken → S → Option Deadline
  earliest_of [] s = none
  earliest_of (t ∷ ts) s =
      let rest = earliest_of ts s in
      elim (table.get s t) [
        | none ↦ rest
        | some (identity, e) ↦
            if is_some (failure_of e.slot.state) then rest else earlier (next_deadline e.slot) rest
      ]

module _ {sel : Selector} {S : Type 0}
    ⦃table : ResourceTable S ConnectionIdentity (ConnectionEntry sel)⦄ where
  unfoldable pub enqueue_each :
      Moment → List ResourceToken → ConnectionSet sel S → ConnectionSet sel S
  unfolding enqueue
  enqueue_each now [] c = c
  enqueue_each now (t ∷ ts) c = enqueue_each now ts (elim (table.get c.resources t) [
    | none ↦ c
    | some (identity, e) ↦ if should_enqueue now e then enqueue t c else c
  ])

  unfoldable pub enqueue_candidates : Moment → ConnectionSet sel S → ConnectionSet sel S
  unfolding enqueue_each
  enqueue_candidates now c = enqueue_each now (table.tokens c.resources) c

  -- The entry at the front of the queue, which has left it: the work of its turn.
  unfoldable pub ready_turn :
      Moment → ResourceToken → ConnectionSet sel S → ConnectionSet sel S × Result ℕ EngineError
  unfolding entry_turn enqueue latch_readiness_error
  ready_turn now resource c = elim (table.get c.resources resource) [
    | none ↦ (record c { stale_resource_events = saturating_add c.stale_resource_events 1 }, ok 0)
    | some (identity, e) ↦
        let (poller, e', result) =
          entry_turn now resource c.poller (record e { ready_queued = false }) in
        let c' : ConnectionSet sel S = record c {
          poller = poller;
          resources = table.put c.resources resource e';
        } in
        elim result [
          | err error ↦ (latch_readiness_error error c', err error)
          | ok (work, requeue) ↦ (if requeue then enqueue resource c' else c', ok work)
        ]
  ]

  -- As many turns as are left, after some work.
  unfoldable pub ready_turns :
      Moment → ℕ → ℕ → ConnectionSet sel S → ConnectionSet sel S × Result ℕ EngineError
  unfolding ready_turn
  ready_turns now work zero c = (c, ok work)
  ready_turns now work (suc left) c = elim c.ready [
    | [] ↦ (c, ok work)
    | resource ∷ rest ↦
        let turn = ready_turn now resource (record c { ready = rest }) in
        elim (turn.1) [
          | err error ↦ (turn.0, err error)
          | ok done ↦ ready_turns now (saturating_add work done) left turn.0
        ]
  ]

  unfoldable pub drive_ready :
      Moment → ConnectionSet sel S → ConnectionSet sel S × Result ℕ EngineError
  unfolding ready_turns
  drive_ready now c = ready_turns now 0 c.ready_connections_per_turn c

  unfoldable pub earliest_deadline : ConnectionSet sel S → Option Deadline
  unfolding earliest_of
  earliest_deadline c = earliest_of sel (table.tokens c.resources) c.resources
