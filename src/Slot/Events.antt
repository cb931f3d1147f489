-- ===== src/Slot/Events.antt =====
-- crates/bornera/src/lifecycle.rs: the bounded publication of lifecycle edges.
use bornera.Prelude.{ℕ, none, some, ok, err}
use bornera.Identity.{ConnectionEpoch, next_u64}
use bornera.Operation.{CloseReason}
use bornera.Slot.Kinds.{
  invariant_error, event_sequence_exhausted, lifecycle_publication, recovery_lifecycle_publication,
  ConnectionEvent, transport_opened, admission_opened, closing_event, closed_event, sequence_of,
}
use bornera.Slot.State.{Environment, ConnectionSlot, Run, ◌>>=◌}

module _ {env : Environment} where
  unfoldable pub next_event_sequence : Run (ConnectionSlot env) ℕ
  next_event_sequence s = elim (next_u64 s.event_sequence) [
    | none ↦ (s, err (invariant_error event_sequence_exhausted))
    | some sequence ↦ (s, ok sequence)
  ]

  unfoldable pub publish_event : ConnectionEvent → Run (ConnectionSlot env) (Unit {0})
  publish_event event s =
      let counted : ConnectionSlot env = record s { event_sequence = sequence_of event } in
      elim (env.events.try_push s.lifecycle event) [
        | ok batch ↦ (record counted { lifecycle = batch }, ok tt)
        | err failure ↦ elim (env.events.try_push s.recovery_events event) [
          | ok batch ↦ (
            record counted { recovery_events = batch },
            err (invariant_error (lifecycle_publication failure)),
          )
          | err failure' ↦
              (counted, err (invariant_error (recovery_lifecycle_publication failure')))
        ]
      ]

  -- The next sequence number, and the event of this epoch that has it.
  unfoldable pub publish_next :
      (ℕ → ConnectionEpoch → ConnectionEvent) → Run (ConnectionSlot env) (Unit {0})
  unfolding next_event_sequence publish_event
  publish_next event = do
    sequence ← next_event_sequence
    λ s. publish_event (event sequence s.core.machine.epoch) s

  abbrev pub publish_transport_opened : Run (ConnectionSlot env) (Unit {0})
  publish_transport_opened = publish_next transport_opened

  abbrev pub publish_admission_opened : Run (ConnectionSlot env) (Unit {0})
  publish_admission_opened = publish_next admission_opened

  abbrev pub publish_closing : CloseReason → Run (ConnectionSlot env) (Unit {0})
  publish_closing reason = publish_next (λ sequence epoch. closing_event sequence epoch reason)

  abbrev pub publish_closed : CloseReason → Run (ConnectionSlot env) (Unit {0})
  publish_closed reason = publish_next (λ sequence epoch. closed_event sequence epoch reason)
