-- ===== src/Connection/Drive/Writes.antt =====
-- connection/drive.rs: the policy side of write progress.
use bornera.Prelude.{false, not, ◌||◌, none, some, ◌∷◌, ◌==◌, if◌then◌else◌}
use bornera.Host.{Calandria}
use bornera.Identity.{ConnectionEpoch, OperationId, EffectId}
use bornera.Admission.Options.{is_reply_expected}
use bornera.Admission.Ledger
use bornera.Operation.{
  OperationRecord, writing, awaiting_reply, is_terminal, is_queued, is_writing_or_terminal,
  mark_possibly_sent, write_complete,
}
use bornera.Matching
use bornera.Matching.{OrderedVerified}
use bornera.Connection.Effect
use bornera.Connection.Effect.{
  ConnectionTransition, ConnectionEffect, ConnectionInput, InboundReply, InputDisposition,
  CancelOutcome, applied, ignored_stale_epoch, ignored_unknown_operation, ignored_stale_effect,
  ignored_invalid_phase, fault, cancelled_not_sent, observation_cancelled, discard_write,
  cancel_deadline, publish_outcome, publish_failed, schedule_deadline, with_cancelled,
}
use bornera.Connection.Machine.{ConnectionMachine, finish_drain}
use bornera.Connection.Drive.Outcomes.{Outcome, publish_unless_terminal, with_effects}

module _ ⦃host : Calandria⦄ where
  abbrev pub start : OperationRecord → OperationRecord
  start r = record r { delivery = mark_possibly_sent r.delivery; phase = writing }

  unfoldable pub write_started :
      ConnectionMachine → ConnectionEpoch → OperationId → EffectId → Outcome (Unit {0})
  write_started m epoch operation effect =
      if not (epoch == m.epoch)
      then (m, Effect.new ignored_stale_epoch)
      else (elim (Matching.get m.matching operation) [
        | none ↦ (m, Effect.new ignored_unknown_operation)
        | some r ↦
            if is_terminal r.phase
            then (m, Effect.new InputDisposition.already_terminal)
            else (if not (r.effect == effect)
                then (m, Effect.new ignored_stale_effect)
                else (if not (is_queued r.phase)
                    then (m, Effect.new ignored_invalid_phase)
                    else (elim (Matching.get_mut m.matching operation start) [
                      | none ↦ (m, Effect.new ignored_unknown_operation)
                      | some matching ↦ (record m { matching = matching }, Effect.new applied)
                    ])))
      ])

  abbrev pub await : OperationRecord → OperationRecord
  await r = record r {
    phase = if is_terminal r.phase then r.phase else awaiting_reply;
    write_held = false;
  }

  -- `write_completed`, once the ledger has released the frame of `r`.
  unfoldable pub finish_write :
      ConnectionMachine → OperationId → OperationRecord → Outcome (Unit {0})
  finish_write m operation r =
      if is_reply_expected r.completion
      then (elim (Matching.get_mut m.matching operation await) [
        | none ↦ (m, Effect.new ignored_unknown_operation)
        | some matching ↦ (record m { matching = matching }, Effect.new applied)
      ])
      else (elim (Matching.remove m.matching operation) [
        | none ↦ (m, Effect.new ignored_unknown_operation)
        | some (completed, matching) ↦
            finish_drain
              (record m {
                ledger = Ledger.release_operation m.ledger completed.reservation false;
                matching = matching;
              })
              (with_effects applied (
                cancel_deadline m.epoch operation
                ∷ publish_unless_terminal completed
                    (publish_outcome m.epoch operation (write_complete completed.delivery))))
      ])

  unfoldable pub write_completed :
      ConnectionMachine → ConnectionEpoch → OperationId → EffectId → Outcome (Unit {0})
  unfolding finish_write
  write_completed m epoch operation effect =
      if not (epoch == m.epoch)
      then (m, Effect.new ignored_stale_epoch)
      else (elim (Matching.get m.matching operation) [
        | none ↦ (m, Effect.new ignored_unknown_operation)
        | some r ↦
            let released = record m {
              ledger = Ledger.release_write m.ledger r.reservation.write_retained_bytes;
            } in
            if not (r.effect == effect)
            then (m, Effect.new ignored_stale_effect)
            else (if not (is_writing_or_terminal r.phase || is_queued r.phase) || not r.write_held
                then (m, Effect.new ignored_invalid_phase)
                else finish_write released operation r)
      ])
