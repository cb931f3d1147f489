-- ===== src/Connection/Drive/Response.antt =====
-- connection/response.rs: replies, verified against the wire-order front.
use bornera.Prelude.{false, not, ◌||◌, none, some, ◌∷◌, ◌==◌, if◌then◌else◌}
use bornera.Host.{Calandria}
use bornera.Identity.{ConnectionEpoch}
use bornera.Admission.Ledger
use bornera.Operation.{
  unexpected_reply, malformed_reply, match_key_mismatch, key_mismatch, is_awaiting_or_terminal,
  reply,
}
use bornera.Matching
use bornera.Matching.{OrderedVerified}
use bornera.Connection.Effect
use bornera.Connection.Effect.{
  ConnectionTransition, ConnectionEffect, ConnectionInput, InboundReply, InputDisposition,
  CancelOutcome, applied, ignored_stale_epoch, ignored_unknown_operation, ignored_stale_effect,
  ignored_invalid_phase, fault, cancelled_not_sent, observation_cancelled, discard_write,
  cancel_deadline, publish_outcome, publish_failed, schedule_deadline, with_cancelled,
}
use bornera.Connection.Machine.{
  ConnectionMachine, is_live, close_with_failure_into, close_into, finish_drain,
}
use bornera.Connection.Drive.Outcomes.{Outcome, publish_unless_terminal, with_effects}

module _ ⦃host : Calandria⦄ where
  unfoldable pub reply_malformed : ConnectionMachine → ConnectionEpoch → Outcome (Unit {0})
  reply_malformed m epoch =
      if not (epoch == m.epoch)
      then (m, Effect.new ignored_stale_epoch)
      else (if not (is_live m.phase)
          then (m, Effect.new ignored_invalid_phase)
          else close_into m malformed_reply (Effect.new fault))

  module _ {R : Type 0} where
    -- A reply whose key is that of the front.
    unfoldable pub complete_front : ConnectionMachine → R → Outcome R
    complete_front m frame = elim (Matching.pop_front m.matching) [
      | none ↦ (m, Effect.new ignored_unknown_operation)
      | some (completed, matching) ↦
          finish_drain
            (record m {
              ledger = Ledger.release_operation m.ledger completed.reservation false;
              matching = matching;
            })
            (with_effects applied (
              cancel_deadline m.epoch completed.id
              ∷ publish_unless_terminal completed
                  (publish_outcome m.epoch completed.id (reply frame))))
    ]

    unfoldable pub apply_reply : ConnectionMachine → InboundReply R → Outcome R
    unfolding complete_front
    apply_reply m received =
        if not (received.epoch == m.epoch)
        then (m, Effect.new ignored_stale_epoch)
        else (if not (is_live m.phase)
            then (m, Effect.new ignored_invalid_phase)
            else (elim (Matching.front m.matching) [
              | none ↦ close_into m unexpected_reply (Effect.new fault)
              | some front ↦
                  let expected = front.reservation.match_key in
                  if not (is_awaiting_or_terminal front.phase) || front.write_held
                  then close_into m unexpected_reply (Effect.new fault)
                  else (if not (received.key == expected)
                      then close_with_failure_into m (match_key_mismatch expected received.key)
                          (some (front.id, key_mismatch expected received.key)) (Effect.new fault)
                      else complete_front m received.frame)
            ]))
