-- ===== src/Connection/Drive/Cancellation.antt =====
-- connection/cancellation.rs and connection/deadline.rs: the two ways that an operation ends early.
use bornera.Prelude.{not, none, some, [], ◌∷◌, ◌++◌, ◌==◌, if◌then◌else◌}
use bornera.Host.{Calandria}
use bornera.Identity.{ConnectionEpoch, OperationId}
use bornera.Admission.Options.{Moment}
use bornera.Admission.Ledger
use bornera.Operation.{
  deadline_after_possible_send, OperationRecord, OperationFailure, terminal, is_terminal, not_sent,
  possibly_sent, is_possibly_sent, cancelled,
}
use bornera.Matching
use bornera.Matching.{OrderedVerified}
use bornera.Connection.Effect
use bornera.Connection.Effect.{
  ConnectionTransition, ConnectionEffect, ConnectionInput, InboundReply, InputDisposition,
  CancelOutcome, applied, ignored_stale_epoch, ignored_unknown_operation, ignored_stale_effect,
  ignored_invalid_phase, fault, cancelled_not_sent, observation_cancelled, discard_write,
  cancel_deadline, publish_outcome, publish_failed, schedule_deadline, with_cancelled,
}
use bornera.Connection.Machine.{ConnectionMachine, close_into, finish_drain}
use bornera.Connection.Drive.Outcomes.{Outcome, discard_if_held, with_effects}

module _ ⦃host : Calandria⦄ where
  open host use {is_elapsed_at}

  -- The removal of an operation that never reached the transport, by `cancel` or by its deadline.
  unfoldable pub cancel_queued : ConnectionMachine → OperationId → Outcome (Unit {0})
  cancel_queued m operation = elim (Matching.remove m.matching operation) [
    | none ↦
        (m, with_cancelled CancelOutcome.already_terminal (Effect.new ignored_unknown_operation))
    | some (r, matching) ↦
        finish_drain
          (record m {
            ledger = Ledger.release_operation m.ledger r.reservation r.write_held;
            matching = matching;
          })
          (with_cancelled cancelled_not_sent (
            with_effects applied (
              discard_if_held m.epoch r operation
              ++ (cancel_deadline m.epoch operation
                  ∷ publish_outcome m.epoch operation (cancelled not_sent)
                  ∷ []))))
  ]

  abbrev pub end_observation : OperationRecord → OperationRecord
  end_observation r = record r { phase = terminal }

  -- Cancellation after the first byte: the record stays as a tombstone.
  unfoldable pub cancel_sent : ConnectionMachine → OperationId → Outcome (Unit {0})
  cancel_sent m operation = (
    elim (Matching.get_mut m.matching operation end_observation) [
      | none ↦ m
      | some matching ↦ record m { matching = matching }
    ],
    with_cancelled (observation_cancelled possibly_sent)
        (with_effects applied (publish_outcome m.epoch operation (cancelled possibly_sent) ∷ [])),
  )

  unfoldable pub cancel : ConnectionMachine → ConnectionEpoch → OperationId → Outcome (Unit {0})
  unfolding cancel_queued cancel_sent
  cancel m epoch operation =
      let refused = λ (d : InputDisposition).
        with_cancelled {R = Unit {0}} CancelOutcome.already_terminal (Effect.new d) in
      if not (epoch == m.epoch)
      then (m, refused ignored_stale_epoch)
      else (elim (Matching.get m.matching operation) [
        | none ↦ (m, refused ignored_unknown_operation)
        | some r ↦
            if is_terminal r.phase
            then (m, refused InputDisposition.already_terminal)
            else (if is_possibly_sent r.delivery
                then cancel_sent m operation
                else cancel_queued m operation)
      ])

  -- A deadline that passed before the first byte.
  unfoldable pub expire_queued : ConnectionMachine → OperationId → Outcome (Unit {0})
  expire_queued m operation = elim (Matching.remove m.matching operation) [
    | none ↦ (m, Effect.new ignored_unknown_operation)
    | some (r, matching) ↦
        finish_drain
          (record m {
            ledger = Ledger.release_operation m.ledger r.reservation r.write_held;
            matching = matching;
          })
          (with_effects applied (
            discard_if_held m.epoch r operation
            ++ (cancel_deadline m.epoch operation
                ∷ publish_failed m.epoch operation OperationFailure.deadline_elapsed not_sent
                ∷ [])))
  ]

  unfoldable pub deadline_elapsed :
      ConnectionMachine → ConnectionEpoch → OperationId → Moment → Outcome (Unit {0})
  unfolding expire_queued
  deadline_elapsed m epoch operation now =
      if not (epoch == m.epoch)
      then (m, Effect.new ignored_stale_epoch)
      else (elim (Matching.get m.matching operation) [
        | none ↦ (m, Effect.new ignored_unknown_operation)
        | some r ↦
            if not (is_elapsed_at r.deadline now)
            then (m, with_effects applied (schedule_deadline m.epoch operation r.deadline ∷ []))
            else (if is_possibly_sent r.delivery
                then close_into m deadline_after_possible_send (Effect.new applied)
                else expire_queued m operation)
      ])
