-- ===== src/Connection/Permit.antt =====
-- connection/reserve.rs, connection/commit.rs and admission/permit.rs: a permit holds capacity until
-- it is committed or dropped. The ledger that a permit shares is the machine's, found by its name.
use bornera.Prelude.{
  ℕ, Bool, true, not, ◌||◌, Option, none, some, ltb, ◌==◌, if◌then◌else◌, Result, ok, err,
}
use bornera.Host.{Calandria}
use bornera.Identity.{ConnectionEpoch, OperationId, EffectId}
use bornera.Identity.Generator
use bornera.Admission.Options.{
  Deadline, Moment, AdmissionClass, CompletionMode, OperationOptions, Reservation, admits,
  ReserveError, deadline_elapsed, identity_exhausted, CommitErrorKind, foreign_permit,
  frame_too_large,
}
use bornera.Admission.Ledger
use bornera.Operation.{OperationRecord, queued, not_sent}
use bornera.Matching
use bornera.Connection.Effect
use bornera.Connection.Effect.{ConnectionTransition, applied, schedule_deadline}
use bornera.Connection.Machine.{ConnectionMachine}

pub record OperationPermit : Type 0 where
  pub ledger_id : ℕ
  pub epoch : ConnectionEpoch
  pub operation : OperationId
  pub effect : EffectId
  pub deadline : Deadline
  pub class : AdmissionClass
  pub completion : CompletionMode
  pub reservation : Reservation
  pub active : Bool

module _ ⦃host : Calandria⦄ where
  -- `reserve`, behind its guards
  unfoldable pub reserve_admitted :
      ConnectionMachine → OperationOptions → ConnectionMachine × Result OperationPermit ReserveError
  reserve_admitted m options =
      let (ledger, reserved) =
        Ledger.reserve m.ledger options.retained_bytes options.write_retained_bytes in
      elim reserved [
        | err e ↦ (record m { ledger = ledger }, err e)
        | ok reservation ↦
            let (identities, taken) = Generator.take m.identities in
            elim taken [
              | none ↦ (
                record m {
                  identities = identities;
                  ledger = Ledger.rollback_permit ledger reservation;
                },
                err identity_exhausted,
              )
              | some (operation, effect) ↦ (
                record m { identities = identities; ledger = ledger },
                ok (record {
                  ledger_id = m.ledger_id;
                  epoch = m.epoch;
                  operation = operation;
                  effect = effect;
                  deadline = options.deadline;
                  class = options.class;
                  completion = options.completion_mode;
                  reservation = reservation;
                  active = true;
                }),
              )
            ]
      ]

  unfoldable pub reserve :
      ConnectionMachine
      → Moment
      → OperationOptions
      → ConnectionMachine × Result OperationPermit ReserveError
  unfolding reserve_admitted
  reserve m now options =
      if not (admits m.gate options.class)
      then (m, err ReserveError.admission_closed)
      else (if host.is_elapsed_at options.deadline now
          then (m, err deadline_elapsed)
          else (if not (Generator.available m.identities)
              then (m, err identity_exhausted)
              else reserve_admitted m options))

  unfoldable pub commit_failure : ConnectionMachine → OperationPermit → ℕ → Option CommitErrorKind
  commit_failure m permit frame_retained =
      if not (m.ledger_id == permit.ledger_id) || not (permit.epoch == m.epoch)
      then some foreign_permit
      else (if not (admits m.gate permit.class)
          then some CommitErrorKind.admission_closed
          else (if ltb permit.reservation.write_retained_bytes frame_retained
              then some frame_too_large
              else none))

  -- The record that a committed permit becomes.
  abbrev pub record_of : OperationPermit → ℕ → OperationRecord
  record_of permit frame_retained = record {
    id = permit.operation;
    effect = permit.effect;
    deadline = permit.deadline;
    reservation = record (permit.reservation) { write_retained_bytes = frame_retained };
    phase = queued;
    completion = permit.completion;
    delivery = not_sent;
    write_held = true;
  }

  unfoldable pub commit_permit :
      ConnectionMachine
      → OperationPermit
      → ℕ
      → ConnectionMachine × (OperationId × ConnectionTransition (Unit {0}))
  commit_permit m permit frame_retained = (
    record m {
      ledger = Ledger.commit m.ledger permit.reservation frame_retained;
      matching = Matching.push m.matching (record_of permit frame_retained);
    },
    (
      permit.operation,
      Effect.push (Effect.new applied) (schedule_deadline m.epoch permit.operation permit.deadline),
    ),
  )

  -- `Drop for OperationPermit`
  unfoldable pub drop_permit : ConnectionMachine → OperationPermit → ConnectionMachine
  drop_permit m permit =
      if permit.active
      then record m { ledger = Ledger.rollback_permit m.ledger permit.reservation }
      else m
