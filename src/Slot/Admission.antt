-- ===== src/Slot/Admission.antt =====
-- crates/bornera/src/admission.rs: reservation, and the commit of a permit with its frame.
use bornera.Prelude.{
  ℕ, ◌+◌, ◌-◌, ◌^◌, Bool, true, false, none, some, ltb, if◌then◌else◌, Result, ok, err,
}
use bornera.Identity.{OperationId}
use bornera.Admission.Options.{Moment, OperationOptions, ReserveError, CommitErrorKind}
use bornera.Connection.Permit.{OperationPermit, drop_permit}
use bornera.Connection.Core.Drive
use bornera.Connection.Core.Drive.{
  FrameCommitFailure, policy_failure, writer_failure, FrameCommitError,
}
use bornera.Slot.Frame.{OutboundFrame, outbound}
use bornera.Slot.Kinds.{OwnerFailure, core_failure, failure_of, EngineError}
use bornera.Slot.State.{Environment, ConnectionSlot, latch_owner_failure, latch_failure}
use bornera.Slot.Transition.{interpret_unit}

pub data EngineCommitError : Type 0 where
  rejected : FrameCommitError OutboundFrame → EngineCommitError
  accepted_owner_failure : OperationId → EngineError → EngineCommitError
  owner_refused : OwnerFailure → OperationPermit → OutboundFrame → EngineCommitError

-- usize::saturating_add
abbrev pub saturating_add : ℕ → ℕ → ℕ
saturating_add a b = if ltb (a + b) (2 ^ 64) then a + b else 2 ^ 64 - 1

-- `matches!(failure, FrameCommitFailure::Policy(CommitErrorKind::OwnerPoisoned))`
abbrev pub is_poisoned_kind : CommitErrorKind → Bool
is_poisoned_kind CommitErrorKind.owner_poisoned = true
is_poisoned_kind _ = false

abbrev pub is_owner_poisoned : FrameCommitFailure → Bool
is_owner_poisoned (policy_failure kind) = is_poisoned_kind kind
is_owner_poisoned (writer_failure failure) = false

abbrev pub is_poisoned_reserve : ReserveError → Bool
is_poisoned_reserve ReserveError.owner_poisoned = true
is_poisoned_reserve _ = false

module _ {env : Environment} where
  unfoldable pub reserve :
      Moment
      → OperationOptions
      → ConnectionSlot env
      → ConnectionSlot env × Result OperationPermit ReserveError
  reserve now options s =
      let r =
        Drive.reserve ⦃host = env.host⦄ ⦃lib = env.budgets⦄ env.debug_assertions s.core now
          options in
      let s' : ConnectionSlot env = record s { core = r.0 } in
      elim (failure_of s.state) [
        | some reason ↦ (s, err ReserveError.owner_poisoned)
        | none ↦ elim (r.1) [
          | err e ↦
              (if is_poisoned_reserve e then latch_owner_failure core_failure s' else s', err e)
          | ok permit ↦
              if ltb s.limits.operation_capacity
                (saturating_add (env.outcomes.len s.outcomes) s'.core.machine.ledger.operations)
              then (
                record s' {
                  core = record (s'.core) {
                    machine = drop_permit ⦃host = env.host⦄ s'.core.machine permit;
                  };
                },
                err ReserveError.operation_capacity,
              )
              else (s', ok permit)
        ]
      ]

  unfoldable pub commit :
      OperationPermit
      → OutboundFrame
      → ConnectionSlot env
      → ConnectionSlot env × Result OperationId EngineCommitError
  commit permit frame s =
      let r =
        Drive.commit ⦃host = env.host⦄ ⦃lib = env.budgets⦄ env.debug_assertions outbound s.core
          permit frame in
      let s' : ConnectionSlot env = record s { core = r.0 } in
      elim (failure_of s.state) [
        | some reason ↦ (s, err (owner_refused reason permit frame))
        | none ↦ elim (r.1) [
          | err e ↦
              if is_owner_poisoned e.failure
              then (
                latch_owner_failure core_failure s',
                err (owner_refused core_failure e.permit e.frame),
              )
              else (s', err (rejected e))
          | ok (operation, t) ↦
              let i = interpret_unit t s' in
              elim (i.1) [
                | err source ↦
                    (latch_failure source i.0, err (accepted_owner_failure operation source))
                | ok _ ↦ (i.0, ok operation)
              ]
        ]
      ]
