-- ===== src/Connection/Core/State.antt =====
-- connection/core.rs and connection/core_error.rs: the owner's state, its failures, and the shape of
-- its operations: the owner after the call, with a value or a failure.
use bornera.Prelude.{ℕ, Option, none, some, Result, ok, err}
use bornera.Host.{ByteBudget}
use bornera.Identity.{
  EndpointId, LaneId, ConnectionId, ConnectionEpoch, OperationId, EffectId, IdentitySeeds,
}
use bornera.Limits.{ConnectionLimits, write_queue_limits}
use bornera.Write.Frame.{FrameContractViolation, WriteProgressError}
use bornera.Write.Queue
use bornera.Write.Queue.{WriteQueue}
use bornera.Connection.Effect.{InputDisposition}
use bornera.Connection.Machine
use bornera.Connection.Machine.{ConnectionMachine}
use bornera.Connection.Journal
use bornera.Connection.Journal.{RecoveryJournal}

pub data ConnectionCoreInvariant : Type 0 where
  frame_contract_violation : FrameContractViolation → ConnectionCoreInvariant
  missing_write : OperationId → EffectId → ConnectionCoreInvariant
  discarded_write_mismatch : OperationId → OperationId → ConnectionCoreInvariant
  write_identity_mismatch : OperationId → EffectId → EffectId → ConnectionCoreInvariant
  unexpected_write : OperationId → EffectId → ConnectionCoreInvariant
  write_policy_mismatch : OperationId → EffectId → InputDisposition → ConnectionCoreInvariant
  reservation_accounting write_accounting : ConnectionCoreInvariant
  write_progress_contract : ℕ → ℕ → ConnectionCoreInvariant
  recovery_journal_capacity recovered : ConnectionCoreInvariant

pub data ConnectionCoreError : Type 0 where
  write : WriteProgressError → ConnectionCoreError
  invariant : ConnectionCoreInvariant → ConnectionCoreError
  poisoned : ConnectionCoreInvariant → ConnectionCoreError

pub record ConnectionCore (F B : Type 0) : Type 0 where
  pub machine : ConnectionMachine
  pub writes : WriteQueue F B
  pub journal : RecoveryJournal F
  pub poisoned : Option ConnectionCoreInvariant

module _ {F B : Type 0} ⦃lib : ByteBudget B⦄ where
  unfoldable pub with_identity_seeds :
      EndpointId
      → LaneId
      → ConnectionId
      → ConnectionEpoch
      → ConnectionLimits
      → IdentitySeeds
      → ℕ
      → ConnectionCore F B
  with_identity_seeds endpoint lane connection epoch limits seeds ledger_id = record {
    machine = Machine.with_identity_seeds endpoint lane connection epoch limits seeds ledger_id;
    writes = Queue.new epoch (write_queue_limits limits);
    journal = Journal.new limits.max_operations limits.max_write_frames;
    poisoned = none;
  }

-- `&mut self` and `?`
abbrev pub Op : Type 0 → Type 0 → Type 0 → Type 0
Op F B A = ConnectionCore F B → ConnectionCore F B × Result A ConnectionCoreError

module _ {F B : Type 0} where
  infixl 5 ◌>>=◌ ◌>>◌
  abbrev pub ◌>>=◌ : {A A' : Type 0} → Op F B A → (A → Op F B A') → Op F B A'
  ◌>>=◌ m f c = let r = m c in elim (r.1) [ ok a ↦ f a r.0 | err e ↦ (r.0, err e) ]

  abbrev pub ◌>>◌ : {A : Type 0} → Op F B (Unit {0}) → Op F B A → Op F B A
  m >> k = m >>= λ _. k

  abbrev pub return : {A : Type 0} → A → Op F B A
  return a c = (c, ok a)

  abbrev pub fail : {A : Type 0} → ConnectionCoreError → Op F B A
  fail e c = (c, err e)

  -- A call of the policy.
  abbrev pub policy : {A : Type 0} → (ConnectionMachine → ConnectionMachine × A) → Op F B A
  policy f c = let r = f c.machine in (record c { machine = r.0 }, ok r.1)

  -- A call of the journal.
  abbrev pub keep : {A : Type 0} → (RecoveryJournal F → RecoveryJournal F × A) → Op F B A
  keep f c = let r = f c.journal in (record c { journal = r.0 }, ok r.1)

  abbrev pub clear_journal : Op F B (Unit {0})
  clear_journal c = (record c { journal = Journal.clear c.journal }, ok tt)

  -- `poison`: the first cause is kept, the present one is reported.
  unfoldable pub poison : {A : Type 0} → ConnectionCoreInvariant → Op F B A
  poison source c = (
    elim c.poisoned [ none ↦ record c { poisoned = some source } | some first ↦ c ],
    err (invariant source),
  )
