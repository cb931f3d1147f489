-- ===== src/Connection/Core/Integrity.antt =====
-- connection/integrity.rs: the audit of the owner, the reconciliation of effects with the writer, and
-- the latch on a failure. `debug_assertions` is the build's.
use bornera.Prelude.{
  Bool, true, false, not, Option, none, some, List, [], ◌∷◌, ◌++◌, ◌==◌, if◌then◌else◌, ok, err,
}
use bornera.Host.{Calandria, ByteBudget}
use bornera.Identity.{ConnectionEpoch, OperationId, EffectId}
use bornera.Operation.{OperationRecord}
use bornera.Matching
use bornera.Write.Frame.{DiscardedWrite, WriteProgressError, retained_accounting_underflow}
use bornera.Write.Queue.{identities}
use bornera.Write.Progress.{discard}
use bornera.Write.Audit.{accounting_is_valid}
use bornera.Connection.Effect.{
  ConnectionTransition, ConnectionEffect, InputDisposition, applied, discard_write,
  schedule_deadline, cancel_deadline, close_epoch, publish_outcome, push,
}
use bornera.Connection.Journal
use bornera.Connection.Core.State.{
  ConnectionCoreInvariant, missing_write, unexpected_write, write_identity_mismatch,
  discarded_write_mismatch, write_policy_mismatch, reservation_accounting, write_accounting,
  recovery_journal_capacity, poisoned, write, Op, ◌>>=◌, ◌>>◌, return, keep, poison,
}

-- The walk of `ownership_merge_violation`: the records against the writer's identities, in order.
unfoldable pub merge_violation :
    List OperationRecord → List (OperationId × EffectId) → Option ConnectionCoreInvariant
merge_violation [] [] = none
merge_violation [] ((operation, effect) ∷ ws) = some (unexpected_write operation effect)
merge_violation (r ∷ rs) [] =
    let rest = merge_violation rs [] in
    if not r.write_held then rest else some (missing_write r.id r.effect)
merge_violation (r ∷ rs) ((operation, actual) ∷ ws) =
    let skipped = merge_violation rs ((operation, actual) ∷ ws) in
    let rest = merge_violation rs ws in
    if not r.write_held
    then skipped
    else (if not (operation == r.id)
        then some (unexpected_write operation actual)
        else (if not (actual == r.effect)
            then some (write_identity_mismatch r.id r.effect actual)
            else rest))

abbrev pub is_applied : InputDisposition → Bool
is_applied applied = true
is_applied _ = false

abbrev pub is_underflow : WriteProgressError → Bool
is_underflow (retained_accounting_underflow retained released) = true
is_underflow _ = false

module _ {F B : Type 0} where
  unfoldable pub begin_recovery_journal : Op F B (Unit {0})
  begin_recovery_journal = do
    c ← λ c. (c, ok c)
    begun ← keep (λ j. Journal.begin j c.machine.matching.pending)
    if begun then return tt else poison recovery_journal_capacity

  unfoldable pub begin_operation_recovery_journal : OperationId → Op F B (Unit {0})
  begin_operation_recovery_journal operation c =
      elim (Matching.get_indexed c.machine.matching operation) [
        | none ↦ (c, ok tt)
        | some (wire_index, r) ↦
            (do
              begun ← keep (λ j. Journal.begin_operation j r wire_index)
              if begun then return tt else poison recovery_journal_capacity)
              c
      ]

  unfoldable pub ensure_healthy : Op F B (Unit {0})
  ensure_healthy c =
      if c.machine.ledger.poisoned
      then poison reservation_accounting c
      else (elim c.poisoned [ none ↦ (c, ok tt) | some source ↦ (c, err (poisoned source)) ])

  -- The frame that a discarded write gives back goes to the journal.
  unfoldable pub retain_discarded : OperationId → DiscardedWrite F → Op F B (Unit {0})
  retain_discarded operation d =
      if not (d.operation == operation)
      then (do
        _ ← keep (λ j. Journal.retain_write j d)
        poison (discarded_write_mismatch operation d.operation))
      else (do
        kept ← keep (λ j. Journal.retain_write j d)
        if kept then return tt else poison recovery_journal_capacity)

  module _ ⦃lib : ByteBudget B⦄ where
    -- A call of the writer's `discard`, its failures mapped as `reconcile` maps them.
    unfoldable pub take_discarded : EffectId → ConnectionEpoch → Op F B (Option (DiscardedWrite F))
    take_discarded effect epoch c =
        let r = discard c.writes epoch effect in
        let c' = record c { writes = r.0 } in
        elim (r.1) [
          | ok d ↦ (c', ok d)
          | err e ↦ if is_underflow e then poison write_accounting c' else (c', err (write e))
        ]

    unfoldable pub reconcile_discard : EffectId → ConnectionEpoch → OperationId → Op F B (Unit {0})
    reconcile_discard effect epoch operation = do
      discarded ← take_discarded effect epoch
      elim discarded [
        | none ↦ poison (missing_write operation effect)
        | some d ↦ retain_discarded operation d
      ]

    module _ {R : Type 0} where
      unfoldable pub reconcile_effects :
          List (ConnectionEffect R) → ConnectionTransition R → Op F B (ConnectionTransition R)
      reconcile_effects [] output = return output
      reconcile_effects (discard_write effect epoch operation ∷ es) output = do
        reconcile_discard effect epoch operation
        reconcile_effects es output
      reconcile_effects (schedule_deadline epoch operation deadline ∷ es) output =
          reconcile_effects es (push output (schedule_deadline epoch operation deadline))
      reconcile_effects (cancel_deadline epoch operation ∷ es) output =
          reconcile_effects es (push output (cancel_deadline epoch operation))
      reconcile_effects (close_epoch epoch reason ∷ es) output =
          reconcile_effects es (push output (close_epoch epoch reason))
      reconcile_effects (publish_outcome epoch operation outcome ∷ es) output =
          reconcile_effects es (push output (publish_outcome epoch operation outcome))

      unfoldable pub reconcile : ConnectionTransition R → Op F B (ConnectionTransition R)
      unfolding reconcile_effects
      reconcile t = reconcile_effects t.effects (record t { effects = [] })

    unfoldable pub absorb_write_transition :
        ConnectionTransition (Unit {0})
        → ConnectionTransition (Unit {0})
        → OperationId
        → EffectId
        → Op F B (ConnectionTransition (Unit {0}))
    absorb_write_transition combined t operation effect =
        if not (is_applied t.disposition)
        then poison (write_policy_mismatch operation effect t.disposition)
        else (do
          absorbed ← reconcile t
          return (record combined { effects = combined.effects ++ absorbed.effects }))

    module _ ⦃host : Calandria⦄ where
      unfoldable pub verify_ownership : Op F B (Unit {0})
      unfolding merge_violation
      verify_ownership c =
          let violation =
            if accounting_is_valid c.writes
            then merge_violation c.machine.matching.pending (identities c.writes)
            else some write_accounting in
          elim violation [ none ↦ (c, ok tt) | some source ↦ poison source c ]

      unfoldable pub verify_ownership_on_hot_path : Bool → Op F B (Unit {0})
      verify_ownership_on_hot_path debug_assertions =
          if debug_assertions then verify_ownership else return tt
