-- ===== src/Write/Audit.antt =====
-- write/integrity.rs: the audit of the retained bytes.
use bornera.Prelude.{ℕ, Bool, false, Option, none, some, List, [], ◌∷◌, ◌==◌}
use bornera.Host.{Calandria, ByteBudget}
use bornera.Write.Frame.{QueuedWrite}
use bornera.Write.Queue.{WriteQueue, retained_bytes}

module _ {F : Type 0} ⦃host : Calandria⦄ where
  -- The `try_fold` of `accounting_is_valid`.
  unfoldable pub total_retained : Option ℕ → List (QueuedWrite F) → Option ℕ
  total_retained none fs = none
  total_retained (some n) [] = some n
  total_retained (some n) (f ∷ fs) = total_retained (host.checked_add n f.measure.retained_bytes) fs

module _ {F B : Type 0} ⦃lib : ByteBudget B⦄ ⦃host : Calandria⦄ where
  unfoldable pub accounting_is_valid : WriteQueue F B → Bool
  unfolding total_retained
  accounting_is_valid q = elim (total_retained (some 0) q.frames) [
    | none ↦ false
    | some total ↦ total == retained_bytes q
  ]
