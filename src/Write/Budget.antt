-- ===== src/Write/Budget.antt =====
-- write/accounting.rs: the writer's budget, over `bytebudget::ByteBudget`. A call that changes the
-- budget returns it with the Boolean that the source returns.
pub mod Laws
use bornera.Prelude.{ℕ, Bool, true, false, none, some}
use bornera.Host.{ByteBudget}

pub record RetainedBudget (B : Type 0) : Type 0 where
  pub inner : B

module _ {B : Type 0} ⦃lib : ByteBudget B⦄ where
  unfoldable pub new : ℕ → RetainedBudget B
  new limit = record { inner = lib.new limit }

  unfoldable pub used : RetainedBudget B → ℕ
  used b = lib.used b.inner

  unfoldable pub can_reserve : RetainedBudget B → ℕ → Bool
  can_reserve b amount = lib.can_reserve b.inner amount

  unfoldable pub try_reserve : RetainedBudget B → ℕ → RetainedBudget B × Bool
  try_reserve b amount = elim (lib.try_reserve b.inner amount) [
    | none ↦ (b, false)
    | some inner ↦ (record { inner = inner }, true)
  ]

  unfoldable pub release : RetainedBudget B → ℕ → RetainedBudget B × Bool
  release b amount = elim (lib.release b.inner amount) [
    | none ↦ (b, false)
    | some inner ↦ (record { inner = inner }, true)
  ]

  unfoldable pub clear : RetainedBudget B → RetainedBudget B × ℕ
  clear b = (record { inner = lib.new (lib.limit b.inner) }, lib.used b.inner)
