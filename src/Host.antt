-- ===== src/Host.antt =====
-- What the core takes from the crates `calandria` and `bytebudget`, whose code is not part of this
-- repository: their operations as the core calls them, and the behaviour that it relies on.
-- `RetainedBytes`, `ByteCount`, `Moment` and `Deadline` are stood for by the number they wrap.
pub mod Queues
pub mod Resources
use bornera.Prelude.{ℕ, ◌+◌, ◌-◌, ◌^◌, ◌≤◌, ◌<◌, ◌≡◌, Bool, Option, none, some, leb}

pub record Calandria : Type 0 where
  -- RetainedBytes::checked_add
  pub checked_add : ℕ → ℕ → Option ℕ
  -- RetainedBytes::checked_sub
  pub checked_sub : ℕ → ℕ → Option ℕ
  -- RetainedBytes::try_from, of a length
  pub try_from : ℕ → Option ℕ
  -- Deadline::is_elapsed_at, the deadline first
  pub is_elapsed_at : ℕ → ℕ → Bool
  pub try_from_exact : (n m : ℕ) → try_from n ≡ some m → m ≡ n
  pub try_from_fits : (n : ℕ) → n < 2 ^ 64 → try_from n ≡ some n
  pub checked_add_fits : (a b : ℕ) → a + b < 2 ^ 64 → checked_add a b ≡ some (a + b)
  pub checked_add_exact : (a b c : ℕ) → checked_add a b ≡ some c → c ≡ a + b
  pub checked_sub_fits : (a b : ℕ) → b ≤ a → checked_sub a b ≡ some (a - b)
  pub checked_sub_under : (a b : ℕ) → a < b → checked_sub a b ≡ none

-- `bytebudget::ByteBudget`. `none` is an error; a refused call leaves the budget as it was.
pub record ByteBudget (B : Type 0) : Type 0 where
  pub new : ℕ → B
  pub limit : B → ℕ
  pub used : B → ℕ
  pub can_reserve : B → ℕ → Bool
  pub try_reserve : B → ℕ → Option B
  pub release : B → ℕ → Option B
  pub used_new : (n : ℕ) → used (new n) ≡ 0
  pub limit_new : (n : ℕ) → limit (new n) ≡ n
  pub can_reserve_lem : (b : B) (n : ℕ) → can_reserve b n ≡ leb (used b + n) (limit b)
  pub try_reserve_fits :
      (b : B) (n : ℕ)
      → used b + n ≤ limit b
      → (b' : B) × (try_reserve b n ≡ some b') × (used b' ≡ used b + n) × (limit b' ≡ limit b)
  pub try_reserve_over : (b : B) (n : ℕ) → limit b < used b + n → try_reserve b n ≡ none
  pub release_fits :
      (b : B) (n : ℕ)
      → n ≤ used b
      → (b' : B) × (release b n ≡ some b') × (used b' ≡ used b - n) × (limit b' ≡ limit b)
  pub release_under : (b : B) (n : ℕ) → used b < n → release b n ≡ none
