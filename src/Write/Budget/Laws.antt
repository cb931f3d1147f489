-- ===== src/Write/Budget/Laws.antt =====
-- The laws of the wrapped budget, from those of the library.
use bornera.Prelude.{ℕ, ◌+◌, ◌-◌, ◌≤◌, ◌<◌, ◌≡◌, refl, true, false, leb}
use bornera.Host.{ByteBudget}
use bornera.Write.Budget.{RetainedBudget, new, used, can_reserve, try_reserve, release, clear}

module _ {B : Type 0} ⦃lib : ByteBudget B⦄ where
  abbrev pub limit : RetainedBudget B → ℕ
  limit b = lib.limit b.inner

  pub can_reserve_lem :
      (b : RetainedBudget B) (n : ℕ) → can_reserve b n ≡ leb (used b + n) (limit b)
  unfolding can_reserve used
  can_reserve_lem b n = lib.can_reserve_lem b.inner n

  pub try_reserve_fits :
      (b : RetainedBudget B) (n : ℕ)
      → used b + n ≤ limit b
      → ((try_reserve b n).1 ≡ true)
        × (used (try_reserve b n).0 ≡ used b + n)
        × (limit (try_reserve b n).0 ≡ limit b)
  unfolding used try_reserve
  try_reserve_fits b n h =
      let (b', e, u, l) = lib.try_reserve_fits b.inner n h in rw (e, try_reserve) (refl, u, l)

  pub try_reserve_over :
      (b : RetainedBudget B) (n : ℕ) → limit b < used b + n → try_reserve b n ≡ (b, false)
  unfolding used try_reserve
  try_reserve_over b n h = rw (lib.try_reserve_over b.inner n h, try_reserve)

  pub release_fits :
      (b : RetainedBudget B) (n : ℕ)
      → n ≤ used b
      → ((release b n).1 ≡ true)
        × (used (release b n).0 ≡ used b - n)
        × (limit (release b n).0 ≡ limit b)
  unfolding used release
  release_fits b n h =
      let (b', e, u, l) = lib.release_fits b.inner n h in rw (e, release) (refl, u, l)

  pub release_under : (b : RetainedBudget B) (n : ℕ) → used b < n → release b n ≡ (b, false)
  unfolding used release
  release_under b n h = rw (lib.release_under b.inner n h, release)

  pub clear_lem :
      (b : RetainedBudget B)
      → ((clear b).1 ≡ used b) × (used (clear b).0 ≡ 0) × (limit (clear b).0 ≡ limit b)
  unfolding used clear
  clear_lem b = (refl, lib.used_new _, lib.limit_new _)

pub used-new :
    (B : Type 0) ⦃lib : ByteBudget B⦄ (n : ℕ)
    → (used (new {B = B} n) ≡ 0) × (limit (new {B = B} n) ≡ n)
unfolding used new
used-new B ⦃lib⦄ n = (lib.used_new n, lib.limit_new n)
