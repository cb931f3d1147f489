-- ===== src/Admission/Bounds.antt =====
-- admission/ledger.rs: the bounds of the ledger, under each of its operations.
use bornera.Prelude.{
  ℕ, zero, suc, ◌≤◌, ◌≡◌, Bool, Option, none, some, Option-cases, inl, inr, arith,
}
use bornera.Host.{Calandria}
use bornera.Limits.{ConnectionLimits}
use bornera.Admission.Options.{Reservation}
use bornera.Admission.Ledger.{
  ReservationLedger, new, checked_pred, allocate_key, reserve_totals, reserve_key, reserve, commit,
  released_write, released_permits, release_all, release_write,
}

-- What is held is within the limits.
pub record IsWithin (limits : ConnectionLimits) (l : ReservationLedger) : Type 0 where
  pub same_limits : l.limits ≡ limits
  pub operations_fit : l.operations ≤ limits.max_operations
  pub retained_fit : l.retained_bytes ≤ limits.max_retained_bytes
  pub frames_fit : l.write_frames ≤ limits.max_write_frames
  pub write_retained_fit : l.write_retained_bytes ≤ limits.max_write_retained_bytes

pub new-IsWithin : (limits : ConnectionLimits) → IsWithin limits (new limits)
unfolding new
new-IsWithin limits = ground arith

-- What a checked subtraction leaves.
abbrev left : Option ℕ → ℕ
left none = 0
left (some n) = n

checked_pred-le : (n : ℕ) → left (checked_pred n) ≤ n
checked_pred-le zero = omega arith
checked_pred-le (suc n) = omega arith

module _ ⦃host : Calandria⦄ (limits : ConnectionLimits) (l : ReservationLedger)
    (w : IsWithin limits l) where
  pub reserve-IsWithin :
      (retained write_retained : ℕ) → IsWithin limits (reserve l retained write_retained).0
  unfolding reserve reserve_totals reserve_key allocate_key
  reserve-IsWithin retained write_retained = ground (arith, w)

  checked_sub-le : (a b : ℕ) → left (host.checked_sub a b) ≤ a
  checked_sub-le a b = ground (arith, host.checked_sub_fits a b, host.checked_sub_under a b)

  pub commit-IsWithin : (r : Reservation) (actual : ℕ) → IsWithin limits (commit l r actual)
  unfolding commit
  commit-IsWithin r actual = elim (Option-cases (host.checked_sub r.write_retained_bytes actual)) [
    | inl over ↦ ground (arith, w)
    | inr (unused, e) ↦ ground (arith, w, checked_sub-le l.write_retained_bytes unused)
  ]

  pub release_write-IsWithin : (n : ℕ) → IsWithin limits (release_write l n)
  unfolding release_write
  release_write-IsWithin n =
      ground (arith, w, checked_pred-le l.write_frames, checked_sub-le l.write_retained_bytes n)

  pub release_all-IsWithin :
      (r : Reservation) (held permit : Bool) → IsWithin limits (release_all l r held permit)
  unfolding release_all released_write released_permits
  release_all-IsWithin r held permit = ground (
    arith,
    w,
    checked_pred-le l.operations,
    checked_pred-le l.write_frames,
    checked_sub-le l.retained_bytes r.retained_bytes,
    checked_sub-le l.write_retained_bytes r.write_retained_bytes,
  )
