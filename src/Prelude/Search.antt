-- ===== src/Prelude/Search.antt =====
-- The first entry that passes a test, by position (as the source finds it) and by recursion.
use Prim.Native.Nat.{ℕ, zero, suc}
use mathlib.Core.Bool.{Bool}
use mathlib.Core.Option.{Option, none, some}
use mathlib.Core.Option
use mathlib.Core.List.{List, [], ◌∷◌}
use mathlib.Core.Path.{◌≡◌, refl}
use native.Mathlib.Omega.{arith}
use bornera.Prelude.Tests.{if◌then◌else◌}
use bornera.Prelude.Lists.{get_elem?}

module _ {ℓ} {A : Type ℓ} where
  -- `iter().position(p)`
  unfoldable pub position : (A → Bool) → List A → Option ℕ
  position p [] = none
  position p (x ∷ xs) = let rest = Option.map suc (position p xs) in if p x then some 0 else rest

  -- `VecDeque::remove(i)`: the entry, and the sequence without it.
  unfoldable pub remove_at : ℕ → List A → Option (A × List A)
  remove_at i [] = none
  remove_at zero (x ∷ xs) = some (x, xs)
  remove_at (suc i) (x ∷ xs) = Option.map (λ e. (e.0, x ∷ e.1)) (remove_at i xs)

  unfoldable pub find? : (A → Bool) → List A → Option A
  find? p [] = none
  find? p (x ∷ xs) = let rest = find? p xs in if p x then some x else rest

  -- The sequence without its first entry that passes.
  unfoldable pub erase_first : (A → Bool) → List A → List A
  erase_first p [] = []
  erase_first p (x ∷ xs) = let rest = x ∷ erase_first p xs in if p x then xs else rest

  -- Only the first entry that passes is changed.
  unfoldable pub modify_first : (A → Bool) → (A → A) → List A → List A
  modify_first p f [] = []
  modify_first p f (x ∷ xs) = let rest = x ∷ modify_first p f xs in if p x then f x ∷ xs else rest

  -- The position that the source finds is that of the entry which `find?` returns.
  pub get_elem?-position :
      (p : A → Bool) (xs : List A)
      → elim (position p xs) [ none ↦ none | some i ↦ get_elem? xs i ] ≡ find? p xs
  unfolding position find?
  get_elem?-position p [] = refl
  get_elem?-position p (x ∷ xs) = ground (arith, get_elem?-position p xs)

  pub remove_at-position :
      (p : A → Bool) (xs : List A)
      → elim (position p xs) [ none ↦ none | some i ↦ remove_at i xs ]
        ≡ Option.map (λ r. (r, erase_first p xs)) (find? p xs)
  unfolding position remove_at find? erase_first
  remove_at-position p [] = refl
  remove_at-position p (x ∷ xs) = ground (arith, remove_at-position p xs)
