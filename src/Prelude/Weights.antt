-- ===== src/Prelude/Weights.antt =====
-- Sums of a weight over a sequence: how often something occurs, how many bytes are held.
use Prim.Native.Nat.{ℕ, ◌+◌}
use mathlib.Core.Path.{◌≡◌, subst}
use mathlib.Core.Logic.{inl, inr}
use mathlib.Core.Bool.{Bool, true}
use mathlib.Core.Option.{some}
use mathlib.Core.List.{List, [], ◌∷◌, ◌++◌}
use native.Mathlib.Omega.{arith}
use bornera.Prelude.Tests.{Bool-cases}
use bornera.Prelude.Lists.{All}
use bornera.Prelude.Search.{find?, erase_first, modify_first}

module _ {ℓ} {A : Type ℓ} where
  abbrev pub weigh : (A → ℕ) → List A → ℕ
  weigh w [] = 0
  weigh w (x ∷ xs) = w x + weigh w xs

  pub weigh-append : (w : A → ℕ) (xs ys : List A) → weigh w (xs ++ ys) ≡ weigh w xs + weigh w ys
  weigh-append w [] ys = omega arith
  weigh-append w (x ∷ xs) ys = omega (arith, weigh-append w xs ys)

  pub weigh-erase :
      (w : A → ℕ) (p : A → Bool) (xs : List A) (r : A)
      → find? p xs ≡ some r
      → weigh w xs ≡ w r + weigh w (erase_first p xs)
  unfolding find? erase_first
  weigh-erase w p [] r h = ground arith
  weigh-erase w p (x ∷ xs) r h = ground (arith, weigh-erase w p xs r)

  pub weigh-modify :
      (w : A → ℕ) (p : A → Bool) (f : A → A) (xs : List A) (r : A)
      → find? p xs ≡ some r
      → weigh w (modify_first p f xs) + w r ≡ weigh w xs + w (f r)
  unfolding find? modify_first
  weigh-modify w p f [] r h = ground arith
  weigh-modify w p f (x ∷ xs) r h = ground (arith, weigh-modify w p f xs r)

  pub find?-passes : (p : A → Bool) (xs : List A) (r : A) → find? p xs ≡ some r → p r ≡ true
  unfolding find?
  find?-passes p [] r h = ground arith
  find?-passes p (x ∷ xs) r h = ground (arith, find?-passes p xs r)

  module _ {κ} (P : A → Type κ) where
    pub All-find? : (p : A → Bool) (xs : List A) (r : A) → find? p xs ≡ some r → All P xs → P r
    unfolding find?
    All-find? p [] r h a = absurd (ground arith)
    All-find? p (x ∷ xs) r h a = elim (Bool-cases (p x)) [
      | inl hit ↦ let same : x ≡ r = ground arith in subst P same a.0
      | inr miss ↦ All-find? p xs r (ground arith) a.1
    ]

    pub All-erase : (p : A → Bool) (xs : List A) → All P xs → All P (erase_first p xs)
    unfolding erase_first
    All-erase p [] a = a
    All-erase p (x ∷ xs) a = elim (Bool-cases (p x)) [
      | inl hit ↦ rw hit a.1
      | inr miss ↦ rw miss (a.0, All-erase p xs a.1)
    ]

    -- Only the first entry that passes is changed, so only the new entry is to be checked.
    pub All-modify :
        (p : A → Bool) (f : A → A) (xs : List A) (r : A)
        → find? p xs ≡ some r
        → P (f r)
        → All P xs
        → All P (modify_first p f xs)
    unfolding find? modify_first
    All-modify p f [] r h new a = a
    All-modify p f (x ∷ xs) r h new a = elim (Bool-cases (p x)) [
      | inl hit ↦ let same : r ≡ x = ground arith in rw hit (subst (λ y. P (f y)) same new, a.1)
      | inr miss ↦ rw miss (a.0, All-modify p f xs r (ground arith) new a.1)
    ]
