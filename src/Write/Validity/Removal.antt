-- ===== src/Write/Validity/Removal.antt =====
-- Removal: one frame by its effect, or all of them in wire order.
use bornera.Prelude.{
  ◌≤◌, ◌≡◌, ◌∙◌, Bool, none, some, List, [], ◌∷◌, All, length, map, Bool-cases, Option-cases, inl,
  inr, ok, arith,
}
use bornera.Prelude.Search.{find?, erase_first, remove_at-position}
use bornera.Prelude.Weights.{weigh, weigh-erase, All-erase}
use bornera.Host.{ByteBudget}
use bornera.Identity.{ConnectionEpoch, EffectId}
use bornera.Write.Budget
use bornera.Write.Budget.Laws.{release_fits, clear_lem}
use bornera.Write.Frame.{QueuedWrite, into_discarded}
use bornera.Write.Queue.{WriteQueue, of_effect, retained_bytes}
use bornera.Write.Progress.{discard, discard_all}
use bornera.Write.Validity.Invariant.{
  held_bytes, Apart, Distinct, IsMeasured, IsFresh, FreshTail, IsValid,
}

module _ {F : Type 0} (p : QueuedWrite F → Bool) where
  length-erase-le : (fs : List (QueuedWrite F)) → length (erase_first p fs) ≤ length fs
  unfolding erase_first
  length-erase-le [] = omega arith
  length-erase-le (f ∷ fs) = ground (arith, length-erase-le fs)

  Distinct-erase : (fs : List (QueuedWrite F)) → Distinct fs → Distinct (erase_first p fs)
  unfolding erase_first
  Distinct-erase [] d = d
  Distinct-erase (f ∷ fs) d = elim (Bool-cases (p f)) [
    | inl hit ↦ rw hit d.1
    | inr miss ↦ rw miss (All-erase (Apart f) p fs d.0, Distinct-erase fs d.1)
  ]

  fresh_head : (fs : List (QueuedWrite F)) → All IsFresh fs → FreshTail fs
  fresh_head [] h = tt
  fresh_head (f ∷ fs) h = h.1

  FreshTail-erase : (fs : List (QueuedWrite F)) → FreshTail fs → FreshTail (erase_first p fs)
  unfolding erase_first
  FreshTail-erase [] h = h
  FreshTail-erase (f ∷ fs) h = elim (Bool-cases (p f)) [
    | inl hit ↦ rw hit (fresh_head fs h)
    | inr miss ↦ rw miss (All-erase IsFresh p fs h)
  ]

module _ {F B : Type 0} ⦃lib : ByteBudget B⦄ (q : WriteQueue F B) (v : IsValid q)
    (effect : EffectId) where
  -- No frame has the effect: nothing is removed.
  pub discard_absent :
      find? (of_effect effect) q.frames ≡ none → discard q q.epoch effect ≡ (q, ok none)
  unfolding discard
  discard_absent h = ground (arith, remove_at-position (of_effect effect) q.frames)

  -- The frame that has it is handed over whole, and its bytes are given back.
  module _ (f : QueuedWrite F) (found : find? (of_effect effect) q.frames ≡ some f) where
    abbrev pub without : WriteQueue F B
    without = record q {
      frames = erase_first (of_effect effect) q.frames;
      retained_budget = (Budget.release q.retained_budget f.measure.retained_bytes).0;
    }

    held : f.measure.retained_bytes ≤ retained_bytes q
    held = omega (arith, weigh-erase held_bytes (of_effect effect) q.frames f found, v.accounted)

    -- A valid writer discards the first frame that has the effect: it hands that frame over whole,
    -- keeps the others in order, and gives its bytes back to the budget.
    pub discard_found : discard q q.epoch effect ≡ (without, ok (some (into_discarded f)))
    unfolding discard
    discard_found = ground (
      arith,
      remove_at-position (of_effect effect) q.frames,
      held,
      release_fits q.retained_budget f.measure.retained_bytes,
    )

    without-IsValid : IsValid without
    without-IsValid =
        let (_, used, lim) = release_fits q.retained_budget f.measure.retained_bytes held in
        record {
          bounded = omega (arith, v.bounded, length-erase-le (of_effect effect) q.frames);
          limited = lim ∙ v.limited;
          accounted = omega (
            arith,
            used,
            v.accounted,
            weigh-erase held_bytes (of_effect effect) q.frames f found,
          );
          within = omega (arith, used, v.within);
          distinct = Distinct-erase (of_effect effect) q.frames v.distinct;
          measured = All-erase IsMeasured (of_effect effect) q.frames v.measured;
          fresh = FreshTail-erase (of_effect effect) q.frames v.fresh;
        }

  here-IsValid : IsValid (discard q q.epoch effect).0
  here-IsValid = elim (Option-cases (find? (of_effect effect) q.frames)) [
    | inl absent ↦ rw (discard_absent absent) v
    | inr (f, found) ↦ rw (discard_found f found) (without-IsValid f found)
  ]

  -- A discard, whatever epoch and effect it names, keeps a valid writer valid.
  pub discard-IsValid : (epoch : ConnectionEpoch) → IsValid (discard q epoch effect).0
  unfolding discard
  discard-IsValid epoch = ground (arith, here-IsValid)

  -- A valid writer that discards everything hands over all its frames in wire order with the sum
  -- of their retained bytes, and is then empty and valid.
  pub discard_all_lem :
      let (q', all) = discard_all q in
      (all.writes ≡ map into_discarded q.frames)
      × (all.retained_bytes ≡ weigh held_bytes q.frames)
      × (q'.frames ≡ [])
      × IsValid q'
  unfolding discard_all
  discard_all_lem = ground (arith, v, clear_lem q.retained_budget)
