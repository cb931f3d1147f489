-- ===== src/Write/Validity/Admission.antt =====
-- Admission: what is let in, and what is given back.
use bornera.Prelude.{
  ◌+◌, ◌≤◌, ◌<◌, ◌^◌, ◌≡◌, ◌≢◌, refl, false, none, List, [], ◌∷◌, ◌++◌, All, All-append, length,
  length-append, is_some, Option-cases, inl, inr, ◌↔◌, Result-cases, ok, err, arith,
}
use bornera.Prelude.Search.{position}
use bornera.Prelude.Weights.{weigh-append}
use bornera.Host.{ByteBudget}
use bornera.Identity.{ConnectionEpoch, OperationId, EffectId}
use bornera.Write.Budget.Laws.{limit, can_reserve_lem, try_reserve_fits}
use bornera.Write.Frame.{FrameMeasure, QueuedWrite, WriteAdmissionFailure}
use bornera.Write.Queue.{WriteQueue, of_operation, of_effect, retained_bytes}
use bornera.Write.Admit.{admission_failure, admit}
use bornera.Write.Validity.Invariant.{
  held_bytes, Apart, Distinct, IsMeasured, IsFresh, FreshTail, IsValid,
}

module _ {F : Type 0} where
  abbrev queued : OperationId → EffectId → FrameMeasure → F → QueuedWrite F
  queued operation effect measure frame = record {
    operation = operation;
    effect = effect;
    frame = frame;
    measure = measure;
    written = 0;
    started = false;
  }

  -- No position for an identity: no frame has it.
  absent_operation :
      (id : OperationId) (fs : List (QueuedWrite F))
      → is_some (position (of_operation id) fs) ≡ false
      → All (λ f. f.operation ≢ id) fs
  unfolding position
  absent_operation id [] h = tt
  absent_operation id (f ∷ fs) h = ground (arith, absent_operation id fs)

  absent_effect :
      (id : EffectId) (fs : List (QueuedWrite F))
      → is_some (position (of_effect id) fs) ≡ false
      → All (λ f. f.effect ≢ id) fs
  unfolding position
  absent_effect id [] h = tt
  absent_effect id (f ∷ fs) h = ground (arith, absent_effect id fs)

  Distinct-append :
      (fs : List (QueuedWrite F)) (g : QueuedWrite F)
      → Distinct fs
      → All (λ f. f.operation ≢ g.operation) fs
      → All (λ f. f.effect ≢ g.effect) fs
      → Distinct (fs ++ g ∷ [])
  Distinct-append [] g d o e = (tt, tt)
  Distinct-append (f ∷ fs) g d o e =
      (All-append (Apart f) fs (g ∷ []) d.0 ((o.0, e.0), tt), Distinct-append fs g d.1 o.1 e.1)

  FreshTail-append :
      (fs : List (QueuedWrite F)) (g : QueuedWrite F)
      → FreshTail fs
      → IsFresh g
      → FreshTail (fs ++ g ∷ [])
  FreshTail-append [] g h fresh = tt
  FreshTail-append (f ∷ fs) g h fresh = All-append IsFresh fs (g ∷ []) h (fresh, tt)

module _ {F B : Type 0} ⦃lib : ByteBudget B⦄ (q : WriteQueue F B) (v : IsValid q)
    (epoch : ConnectionEpoch) (operation : OperationId) (effect : EffectId) (measure : FrameMeasure)
    (frame : F) where
  -- The guards of admission: the epoch is the writer's, both identities are new, and there is room.
  pub record IsAdmissible : Type 0 where
    pub same_epoch : epoch ≡ q.epoch
    pub new_operation : is_some (position (of_operation operation) q.frames) ≡ false
    pub new_effect : is_some (position (of_effect effect) q.frames) ≡ false
    pub room : length q.frames < q.limits.max_frames
    pub bytes_fit : retained_bytes q + measure.retained_bytes ≤ q.limits.max_retained_bytes

  admissible :
      admission_failure q epoch operation effect measure.retained_bytes ≡ none → IsAdmissible
  unfolding admission_failure
  admissible h =
      ground (arith, v.bounded, v.limited, can_reserve_lem q.retained_budget measure.retained_bytes)

  not_refused :
      IsAdmissible → admission_failure q epoch operation effect measure.retained_bytes ≡ none
  unfolding admission_failure
  not_refused a =
      ground (arith, a, v.limited, can_reserve_lem q.retained_budget measure.retained_bytes)

  -- Admission to a valid writer succeeds exactly when the epoch is the writer's, neither identity
  -- is queued, and there is room for one more frame and for its bytes.
  pub admit-iff-IsAdmissible :
      ((admit q epoch operation effect measure frame).1 ≡ ok tt) ↔ IsAdmissible
  unfolding admit
  admit-iff-IsAdmissible = (
    λ h. elim (Option-cases (admission_failure q epoch operation effect measure.retained_bytes)) [
      | inl none_fails ↦ admissible none_fails
      | inr (x, fails) ↦ absurd (ground arith)
    ],
    λ a.
        let free = not_refused a in
        ground (
          arith,
          v.limited,
          a.bytes_fit,
          try_reserve_fits q.retained_budget measure.retained_bytes,
        ),
  )

  -- A valid writer that refuses a frame is unchanged and gives that frame back.
  pub admit_refused :
      (x : WriteAdmissionFailure × F)
      → (admit q epoch operation effect measure frame).1 ≡ err x
      → ((admit q epoch operation effect measure frame).0 ≡ q) × (x.1 ≡ frame)
  unfolding admit
  admit_refused x h =
      elim (Option-cases (admission_failure q epoch operation effect measure.retained_bytes)) [
        | inl none_fails ↦
            let a = admissible none_fails in
            absurd (
              ground (
                arith,
                v.limited,
                a.bytes_fit,
                try_reserve_fits q.retained_budget measure.retained_bytes,
              ))
        | inr (y, fails) ↦ ground arith
      ]

  -- What is admitted stands last, nothing of it written, and is accounted.
  pub admit_accepted :
      (admit q epoch operation effect measure frame).1 ≡ ok tt
      → let q' = (admit q epoch operation effect measure frame).0 in
        (q'.frames ≡ q.frames ++ queued operation effect measure frame ∷ [])
        × (retained_bytes q' ≡ retained_bytes q + measure.retained_bytes)
        × (limit q'.retained_budget ≡ limit q.retained_budget)
        × (q'.limits ≡ q.limits)
        × (q'.epoch ≡ q.epoch)
  unfolding admit
  admit_accepted h =
      let a = admit-iff-IsAdmissible.0 h in
      let free = not_refused a in
      ground
        (arith, v.limited, a.bytes_fit, try_reserve_fits q.retained_budget measure.retained_bytes)

  -- Admission of a frame of fewer than 2 ^ 64 bytes, granted or refused, keeps a valid writer
  -- valid.
  pub admit-IsValid :
      measure.wire_bytes < 2 ^ 64 → IsValid (admit q epoch operation effect measure frame).0
  admit-IsValid fits = elim (Result-cases (admit q epoch operation effect measure frame).1) [
    | inl (done, e) ↦
        let (frames, used, budget, limits, _) = admit_accepted e in
        let a = admit-iff-IsAdmissible.0 e in
        let new = queued operation effect measure frame in
        record {
          bounded = rw (frames, limits, length-append q.frames (new ∷ [])) (omega (arith, a.room));
          limited = rw (budget, limits) v.limited;
          accounted =
              rw (used, frames, weigh-append held_bytes q.frames (new ∷ []))
                (omega (arith, v.accounted));
          within = rw (used, limits) a.bytes_fit;
          distinct = rw frames (
              Distinct-append q.frames new v.distinct
                (absent_operation operation q.frames a.new_operation)
                (absent_effect effect q.frames a.new_effect));
          measured =
              rw frames (All-append IsMeasured q.frames (new ∷ []) v.measured (ground arith, tt));
          fresh = rw frames (FreshTail-append q.frames new v.fresh (refl, refl));
        }
    | inr (x, e) ↦ rw (admit_refused x e).0 v
  ]
