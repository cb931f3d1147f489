-- ===== src/Write/Validity/Advance.antt =====
-- Exact progress: the branches of a report to a valid writer.
use bornera.Prelude.{
  ℕ, ◌+◌, ◌-◌, ◌≤◌, ◌<◌, ◌≡◌, ◌∙◌, not, ◌&&◌, ◌||◌, List, [], ◌∷◌, All, length, ltb, ◌==◌,
  if◌then◌else◌, Bool-cases, List-cases, inl, inr, ok, err, arith,
}
use bornera.Prelude.Weights.{weigh}
use bornera.Host.{ByteBudget}
use bornera.Identity.{ConnectionEpoch, EffectId}
use bornera.Write.Budget
use bornera.Write.Budget.Laws.{release_fits}
use bornera.Write.Frame.{
  QueuedWrite, WriteBoundary, crossed, unchanged, pending, complete, delivery_of, exceeds_remaining,
}
use bornera.Write.Queue.{WriteQueue, retained_bytes}
use bornera.Write.Progress.{advance}
use bornera.Write.Validity.Invariant.{held_bytes, Distinct, IsMeasured, IsFresh, FreshTail, IsValid}

module _ {F : Type 0} where
  -- The front once it has begun, and once `n` of its bytes are written.
  abbrev pub begun : QueuedWrite F → ℕ → QueuedWrite F
  begun f n = record f { started = f.started || ltb 0 n }

  abbrev pub moved : QueuedWrite F → ℕ → QueuedWrite F
  moved f n = record (begun f n) { written = f.written + n }

  -- The delivery boundary is crossed by the first byte, and never again.
  abbrev pub boundary_of : QueuedWrite F → ℕ → WriteBoundary
  boundary_of f n = if ltb 0 n && not f.started then crossed else unchanged

  fresh_tail : (fs : List (QueuedWrite F)) → All IsFresh fs → FreshTail fs
  fresh_tail [] h = tt
  fresh_tail (f ∷ fs) h = h.1

module _ {F B : Type 0} ⦃lib : ByteBudget B⦄ (q : WriteQueue F B) (v : IsValid q)
    (f : QueuedWrite F) (rest : List (QueuedWrite F)) (front : q.frames ≡ f ∷ rest) (n : ℕ) where
  abbrev freed : Budget.RetainedBudget B
  freed = (Budget.release q.retained_budget f.measure.retained_bytes).0

  front-IsMeasured : IsMeasured f × (f.measure.retained_bytes ≤ retained_bytes q)
  front-IsMeasured =
      let m : All IsMeasured (f ∷ rest) = rw front at v.measured in
      let a : retained_bytes q ≡ weigh held_bytes (f ∷ rest) = rw front at v.accounted in
      (m.0, omega arith)

  -- Part of the frame: it stays in front.
  pub advance_pending :
      f.written + n < f.measure.wire_bytes
      → advance q q.epoch f.effect n
        ≡ (record q { frames = moved f n ∷ rest }, ok (pending f.operation (boundary_of f n)))
  unfolding advance
  advance_pending h = let (m, _) = front-IsMeasured in ground (arith, m.within_frame, m.wire_fits)

  -- The rest of the frame: it leaves, with its bytes and its delivery.
  pub advance_complete :
      f.written + n ≡ f.measure.wire_bytes
      → advance q q.epoch f.effect n ≡ (
        record q { frames = rest; retained_budget = freed },
        ok (
            complete f.operation f.effect f.frame f.measure
              (boundary_of f n)
              (delivery_of (f.started || ltb 0 n))),
      )
  unfolding advance
  advance_complete h =
      let (m, fits) = front-IsMeasured in
      ground (
        arith,
        m.within_frame,
        m.wire_fits,
        release_fits q.retained_budget f.measure.retained_bytes fits,
      )

  -- More than the frame has left: a fault, which may yet have reached the peer.
  pub advance_excess :
      f.measure.wire_bytes < f.written + n
      → advance q q.epoch f.effect n ≡ (
        record q { frames = begun f n ∷ rest },
        err (exceeds_remaining n (f.measure.wire_bytes - f.written)),
      )
  unfolding advance
  advance_excess h = let (m, _) = front-IsMeasured in ground (arith, m.within_frame)

  begun-IsValid : IsValid (record q { frames = begun f n ∷ rest })
  begun-IsValid =
      let m : All IsMeasured (f ∷ rest) = rw front at v.measured in
      let d : Distinct (f ∷ rest) = rw front at v.distinct in
      let t : FreshTail (f ∷ rest) = rw front at v.fresh in
      let b : length (f ∷ rest) ≤ q.limits.max_frames = rw front at v.bounded in
      let a : retained_bytes q ≡ weigh held_bytes (f ∷ rest) = rw front at v.accounted in
      record {
        bounded = b;
        limited = v.limited;
        accounted = a;
        within = v.within;
        distinct = d;
        measured = (ground (arith, m.0), m.1);
        fresh = t;
      }

  moved-IsValid :
      f.written + n ≤ f.measure.wire_bytes → IsValid (record q { frames = moved f n ∷ rest })
  moved-IsValid h =
      let begins = begun-IsValid in
      let m = begins.measured in
      record {
        bounded = begins.bounded;
        limited = v.limited;
        accounted = begins.accounted;
        within = v.within;
        distinct = begins.distinct;
        measured = (ground (arith, m.0), m.1);
        fresh = begins.fresh;
      }

  popped-IsValid : IsValid (record q { frames = rest; retained_budget = freed })
  popped-IsValid =
      let begins = begun-IsValid in
      let (_, fits) = front-IsMeasured in
      let (_, used, lim) = release_fits q.retained_budget f.measure.retained_bytes fits in
      record {
        bounded = omega (arith, begins.bounded);
        limited = lim ∙ v.limited;
        accounted = omega (arith, used, begins.accounted);
        within = omega (arith, used, v.within);
        distinct = begins.distinct.1;
        measured = begins.measured.1;
        fresh = fresh_tail rest begins.fresh;
      }

  advance_front-IsValid : IsValid (advance q q.epoch f.effect n).0
  advance_front-IsValid = elim (Bool-cases (ltb (f.written + n) f.measure.wire_bytes)) [
    | inl less ↦ rw (advance_pending (ground arith)) (moved-IsValid (ground arith))
    | inr more ↦ elim (Bool-cases ((f.written + n) == f.measure.wire_bytes)) [
      | inl all ↦ rw (advance_complete (ground arith)) popped-IsValid
      | inr excess ↦ rw (advance_excess (ground arith)) begun-IsValid
    ]
  ]

-- A report of written bytes, whatever epoch, effect and count it names, keeps a valid writer
-- valid.
pub advance-IsValid :
    {F B : Type 0} ⦃lib : ByteBudget B⦄ (q : WriteQueue F B) (epoch : ConnectionEpoch)
    (effect : EffectId) (n : ℕ)
    → IsValid q
    → IsValid (advance q epoch effect n).0
unfolding advance
advance-IsValid q epoch effect n v = elim (List-cases q.frames) [
  | inl e ↦ ground arith
  | inr (f, rest, e) ↦ ground (arith, advance_front-IsValid q v f rest e n)
]
