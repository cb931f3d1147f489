-- ===== src/Write/Stream.antt =====
-- The writer as a byte stream: what `front` lends and what `advance` confirms.
use bornera.Prelude.{
  ℕ, ◌+◌, ◌-◌, ◌≤◌, ◌≡◌, sym, ap, ◌∙◌, some, List, [], ◌∷◌, ◌++◌, append_assoc, length, take, drop,
  length-drop, length-take, take-take, take_all, drop_all, drop-drop, take-append-drop, ltb,
  Bool-cases, inl, inr, ok, arith,
}
use bornera.Host.{ByteBudget}
use bornera.Write.Frame.{WriteFrame, QueuedWrite}
use bornera.Write.Queue.{WriteQueue}
use bornera.Write.Front.{front, get_range, min_usize}
use bornera.Write.Progress.{advance}
use bornera.Write.Validity.{IsMeasured, IsValid, moved, advance_pending, advance_complete}

module _ {F : Type 0} (view : WriteFrame F) where
  -- The view shows every frame at its measured length.
  abbrev pub IsStable : QueuedWrite F → Type 0
  IsStable f = length (view.bytes f.frame) ≡ f.measure.wire_bytes

  abbrev pub unsent_of : QueuedWrite F → List ℕ
  unsent_of f = drop f.written (view.bytes f.frame)

  -- The bytes that the writer still owes the transport, in wire order.
  abbrev pub unsent : List (QueuedWrite F) → List ℕ
  unsent [] = []
  unsent (f ∷ fs) = unsent_of f ++ unsent fs

  abbrev pub lent : QueuedWrite F → ℕ → List ℕ
  lent f max_bytes = take (min_usize (length (unsent_of f)) max_bytes) (unsent_of f)

  module _ {B : Type 0} (q : WriteQueue F B) (f : QueuedWrite F) (rest : List (QueuedWrite F))
      (at_front : q.frames ≡ f ∷ rest) (measured : IsMeasured f) (stable : IsStable f) where
    range_whole : get_range (view.bytes f.frame) f.written f.measure.wire_bytes ≡ some (unsent_of f)
    range_whole =
        let l = length-drop f.written (view.bytes f.frame) in
        ground
          (arith, measured.within_frame, take_all (f.measure.wire_bytes - f.written) (unsent_of f))

    range_prefix :
        (k : ℕ)
        → k ≤ length (unsent_of f)
        → get_range (unsent_of f) 0 k ≡ some (take k (unsent_of f))
    range_prefix k h = ground arith

    -- While the view is stable, `front` lends the next bytes of the front frame, within the maximum.
    pub front-lent :
        (max_bytes : ℕ)
        → front view q max_bytes
          ≡ ok (
              some (record {
                epoch = q.epoch;
                operation = f.operation;
                effect = f.effect;
                bytes = lent f max_bytes;
              }))
    unfolding front
    front-lent max_bytes =
        ground (arith, range_whole, range_prefix (min_usize (length (unsent_of f)) max_bytes))

    module _ ⦃lib : ByteBudget B⦄ (v : IsValid q) (max_bytes n : ℕ)
        (within : n ≤ length (lent f max_bytes)) where
      lent_prefix : take n (lent f max_bytes) ≡ take n (unsent_of f)
      lent_prefix =
          take-take n (min_usize (length (unsent_of f)) max_bytes) (unsent_of f)
            (omega (arith, within, lent_length))
        where
          lent_length : length (lent f max_bytes) ≤ min_usize (length (unsent_of f)) max_bytes
          lent_length =
              let k = min_usize (length (unsent_of f)) max_bytes in
              let fits : k ≤ length (unsent_of f) = ground arith in
              omega (arith, length-take k (unsent_of f) fits)

      pub within_frame : f.written + n ≤ f.measure.wire_bytes
      within_frame =
          let k = min_usize (length (unsent_of f)) max_bytes in
          let fits : k ≤ length (unsent_of f) = ground arith in
          omega (
            arith,
            within,
            stable,
            measured.within_frame,
            length-take k (unsent_of f) fits,
            length-drop f.written (view.bytes f.frame),
          )

      split_front : unsent_of f ≡ take n (lent f max_bytes) ++ unsent_of (moved f n)
      split_front =
          sym (take-append-drop n (unsent_of f))
          ∙ rw (lent_prefix, drop-drop f.written n (view.bytes f.frame))

      spread :
          unsent (f ∷ rest) ≡ take n (lent f max_bytes) ++ (unsent_of (moved f n) ++ unsent rest)
      spread =
          ap (λ xs. xs ++ unsent rest) split_front
          ∙ append_assoc (take n (lent f max_bytes)) (unsent_of (moved f n)) (unsent rest)

      -- A confirmed prefix of what `front` lent leaves the stream, and nothing else does.
      pub advance-unsent :
          unsent q.frames
          ≡ take n (lent f max_bytes) ++ unsent (advance q q.epoch f.effect n).0.frames
      advance-unsent = elim (Bool-cases (ltb (f.written + n) f.measure.wire_bytes)) [
        | inl part ↦
            ap unsent at_front ∙ rw (advance_pending q v f rest at_front n (ground arith)) spread
        | inr whole ↦
            let all : f.written + n ≡ f.measure.wire_bytes = ground (arith, within_frame) in
            let gone : unsent_of (moved f n) ≡ [] =
              drop_all (f.written + n) (view.bytes f.frame) (omega (arith, stable)) in
            ap unsent at_front ∙ rw (advance_complete q v f rest at_front n all) (rw gone at spread)
      ]
