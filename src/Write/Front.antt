-- ===== src/Write/Front.antt =====
-- write/queue.rs and write/state.rs: what is left to send at the front.
use bornera.Prelude.{
  ℕ, ◌-◌, Bool, false, not, ◌||◌, Option, none, some, List, [], ◌∷◌, ltb, ◌==◌, if◌then◌else◌,
  length, take, drop, Result, ok, err,
}
use bornera.Write.Frame.{
  WriteFrame, FrameContractViolation, wire_length_changed, write_range_unavailable, QueuedWrite,
  WriteSlice,
}
use bornera.Write.Queue.{WriteQueue}

-- `bytes.get(from..to)`
abbrev pub get_range : {A : Type 0} → List A → ℕ → ℕ → Option (List A)
get_range bytes from to =
    if ltb to from || ltb (length bytes) to then none else some (take (to - from) (drop from bytes))

abbrev pub min_usize : ℕ → ℕ → ℕ
min_usize a b = if ltb b a then b else a

module _ {F B : Type 0} where
  -- The slice that the front has left to send, of at most `max_bytes`.
  unfoldable pub front_slice :
      WriteFrame F → WriteQueue F B → QueuedWrite F → ℕ → Result WriteSlice FrameContractViolation
  front_slice view q f max_bytes =
      let bytes = view.bytes f.frame in
      let measured = f.measure.wire_bytes in
      let unavailable : Result WriteSlice FrameContractViolation =
        err (write_range_unavailable measured f.written (length bytes)) in
      if not (length bytes == measured)
      then err (wire_length_changed measured (length bytes))
      else (elim (get_range bytes f.written measured) [
        | none ↦ unavailable
        | some remaining ↦ elim (get_range remaining 0 (min_usize (length remaining) max_bytes)) [
          | none ↦ unavailable
          | some slice ↦ ok (record {
            epoch = q.epoch;
            operation = f.operation;
            effect = f.effect;
            bytes = slice;
          })
        ]
      ])

  unfoldable pub front :
      WriteFrame F → WriteQueue F B → ℕ → Result (Option WriteSlice) FrameContractViolation
  unfolding front_slice
  front view q max_bytes = elim q.frames [
    | [] ↦ ok none
    | f ∷ rest ↦ elim (front_slice view q f max_bytes) [ err e ↦ err e | ok s ↦ ok (some s) ]
  ]

  unfoldable pub front_is_empty : WriteQueue F B → Bool
  front_is_empty q = elim q.frames [ [] ↦ false | f ∷ rest ↦ f.measure.wire_bytes == 0 ]
