-- ===== src/Write/Progress.antt =====
-- write/queue.rs: exact progress at the front, and the removal of frames. A `usize` has 64 bits.
use bornera.Prelude.{
  ℕ, ◌+◌, ◌-◌, ◌^◌, not, ◌&&◌, ◌||◌, Option, none, some, List, [], ◌∷◌, map, ltb, ◌==◌,
  if◌then◌else◌, Result, ok, err,
}
use bornera.Prelude.Search.{remove_at}
use bornera.Host.{ByteBudget}
use bornera.Identity.{ConnectionEpoch, EffectId}
use bornera.Write.Budget
use bornera.Write.Budget.{RetainedBudget}
use bornera.Write.Frame.{
  WriteProgressError, no_pending_write, out_of_order_effect, exceeds_remaining,
  progress_accounting_overflow, retained_accounting_underflow, QueuedWrite, DiscardedWrite,
  delivery_of, into_discarded, unchanged, crossed, WriteProgress, pending, complete,
  DiscardedWrites,
}
use bornera.Write.Queue.{WriteQueue, index_of_effect, retained_bytes}

-- usize::checked_sub and usize::checked_add
abbrev pub checked_sub_usize : ℕ → ℕ → Option ℕ
checked_sub_usize a b = if ltb a b then none else some (a - b)

abbrev pub checked_add_usize : ℕ → ℕ → Option ℕ
checked_add_usize a b = if ltb (a + b) (2 ^ 64) then some (a + b) else none

module _ {F B : Type 0} ⦃lib : ByteBudget B⦄ where
  -- `advance` once the report fits the front: `f` is the front before it.
  unfoldable pub move_front :
      WriteQueue F B
      → QueuedWrite F
      → List (QueuedWrite F)
      → ℕ
      → ℕ
      → WriteQueue F B × Result (WriteProgress F) WriteProgressError
  move_front q f rest written remaining =
      let boundary = if ltb 0 written && not f.started then crossed else unchanged in
      let begun = record f { started = f.started || ltb 0 written } in
      let released = f.measure.retained_bytes in
      let underflow : Result (WriteProgress F) WriteProgressError =
        err (retained_accounting_underflow (retained_bytes q) released) in
      elim (checked_add_usize f.written written) [
        | none ↦ (record q { frames = begun ∷ rest }, err (exceeds_remaining written remaining))
        | some total ↦
            let moved = record begun { written = total } in
            let q' = record q { frames = moved ∷ rest } in
            let (budget, freed) = Budget.release q.retained_budget released in
            if ltb total f.measure.wire_bytes
            then (q', ok (pending f.operation boundary))
            else (if not (written == remaining)
                then (q', underflow)
                else (if not freed then (q', underflow) else (
                  record q { frames = rest; retained_budget = budget },
                  ok (
                      complete f.operation f.effect f.frame f.measure boundary
                        (delivery_of moved.started)),
                )))
      ]

  unfoldable pub advance_front :
      WriteQueue F B
      → QueuedWrite F
      → List (QueuedWrite F)
      → EffectId
      → ℕ
      → WriteQueue F B × Result (WriteProgress F) WriteProgressError
  unfolding move_front
  advance_front q f rest effect written =
      if not (f.effect == effect)
      then (q, err (out_of_order_effect f.effect effect))
      else (elim (checked_sub_usize f.measure.wire_bytes f.written) [
        | none ↦ (q, err (progress_accounting_overflow f.measure.wire_bytes f.written))
        | some remaining ↦
            if ltb remaining written
            then (
              record q { frames = record f { started = f.started || ltb 0 written } ∷ rest },
              err (exceeds_remaining written remaining),
            )
            else (if written == remaining && ltb (retained_bytes q) f.measure.retained_bytes
                then (
                  q,
                  err (retained_accounting_underflow (retained_bytes q) f.measure.retained_bytes),
                )
                else move_front q f rest written remaining)
      ])

  unfoldable pub advance :
      WriteQueue F B
      → ConnectionEpoch
      → EffectId
      → ℕ
      → WriteQueue F B × Result (WriteProgress F) WriteProgressError
  unfolding advance_front
  advance q epoch effect written =
      if not (epoch == q.epoch)
      then (q, err (WriteProgressError.stale_epoch q.epoch epoch))
      else (elim q.frames [
        | [] ↦ (q, err no_pending_write)
        | f ∷ rest ↦ advance_front q f rest effect written
      ])

  -- `discard` at the index of the frame that owns the effect.
  unfoldable pub discard_at :
      WriteQueue F B → ℕ → WriteQueue F B × Result (Option (DiscardedWrite F)) WriteProgressError
  discard_at q index = elim (remove_at index q.frames) [
    | none ↦ (q, ok none)
    | some (f, rest) ↦
        let released = f.measure.retained_bytes in
        let (budget, freed) = Budget.release q.retained_budget released in
        if ltb (retained_bytes q) released || not freed
        then (q, err (retained_accounting_underflow (retained_bytes q) released))
        else (record q { frames = rest; retained_budget = budget }, ok (some (into_discarded f)))
  ]

  unfoldable pub discard :
      WriteQueue F B
      → ConnectionEpoch
      → EffectId
      → WriteQueue F B × Result (Option (DiscardedWrite F)) WriteProgressError
  unfolding index_of_effect discard_at
  discard q epoch effect =
      if not (epoch == q.epoch)
      then (q, err (WriteProgressError.stale_epoch q.epoch epoch))
      else (elim (index_of_effect q effect) [
        | none ↦ (q, ok none)
        | some index ↦ discard_at q index
      ])

  unfoldable pub discard_all : WriteQueue F B → WriteQueue F B × DiscardedWrites F
  discard_all q =
      let (budget, used) = Budget.clear q.retained_budget in
      (
        record q { frames = []; retained_budget = budget },
        record { writes = map into_discarded q.frames; retained_bytes = used },
      )
