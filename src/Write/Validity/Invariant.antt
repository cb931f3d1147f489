-- ===== src/Write/Validity/Invariant.antt =====
-- The writer's invariant: within its bounds, exactly accounted, with distinct identities, and with
-- bytes written at the front alone.
use bornera.Prelude.{ℕ, ◌≤◌, ◌<◌, ◌^◌, ◌≡◌, ◌≢◌, false, List, [], ◌∷◌, All, length, arith}
use bornera.Prelude.Weights.{weigh}
use bornera.Host.{ByteBudget}
use bornera.Identity.{ConnectionEpoch}
use bornera.Limits.{WriteQueueLimits}
use bornera.Write.Budget.Laws.{limit, used-new}
use bornera.Write.Frame.{QueuedWrite}
use bornera.Write.Queue.{WriteQueue, new, retained_bytes}

module _ {F : Type 0} where
  abbrev pub held_bytes : QueuedWrite F → ℕ
  held_bytes f = f.measure.retained_bytes

  -- Another frame of the queue shares neither identity.
  abbrev pub Apart : QueuedWrite F → QueuedWrite F → Type 0
  Apart f g = (f.operation ≢ g.operation) × (f.effect ≢ g.effect)

  abbrev pub Distinct : List (QueuedWrite F) → Type 0
  Distinct [] = Unit
  Distinct (f ∷ fs) = All (Apart f) fs × Distinct fs

  pub record IsMeasured (f : QueuedWrite F) : Type 0 where
    pub wire_fits : f.measure.wire_bytes < 2 ^ 64
    pub within_frame : f.written ≤ f.measure.wire_bytes
    pub started_if_written : f.started ≡ false → f.written ≡ 0

  -- Behind the front nothing was written.
  abbrev pub IsFresh : QueuedWrite F → Type 0
  IsFresh f = (f.written ≡ 0) × (f.started ≡ false)

  abbrev pub FreshTail : List (QueuedWrite F) → Type 0
  FreshTail [] = Unit
  FreshTail (f ∷ fs) = All IsFresh fs

  pub record IsValid {B : Type 0} ⦃lib : ByteBudget B⦄ (q : WriteQueue F B) : Type 0 where
    pub bounded : length q.frames ≤ q.limits.max_frames
    pub limited : limit q.retained_budget ≡ q.limits.max_retained_bytes
    pub accounted : retained_bytes q ≡ weigh held_bytes q.frames
    pub within : retained_bytes q ≤ q.limits.max_retained_bytes
    pub distinct : Distinct q.frames
    pub measured : All IsMeasured q.frames
    pub fresh : FreshTail q.frames

  -- A new writer is valid.
  pub new-IsValid :
      {B : Type 0} ⦃lib : ByteBudget B⦄ (epoch : ConnectionEpoch) (limits : WriteQueueLimits)
      → IsValid (new {F = F} {B = B} epoch limits)
  unfolding new
  new-IsValid {B} epoch limits = ground (arith, used-new B limits.max_retained_bytes)
