-- ===== src/Write/Queue.antt =====
-- write/queue.rs: FIFO storage of complete frames, with their identities.
use bornera.Prelude.{ℕ, Bool, Option, none, some, List, [], map, ◌==◌, length, get_elem?}
use bornera.Prelude.Search.{position}
use bornera.Host.{ByteBudget}
use bornera.Identity.{ConnectionEpoch, OperationId, EffectId}
use bornera.Limits.{WriteQueueLimits}
use bornera.Write.Budget
use bornera.Write.Budget.{RetainedBudget}
use bornera.Write.Frame.{QueuedWrite}

pub record WriteQueue (F B : Type 0) : Type 0 where
  pub epoch : ConnectionEpoch
  pub limits : WriteQueueLimits
  pub frames : List (QueuedWrite F)
  pub retained_budget : RetainedBudget B

module _ {F : Type 0} where
  abbrev pub of_operation : OperationId → QueuedWrite F → Bool
  of_operation id f = f.operation == id

  abbrev pub of_effect : EffectId → QueuedWrite F → Bool
  of_effect id f = f.effect == id

module _ {F B : Type 0} where
  abbrev pub queued_frames : WriteQueue F B → ℕ
  queued_frames q = length q.frames

  unfoldable pub index_of_operation : WriteQueue F B → OperationId → Option ℕ
  index_of_operation q id = position (of_operation id) q.frames

  unfoldable pub index_of_effect : WriteQueue F B → EffectId → Option ℕ
  index_of_effect q id = position (of_effect id) q.frames

  unfoldable pub effect_for : WriteQueue F B → OperationId → Option EffectId
  unfolding index_of_operation
  effect_for q id = elim (index_of_operation q id) [
    | none ↦ none
    | some index ↦ elim (get_elem? q.frames index) [ none ↦ none | some f ↦ some f.effect ]
  ]

  abbrev pub identities : WriteQueue F B → List (OperationId × EffectId)
  identities q = map (λ f. (f.operation, f.effect)) q.frames

  module _ ⦃lib : ByteBudget B⦄ where
    unfoldable pub new : ConnectionEpoch → WriteQueueLimits → WriteQueue F B
    new epoch limits = record {
      epoch = epoch;
      limits = limits;
      frames = [];
      retained_budget = Budget.new limits.max_retained_bytes;
    }

    abbrev pub retained_bytes : WriteQueue F B → ℕ
    retained_bytes q = Budget.used q.retained_budget
