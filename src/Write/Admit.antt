-- ===== src/Write/Admit.antt =====
-- write/admission.rs: atomic admission of a complete frame.
use bornera.Prelude.{
  ℕ, false, not, Option, none, some, [], ◌∷◌, ◌++◌, ◌==◌, if◌then◌else◌, length, is_some, Result,
  ok, err,
}
use bornera.Host.{ByteBudget}
use bornera.Identity.{ConnectionEpoch, OperationId, EffectId}
use bornera.Write.Budget
use bornera.Write.Budget.{RetainedBudget}
use bornera.Write.Frame.{
  FrameMeasure, WriteIdentityKind, WriteAdmissionFailure, identity_in_use, frame_capacity_reached,
  retained_byte_capacity, QueuedWrite,
}
use bornera.Write.Queue.{WriteQueue, index_of_operation, index_of_effect, retained_bytes}

module _ {F B : Type 0} ⦃lib : ByteBudget B⦄ where
  unfoldable pub admission_failure :
      WriteQueue F B → ConnectionEpoch → OperationId → EffectId → ℕ → Option WriteAdmissionFailure
  unfolding index_of_operation index_of_effect
  admission_failure q epoch operation effect incoming =
      if not (epoch == q.epoch)
      then some (WriteAdmissionFailure.stale_epoch q.epoch epoch)
      else (if is_some (index_of_operation q operation)
          then some (identity_in_use WriteIdentityKind.operation)
          else (if is_some (index_of_effect q effect)
              then some (identity_in_use WriteIdentityKind.effect)
              else (if length q.frames == q.limits.max_frames
                  then some (frame_capacity_reached q.limits.max_frames)
                  else (if not (Budget.can_reserve q.retained_budget incoming)
                      then some (
                          retained_byte_capacity (retained_bytes q) incoming
                            q.limits.max_retained_bytes)
                      else none))))

  -- The queue after the call; an error gives the frame back.
  unfoldable pub admit :
      WriteQueue F B
      → ConnectionEpoch
      → OperationId
      → EffectId
      → FrameMeasure
      → F
      → WriteQueue F B × Result (Unit {0}) (WriteAdmissionFailure × F)
  unfolding admission_failure
  admit q epoch operation effect measure frame =
      let incoming = measure.retained_bytes in
      let (budget, reserved) = Budget.try_reserve q.retained_budget incoming in
      let queued : QueuedWrite F = record {
        operation = operation;
        effect = effect;
        frame = frame;
        measure = measure;
        written = 0;
        started = false;
      } in
      elim (admission_failure q epoch operation effect incoming) [
        | some failure ↦ (q, err (failure, frame))
        | none ↦
            if not reserved
            then (
              record q { retained_budget = budget },
              err (
                retained_byte_capacity (Budget.used budget) incoming q.limits.max_retained_bytes,
                frame,
              ),
            )
            else (record q { retained_budget = budget; frames = q.frames ++ queued ∷ [] }, ok tt)
      ]
