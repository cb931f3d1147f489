-- ===== src/Write/Frame.antt =====
-- write/frame.rs, write/error.rs, write/queued.rs and write/state.rs: a frame, its measure at
-- commit, and what the writer reports.
-- A frame may change behind the trait `WriteFrame`, so a call that looks at one takes the view of
-- that moment: the bytes and the retained memory of every frame.
use bornera.Prelude.{ℕ, Bool, List, length, if◌then◌else◌}
use bornera.Identity.{ConnectionEpoch, OperationId, EffectId}
use bornera.Operation.{Delivery, not_sent, possibly_sent}

pub record WriteFrame (F : Type 0) : Type 0 where
  pub bytes : F → List ℕ
  pub retained_bytes : F → ℕ

pub record FrameMeasure : Type 0 where
  pub wire_bytes : ℕ
  pub retained_bytes : ℕ

unfoldable pub capture : {F : Type 0} → WriteFrame F → F → FrameMeasure
capture view frame = record {
  wire_bytes = length (view.bytes frame);
  retained_bytes = view.retained_bytes frame;
}

pub data FrameContractViolation : Type 0 where
  wire_length_changed : ℕ → ℕ → FrameContractViolation
  write_range_unavailable : ℕ → ℕ → ℕ → FrameContractViolation

pub data WriteIdentityKind : Type 0 where
  operation effect : WriteIdentityKind

pub data WriteAdmissionFailure : Type 0 where
  stale_epoch : ConnectionEpoch → ConnectionEpoch → WriteAdmissionFailure
  identity_in_use : WriteIdentityKind → WriteAdmissionFailure
  frame_capacity_reached : ℕ → WriteAdmissionFailure
  retained_byte_capacity : ℕ → ℕ → ℕ → WriteAdmissionFailure

pub data WriteProgressError : Type 0 where
  stale_epoch : ConnectionEpoch → ConnectionEpoch → WriteProgressError
  no_pending_write : WriteProgressError
  out_of_order_effect : EffectId → EffectId → WriteProgressError
  exceeds_remaining : ℕ → ℕ → WriteProgressError
  progress_accounting_overflow : ℕ → ℕ → WriteProgressError
  retained_accounting_underflow : ℕ → ℕ → WriteProgressError

pub record QueuedWrite (F : Type 0) : Type 0 where
  pub operation : OperationId
  pub effect : EffectId
  pub frame : F
  pub measure : FrameMeasure
  pub written : ℕ
  pub started : Bool

pub record DiscardedWrite (F : Type 0) : Type 0 where
  pub operation : OperationId
  pub effect : EffectId
  pub frame : F
  pub measure : FrameMeasure
  pub written : ℕ
  pub delivery : Delivery

abbrev pub delivery_of : Bool → Delivery
delivery_of started = if started then possibly_sent else not_sent

abbrev pub into_discarded : {F : Type 0} → QueuedWrite F → DiscardedWrite F
into_discarded q = record {
  operation = q.operation;
  effect = q.effect;
  frame = q.frame;
  measure = q.measure;
  written = q.written;
  delivery = delivery_of q.started;
}

pub data WriteBoundary : Type 0 where
  unchanged crossed : WriteBoundary

pub record WriteSlice : Type 0 where
  pub epoch : ConnectionEpoch
  pub operation : OperationId
  pub effect : EffectId
  pub bytes : List ℕ

pub data WriteProgress (F : Type 0) : Type 0 where
  pending : OperationId → WriteBoundary → WriteProgress F
  complete : OperationId → EffectId → F → FrameMeasure → WriteBoundary → Delivery → WriteProgress F

pub record DiscardedWrites (F : Type 0) : Type 0 where
  pub writes : List (DiscardedWrite F)
  pub retained_bytes : ℕ
