-- ===== src/Connection/Drive.antt =====
-- connection/drive.rs: `apply`, which dispatches an input to its handler.
mod Outcomes
mod Writes
mod Cancellation
mod Lifecycle
mod Response
pub use Outcomes.*
unfoldable pub use Writes.*
unfoldable pub use Cancellation.*
unfoldable pub use Lifecycle.*
unfoldable pub use Response.*
use bornera.Prelude.{
  ℕ, Bool, true, false, not, ◌&&◌, ◌||◌, Option, none, some, List, [], ◌∷◌, ◌++◌, ◌==◌,
  if◌then◌else◌,
}
use bornera.Host.{Calandria}
use bornera.Identity.{ConnectionEpoch, OperationId, EffectId}
use bornera.Admission.Options.{
  Moment, AdmissionGate, opened, draining, is_session_only, is_closed_or_draining,
  is_reply_expected,
}
use bornera.Admission.Ledger
use bornera.Operation.{
  CloseReason, deadline_after_possible_send, unexpected_reply, malformed_reply, match_key_mismatch,
  OperationRecord, OperationFailure, key_mismatch, OperationPhase, writing, awaiting_reply,
  terminal, is_terminal, is_queued, is_writing_or_terminal, is_awaiting_or_terminal, Delivery,
  not_sent, possibly_sent, is_possibly_sent, mark_possibly_sent, reply, write_complete, cancelled,
}
use bornera.Matching
use bornera.Matching.{OrderedVerified}
use bornera.Connection.Effect
use bornera.Connection.Effect.{
  ConnectionTransition, ConnectionEffect, ConnectionInput, InboundReply, InputDisposition,
  CancelOutcome, applied, ignored_stale_epoch, ignored_unknown_operation, ignored_stale_effect,
  ignored_invalid_phase, fault, cancelled_not_sent, observation_cancelled, discard_write,
  cancel_deadline, publish_outcome, publish_failed, schedule_deadline, with_cancelled,
}
use bornera.Connection.Machine.{
  ConnectionMachine, ConnectionPhase, is_live, is_closing, close_with_failure_into, close_into,
  finish_drain,
}

module _ ⦃host : Calandria⦄ where
  unfoldable pub apply : ConnectionMachine → ConnectionInput → Outcome (Unit {0})
  apply m (ConnectionInput.open_admission epoch) = open_admission m epoch
  apply m (ConnectionInput.cancel epoch operation) = cancel m epoch operation
  apply m (ConnectionInput.deadline_elapsed epoch operation now) =
      deadline_elapsed m epoch operation now
  apply m (ConnectionInput.reply_malformed epoch) = reply_malformed m epoch
  apply m (ConnectionInput.begin_drain epoch) = begin_drain m epoch
  apply m (ConnectionInput.close_requested epoch reason) = close_requested m epoch reason
  apply m (ConnectionInput.epoch_closed epoch) = epoch_closed m epoch
