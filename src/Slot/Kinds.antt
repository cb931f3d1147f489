-- ===== src/Slot/Kinds.antt =====
-- crates/bornera/src/slot.rs, event.rs, outcome.rs, error.rs, and `OwnerFailure` of recovery.rs and
-- `EngineState` of state.rs: what a slot keeps, publishes and fails with.
use bornera.Prelude.{ℕ, Bool, true, false, Option, none, some}
use bornera.Identity.{ConnectionEpoch, OperationId}
use bornera.Admission.Options.{Deadline}
use bornera.Operation.{CloseReason, OperationOutcome}
use bornera.Host.Queues.{TimerToken, TimerScheduleFailure, EventBatchFailure}
use bornera.Transport.Progress.{TransportBudget, TransportProgress}
use bornera.Transport.Pressure.{TransportPressure}
use bornera.Transport.Diagnostic.{IoError}
use bornera.Connection.Core.State.{ConnectionCoreError}

pub record DeadlineEvent : Type 0 where
  pub epoch : ConnectionEpoch
  pub operation : OperationId

pub record DeadlineEntry : Type 0 where
  pub operation : OperationId
  pub token : TimerToken

pub data IoPreference : Type 0 where
  transport_first decode_first read_first write_first : IoPreference

unfoldable pub next : IoPreference → IoPreference
next transport_first = decode_first
next decode_first = read_first
next read_first = write_first
next write_first = transport_first

pub data ShutdownState : Type 0 where
  immediate complete : ShutdownState
  pending started : Deadline → ShutdownState

pub data CloseDirective : Type 0 where
  core_close : CloseReason → ShutdownState → CloseDirective
  abort : CloseDirective

unfoldable pub settlement_ready : CloseDirective → Bool
settlement_ready (core_close reason immediate) = true
settlement_ready (core_close reason complete) = true
settlement_ready (core_close reason (pending deadline)) = false
settlement_ready (core_close reason (started deadline)) = false
settlement_ready abort = true

unfoldable pub shutdown_deadline : CloseDirective → Option Deadline
shutdown_deadline (core_close reason (pending deadline)) = some deadline
shutdown_deadline (core_close reason (started deadline)) = some deadline
shutdown_deadline (core_close reason immediate) = none
shutdown_deadline (core_close reason complete) = none
shutdown_deadline abort = none

pub data OwnerFailure : Type 0 where
  core_failure readiness_failure owner_invariant : OwnerFailure

pub data EngineState : Type 0 where
  running : EngineState
  failed_with : OwnerFailure → EngineState

-- EngineState::failure
unfoldable pub failure_of : EngineState → Option OwnerFailure
failure_of running = none
failure_of (failed_with reason) = some reason

pub data EngineInvariant : Type 0 where
  resource_token unexpected_discard_effect unexpected_unit_reply : EngineInvariant
  deadline_index_capacity : EngineInvariant
  deadline_schedule : TimerScheduleFailure → EngineInvariant
  outcome_publication recovery_outcome_publication : EventBatchFailure → EngineInvariant
  lifecycle_publication recovery_lifecycle_publication : EventBatchFailure → EngineInvariant
  event_sequence_exhausted missing_close_reason missing_shutdown_deadline : EngineInvariant
  unsupported_core_effect transport_opened_before_establishment : EngineInvariant
  transport_read_contract : ℕ → ℕ → EngineInvariant
  transport_progress_contract : TransportBudget → TransportProgress → EngineInvariant
  transport_retained_capacity : ℕ → TransportPressure → EngineInvariant
  transport_limit_contract : ℕ → ℕ → EngineInvariant
  transport_no_progress : EngineInvariant

-- `calandria_mio::MioError`: an error of the system, or another, which is a code.
pub data MioError : Type 0 where
  system_error : IoError → MioError
  mio_other : ℕ → MioError

pub data EngineError : Type 0 where
  mio_error : MioError → EngineError
  core_error : ConnectionCoreError → EngineError
  invariant_error : EngineInvariant → EngineError
  owner_failed : OwnerFailure → EngineError

-- `OwnerFailure::from`
unfoldable pub category : EngineError → OwnerFailure
category (core_error e) = core_failure
category (mio_error e) = readiness_failure
category (invariant_error e) = owner_invariant
category (owner_failed reason) = reason

abbrev pub is_owner_failed : EngineError → Bool
is_owner_failed (owner_failed reason) = true
is_owner_failed _ = false

pub data ConnectionEvent : Type 0 where
  transport_opened admission_opened : ℕ → ConnectionEpoch → ConnectionEvent
  closing_event closed_event : ℕ → ConnectionEpoch → CloseReason → ConnectionEvent

-- ConnectionEvent::sequence
unfoldable pub sequence_of : ConnectionEvent → ℕ
sequence_of (transport_opened sequence epoch) = sequence
sequence_of (admission_opened sequence epoch) = sequence
sequence_of (closing_event sequence epoch reason) = sequence
sequence_of (closed_event sequence epoch reason) = sequence

-- ConnectionEvent::epoch
unfoldable pub epoch_of : ConnectionEvent → ConnectionEpoch
epoch_of (transport_opened sequence epoch) = epoch
epoch_of (admission_opened sequence epoch) = epoch
epoch_of (closing_event sequence epoch reason) = epoch
epoch_of (closed_event sequence epoch reason) = epoch

pub record EngineOutcome (R : Type 0) : Type 0 where
  pub epoch : ConnectionEpoch
  pub operation : OperationId
  pub outcome : OperationOutcome R
