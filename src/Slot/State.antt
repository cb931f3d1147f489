-- ===== src/Slot/State.antt =====
-- crates/bornera/src/slot.rs and state.rs: the state of one slot, and the latch of its first failure.
-- `Environment` holds what is not the repository's code: the decoder and the classifier of the
-- protocol, the batches and the timer queue of `calandria`, and the build.
use bornera.Prelude.{
  ℕ, Bool, false, Option, none, some, List, [], replicate, if◌then◌else◌, Result, ok, err,
}
use bornera.Host.{Calandria, ByteBudget}
use bornera.Host.Queues.{EventBatch, TimerQueue}
use bornera.Identity.{MatchKey, zero_seeds}
use bornera.Admission.Options.{Deadline}
use bornera.Framing
use bornera.Framing.{FrameDecoder, FrameDriver, FrameDecodeError}
use bornera.Transport.Progress.{TcpSocketPolicy}
use bornera.Transport.Pressure.{TransportPressure}
use bornera.Transport.Diagnostic.{TransportState, connecting, TransportDiagnostic}
use bornera.Connection.Core.State.{ConnectionCore, with_identity_seeds}
use bornera.Slot.Frame.{OutboundFrame}
use bornera.Slot.Limits.{ConnectionSlotConfig, ConnectionSlotLimits, recovery_lifecycle}
use bornera.Slot.Kinds.{
  DeadlineEvent, DeadlineEntry, IoPreference, transport_first, CloseDirective, abort, OwnerFailure,
  EngineState, running, failed_with, failure_of, EngineError, owner_failed, is_owner_failed,
  category, ConnectionEvent, EngineOutcome,
}

pub record Environment : Type 1 where
  pub decoder_state : Type 0
  pub frame : Type 0
  pub decode_error : Type 0
  pub classifier_state : Type 0
  pub timer_queue : Type 0
  pub outcome_batch : Type 0
  pub event_batch : Type 0
  pub byte_budget : Type 0
  pub host : Calandria
  pub budgets : ByteBudget byte_budget
  pub timers : TimerQueue timer_queue DeadlineEvent
  pub outcomes : EventBatch outcome_batch (EngineOutcome frame)
  pub events : EventBatch event_batch ConnectionEvent
  pub adapter : FrameDecoder decoder_state frame decode_error
  -- `Retained` of a decoded frame
  pub retained_bytes : frame → ℕ
  -- `InboundClassifier::reply_key`; `none` is its error
  pub reply_key : classifier_state → frame → classifier_state × Option MatchKey
  pub debug_assertions : Bool

pub record ConnectionSlot (env : Environment) : Type 0 where
  pub core : ConnectionCore OutboundFrame env.byte_budget
  pub decoder : FrameDriver env.decoder_state
  pub classifier : env.classifier_state
  pub limits : ConnectionSlotLimits
  pub connect_deadline : Deadline
  pub socket_policy : TcpSocketPolicy
  pub timers : env.timer_queue
  pub deadlines : List DeadlineEntry
  pub outcomes : env.outcome_batch
  pub lifecycle : env.event_batch
  pub recovery_outcomes : env.outcome_batch
  pub recovery_events : env.event_batch
  pub event_sequence : ℕ
  pub read_buffer : List ℕ
  pub decoder_pending : Bool
  pub io_preference : IoPreference
  pub transport_state : TransportState
  pub transport_diagnostic : Option TransportDiagnostic
  pub transport_pressure : Option TransportPressure
  pub transport_retained_limit : Option ℕ
  pub transport_contract_diverged : Bool
  pub drain_deadline : Option Deadline
  pub close_request : Option CloseDirective
  pub state : EngineState

-- `ledger_id` names the allocation of the ledger.
unfoldable pub new :
    (env : Environment)
    → ConnectionSlotConfig
    → ConnectionSlotLimits
    → env.decoder_state
    → env.classifier_state
    → ℕ
    → Result (ConnectionSlot env) (FrameDecodeError env.decode_error)
new env config limits decoder classifier ledger_id =
    elim (Framing.new env.adapter decoder limits.decoder.buffered_bytes) [
      | err e ↦ err e
      | ok driver ↦ ok (record {
        core =
            with_identity_seeds ⦃lib = env.budgets⦄ config.identity.endpoint config.identity.lane
              config.identity.connection config.identity.epoch limits.connection zero_seeds
              ledger_id;
        decoder = driver;
        classifier = classifier;
        limits = limits;
        connect_deadline = config.connect_deadline;
        socket_policy = config.socket_policy;
        timers = env.timers.new config.timer_owner limits.operation_capacity;
        deadlines = [];
        outcomes = env.outcomes.new limits.operation_capacity limits.outcome_bytes;
        lifecycle = env.events.new limits.publication.lifecycle_events 0;
        recovery_outcomes = env.outcomes.new limits.operation_capacity limits.outcome_bytes;
        recovery_events = env.events.new (recovery_lifecycle limits) 0;
        event_sequence = 0;
        read_buffer = replicate limits.io.chunk_bytes 0;
        decoder_pending = false;
        io_preference = transport_first;
        transport_state = connecting;
        transport_diagnostic = none;
        transport_pressure = none;
        transport_retained_limit = none;
        transport_contract_diverged = false;
        drain_deadline = none;
        close_request = none;
        state = running;
      })
    ]

-- `&mut self` and `?`: a slot, or a slot with its transport, after the call, with a value or a failure.
abbrev pub Run : Type 0 → Type 0 → Type 0
Run S A = S → S × Result A EngineError

infixl 5 ◌>>=◌ ◌>>◌
abbrev pub ◌>>=◌ : {S A A' : Type 0} → Run S A → (A → Run S A') → Run S A'
◌>>=◌ m f s = let r = m s in elim (r.1) [ ok a ↦ f a r.0 | err e ↦ (r.0, err e) ]

abbrev pub ◌>>◌ : {S A : Type 0} → Run S (Unit {0}) → Run S A → Run S A
m >> k = m >>= λ _. k

abbrev pub return : {S A : Type 0} → A → Run S A
return a s = (s, ok a)

abbrev pub fail : {S A : Type 0} → EngineError → Run S A
fail e s = (s, err e)

-- A method of the slot, beside its transport.
abbrev pub lift : {S T A : Type 0} → Run S A → Run (S × T) A
lift m s = let r = m s.0 in ((r.0, s.1), r.1)

module _ {env : Environment} where
  unfoldable pub ensure_running : Run (ConnectionSlot env) (Unit {0})
  ensure_running s = elim (failure_of s.state) [
    | none ↦ (s, ok tt)
    | some reason ↦ (s, err (owner_failed reason))
  ]

  unfoldable pub latch_owner_failure : OwnerFailure → ConnectionSlot env → ConnectionSlot env
  latch_owner_failure reason s = elim (failure_of s.state) [
    | some first ↦ s
    | none ↦ record s {
      state = failed_with reason;
      drain_deadline = none;
      close_request = some abort;
    }
  ]

  unfoldable pub latch_failure : EngineError → ConnectionSlot env → ConnectionSlot env
  unfolding latch_owner_failure
  latch_failure e s = elim (failure_of s.state) [
    | some first ↦ s
    | none ↦ if is_owner_failed e then s else latch_owner_failure (category e) s
  ]

  unfoldable pub latch : {A : Type 0} → Run (ConnectionSlot env) A → Run (ConnectionSlot env) A
  unfolding latch_failure
  latch m s = let r = m s in (elim (r.1) [ ok a ↦ r.0 | err e ↦ latch_failure e r.0 ], r.1)

  -- A method that the host calls: `ensure_running`, then the work under the latch.
  unfoldable pub guarded : {A : Type 0} → Run (ConnectionSlot env) A → Run (ConnectionSlot env) A
  unfolding ensure_running latch
  guarded m = do ensure_running; latch m
