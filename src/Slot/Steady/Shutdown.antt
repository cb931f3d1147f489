-- ===== src/Slot/Steady/Shutdown.antt =====
-- crates/bornera/src/drive/shutdown.rs: the steps of a graceful shutdown are steady.
use bornera.Prelude.{
  ℕ, ◌≡◌, refl, Option, none, some, Result, ok, err, Result-cases, ◌⊎◌, inl, inr, subst, ◌==◌,
}
use bornera.Operation.{CloseReason}
use bornera.Transport.Port.{SlotTransport}
use bornera.Transport.Progress.{TransportBudget, TransportProgress}
use bornera.Transport.Diagnostic.{TransportError}
use bornera.Slot.Kinds.{
  CloseDirective, core_close, abort, ShutdownState, immediate, complete, pending, started,
  EngineError,
}
use bornera.Slot.State.{Environment, ConnectionSlot, Run}
use bornera.Slot.Control.{record_transport_failure, force_shutdown_settlement}
use bornera.Slot.Pressure.{capture_transport_pressure}
use bornera.Slot.Establish.{validate_transport_progress, transport_budget}
use bornera.Slot.Shutdown.{
  shutdown_timed_out, complete_shutdown, advance_shutdown, fail_shutdown, settle_shutdown,
  start_shutdown, progress_shutdown, continue_shutdown, bounded_shutdown, drive_shutdown_once,
}
use bornera.Slot.Steady.{Moved, still, via, if-Fine, IsFresh, Fine, PairSteady}
use bornera.Slot.Steady.Drive.{capture-Steady}
use bornera.Slot.Steady.Transport.{validate-IsFresh}

-- The request to close: none, an abort or one that waits for nothing more, or a graceful shutdown.
pub request_cases :
    (request : Option CloseDirective)
    → (request ≡ none)
      ⊎ (request ≡ some abort)
      ⊎ ((reason : CloseReason) × (shutdown : ShutdownState) × (request
            ≡ some (core_close reason shutdown)))
request_cases none = inl refl
request_cases (some abort) = inr (inl refl)
request_cases (some (core_close reason shutdown)) = inr (inr (reason, shutdown, refl))

pub shutdown_cases :
    (shutdown : ShutdownState)
    → (shutdown ≡ immediate)
      ⊎ (shutdown ≡ complete)
      ⊎ ((deadline : ℕ) × (shutdown ≡ pending deadline))
      ⊎ ((deadline : ℕ) × (shutdown ≡ started deadline))
shutdown_cases immediate = inl refl
shutdown_cases complete = inr (inl refl)
shutdown_cases (pending deadline) = inr (inr (inl (deadline, refl)))
shutdown_cases (started deadline) = inr (inr (inr (deadline, refl)))

module _ {env : Environment} where
  forced-Moved :
      (reason : CloseReason) (s : ConnectionSlot env) → Moved s (force_shutdown_settlement reason s)
  unfolding force_shutdown_settlement
  forced-Moved reason s = record { state_kept = refl; limits_kept = refl; numbered = λ h. h }

  timed_out-Moved :
      (reason : CloseReason) (s : ConnectionSlot env) → Moved s (shutdown_timed_out reason s)
  unfolding shutdown_timed_out record_transport_failure force_shutdown_settlement
  timed_out-Moved reason s = record { state_kept = refl; limits_kept = refl; numbered = λ h. h }

  completed-Moved :
      (reason : CloseReason) (s : ConnectionSlot env) → Moved s (complete_shutdown reason s)
  unfolding complete_shutdown
  completed-Moved reason s = record { state_kept = refl; limits_kept = refl; numbered = λ h. h }

module _ {env : Environment} {T : Type 0} ⦃port : SlotTransport T⦄ where
  advance_shutdown-Steady :
      (reason : CloseReason) (deadline : ℕ) (budget : TransportBudget)
      (progress : TransportProgress)
      → PairSteady {env = env} {T = T} (advance_shutdown reason deadline budget progress)
  unfolding advance_shutdown
  advance_shutdown-Steady reason deadline budget progress (s, transport) =
      let captured : ConnectionSlot env × Result (Unit {0}) EngineError =
        capture_transport_pressure transport s in
      let moved : Fine (λ s. s) s captured = capture-Steady transport s in
      let forced : ConnectionSlot env = force_shutdown_settlement reason captured.0 in
      let moved' : Moved s forced =
        (via (λ s. s) s captured.0 (forced, ok tt) moved.0
          (forced-Moved reason captured.0, tt)).0 in
      elim (Result-cases captured.1) [
        | inr (e, h) ↦ rw (h, advance_shutdown) (moved', subst IsFresh h moved.1)
        | inl (_, h) ↦ elim (Result-cases (validate_transport_progress budget progress)) [
          | inr (e, h') ↦
              rw (h, h', advance_shutdown)
                (moved', subst IsFresh h' (validate-IsFresh budget progress))
          | inl (_, h') ↦
              rw (h, h', advance_shutdown)
                (
                  record {
                    state_kept = moved.0.state_kept;
                    limits_kept = moved.0.limits_kept;
                    numbered = moved.0.numbered;
                  },
                  tt,
                )
        ]
      ]

  fail_shutdown-Steady :
      (reason : CloseReason) (source : TransportError)
      → PairSteady {env = env} {T = T} (fail_shutdown reason source)
  unfolding fail_shutdown force_shutdown_settlement record_transport_failure
  fail_shutdown-Steady reason source (s, transport) =
      let captured : ConnectionSlot env × Result (Unit {0}) EngineError =
        capture_transport_pressure transport s in
      let moved : Fine (λ s. s) s captured = capture-Steady transport s in
      (
        record {
          state_kept = moved.0.state_kept;
          limits_kept = moved.0.limits_kept;
          numbered = moved.0.numbered;
        },
        elim (Result-cases captured.1) [
          | inr (e, h) ↦ rw (h, fail_shutdown) (subst IsFresh h moved.1)
          | inl (_, h) ↦ rw (h, fail_shutdown) tt
        ],
      )

  settle_shutdown-Steady :
      (reason : CloseReason) (deadline : ℕ) (budget : TransportBudget)
      (result : Result TransportProgress TransportError)
      → PairSteady {env = env} {T = T} (settle_shutdown reason deadline budget result)
  settle_shutdown-Steady reason deadline budget (ok progress) =
      advance_shutdown-Steady reason deadline budget progress
  settle_shutdown-Steady reason deadline budget (err source) = fail_shutdown-Steady reason source

  start_shutdown-Steady :
      (reason : CloseReason) (deadline : ℕ)
      → PairSteady {env = env} {T = T} (start_shutdown reason deadline)
  unfolding start_shutdown
  start_shutdown-Steady reason deadline (s, transport) =
      let budget : TransportBudget = transport_budget s in
      let begun : T × Result TransportProgress TransportError =
        port.begin_shutdown transport budget in
      settle_shutdown-Steady reason deadline budget begun.1 (s, begun.0)

  progress_shutdown-Steady :
      (reason : CloseReason) (deadline : ℕ)
      → PairSteady {env = env} {T = T} (progress_shutdown reason deadline)
  unfolding progress_shutdown
  progress_shutdown-Steady reason deadline (s, transport) =
      let budget : TransportBudget = transport_budget s in
      let driven : T × Result TransportProgress TransportError =
        port.drive_transport transport budget in
      settle_shutdown-Steady reason deadline budget driven.1 (s, driven.0)

  continue_shutdown-Steady :
      (reason : CloseReason) (deadline : ℕ)
      → PairSteady {env = env} {T = T} (continue_shutdown reason deadline)
  unfolding continue_shutdown
  continue_shutdown-Steady reason deadline (s, transport) =
      if-Fine (λ st. st.0) (port.is_shutdown_complete transport) (s, transport) _ _
        (completed-Moved reason s, tt)
        (if-Fine (λ st. st.0) (port.has_transport_work transport) (s, transport) _ _
          (progress_shutdown-Steady reason deadline (s, transport)) (still s, tt))

  bounded_shutdown-Steady :
      (now remaining : ℕ) (reason : CloseReason) (deadline : ℕ)
      (step : Run (ConnectionSlot env × T) (Option ℕ))
      → PairSteady step
      → PairSteady (bounded_shutdown now remaining reason deadline step)
  bounded_shutdown-Steady now remaining reason deadline step h (s, transport) =
      if-Fine (λ st. st.0) (env.host.is_elapsed_at deadline now) (s, transport) _ _
        (timed_out-Moved reason s, tt)
        (if-Fine (λ st. st.0) (remaining == 0) (s, transport) _ _ (still s, tt) (h (s, transport)))

  pub drive_shutdown_once-Steady :
      (now remaining : ℕ) → PairSteady {env = env} {T = T} (drive_shutdown_once now remaining)
  unfolding drive_shutdown_once
  drive_shutdown_once-Steady now remaining (s, transport) = elim (request_cases s.close_request) [
    | inl h ↦ simp (h, drive_shutdown_once) (still s, tt)
    | inr (inl h) ↦ simp (h, drive_shutdown_once) (still s, tt)
    | inr (inr (reason, shutdown, h)) ↦ elim (shutdown_cases shutdown) [
      | inl h' ↦ simp (h, h', drive_shutdown_once) (still s, tt)
      | inr (inl h') ↦ simp (h, h', drive_shutdown_once) (still s, tt)
      | inr (inr (inl (deadline, h'))) ↦
          simp (h, h', drive_shutdown_once)
            (bounded_shutdown-Steady now remaining reason deadline (start_shutdown reason deadline)
              (start_shutdown-Steady reason deadline) (s, transport))
      | inr (inr (inr (deadline, h'))) ↦
          simp (h, h', drive_shutdown_once)
            (bounded_shutdown-Steady now remaining reason deadline
              (continue_shutdown reason deadline) (continue_shutdown-Steady reason deadline)
              (s, transport))
    ]
  ]
