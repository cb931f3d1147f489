-- ===== src/Slot/Bounds.antt =====
-- crates/bornera/src/drive/slot.rs: the work of a quantum, and the ends of its loops.
use bornera.Prelude.{
  ℕ, zero, suc, ◌+◌, ◌≤◌, ◌≡◌, refl, subst, Option, none, some, Result, ok, err, Result-cases, inl,
  inr, arith, ◌==◌,
}
use bornera.Operation.{CloseReason}
use bornera.Transport.Port.{SlotTransport}
use bornera.Transport.Progress.{TransportProgress, IsMade}
use bornera.Transport.Diagnostic.{TransportError}
use bornera.Slot.Kinds.{EngineError}
use bornera.Slot.State.{Environment, ConnectionSlot, Run, ◌>>=◌}
use bornera.Slot.Pressure.{capture_transport_pressure}
use bornera.Slot.Deadlines.{deadline_round, deadline_rounds, drive_deadlines}
use bornera.Slot.Establish.{validate_transport_progress, transport_budget}
use bornera.Slot.Shutdown.{
  advance_shutdown, fail_shutdown, settle_shutdown, start_shutdown, progress_shutdown,
  continue_shutdown, bounded_shutdown, drive_shutdown_once,
}
use bornera.Slot.Quantum.{close_round}
use bornera.Slot.Steady.Drive.{Round-cases}
use bornera.Slot.Steady.Shutdown.{request_cases, shutdown_cases}
use bornera.Slot.Steps.{IsMadeBy, IsStep, one-IsUnit, Steps, if-Step, operations-IsUnit}

module _ {env : Environment} {T : Type 0} ⦃port : SlotTransport T⦄ where
  advance_shutdown-Steps :
      (s : ConnectionSlot env) (transport : T) (reason : CloseReason) (deadline : ℕ)
      (p : TransportProgress)
      → (IsMadeBy port → IsMade p)
      → IsStep
          (IsMadeBy port)
          (advance_shutdown {env = env} reason deadline (transport_budget s) p (s, transport)).1
  unfolding advance_shutdown
  advance_shutdown-Steps s transport reason deadline p made =
      elim (Result-cases (capture_transport_pressure transport s).1) [
        | inr (e, h) ↦ rw (h, advance_shutdown) tt
        | inl (_, h) ↦ elim (Result-cases (validate_transport_progress (transport_budget s) p)) [
          | inr (e, h') ↦ rw (h, h', advance_shutdown) tt
          | inl (tt, h') ↦ rw (h, h', advance_shutdown) (operations-IsUnit s p h' made)
        ]
      ]

  fail_shutdown-Steps :
      (s : ConnectionSlot env) (transport : T) (reason : CloseReason) (e : TransportError)
      → IsStep (IsMadeBy port) (fail_shutdown {env = env} reason e (s, transport)).1
  unfolding fail_shutdown
  fail_shutdown-Steps s transport reason e =
      elim (Result-cases (capture_transport_pressure transport s).1) [
        | inr (e, h) ↦ rw (h, fail_shutdown) tt
        | inl (_, h) ↦ rw (h, fail_shutdown) (one-IsUnit (IsMadeBy port))
      ]

  settle_shutdown-Steps :
      (s : ConnectionSlot env) (transport : T) (reason : CloseReason) (deadline : ℕ)
      (result : Result TransportProgress TransportError)
      → ((p : TransportProgress) → result ≡ ok p → IsMadeBy port → IsMade p)
      → IsStep
          (IsMadeBy port)
          (settle_shutdown {env = env} reason deadline (transport_budget s) result (s, transport)).1
  settle_shutdown-Steps s transport reason deadline (ok p) made =
      advance_shutdown-Steps s transport reason deadline p (made p refl)
  settle_shutdown-Steps s transport reason deadline (err e) made =
      fail_shutdown-Steps s transport reason e

  start_shutdown-Steps :
      (reason : CloseReason) (deadline : ℕ)
      → Steps (IsMadeBy port) (start_shutdown {env = env} {T = T} reason deadline)
  unfolding start_shutdown
  start_shutdown-Steps reason deadline (s, transport) =
      let begun : T × Result TransportProgress TransportError =
        port.begin_shutdown transport (transport_budget s) in
      settle_shutdown-Steps s begun.0 reason deadline begun.1
        (λ p h made. made.2 transport (transport_budget s) p h)

  continue_shutdown-Steps :
      (reason : CloseReason) (deadline : ℕ)
      → Steps (IsMadeBy port) (continue_shutdown {env = env} {T = T} reason deadline)
  unfolding continue_shutdown progress_shutdown
  continue_shutdown-Steps reason deadline (s, transport) =
      let driven : T × Result TransportProgress TransportError =
        port.drive_transport transport (transport_budget s) in
      if-Step (IsMadeBy port) (port.is_shutdown_complete transport) _ _ tt (
        if-Step (IsMadeBy port) (port.has_transport_work transport) _ _
          (settle_shutdown-Steps s driven.0 reason deadline driven.1
            (λ p h made. made.1 transport (transport_budget s) p h))
          tt)

  bounded_shutdown-Steps :
      (now remaining : ℕ) (reason : CloseReason) (deadline : ℕ)
      (step : Run (ConnectionSlot env × T) (Option ℕ))
      → Steps (IsMadeBy port) step
      → Steps (IsMadeBy port) (bounded_shutdown now remaining reason deadline step)
  bounded_shutdown-Steps now remaining reason deadline step h (s, transport) =
      if-Step (IsMadeBy port) (env.host.is_elapsed_at deadline now) _ _ (one-IsUnit (IsMadeBy port))
        (if-Step (IsMadeBy port) (remaining == 0) _ _ tt (h (s, transport)))

  drive_shutdown_once-Steps :
      (now remaining : ℕ)
      → Steps (IsMadeBy port) (drive_shutdown_once {env = env} {T = T} now remaining)
  unfolding drive_shutdown_once
  drive_shutdown_once-Steps now remaining (s, transport) = elim (request_cases s.close_request) [
    | inl h ↦ simp (h, drive_shutdown_once) tt
    | inr (inl h) ↦ simp (h, drive_shutdown_once) tt
    | inr (inr (reason, shutdown, h)) ↦ elim (shutdown_cases shutdown) [
      | inl h' ↦ simp (h, h', drive_shutdown_once) tt
      | inr (inl h') ↦ simp (h, h', drive_shutdown_once) tt
      | inr (inr (inl (deadline, h'))) ↦
          simp (h, h', drive_shutdown_once, IsStep)
            (bounded_shutdown-Steps now remaining reason deadline (start_shutdown reason deadline)
              (start_shutdown-Steps reason deadline) (s, transport))
      | inr (inr (inr (deadline, h'))) ↦
          simp (h, h', drive_shutdown_once, IsStep)
            (bounded_shutdown-Steps now remaining reason deadline
              (continue_shutdown reason deadline) (continue_shutdown-Steps reason deadline)
              (s, transport))
    ]
  ]

  pub close_round-Steps :
      (now remaining : ℕ) → Steps (IsMadeBy port) (close_round {env = env} {T = T} now remaining)
  unfolding close_round
  close_round-Steps now remaining (s, none) = tt
  close_round-Steps now remaining (s, some transport) =
      drive_shutdown_once-Steps now remaining (s, transport)

-- Work that is at most a bound, if there is any.
abbrev pub IsWithin : ℕ → Result ℕ EngineError → Type 0
IsWithin bound (ok work) = work ≤ bound
IsWithin bound (err e) = Unit

module _ {env : Environment} where
  deadline_rounds-IsWithin :
      (now work left : ℕ) (s : ConnectionSlot env)
      → IsWithin (work + left) (deadline_rounds now work left s).1
  unfolding deadline_rounds
  deadline_rounds-IsWithin now work zero s = omega arith
  deadline_rounds-IsWithin now work (suc left) s = elim (Result-cases (deadline_round now s).1) [
    | inr (e, h) ↦ rw (h, deadline_rounds, ◌>>=◌) tt
    | inl (round, h) ↦ elim (Round-cases round) [
      | inl h' ↦ rw (h, h', deadline_rounds, ◌>>=◌) (omega arith)
      | inr (inl h') ↦ rw (h, h', deadline_rounds, ◌>>=◌) (omega arith)
      | inr (inr h') ↦
          rw (h, h', deadline_rounds, ◌>>=◌, IsWithin)
            (subst
              (λ n. IsWithin n (deadline_rounds now (work + 1) left (deadline_round now s).0).1)
              (omega arith) (deadline_rounds-IsWithin now (work + 1) left (deadline_round now s).0))
    ]
  ]

  pub drive_deadlines-IsWithin :
      (now budget : ℕ) (s : ConnectionSlot env) → IsWithin budget (drive_deadlines now budget s).1
  unfolding drive_deadlines
  drive_deadlines-IsWithin now budget s =
      subst (λ n. IsWithin n (deadline_rounds now 0 budget s).1) (omega arith)
        (deadline_rounds-IsWithin now 0 budget s)
