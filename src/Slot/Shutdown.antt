-- ===== src/Slot/Shutdown.antt =====
-- crates/bornera/src/drive/shutdown.rs: the graceful shutdown of the transport, and its deadline.
use bornera.Prelude.{
  ℕ, Bool, true, false, ◌||◌, Option, none, some, ◌==◌, if◌then◌else◌, Result, ok, err,
}
use bornera.Admission.Options.{Deadline, Moment}
use bornera.Operation.{CloseReason}
use bornera.Transport.Port.{SlotTransport}
use bornera.Transport.Progress.{TransportBudget, TransportProgress}
use bornera.Transport.Diagnostic
use bornera.Transport.Diagnostic.{
  ErrorKind, TransportFailurePhase, TransportFailureKind, TransportError, in_phase,
}
use bornera.Slot.Kinds.{core_close, abort, immediate, complete, pending, started}
use bornera.Slot.State.{Environment, ConnectionSlot, Run}
use bornera.Slot.Control.{record_transport_failure, force_shutdown_settlement}
use bornera.Slot.Pressure.{capture_transport_pressure}
use bornera.Slot.Establish.{validate_transport_progress, transport_budget}

module _ {env : Environment} where
  unfoldable pub shutdown_timed_out : CloseReason → ConnectionSlot env → ConnectionSlot env
  unfolding record_transport_failure force_shutdown_settlement
  shutdown_timed_out reason s = force_shutdown_settlement reason (
      record_transport_failure
        (Diagnostic.new TransportFailurePhase.shutdown TransportFailureKind.timed_out
          ErrorKind.timed_out none)
        s)

  unfoldable pub complete_shutdown : CloseReason → ConnectionSlot env → ConnectionSlot env
  complete_shutdown reason s = record s { close_request = some (core_close reason complete) }

module _ {env : Environment} {T : Type 0} ⦃port : SlotTransport T⦄ where
  -- A step of the transport that has succeeded, its pressure captured and its progress checked.
  unfoldable pub advance_shutdown :
      CloseReason
      → Deadline
      → TransportBudget
      → TransportProgress
      → Run (ConnectionSlot env × T) (Option ℕ)
  unfolding capture_transport_pressure validate_transport_progress force_shutdown_settlement
  advance_shutdown reason deadline budget progress (s, transport) =
      let captured = capture_transport_pressure transport s in
      let forced = force_shutdown_settlement reason captured.0 in
      elim (captured.1) [
        | err e ↦ ((forced, transport), err e)
        | ok _ ↦ elim (validate_transport_progress budget progress) [
          | err e ↦ ((forced, transport), err e)
          | ok _ ↦ (
            (
              record (captured.0) {
                close_request = some (
                    core_close reason
                      (if port.is_shutdown_complete transport then complete else started deadline));
              },
              transport,
            ),
            ok (some progress.operations),
          )
        ]
      ]

  -- A step that has failed: the failure is noted, and the transport is to be let go at once.
  unfoldable pub fail_shutdown :
      CloseReason → TransportError → Run (ConnectionSlot env × T) (Option ℕ)
  unfolding capture_transport_pressure force_shutdown_settlement record_transport_failure
  fail_shutdown reason source (s, transport) =
      let captured = capture_transport_pressure transport s in
      let noted =
        record_transport_failure (in_phase source.diagnostic TransportFailurePhase.shutdown)
          captured.0 in
      (
        (force_shutdown_settlement reason noted, transport),
        elim (captured.1) [ err e ↦ err e | ok _ ↦ ok (some 1) ],
      )

  abbrev pub settle_shutdown :
      CloseReason
      → Deadline
      → TransportBudget
      → Result TransportProgress TransportError
      → Run (ConnectionSlot env × T) (Option ℕ)
  settle_shutdown reason deadline budget (ok progress) =
      advance_shutdown reason deadline budget progress
  settle_shutdown reason deadline budget (err source) = fail_shutdown reason source

  unfoldable pub start_shutdown : CloseReason → Deadline → Run (ConnectionSlot env × T) (Option ℕ)
  unfolding advance_shutdown fail_shutdown
  start_shutdown reason deadline (s, transport) =
      let budget = transport_budget s in
      let (transport', result) = port.begin_shutdown transport budget in
      settle_shutdown reason deadline budget result (s, transport')

  unfoldable pub progress_shutdown :
      CloseReason → Deadline → Run (ConnectionSlot env × T) (Option ℕ)
  unfolding advance_shutdown fail_shutdown
  progress_shutdown reason deadline (s, transport) =
      let budget = transport_budget s in
      let (transport', result) = port.drive_transport transport budget in
      settle_shutdown reason deadline budget result (s, transport')

  -- A shutdown that has started.
  unfoldable pub continue_shutdown :
      CloseReason → Deadline → Run (ConnectionSlot env × T) (Option ℕ)
  unfolding progress_shutdown complete_shutdown
  continue_shutdown reason deadline (s, transport) =
      if port.is_shutdown_complete transport
      then ((complete_shutdown reason s, transport), ok none)
      else (if port.has_transport_work transport
          then progress_shutdown reason deadline (s, transport)
          else ((s, transport), ok none))

  -- Behind the test of the deadline and of what remains of the budget.
  abbrev pub bounded_shutdown :
      Moment
      → ℕ
      → CloseReason
      → Deadline
      → Run (ConnectionSlot env × T) (Option ℕ)
      → Run (ConnectionSlot env × T) (Option ℕ)
  bounded_shutdown now remaining reason deadline step (s, transport) =
      let stepped = step (s, transport) in
      if env.host.is_elapsed_at deadline now
      then ((shutdown_timed_out reason s, transport), ok (some 1))
      else (if remaining == 0 then ((s, transport), ok none) else stepped)

  unfoldable pub drive_shutdown_once : Moment → ℕ → Run (ConnectionSlot env × T) (Option ℕ)
  unfolding shutdown_timed_out start_shutdown continue_shutdown
  drive_shutdown_once now remaining (s, transport) = elim s.close_request [
    | none ↦ ((s, transport), ok none)
    | some directive ↦ elim directive [
      | abort ↦ ((s, transport), ok none)
      | core_close reason shutdown ↦ elim shutdown [
        | immediate ↦ ((s, transport), ok none)
        | complete ↦ ((s, transport), ok none)
        | pending deadline ↦
            bounded_shutdown now remaining reason deadline (start_shutdown reason deadline)
              (s, transport)
        | started deadline ↦
            bounded_shutdown now remaining reason deadline (continue_shutdown reason deadline)
              (s, transport)
      ]
    ]
  ]

  unfoldable pub observe_shutdown_complete : T → ConnectionSlot env → ConnectionSlot env
  unfolding complete_shutdown
  observe_shutdown_complete transport s = elim s.close_request [
    | none ↦ s
    | some directive ↦ elim directive [
      | abort ↦ s
      | core_close reason shutdown ↦ elim shutdown [
        | immediate ↦ s
        | complete ↦ s
        | pending deadline ↦ s
        | started deadline ↦
            if port.is_shutdown_complete transport then complete_shutdown reason s else s
      ]
    ]
  ]

  unfoldable pub has_runnable_shutdown : Moment → T → ConnectionSlot env → Bool
  has_runnable_shutdown now transport s = elim s.close_request [
    | none ↦ false
    | some directive ↦ elim directive [
      | abort ↦ false
      | core_close reason shutdown ↦ elim shutdown [
        | immediate ↦ false
        | complete ↦ false
        | pending deadline ↦ true
        | started deadline ↦
            env.host.is_elapsed_at deadline now
            || port.is_shutdown_complete transport
            || port.has_transport_work transport
      ]
    ]
  ]
