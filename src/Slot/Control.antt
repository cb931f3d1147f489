-- ===== src/Slot/Control.antt =====
-- crates/bornera/src/control.rs and `force_shutdown` of drive/shutdown.rs: what the host asks of a slot.
use bornera.Prelude.{Bool, true, false, Option, none, some, List, leb, if◌then◌else◌, ok}
use bornera.Identity.{OperationId}
use bornera.Admission.Options.{Deadline}
use bornera.Operation.{CloseReason}
use bornera.Transport.Diagnostic.{TransportState, connecting, TransportDiagnostic}
use bornera.Connection.Effect.{
  ConnectionInput, ConnectionTransition, InputDisposition, applied, ignored_invalid_phase,
  CancelOutcome,
}
use bornera.Connection.Core.Integrity.{is_applied}
use bornera.Slot.Kinds.{
  core_close, abort, immediate, complete, pending, started, settlement_ready, shutdown_deadline,
  ConnectionEvent, EngineOutcome,
}
use bornera.Slot.State.{Environment, ConnectionSlot, Run, ◌>>=◌, ◌>>◌, return, guarded}
use bornera.Slot.Events.{publish_admission_opened}
use bornera.Slot.Transition.{interpret_unit, is_opened}
use bornera.Slot.Failure.{apply}

abbrev pub is_connecting_state : TransportState → Bool
is_connecting_state connecting = true
is_connecting_state _ = false

-- The least of the deadlines that are set.
abbrev pub earlier : Option Deadline → Option Deadline → Option Deadline
earlier none b = b
earlier (some a) none = some a
earlier (some a) (some b) = if leb a b then some a else some b

module _ {env : Environment} where
  unfoldable pub is_transport_open : ConnectionSlot env → Bool
  is_transport_open s = is_opened s.transport_state

  unfoldable pub is_connecting : ConnectionSlot env → Bool
  is_connecting s = is_connecting_state s.transport_state

  unfoldable pub transport_release_ready : ConnectionSlot env → Bool
  transport_release_ready s = elim s.close_request [
    | none ↦ false
    | some directive ↦ settlement_ready directive
  ]

  unfoldable pub record_transport_failure :
      TransportDiagnostic → ConnectionSlot env → ConnectionSlot env
  record_transport_failure diagnostic s = record s { transport_diagnostic = some diagnostic }

  unfoldable pub next_deadline : ConnectionSlot env → Option Deadline
  unfolding is_connecting
  next_deadline s =
      let connect : Option Deadline = if is_connecting s then some s.connect_deadline else none in
      let shutdown : Option Deadline = elim s.close_request [
        | none ↦ none
        | some directive ↦ shutdown_deadline directive
      ] in
      earlier (env.timers.next_deadline s.timers)
        (earlier connect (earlier s.drain_deadline shutdown))

  -- `force_shutdown_settlement`
  unfoldable pub force_shutdown_settlement : CloseReason → ConnectionSlot env → ConnectionSlot env
  force_shutdown_settlement reason s = record s {
    close_request = some (core_close reason immediate);
  }

  unfoldable pub force_shutdown : ConnectionSlot env → ConnectionSlot env × Bool
  unfolding force_shutdown_settlement
  force_shutdown s = elim s.close_request [
    | none ↦ (s, false)
    | some directive ↦ elim directive [
      | abort ↦ (s, false)
      | core_close reason shutdown ↦ elim shutdown [
        | immediate ↦ (s, false)
        | complete ↦ (s, false)
        | pending deadline ↦ (force_shutdown_settlement reason s, true)
        | started deadline ↦ (force_shutdown_settlement reason s, true)
      ]
    ]
  ]

  unfoldable pub cancel_inner : OperationId → Run (ConnectionSlot env) CancelOutcome
  cancel_inner operation s =
      (do
        t ← apply (ConnectionInput.cancel s.core.machine.epoch operation)
        interpret_unit t
        return (elim t.cancel_outcome [
          | none ↦ CancelOutcome.already_terminal
          | some outcome ↦ outcome
        ]))
        s

  -- The deadline is kept if the input was applied.
  abbrev pub set_drain :
      Deadline → ConnectionTransition (Unit {0}) → Run (ConnectionSlot env) (Unit {0})
  set_drain deadline t s =
      (if is_applied t.disposition then record s { drain_deadline = some deadline } else s, ok tt)

  unfoldable pub begin_drain_inner : Deadline → Run (ConnectionSlot env) InputDisposition
  begin_drain_inner deadline s =
      (do
        t ← apply (ConnectionInput.begin_drain s.core.machine.epoch)
        set_drain deadline t
        interpret_unit t
        return t.disposition)
        s

  unfoldable pub request_close : CloseReason → Run (ConnectionSlot env) InputDisposition
  request_close reason s =
      (do
        t ← apply (ConnectionInput.close_requested s.core.machine.epoch reason)
        interpret_unit t
        return t.disposition)
        s

  unfoldable pub finalize_inner : CloseReason → Run (ConnectionSlot env) InputDisposition
  unfolding force_shutdown request_close
  finalize_inner reason s =
      let forced = force_shutdown s in
      let requested = request_close reason forced.0 in
      if forced.1 then (forced.0, ok applied) else requested

  unfoldable pub open_admission_live : Run (ConnectionSlot env) InputDisposition
  open_admission_live s =
      (do
        t ← apply (ConnectionInput.open_admission s.core.machine.epoch)
        interpret_unit t
        if is_applied t.disposition then publish_admission_opened else return tt
        return t.disposition)
        s

  unfoldable pub open_admission_inner : Run (ConnectionSlot env) InputDisposition
  unfolding open_admission_live
  open_admission_inner s =
      if is_transport_open s then open_admission_live s else (s, ok ignored_invalid_phase)

  unfoldable pub open_admission : Run (ConnectionSlot env) InputDisposition
  unfolding guarded
  open_admission = guarded open_admission_inner

  unfoldable pub cancel : OperationId → Run (ConnectionSlot env) CancelOutcome
  unfolding guarded
  cancel operation = guarded (cancel_inner operation)

  unfoldable pub begin_drain : Deadline → Run (ConnectionSlot env) InputDisposition
  unfolding guarded
  begin_drain deadline = guarded (begin_drain_inner deadline)

  unfoldable pub finalize : CloseReason → Run (ConnectionSlot env) InputDisposition
  unfolding guarded
  finalize reason = guarded (finalize_inner reason)

  -- What the drains give back, and the slot without it.
  unfoldable pub drain_outcomes :
      ConnectionSlot env → ConnectionSlot env × List (EngineOutcome env.frame)
  drain_outcomes s =
      (record s { outcomes = env.outcomes.drain s.outcomes }, env.outcomes.items s.outcomes)

  unfoldable pub drain_events : ConnectionSlot env → ConnectionSlot env × List ConnectionEvent
  drain_events s =
      (record s { lifecycle = env.events.drain s.lifecycle }, env.events.items s.lifecycle)
