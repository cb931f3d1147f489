-- ===== src/Slot/Close.antt =====
-- crates/bornera/src/slot_close.rs: the host has let the transport go.
use bornera.Prelude.{Bool, true, false, Option, none, some, if◌then◌else◌, ok, err}
use bornera.Operation.{CloseReason}
use bornera.Transport.Diagnostic.{closed}
use bornera.Connection.Effect.{ConnectionInput}
use bornera.Slot.Kinds.{
  CloseDirective, core_close, abort, immediate, complete, pending, started, settlement_ready,
}
use bornera.Slot.State.{Environment, ConnectionSlot, Run, ◌>>=◌, ◌>>◌, latch_failure}
use bornera.Slot.Events.{publish_closed}
use bornera.Slot.Transition.{interpret_unit}
use bornera.Slot.Failure.{apply}

module _ {env : Environment} where
  unfoldable pub take_close_request :
      ConnectionSlot env → ConnectionSlot env × Option CloseDirective
  take_close_request s = elim s.close_request [
    | none ↦ (s, none)
    | some directive ↦
        if settlement_ready directive
        then (record s { close_request = none }, some directive)
        else (s, none)
  ]

  unfoldable pub restore_close_request : CloseDirective → ConnectionSlot env → ConnectionSlot env
  restore_close_request directive s = record s { close_request = some directive }

  unfoldable pub abort_transport : ConnectionSlot env → ConnectionSlot env
  abort_transport s = record s {
    transport_state = closed;
    drain_deadline = none;
    close_request = none;
  }

  unfoldable pub confirm_transport_closed : CloseReason → Run (ConnectionSlot env) (Unit {0})
  confirm_transport_closed reason s =
      (do
        t ← apply (ConnectionInput.epoch_closed s.core.machine.epoch)
        interpret_unit t
        publish_closed reason)
        (record s { transport_state = closed })

  -- A close request that the core has made, and that is ready.
  unfoldable pub settle_core_closed : CloseReason → ConnectionSlot env → ConnectionSlot env
  unfolding confirm_transport_closed latch_failure abort_transport
  settle_core_closed reason s =
      let r = confirm_transport_closed reason s in
      elim (r.1) [ ok _ ↦ r.0 | err e ↦ abort_transport (latch_failure e r.0) ]

  unfoldable pub settle_transport_closed : ConnectionSlot env → ConnectionSlot env × Bool
  unfolding take_close_request settle_core_closed abort_transport
  settle_transport_closed s =
      let taken = take_close_request s in
      elim (taken.1) [
        | none ↦ (taken.0, false)
        | some directive ↦ elim directive [
          | abort ↦ (abort_transport taken.0, true)
          | core_close reason shutdown ↦ elim shutdown [
            | immediate ↦ (settle_core_closed reason taken.0, true)
            | complete ↦ (settle_core_closed reason taken.0, true)
            | pending deadline ↦ (taken.0, false)
            | started deadline ↦ (taken.0, false)
          ]
        ]
      ]
