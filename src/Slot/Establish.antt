-- ===== src/Slot/Establish.antt =====
-- crates/bornera/src/drive/transport.rs: establishment of the transport, and its own work.
use bornera.Prelude.{ℕ, not, ◌&&◌, Option, none, some, ◌==◌, if◌then◌else◌, Result, ok, err}
use bornera.Operation.{CloseReason, connect_failed, transport_lost}
use bornera.Transport.Port.{SlotTransport}
use bornera.Transport.Progress.{TransportBudget, TransportProgress, fits, is_idle}
use bornera.Transport.Diagnostic.{opened, TransportError}
use bornera.Slot.Kinds.{
  EngineError, invariant_error, transport_progress_contract, transport_no_progress,
  transport_opened_before_establishment,
}
use bornera.Slot.State.{Environment, ConnectionSlot, Run, ◌>>◌, return, lift}
use bornera.Slot.Events.{publish_transport_opened}
use bornera.Slot.Failure.{close_for}
use bornera.Slot.Control.{is_connecting, record_transport_failure}

unfoldable pub validate_transport_progress :
    TransportBudget → TransportProgress → Result (Unit {0}) EngineError
validate_transport_progress budget progress =
    if not (fits progress budget)
    then err (invariant_error (transport_progress_contract budget progress))
    else (if is_idle progress then err (invariant_error transport_no_progress) else ok tt)

module _ {env : Environment} where
  -- One operation, and a chunk each way.
  unfoldable pub transport_budget : ConnectionSlot env → TransportBudget
  transport_budget s = record {
    operations = 1;
    read_bytes = s.limits.io.chunk_bytes;
    write_bytes = s.limits.io.chunk_bytes;
  }

  -- A failure of the transport: noted, and the epoch is closed for the reason.
  unfoldable pub fail_transport : CloseReason → TransportError → Run (ConnectionSlot env) (Option ℕ)
  unfolding record_transport_failure
  fail_transport reason source s =
      (do close_for reason; return (some 1)) (record_transport_failure source.diagnostic s)

module _ {env : Environment} {T : Type 0} ⦃port : SlotTransport T⦄ where
  -- After a step of establishment that is within its contract.
  unfoldable pub note_opened : Run (ConnectionSlot env × T) (Unit {0})
  note_opened (s, transport) =
      if port.is_open transport
      then lift publish_transport_opened (record s { transport_state = opened }, transport)
      else ((s, transport), ok tt)

  unfoldable pub establish : Run (ConnectionSlot env × T) (Option ℕ)
  unfolding validate_transport_progress transport_budget fail_transport note_opened
  establish (s, transport) =
      let budget = transport_budget s in
      let (transport', result) = port.drive_establishment transport s.socket_policy budget in
      elim result [
        | err source ↦ lift (fail_transport connect_failed source) (s, transport')
        | ok progress ↦ elim (validate_transport_progress budget progress) [
          | err e ↦ ((s, transport'), err e)
          | ok _ ↦ (do note_opened; return (some progress.operations)) (s, transport')
        ]
      ]

  unfoldable pub work_transport : Run (ConnectionSlot env × T) (Option ℕ)
  unfolding validate_transport_progress transport_budget fail_transport
  work_transport (s, transport) =
      let budget = transport_budget s in
      let (transport', result) = port.drive_transport transport budget in
      elim result [
        | err source ↦ lift (fail_transport transport_lost source) (s, transport')
        | ok progress ↦ elim (validate_transport_progress budget progress) [
          | err e ↦ ((s, transport'), err e)
          | ok _ ↦ ((s, transport'), ok (some progress.operations))
        ]
      ]

  unfoldable pub drive_transport_once : ℕ → Run (ConnectionSlot env × T) (Option ℕ)
  unfolding establish work_transport
  drive_transport_once remaining (s, transport) =
      let idle : Result (Option ℕ) EngineError = ok none in
      if is_connecting s && port.is_open transport
      then ((s, transport), err (invariant_error transport_opened_before_establishment))
      else (if remaining == 0
          then ((s, transport), idle)
          else (if is_connecting s
              then (if port.can_establish transport
                  then establish (s, transport)
                  else ((s, transport), idle))
              else (if port.has_transport_work transport
                  then work_transport (s, transport)
                  else ((s, transport), idle))))
