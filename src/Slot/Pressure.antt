-- ===== src/Slot/Pressure.antt =====
-- crates/bornera/src/drive/pressure.rs: the memory that the transport says it retains.
use bornera.Prelude.{
  ℕ, Bool, true, false, not, ◌||◌, none, some, ltb, leb, ◌==◌, if◌then◌else◌, Result, ok, err,
}
use bornera.Transport.Port.{SlotTransport}
use bornera.Transport.Diagnostic
use bornera.Transport.Diagnostic.{ErrorKind, TransportFailurePhase, TransportFailureKind}
use bornera.Slot.Kinds.{
  EngineError, EngineInvariant, invariant_error, transport_limit_contract,
  transport_retained_capacity,
}
use bornera.Slot.State.{Environment, ConnectionSlot, Run}
use bornera.Slot.Control.{record_transport_failure}

module _ {env : Environment} {T : Type 0} ⦃port : SlotTransport T⦄ where
  unfoldable pub observe_transport_pressure : T → ConnectionSlot env → ConnectionSlot env
  observe_transport_pressure transport s = record s {
    transport_pressure = some (port.pressure transport);
  }

  -- A contract is broken: noted, and reported.
  unfoldable pub diverged :
      T
      → TransportFailureKind
      → EngineInvariant
      → ConnectionSlot env
      → ConnectionSlot env × Result (Unit {0}) EngineError
  unfolding observe_transport_pressure record_transport_failure
  diverged transport failure source s = (
    record_transport_failure
        (Diagnostic.new TransportFailurePhase.pressure failure ErrorKind.other none)
        (record (observe_transport_pressure transport s) { transport_contract_diverged = true }),
    err (invariant_error source),
  )

  unfoldable pub capture_transport_pressure : T → Run (ConnectionSlot env) (Unit {0})
  unfolding diverged
  capture_transport_pressure transport s =
      let slot_limit = s.limits.transport.retained_bytes in
      let reported_limit = port.pressure_limit transport in
      let expected_limit : ℕ = elim s.transport_retained_limit [ none ↦ slot_limit | some b ↦ b ] in
      let rebound : Bool = elim s.transport_retained_limit [
        | none ↦ false
        | some bound ↦ not (bound == reported_limit)
      ] in
      let bound : ConnectionSlot env = record s {
        transport_retained_limit = some reported_limit;
      } in
      if ltb slot_limit reported_limit || rebound
      then diverged transport TransportFailureKind.contract
          (transport_limit_contract expected_limit reported_limit) s
      else (if leb (port.pressure transport).total reported_limit
          then (observe_transport_pressure transport bound, ok tt)
          else diverged transport TransportFailureKind.capacity
              (transport_retained_capacity reported_limit (port.pressure transport)) bound)
