-- ===== src/Slot/Recovery.antt =====
-- crates/bornera/src/recovery.rs: what a slot gives back when it cannot go on.
use bornera.Prelude.{ℕ, Bool, ◌||◌, Option, some, List, ◌++◌}
use bornera.Identity.{ConnectionEpoch}
use bornera.Write.Frame.{DiscardedWrite}
use bornera.Transport.Pressure.{TransportPressure}
use bornera.Transport.Diagnostic.{TransportDiagnostic}
use bornera.Connection.Core.Recovery.{RecoveredOperation}
use bornera.Connection.Core.Recovery
use bornera.Slot.Frame.{OutboundFrame}
use bornera.Slot.Kinds.{OwnerFailure, EngineOutcome, ConnectionEvent}
use bornera.Slot.State.{Environment, ConnectionSlot}

pub record RecoveryReport (F R : Type 0) : Type 0 where
  pub epoch : ConnectionEpoch
  pub reason : OwnerFailure
  pub operations : List (RecoveredOperation F)
  pub unmatched_writes : List (DiscardedWrite F)
  pub outcomes : List (EngineOutcome R)
  pub events : List ConnectionEvent
  pub transport_diagnostic : Option TransportDiagnostic
  pub transport_pressure : Option TransportPressure
  pub transport_retained_limit : Option ℕ
  pub transport_retained_ceiling : Option ℕ
  pub ownership_diverged : Bool

module _ {env : Environment} where
  unfoldable pub recover_owned :
      OwnerFailure
      → Bool
      → ConnectionSlot env
      → ConnectionSlot env × RecoveryReport OutboundFrame env.frame
  recover_owned reason cleanup_failed s =
      let (core, recovery) = Recovery.recover ⦃host = env.host⦄ ⦃lib = env.budgets⦄ s.core in
      (
        record s {
          core = core;
          outcomes = env.outcomes.drain s.outcomes;
          recovery_outcomes = env.outcomes.drain s.recovery_outcomes;
          lifecycle = env.events.drain s.lifecycle;
          recovery_events = env.events.drain s.recovery_events;
        },
        record {
          epoch = recovery.epoch;
          reason = reason;
          operations = recovery.operations;
          unmatched_writes = recovery.unmatched_writes;
          outcomes = env.outcomes.items s.outcomes ++ env.outcomes.items s.recovery_outcomes;
          events = env.events.items s.lifecycle ++ env.events.items s.recovery_events;
          transport_diagnostic = s.transport_diagnostic;
          transport_pressure = s.transport_pressure;
          transport_retained_limit = s.transport_retained_limit;
          transport_retained_ceiling = some s.limits.transport.retained_bytes;
          ownership_diverged =
              recovery.ownership_diverged || cleanup_failed || s.transport_contract_diverged;
        },
      )
