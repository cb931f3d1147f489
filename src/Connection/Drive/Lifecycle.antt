-- ===== src/Connection/Drive/Lifecycle.antt =====
-- connection/lifecycle.rs, and `open_admission` of connection/drive.rs: the phases of an epoch.
use bornera.Prelude.{not, ◌&&◌, ◌||◌, ◌==◌, if◌then◌else◌}
use bornera.Host.{Calandria}
use bornera.Identity.{ConnectionEpoch}
use bornera.Admission.Options.{
  AdmissionGate, opened, draining, is_session_only, is_closed_or_draining,
}
use bornera.Operation.{CloseReason}
use bornera.Connection.Effect
use bornera.Connection.Effect.{
  ConnectionTransition, ConnectionEffect, ConnectionInput, InboundReply, InputDisposition,
  CancelOutcome, applied, ignored_stale_epoch, ignored_unknown_operation, ignored_stale_effect,
  ignored_invalid_phase, fault, cancelled_not_sent, observation_cancelled, discard_write,
  cancel_deadline, publish_outcome, publish_failed, schedule_deadline, with_cancelled,
}
use bornera.Connection.Machine.{
  ConnectionMachine, ConnectionPhase, is_live, is_closing, close_into, finish_drain,
}
use bornera.Connection.Drive.Outcomes.{Outcome}

module _ ⦃host : Calandria⦄ where
  unfoldable pub open_admission : ConnectionMachine → ConnectionEpoch → Outcome (Unit {0})
  open_admission m epoch =
      if not (epoch == m.epoch)
      then (m, Effect.new ignored_stale_epoch)
      else (if is_live m.phase && is_session_only m.gate
          then (record m { gate = opened }, Effect.new applied)
          else (m, Effect.new ignored_invalid_phase))

  unfoldable pub begin_drain : ConnectionMachine → ConnectionEpoch → Outcome (Unit {0})
  begin_drain m epoch =
      if not (epoch == m.epoch)
      then (m, Effect.new ignored_stale_epoch)
      else (if not (is_live m.phase) || is_closed_or_draining m.gate
          then (m, Effect.new ignored_invalid_phase)
          else finish_drain (record m { gate = draining }) (Effect.new applied))

  unfoldable pub close_requested :
      ConnectionMachine → ConnectionEpoch → CloseReason → Outcome (Unit {0})
  close_requested m epoch reason =
      if not (epoch == m.epoch)
      then (m, Effect.new ignored_stale_epoch)
      else (if not (is_live m.phase)
          then (m, Effect.new ignored_invalid_phase)
          else close_into m reason (Effect.new applied))

  unfoldable pub epoch_closed : ConnectionMachine → ConnectionEpoch → Outcome (Unit {0})
  epoch_closed m epoch =
      if not (epoch == m.epoch)
      then (m, Effect.new ignored_stale_epoch)
      else (if not (is_closing m.phase) then (m, Effect.new ignored_invalid_phase) else (
        record m { phase = ConnectionPhase.closed; gate = AdmissionGate.closed },
        Effect.new applied,
      ))
