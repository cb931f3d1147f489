-- ===== src/Connection/Fencing.antt =====
-- Inputs of another epoch, and the order of the phases of one.
use bornera.Prelude.{ℕ, ◌≤◌, ◌≡◌, ◌≢◌, refl, false, Option, [], ==_ne, arith}
use bornera.Host.{Calandria}
use bornera.Identity.{ConnectionEpoch, OperationId, EffectId}
use bornera.Admission.Options.{AdmissionGate}
use bornera.Operation.{CloseReason, OperationFailure}
use bornera.Connection.Effect.{
  ConnectionTransition, ConnectionInput, InboundReply, ignored_stale_epoch,
}
use bornera.Connection.Machine.{
  ConnectionMachine, ConnectionPhase, live, closing, closed, is_live, close_with_failure_into,
  close_into, finish_drain,
}
use bornera.Connection.Drive.{
  Outcome, write_started, write_completed, cancel, cancel_queued, cancel_sent, deadline_elapsed,
  expire_queued, open_admission, begin_drain, close_requested, epoch_closed, reply_malformed,
  complete_front, apply_reply, apply,
}

abbrev pub epoch_of : ConnectionInput → ConnectionEpoch
epoch_of (ConnectionInput.open_admission epoch) = epoch
epoch_of (ConnectionInput.cancel epoch operation) = epoch
epoch_of (ConnectionInput.deadline_elapsed epoch operation now) = epoch
epoch_of (ConnectionInput.reply_malformed epoch) = epoch
epoch_of (ConnectionInput.begin_drain epoch) = epoch
epoch_of (ConnectionInput.close_requested epoch reason) = epoch
epoch_of (ConnectionInput.epoch_closed epoch) = epoch

-- Nothing happened, and it was said to be for the epoch.
abbrev pub IsIgnored : {R : Type 0} → ConnectionMachine → Outcome R → Type 0
IsIgnored m (m', t) = (m' ≡ m) × (t.effects ≡ []) × (t.disposition ≡ ignored_stale_epoch)

module _ ⦃host : Calandria⦄ (m : ConnectionMachine) where
  -- An input of another epoch changes nothing, has no effects, and is said to be stale.
  pub apply_stale :
      (input : ConnectionInput) → epoch_of input ≢ m.epoch → IsIgnored m (apply m input)
  unfolding apply open_admission cancel deadline_elapsed reply_malformed begin_drain close_requested
      epoch_closed
  apply_stale (ConnectionInput.open_admission epoch) h =
      rw (==_ne epoch m.epoch h) (refl, refl, refl)
  apply_stale (ConnectionInput.cancel epoch operation) h =
      rw (==_ne epoch m.epoch h) (refl, refl, refl)
  apply_stale _ h = rw (==_ne _ m.epoch h) (refl, refl, refl)

  -- A report of another epoch that a write has started or is complete changes nothing, has no
  -- effects, and is said to be stale.
  pub report_stale :
      (epoch : ConnectionEpoch) (operation : OperationId) (effect : EffectId)
      → epoch ≢ m.epoch
      → IsIgnored m (write_started m epoch operation effect)
        × IsIgnored m (write_completed m epoch operation effect)
  unfolding write_started write_completed
  report_stale epoch operation effect h =
      rw (==_ne epoch m.epoch h) ((refl, refl, refl), (refl, refl, refl))

  -- A reply of another epoch changes nothing, has no effects, and is said to be stale.
  pub apply_reply_stale :
      {R : Type 0} (received : InboundReply R)
      → received.epoch ≢ m.epoch
      → IsIgnored m (apply_reply m received)
  unfolding apply_reply
  apply_reply_stale received h = rw (==_ne received.epoch m.epoch h) (refl, refl, refl)

abbrev pub rank : ConnectionPhase → ℕ
rank live = 0
rank closing = 1
rank closed = 2

-- The same epoch and the same name of its ledger, no earlier in its life, with the reason that it once
-- gave for closing.
pub record IsLater (m m' : ConnectionMachine) : Type 0 where
  pub same_epoch : m'.epoch ≡ m.epoch
  pub same_ledger : m'.ledger_id ≡ m.ledger_id
  pub forward : rank m.phase ≤ rank m'.phase
  pub reason_kept : is_live m.phase ≡ false → m'.close_reason ≡ m.close_reason
  pub gate_shut :
      is_live m.phase ≡ false → m.gate ≡ AdmissionGate.closed → m'.gate ≡ AdmissionGate.closed

module _ {R : Type 0} ⦃host : Calandria⦄ (m : ConnectionMachine) where
  close-IsLater :
      (reason : CloseReason) (named : Option (OperationId × OperationFailure))
      (t : ConnectionTransition R)
      → IsLater m (close_with_failure_into m reason named t).0
  unfolding close_with_failure_into
  close-IsLater reason named t = ground arith

  finish_drain-IsLater : (t : ConnectionTransition R) → IsLater m (finish_drain m t).0
  unfolding finish_drain close_into close_with_failure_into
  finish_drain-IsLater t = ground arith

module _ ⦃host : Calandria⦄ (m : ConnectionMachine) where
  -- An input.
  pub apply-IsLater : (input : ConnectionInput) → IsLater m (apply m input).0
  unfolding apply open_admission epoch_closed close_requested reply_malformed begin_drain
      finish_drain close_into close_with_failure_into cancel cancel_queued cancel_sent
      deadline_elapsed expire_queued
  apply-IsLater (ConnectionInput.open_admission epoch) = ground arith
  apply-IsLater (ConnectionInput.cancel epoch operation) = ground arith
  apply-IsLater _ = ground arith

  -- A reply.
  pub apply_reply-IsLater :
      {R : Type 0} (received : InboundReply R) → IsLater m (apply_reply m received).0
  unfolding apply_reply complete_front finish_drain close_into close_with_failure_into
  apply_reply-IsLater received = ground arith
