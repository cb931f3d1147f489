-- ===== src/Slot/Steady/Closes.antt =====
-- crates/bornera/src/failure.rs: calls of the core, and the closes of its epoch, are steady steps.
use bornera.Prelude.{refl, Result-cases, inl, inr}
use bornera.Operation.{CloseReason}
use bornera.Framing.{
  FrameDecodeError, decoder_failed, retained_byte_capacity, input_size_overflow, decoder_error,
  retained_contract_violation,
}
use bornera.Connection.Effect.{ConnectionTransition, ConnectionInput, InboundReply}
use bornera.Connection.Core.State.{Op}
use bornera.Slot.Frame.{OutboundFrame}
use bornera.Slot.State.{Environment, ConnectionSlot, Run, ◌>>=◌, ◌>>◌}
use bornera.Slot.Transition.{retained, interpret_unit, interpret_reply}
use bornera.Slot.Failure.{
  core_call, apply, apply_reply, close_malformed, close_for, close_decode_error,
}
use bornera.Slot.Steady.{SlotSteady, >>=-Steady}
use bornera.Slot.Steady.Effects.{interpret_unit-Steady, interpret_reply-Steady}

module _ {env : Environment} where
  pub core_call-Steady :
      {A : Type 0} (op : Op OutboundFrame env.byte_budget A) → SlotSteady {env = env} (core_call op)
  core_call-Steady op s = elim (Result-cases (op s.core).1) [
    | inl (a, e) ↦
        rw (e, core_call) (record { state_kept = refl; limits_kept = refl; numbered = λ h. h }, tt)
    | inr (failure, e) ↦
        rw (e, core_call)
          (record { state_kept = refl; limits_kept = refl; numbered = λ h. h }, refl)
  ]

  -- An input of the core, and its transition carried out.
  pub apply-Steady :
      (input : ConnectionInput) → SlotSteady {env = env} (do t ← apply input; interpret_unit t)
  unfolding apply
  apply-Steady input =
      >>=-Steady (λ s. s) (apply input) interpret_unit (core_call-Steady _) interpret_unit-Steady

  pub close_for-Steady : (reason : CloseReason) → SlotSteady {env = env} (close_for reason)
  unfolding close_for
  close_for-Steady reason s =
      apply-Steady (ConnectionInput.close_requested s.core.machine.epoch reason) s

  pub close_malformed-Steady : SlotSteady {env = env} close_malformed
  unfolding close_malformed
  close_malformed-Steady s = apply-Steady (ConnectionInput.reply_malformed s.core.machine.epoch) s

  pub close_decode_error-Steady :
      {E : Type 0} (e : FrameDecodeError E) → SlotSteady {env = env} (close_decode_error e)
  unfolding close_decode_error
  close_decode_error-Steady (retained_byte_capacity retained incoming limit) = close_for-Steady _
  close_decode_error-Steady input_size_overflow = close_for-Steady _
  close_decode_error-Steady (retained_contract_violation retained limit) = close_for-Steady _
  close_decode_error-Steady decoder_failed = close_malformed-Steady
  close_decode_error-Steady (decoder_error e) = close_malformed-Steady

  -- An input of the core, its transition carried out, and what comes after.
  pub apply_then-Steady :
      {A : Type 0} (input : ConnectionInput)
      (k : ConnectionTransition (Unit {0}) → Run (ConnectionSlot env) A)
      → ((t : ConnectionTransition (Unit {0})) → SlotSteady (k t))
      → SlotSteady (do t ← apply input; interpret_unit t; k t)
  unfolding apply
  apply_then-Steady input k hk =
      >>=-Steady (λ s. s) (apply input) (λ t. interpret_unit t >> k t) (core_call-Steady _)
        (λ t.
          >>=-Steady (λ s. s) (interpret_unit t) (λ _. k t) (interpret_unit-Steady t) (λ _. hk t))

  pub reply-Steady :
      (received : InboundReply env.frame)
      → SlotSteady {env = env} (do t ← apply_reply {env = env} received; interpret_reply t)
  unfolding apply_reply
  reply-Steady received =
      >>=-Steady (λ s. s) (apply_reply {env = env} received) interpret_reply (core_call-Steady _)
        interpret_reply-Steady
