-- ===== src/Slot/Failure.antt =====
-- crates/bornera/src/failure.rs: faults of the transport and of the decoder close the core.
use bornera.Prelude.{ok, err}
use bornera.Operation.{CloseReason, inbound_retained_capacity}
use bornera.Framing.{
  FrameDecodeError, decoder_failed, retained_byte_capacity, input_size_overflow, decoder_error,
  retained_contract_violation,
}
use bornera.Connection.Effect.{ConnectionTransition, ConnectionInput, InboundReply}
use bornera.Connection.Core.State.{Op}
use bornera.Connection.Core.Drive
use bornera.Slot.Frame.{OutboundFrame}
use bornera.Slot.Kinds.{core_error}
use bornera.Slot.State.{Environment, ConnectionSlot, Run, ◌>>=◌}
use bornera.Slot.Transition.{interpret_unit}

module _ {env : Environment} where
  -- A call of the core, `map_err(EngineError::Core)`.
  abbrev pub core_call :
      {A : Type 0} → Op OutboundFrame env.byte_budget A → Run (ConnectionSlot env) A
  core_call op s =
      let r = op s.core in
      (record s { core = r.0 }, elim (r.1) [ ok a ↦ ok a | err e ↦ err (core_error e) ])

  unfoldable pub apply :
      ConnectionInput → Run (ConnectionSlot env) (ConnectionTransition (Unit {0}))
  apply input =
      core_call (Drive.apply ⦃host = env.host⦄ ⦃lib = env.budgets⦄ env.debug_assertions input)

  unfoldable pub apply_reply :
      InboundReply env.frame → Run (ConnectionSlot env) (ConnectionTransition env.frame)
  apply_reply received =
      core_call
        (Drive.apply_reply ⦃host = env.host⦄ ⦃lib = env.budgets⦄ env.debug_assertions received)

  unfoldable pub close_malformed : Run (ConnectionSlot env) (Unit {0})
  close_malformed s =
      (do t ← apply (ConnectionInput.reply_malformed s.core.machine.epoch); interpret_unit t) s

  unfoldable pub close_for : CloseReason → Run (ConnectionSlot env) (Unit {0})
  close_for reason s =
      (do t ← apply (ConnectionInput.close_requested s.core.machine.epoch reason); interpret_unit t)
        s

  unfoldable pub close_decode_error :
      {E : Type 0} → FrameDecodeError E → Run (ConnectionSlot env) (Unit {0})
  close_decode_error (retained_byte_capacity retained incoming limit) =
      close_for inbound_retained_capacity
  close_decode_error input_size_overflow = close_for inbound_retained_capacity
  close_decode_error (retained_contract_violation retained limit) =
      close_for inbound_retained_capacity
  close_decode_error decoder_failed = close_malformed
  close_decode_error (decoder_error e) = close_malformed
