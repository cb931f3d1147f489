-- ===== src/Slot/Steady/Drive.antt =====
-- crates/bornera/src/drive/deadline.rs, application.rs, transport.rs and pressure.rs: the steps that
-- drive a slot are steady.
use bornera.Prelude.{
  ℕ, zero, suc, ◌+◌, ◌≡◌, refl, Bool, false, not, ◌||◌, Option, none, some, List, take, Result, ok,
  Result-cases, Option-cases, inl, inr, ◌⊎◌, subst, ltb, leb, ◌==◌, if◌then◌else◌, is_some,
}
use bornera.Operation.{
  CloseReason, transport_lost, inbound_retained_capacity, requested, connect_timed_out,
}
use bornera.Framing
use bornera.Framing.{FrameDriver, FrameDecodeError}
use bornera.Write.Frame.{WriteSlice}
use bornera.Transport.Port.{SlotTransport}
use bornera.Identity.{MatchKey}
use bornera.Transport.Diagnostic
use bornera.Transport.Diagnostic.{
  IoError, TransportFailurePhase, TransportFailureKind, TransportError, ErrorKind,
}
use bornera.Connection.Effect.{ConnectionInput}
use bornera.Slot.Kinds.{DeadlineEvent}
use bornera.Slot.State.{Environment, ConnectionSlot, ◌>>=◌}
use bornera.Slot.Transition.{interpret_unit}
use bornera.Slot.Failure.{close_for, core_call}
use bornera.Slot.Control.{record_transport_failure}
use bornera.Slot.Deadlines.{
  Round, no_work, last_work, more_work, drain_is_first, connect_is_first, drain_timed_out,
  deadline_elapsed, deadline_round, drop_token, deadline_rounds, drive_deadlines,
}
use bornera.Slot.Pressure.{diverged, observe_transport_pressure, capture_transport_pressure}
use bornera.Slot.Application.{
  buffered_read_bytes, take_frame, drive_decoder_once, feed_decoder, lose_transport, take_read,
  confirm_written,
}
use bornera.Slot.Establish.{fail_transport}
use bornera.Slot.Steady.{Moved, still, via, if-Fine, return-Steady, IsFresh, SlotSteady, >>=-Steady}
use bornera.Slot.Steady.Effects.{interpret_unit-Steady}
use bornera.Slot.Steady.Closes.{
  core_call-Steady, close_for-Steady, apply_then-Steady, close_malformed-Steady,
  close_decode_error-Steady, reply-Steady,
}

pub Round-cases : (r : Round) → (r ≡ no_work) ⊎ (r ≡ last_work) ⊎ (r ≡ more_work)
Round-cases no_work = inl refl
Round-cases last_work = inr (inl refl)
Round-cases more_work = inr (inr refl)

module _ {env : Environment} where
  drop_token-Moved : (token : ℕ) (s : ConnectionSlot env) → Moved s (drop_token token s)
  unfolding drop_token
  drop_token-Moved token s = record { state_kept = refl; limits_kept = refl; numbered = λ h. h }

  deadline_elapsed-Steady :
      (now token : ℕ) (event : DeadlineEvent)
      → SlotSteady {env = env} (deadline_elapsed now token event)
  unfolding deadline_elapsed
  deadline_elapsed-Steady now token event s =
      via (λ s'. s') s (drop_token token s) _ (drop_token-Moved token s)
        (apply_then-Steady (ConnectionInput.deadline_elapsed event.epoch event.operation now)
          (λ _ s'. (s', ok (if is_some s'.close_request then last_work else more_work)))
          (λ _ s'. (still s', tt)) (drop_token token s))

  drain_timed_out-Steady : SlotSteady {env = env} drain_timed_out
  unfolding drain_timed_out record_transport_failure
  drain_timed_out-Steady s =
      let noted : ConnectionSlot env =
        record (record_transport_failure
          (Diagnostic.new TransportFailurePhase.shutdown TransportFailureKind.timed_out
            ErrorKind.timed_out none)
          s) { drain_deadline = none } in
      via (λ s'. s') s noted _ (record { state_kept = refl; limits_kept = refl; numbered = λ h. h })
        (close_for-Steady requested noted)

  deadline_round-Steady : (now : ℕ) → SlotSteady {env = env} (deadline_round now)
  unfolding deadline_round
  deadline_round-Steady now s =
      if-Fine (λ s'. s') (drain_is_first now s) s _ _
        (return-Steady (λ s'. s') drain_timed_out last_work drain_timed_out-Steady s)
        (if-Fine (λ s'. s') (connect_is_first now s) s _ _
          (return-Steady (λ s'. s') (close_for connect_timed_out) last_work
            (close_for-Steady connect_timed_out) s)
          (elim (Option-cases (env.timers.pop_due s.timers now)) [
            | inl e ↦ rw e (still s, tt)
            | inr ((timers, token, event), e) ↦
                let popped : ConnectionSlot env = record s { timers = timers } in
                rw e (
                  via (λ s'. s') s popped _
                    (record { state_kept = refl; limits_kept = refl; numbered = λ h. h })
                    (deadline_elapsed-Steady now token event popped))
          ]))

  deadline_rounds-Steady :
      (now work left : ℕ) → SlotSteady {env = env} (deadline_rounds now work left)
  unfolding deadline_rounds
  deadline_rounds-Steady now work zero s = (still s, tt)
  deadline_rounds-Steady now work (suc left) s = elim (Result-cases (deadline_round now s).1) [
    | inr (e, h) ↦
        rw (h, deadline_rounds, ◌>>=◌)
          ((deadline_round-Steady now s).0, subst IsFresh h (deadline_round-Steady now s).1)
    | inl (round, h) ↦
        let s' : ConnectionSlot env = (deadline_round now s).0 in
        let moved : Moved s s' = (deadline_round-Steady now s).0 in
        elim (Round-cases round) [
          | inl e ↦ rw (h, e, deadline_rounds, ◌>>=◌) (moved, tt)
          | inr (inl e) ↦ rw (h, e, deadline_rounds, ◌>>=◌) (moved, tt)
          | inr (inr e) ↦
              rw (h, e, deadline_rounds, ◌>>=◌, IsFresh)
                (via (λ s. s) s s' _ moved (deadline_rounds-Steady now (work + 1) left s'))
        ]
  ]

  pub drive_deadlines-Steady :
      (now budget : ℕ) → SlotSteady {env = env} (drive_deadlines now budget)
  unfolding drive_deadlines
  drive_deadlines-Steady now budget = deadline_rounds-Steady now 0 budget

  take_frame-Steady : (frame : env.frame) → SlotSteady {env = env} (take_frame frame)
  unfolding take_frame
  take_frame-Steady frame s =
      let keyed : env.classifier_state × Option MatchKey = env.reply_key s.classifier frame in
      let classified : ConnectionSlot env = record s { classifier = keyed.0 } in
      let moved : Moved s classified = record {
        state_kept = refl;
        limits_kept = refl;
        numbered = λ h. h;
      } in
      if-Fine (λ s'. s') (ltb s.limits.decoder.reply_bytes (env.retained_bytes frame)) s _ _
        (close_for-Steady inbound_retained_capacity s)
        (elim (Option-cases keyed.1) [
          | inl e ↦ rw e (via (λ s'. s') s classified _ moved (close_malformed-Steady classified))
          | inr (found, e) ↦ rw e (
              via (λ s'. s') s classified _ moved
                (reply-Steady (record { epoch = s.core.machine.epoch; key = found; frame = frame })
                  classified))
        ])

  pub drive_decoder_once-Steady : SlotSteady {env = env} drive_decoder_once
  unfolding drive_decoder_once
  drive_decoder_once-Steady s =
      let next : FrameDriver env.decoder_state
          × Result (Option env.frame) (FrameDecodeError env.decode_error) =
        Framing.next_frame env.adapter s.decoder in
      let s' : ConnectionSlot env = record s { decoder = next.0 } in
      let rested : ConnectionSlot env = record s' { decoder_pending = false } in
      let moved : Moved s s' = record {
        state_kept = refl;
        limits_kept = refl;
        numbered = λ h. h;
      } in
      let at_rest : Moved s rested = record {
        state_kept = refl;
        limits_kept = refl;
        numbered = λ h. h;
      } in
      elim (Result-cases next.1) [
        | inr (e, h) ↦
            rw (h, drive_decoder_once)
              (via (λ s. s) s rested _ at_rest (close_decode_error-Steady e rested))
        | inl (found, h) ↦ elim (Option-cases found) [
          | inr (frame, h') ↦
              rw (h, h', drive_decoder_once)
                (via (λ s. s) s s' _ moved (take_frame-Steady frame s'))
          | inl h' ↦
              rw (h, h', drive_decoder_once)
                (if-Fine (λ s. s) (leb s.limits.decoder.buffered_bytes (buffered_read_bytes rested))
                  s _ _
                  (via (λ s. s) s rested _ at_rest
                    (close_for-Steady inbound_retained_capacity rested))
                  (at_rest, tt))
        ]
      ]

  feed_decoder-Steady : (bytes : List ℕ) → SlotSteady {env = env} (feed_decoder bytes)
  unfolding feed_decoder
  feed_decoder-Steady bytes s =
      let fed : FrameDriver env.decoder_state
          × Result (Unit {0}) (FrameDecodeError env.decode_error) =
        Framing.feed env.adapter ⦃host = env.host⦄ s.decoder bytes in
      let s' : ConnectionSlot env = record s { decoder = fed.0 } in
      elim (Result-cases fed.1) [
        | inr (e, h) ↦
            rw (h, feed_decoder)
              (via (λ s. s) s s' _
                (record { state_kept = refl; limits_kept = refl; numbered = λ h. h })
                (close_decode_error-Steady e s'))
        | inl (_, h) ↦
            rw (h, feed_decoder)
              (record { state_kept = refl; limits_kept = refl; numbered = λ h. h }, tt)
      ]

  pub lose_transport-Steady :
      (phase : TransportFailurePhase) (source : IoError)
      → SlotSteady {env = env} (lose_transport phase source)
  unfolding lose_transport record_transport_failure
  lose_transport-Steady phase source s =
      let noted : ConnectionSlot env =
        record_transport_failure (Diagnostic.from_io phase source) s in
      via (λ s. s) s noted _ (record { state_kept = refl; limits_kept = refl; numbered = λ h. h })
        (close_for-Steady transport_lost noted)

  pub take_read-Steady : (room read : ℕ) → SlotSteady {env = env} (take_read room read)
  unfolding take_read
  take_read-Steady room read s =
      if-Fine (λ s. s) (read == 0) s _ _ (close_for-Steady transport_lost s)
        (if-Fine (λ s. s) (ltb room read) s _ _ (still s, refl)
          (feed_decoder-Steady (take read s.read_buffer) s))

  pub confirm_written-Steady :
      (front : WriteSlice) (written : ℕ) → SlotSteady {env = env} (confirm_written front written)
  unfolding confirm_written
  confirm_written-Steady front written =
      >>=-Steady (λ s. s) (core_call _) interpret_unit (core_call-Steady _) interpret_unit-Steady

  pub fail_transport-Steady :
      (reason : CloseReason) (source : TransportError)
      → SlotSteady {env = env} (fail_transport reason source)
  unfolding fail_transport record_transport_failure
  fail_transport-Steady reason source s =
      let noted : ConnectionSlot env = record_transport_failure source.diagnostic s in
      via (λ s. s) s noted _ (record { state_kept = refl; limits_kept = refl; numbered = λ h. h })
        (return-Steady (λ s. s) (close_for reason) (some 1) (close_for-Steady reason) noted)

module _ {env : Environment} {T : Type 0} ⦃port : SlotTransport T⦄ where
  pub capture-Steady :
      (transport : T) → SlotSteady {env = env} (capture_transport_pressure transport)
  unfolding capture_transport_pressure diverged record_transport_failure observe_transport_pressure
  capture-Steady transport s =
      let limit : ℕ = port.pressure_limit transport in
      let rebound : Bool = elim s.transport_retained_limit [
        | none ↦ false
        | some bound ↦ not (bound == limit)
      ] in
      if-Fine (λ s. s) (ltb s.limits.transport.retained_bytes limit || rebound) s _ _
        (record { state_kept = refl; limits_kept = refl; numbered = λ h. h }, refl)
        (if-Fine (λ s. s) (leb (port.pressure transport).total limit) s _ _
          (record { state_kept = refl; limits_kept = refl; numbered = λ h. h }, tt)
          (record { state_kept = refl; limits_kept = refl; numbered = λ h. h }, refl))
