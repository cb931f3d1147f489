-- ===== src/Slot/Steady/Quantum.antt =====
-- crates/bornera/src/drive/slot.rs: a quantum is a steady step, behind its latch.
use bornera.Prelude.{
  ℕ, zero, suc, ◌+◌, ◌-◌, not, ◌&&◌, Option, none, some, is_some, Result, Result-cases,
  Option-cases, Bool-cases, inl, inr, subst, ltb, ◌==◌,
}
use bornera.Transport.Port.{SlotTransport}
use bornera.Slot.Kinds.{
  IoPreference, transport_first, decode_first, read_first, write_first, next, EngineError,
}
use bornera.Slot.State.{Environment, ConnectionSlot, Run, ◌>>=◌, return, lift}
use bornera.Slot.Control.{is_transport_open}
use bornera.Slot.Admission.{saturating_add}
use bornera.Slot.Deadlines.{drive_deadlines}
use bornera.Slot.Pressure.{capture_transport_pressure}
use bornera.Slot.Application.{drive_decoder_once, drive_read_once, drive_write_once}
use bornera.Slot.Quantum.{
  SlotProgress, one_step, preferred_step, watched_step, ready_from, drive_ready_once, io_round,
  io_rounds, io_report, drive_io, close_report, after_io, after_deadlines, close_round,
  close_rounds, drive_close_quantum, capture_first, deadlines_first, drive_open_quantum,
  drive_quantum_inner,
}
use bornera.Slot.Steady.{
  Moved, still, via, if-Fine, return-Steady, onward, IsFresh, Fine, PairSteady, >>=-Steady,
  lift-Steady,
}
use bornera.Slot.Steady.Drive.{drive_deadlines-Steady, drive_decoder_once-Steady, capture-Steady}
use bornera.Slot.Steady.Transport.{
  drive_read_once-Steady, drive_write_once-Steady, drive_transport_once-Steady,
}
use bornera.Slot.Steady.Shutdown.{drive_shutdown_once-Steady}

module _ {env : Environment} {T : Type 0} ⦃port : SlotTransport T⦄ where
  one_step-Steady :
      (m : Run (ConnectionSlot env × T) (Option (Unit {0})))
      → PairSteady m
      → PairSteady (do progressed ← m; return (one_step progressed))
  one_step-Steady m h =
      >>=-Steady (λ st. st.0) m (λ progressed. return (one_step progressed)) h
        (λ _ st. (still st.0, tt))

  preferred_step-Steady :
      (current : IoPreference) (remaining : ℕ)
      → PairSteady {env = env} {T = T} (preferred_step current remaining)
  unfolding preferred_step
  preferred_step-Steady transport_first remaining (s, transport) =
      drive_transport_once-Steady remaining (s, transport)
  preferred_step-Steady decode_first remaining (s, transport) =
      if-Fine (λ st. st.0) s.decoder_pending (s, transport) _ _
        (return-Steady (λ st. st.0) (lift drive_decoder_once) (some 1)
          (lift-Steady drive_decoder_once drive_decoder_once-Steady) (s, transport))
        (still s, tt)
  preferred_step-Steady read_first remaining (s, transport) =
      if-Fine (λ st. st.0) (is_transport_open s) (s, transport) _ _
        (one_step-Steady drive_read_once drive_read_once-Steady (s, transport)) (still s, tt)
  preferred_step-Steady write_first remaining (s, transport) =
      if-Fine (λ st. st.0) (is_transport_open s) (s, transport) _ _
        (one_step-Steady drive_write_once drive_write_once-Steady (s, transport)) (still s, tt)

  watched_step-Steady :
      (current : IoPreference) (remaining : ℕ)
      → PairSteady {env = env} {T = T} (watched_step current remaining)
  unfolding watched_step
  watched_step-Steady current remaining st =
      let stepped : (ConnectionSlot env × T) × Result (Option ℕ) EngineError =
        preferred_step current remaining st in
      let captured : ConnectionSlot env × Result (Unit {0}) EngineError =
        capture_transport_pressure stepped.0.1 stepped.0.0 in
      let fine : Fine (λ st. st.0) st stepped = preferred_step-Steady current remaining st in
      let fine' : Fine (λ s. s) stepped.0.0 captured = capture-Steady stepped.0.1 stepped.0.0 in
      let moved : Moved st.0 captured.0 = onward st.0 stepped.0.0 captured.0 fine.0 fine'.0 in
      elim (Result-cases stepped.1) [
        | inr (e, h) ↦ rw (h, watched_step) (moved, subst IsFresh h fine.1)
        | inl (progressed, h) ↦ elim (Result-cases captured.1) [
          | inr (e, h') ↦ rw (h, h', watched_step) (moved, subst IsFresh h' fine'.1)
          | inl (_, h') ↦ rw (h, h', watched_step) (moved, tt)
        ]
      ]

  ready_from-Steady :
      (n : ℕ) (preference : IoPreference) (remaining : ℕ)
      → PairSteady {env = env} {T = T} (ready_from n preference remaining)
  unfolding ready_from
  ready_from-Steady zero preference remaining st = (still st.0, tt)
  ready_from-Steady (suc n) preference remaining st =
      let stepped : (ConnectionSlot env × T) × Result (Option ℕ) EngineError =
        watched_step preference remaining st in
      let fine : Fine (λ st. st.0) st stepped = watched_step-Steady preference remaining st in
      elim (Result-cases stepped.1) [
        | inr (e, h) ↦ rw (h, ready_from, ◌>>=◌) (fine.0, subst IsFresh h fine.1)
        | inl (progressed, h) ↦ elim (Option-cases progressed) [
          | inl h' ↦
              rw (h, h', ready_from, ◌>>=◌, IsFresh)
                (via (λ st. st.0) st stepped.0 (ready_from n (next preference) remaining stepped.0)
                  fine.0 (ready_from-Steady n (next preference) remaining stepped.0))
          | inr (work, h') ↦
              rw (h, h', ready_from, ◌>>=◌)
                (
                  record {
                    state_kept = fine.0.state_kept;
                    limits_kept = fine.0.limits_kept;
                    numbered = fine.0.numbered;
                  },
                  tt,
                )
        ]
      ]

  io_round-Steady : (remaining : ℕ) → PairSteady {env = env} {T = Option T} (io_round remaining)
  unfolding io_round drive_ready_once
  io_round-Steady remaining (s, some transport) =
      ready_from-Steady 4 s.io_preference remaining (s, transport)
  io_round-Steady remaining (s, none) =
      let decoded : ConnectionSlot env × Result (Unit {0}) EngineError = drive_decoder_once s in
      let fine : Fine (λ s. s) s decoded = drive_decoder_once-Steady s in
      if-Fine (λ st. st.0) s.decoder_pending (s, none) _ _
        (elim (Result-cases decoded.1) [
          | inr (e, h) ↦ rw h (fine.0, subst IsFresh h fine.1)
          | inl (_, h) ↦ rw h (
            record {
              state_kept = fine.0.state_kept;
              limits_kept = fine.0.limits_kept;
              numbered = fine.0.numbered;
            },
            tt,
          )
        ])
        (still s, tt)

  io_rounds-Steady :
      (fuel budget work : ℕ) → PairSteady {env = env} {T = Option T} (io_rounds fuel budget work)
  unfolding io_rounds
  io_rounds-Steady zero budget work st = (still st.0, tt)
  io_rounds-Steady (suc fuel) budget work st =
      let stepped : (ConnectionSlot env × Option T) × Result (Option ℕ) EngineError =
        io_round (budget - work) st in
      let fine : Fine (λ st. st.0) st stepped = io_round-Steady (budget - work) st in
      elim (Bool-cases (ltb work budget && not (is_some (st.0).close_request))) [
        | inr h ↦ rw (h, io_rounds) (still st.0, tt)
        | inl h ↦ elim (Result-cases stepped.1) [
          | inr (e, h') ↦ rw (h, h', io_rounds, ◌>>=◌) (fine.0, subst IsFresh h' fine.1)
          | inl (progressed, h') ↦ elim (Option-cases progressed) [
            | inl h'' ↦ rw (h, h', h'', io_rounds, ◌>>=◌) (fine.0, tt)
            | inr (more, h'') ↦
                rw (h, h', h'', io_rounds, ◌>>=◌, IsFresh)
                  (via (λ st. st.0) st stepped.0 (io_rounds fuel budget (work + more) stepped.0)
                    fine.0 (io_rounds-Steady fuel budget (work + more) stepped.0))
          ]
        ]
      ]

  pub drive_io-Steady : (budget : ℕ) → PairSteady {env = env} {T = Option T} (drive_io budget)
  unfolding drive_io
  drive_io-Steady budget =
      >>=-Steady (λ st. st.0) (io_rounds budget budget 0) (io_report budget)
        (io_rounds-Steady budget budget 0) (λ _ st. (still st.0, tt))

  close_round-Steady :
      (now remaining : ℕ) → PairSteady {env = env} {T = Option T} (close_round now remaining)
  unfolding close_round
  close_round-Steady now remaining (s, none) = (still s, tt)
  close_round-Steady now remaining (s, some transport) =
      drive_shutdown_once-Steady now remaining (s, transport)

  close_rounds-Steady :
      (fuel now budget work : ℕ)
      → PairSteady {env = env} {T = Option T} (close_rounds fuel now budget work)
  unfolding close_rounds
  close_rounds-Steady zero now budget work st = (still st.0, tt)
  close_rounds-Steady (suc fuel) now budget work st =
      let stepped : (ConnectionSlot env × Option T) × Result (Option ℕ) EngineError =
        close_round now (budget - work) st in
      let fine : Fine (λ st. st.0) st stepped = close_round-Steady now (budget - work) st in
      elim (Bool-cases (ltb work budget)) [
        | inr h ↦ rw (h, close_rounds) (still st.0, tt)
        | inl h ↦ elim (Result-cases stepped.1) [
          | inr (e, h') ↦ rw (h, h', close_rounds, ◌>>=◌) (fine.0, subst IsFresh h' fine.1)
          | inl (progressed, h') ↦ elim (Option-cases progressed) [
            | inl h'' ↦ rw (h, h', h'', close_rounds, ◌>>=◌) (fine.0, tt)
            | inr (more, h'') ↦
                rw (h, h', h'', close_rounds, ◌>>=◌, IsFresh)
                  (via (λ st. st.0) st stepped.0
                    (close_rounds fuel now budget (saturating_add work more) stepped.0) fine.0
                    (close_rounds-Steady fuel now budget (saturating_add work more) stepped.0))
          ]
        ]
      ]

  drive_close_quantum-Steady :
      (now budget work : ℕ)
      → PairSteady {env = env} {T = Option T} (drive_close_quantum now budget work)
  unfolding drive_close_quantum
  drive_close_quantum-Steady now budget work =
      >>=-Steady (λ st. st.0) (close_rounds budget now budget work) (close_report now budget)
        (close_rounds-Steady budget now budget work) (λ _ st. (still st.0, tt))

  after_io-Steady :
      (now budget work : ℕ) (io : SlotProgress)
      → PairSteady {env = env} {T = Option T} (after_io now budget work io)
  unfolding after_io
  after_io-Steady now budget work io st =
      if-Fine (λ st. st.0) (is_some (st.0).close_request) st _ _
        (drive_close_quantum-Steady now budget (saturating_add work io.work) st) (still st.0, tt)

  drive_open_quantum-Steady :
      (now budget work : ℕ)
      → PairSteady {env = env} {T = Option T} (drive_open_quantum now budget work)
  unfolding drive_open_quantum
  drive_open_quantum-Steady now budget work st =
      if-Fine (λ st. st.0) (work == budget) st _ _ (still st.0, tt)
        (>>=-Steady (λ st. st.0) (drive_io (budget - work)) (after_io now budget work)
          (drive_io-Steady (budget - work)) (after_io-Steady now budget work) st)

  after_deadlines-Steady :
      (now budget work : ℕ)
      → PairSteady {env = env} {T = Option T} (after_deadlines now budget work)
  unfolding after_deadlines
  after_deadlines-Steady now budget work st =
      if-Fine (λ st. st.0) (is_some (st.0).close_request) st _ _
        (drive_close_quantum-Steady now budget work st)
        (drive_open_quantum-Steady now budget work st)

  capture_first-Steady : PairSteady {env = env} {T = Option T} capture_first
  unfolding capture_first
  capture_first-Steady (s, none) = (still s, tt)
  capture_first-Steady (s, some transport) = capture-Steady transport s

  deadlines_first-Steady :
      (now budget : ℕ) → PairSteady {env = env} {T = Option T} (deadlines_first now budget)
  unfolding deadlines_first
  deadlines_first-Steady now budget st =
      if-Fine (λ st. st.0) (is_some (st.0).close_request) st _ _ (still st.0, tt)
        (lift-Steady (drive_deadlines now budget) (drive_deadlines-Steady now budget) st)

  pub drive_quantum_inner-Steady :
      (now : ℕ) → PairSteady {env = env} {T = Option T} (drive_quantum_inner now)
  unfolding drive_quantum_inner
  drive_quantum_inner-Steady now st =
      let budget : ℕ = (st.0).limits.io.operations in
      >>=-Steady (λ st. st.0) capture_first
        (λ _. do work ← deadlines_first now budget; after_deadlines now budget work)
        capture_first-Steady
        (λ _.
          >>=-Steady (λ st. st.0) (deadlines_first now budget) (after_deadlines now budget)
            (deadlines_first-Steady now budget) (after_deadlines-Steady now budget))
        st
