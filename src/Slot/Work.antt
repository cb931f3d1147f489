-- ===== src/Slot/Work.antt =====
-- crates/bornera/src/drive/slot.rs: the work of a whole quantum.
use bornera.Prelude.{
  ℕ, ◌+◌, ◌-◌, ◌≤◌, subst, Bool, true, false, Option, is_some, Result, ok, err, Result-cases,
  Bool-cases, inl, inr, arith, ◌==◌, if◌then◌else◌,
}
use bornera.Admission.Options.{Moment}
use bornera.Transport.Port.{SlotTransport}
use bornera.Slot.Kinds.{EngineError}
use bornera.Slot.State.{Environment, ConnectionSlot, ◌>>=◌, ensure_running}
use bornera.Slot.Admission.{saturating_add}
use bornera.Slot.Quantum.{
  SlotProgress, io_rounds, drive_io, close_rounds, drive_close_quantum, after_io,
  drive_open_quantum, after_deadlines, capture_first, deadlines_first, drive_quantum_inner,
  drive_quantum,
}
use bornera.Slot.Bounds.{IsWithin, drive_deadlines-IsWithin}
use bornera.Slot.Rounds.{io_rounds-IsWithin, close_rounds-IsWithin}

abbrev pub IsBounded : ℕ → Result SlotProgress EngineError → Type 0
IsBounded bound (ok progress) = progress.work ≤ bound
IsBounded bound (err e) = Unit

module _ {env : Environment} {T : Type 0} ⦃port : SlotTransport T⦄ where
  drive_close_quantum-IsBounded :
      (now budget work : ℕ) (st : ConnectionSlot env × Option T)
      → work ≤ budget
      → IsBounded budget (drive_close_quantum now budget work st).1
  unfolding drive_close_quantum
  drive_close_quantum-IsBounded now budget work st h =
      let rounds : (ConnectionSlot env × Option T) × Result ℕ EngineError =
        close_rounds budget now budget work st in
      let within : IsWithin budget rounds.1 = close_rounds-IsWithin budget now budget work st h in
      elim (Result-cases rounds.1) [
        | inr (e, h') ↦ rw (h', drive_close_quantum, ◌>>=◌) tt
        | inl (done, h') ↦ rw (h', drive_close_quantum, ◌>>=◌) (subst (IsWithin budget) h' within)
      ]

  drive_io-IsBounded :
      (budget : ℕ) (st : ConnectionSlot env × Option T) → IsBounded budget (drive_io budget st).1
  unfolding drive_io
  drive_io-IsBounded budget st =
      let rounds : (ConnectionSlot env × Option T) × Result ℕ EngineError =
        io_rounds budget budget 0 st in
      let within : IsWithin budget rounds.1 = io_rounds-IsWithin budget budget 0 st (omega arith) in
      elim (Result-cases rounds.1) [
        | inr (e, h') ↦ rw (h', drive_io, ◌>>=◌) tt
        | inl (done, h') ↦ rw (h', drive_io, ◌>>=◌) (subst (IsWithin budget) h' within)
      ]

  if-IsBounded :
      (bound : ℕ) (b : Bool)
      (x y : (ConnectionSlot env × Option T) × Result SlotProgress EngineError)
      → IsBounded bound x.1
      → IsBounded bound y.1
      → IsBounded bound (if b then x else y).1
  if-IsBounded bound true x y hx hy = hx
  if-IsBounded bound false x y hx hy = hy

  after_io-IsBounded :
      (now budget work : ℕ) (io : SlotProgress) (st : ConnectionSlot env × Option T)
      → work + io.work ≤ budget
      → IsBounded budget (after_io now budget work io st).1
  unfolding after_io
  after_io-IsBounded now budget work io st h =
      let total : saturating_add work io.work ≤ budget = ground arith in
      if-IsBounded budget (is_some (st.0).close_request) _ _
        (drive_close_quantum-IsBounded now budget (saturating_add work io.work) st total) total

  drive_open_quantum-IsBounded :
      (now budget work : ℕ) (st : ConnectionSlot env × Option T)
      → work ≤ budget
      → IsBounded budget (drive_open_quantum now budget work st).1
  unfolding drive_open_quantum
  drive_open_quantum-IsBounded now budget work st h =
      let driven : (ConnectionSlot env × Option T) × Result SlotProgress EngineError =
        drive_io (budget - work) st in
      let within : IsBounded (budget - work) driven.1 = drive_io-IsBounded (budget - work) st in
      if-IsBounded budget (work == budget) _ _ h (elim (Result-cases driven.1) [
        | inr (e, h') ↦ rw (h', ◌>>=◌) tt
        | inl (io, h') ↦
            let bound : io.work ≤ budget - work = subst (IsBounded (budget - work)) h' within in
            rw (h', ◌>>=◌, IsBounded) (after_io-IsBounded now budget work io driven.0 (omega arith))
      ])

  after_deadlines-IsBounded :
      (now budget work : ℕ) (st : ConnectionSlot env × Option T)
      → work ≤ budget
      → IsBounded budget (after_deadlines now budget work st).1
  unfolding after_deadlines
  after_deadlines-IsBounded now budget work st h =
      if-IsBounded budget (is_some (st.0).close_request) _ _
        (drive_close_quantum-IsBounded now budget work st h)
        (drive_open_quantum-IsBounded now budget work st h)

  deadlines_first-IsWithin :
      (now budget : ℕ) (st : ConnectionSlot env × Option T)
      → IsWithin budget (deadlines_first now budget st).1
  unfolding deadlines_first
  deadlines_first-IsWithin now budget st = elim (Bool-cases (is_some (st.0).close_request)) [
    | inl e ↦ rw (e, deadlines_first) (omega arith)
    | inr e ↦ rw (e, deadlines_first, IsWithin) (drive_deadlines-IsWithin now budget st.0)
  ]

  -- A quantum that succeeds reports at most as much work as the slot's limit on operations.
  pub quantum_within :
      (now : Moment) (s : ConnectionSlot env) (transport : Option T)
      → IsBounded s.limits.io.operations (drive_quantum now (s, transport)).1
  unfolding drive_quantum drive_quantum_inner
  quantum_within now s transport =
      let budget : ℕ = s.limits.io.operations in
      let captured : (ConnectionSlot env × Option T) × Result (Unit {0}) EngineError =
        capture_first (s, transport) in
      let worked : (ConnectionSlot env × Option T) × Result ℕ EngineError =
        deadlines_first now budget captured.0 in
      let within : IsWithin budget worked.1 = deadlines_first-IsWithin now budget captured.0 in
      let inner : IsBounded budget (drive_quantum_inner now (s, transport)).1 =
        elim (Result-cases captured.1) [
          | inr (e, h) ↦ rw (h, ◌>>=◌) tt
          | inl (_, h) ↦ elim (Result-cases worked.1) [
            | inr (e, h') ↦ rw (h, h', ◌>>=◌) tt
            | inl (work, h') ↦
                rw (h, h', ◌>>=◌, IsBounded)
                  (after_deadlines-IsBounded now budget work worked.0
                    (subst (IsWithin budget) h' within))
          ]
        ] in
      elim (Result-cases (ensure_running s).1) [
        | inr (e, h) ↦ rw (h, drive_quantum) tt
        | inl (_, h) ↦ rw (h, drive_quantum, IsBounded) inner
      ]
