-- ===== src/Slot/Rounds.antt =====
-- crates/bornera/src/drive/slot.rs: the loops of a quantum, their bound and their end.
use bornera.Prelude.{
  ℕ, zero, suc, ◌+◌, ◌-◌, ◌^◌, ◌≤◌, ◌<◌, ◌≡◌, refl, subst, ap, ◌∙◌, not, ◌&&◌, Option, is_some,
  Result, ok, Result-cases, Option-cases, Bool-cases, inl, inr, arith, ltb,
}
use native.Mathlib.Nat.{zero-add, suc-add}
use bornera.Transport.Port.{SlotTransport}
use bornera.Slot.Kinds.{EngineError}
use bornera.Slot.State.{Environment, ConnectionSlot, ◌>>=◌}
use bornera.Slot.Admission.{saturating_add}
use bornera.Slot.Quantum.{io_round, io_rounds, close_round, close_rounds}
use bornera.Slot.Steps.{IsMadeBy, IsUnit, IsStep, io_round-Steps}
use bornera.Slot.Bounds.{IsWithin, close_round-Steps}

module _ {env : Environment} {T : Type 0} ⦃port : SlotTransport T⦄ where
  pub io_rounds-IsWithin :
      (fuel budget work : ℕ) (st : ConnectionSlot env × Option T)
      → work ≤ budget
      → IsWithin budget (io_rounds fuel budget work st).1
  unfolding io_rounds
  io_rounds-IsWithin zero budget work st h = h
  io_rounds-IsWithin (suc fuel) budget work st h =
      let stepped : (ConnectionSlot env × Option T) × Result (Option ℕ) EngineError =
        io_round (budget - work) st in
      let step : IsStep (IsMadeBy port) stepped.1 = io_round-Steps (budget - work) st in
      elim (Bool-cases (ltb work budget && not (is_some (st.0).close_request))) [
        | inr e ↦ rw (e, io_rounds) h
        | inl e ↦ elim (Result-cases stepped.1) [
          | inr (failure, e') ↦ rw (e, e', io_rounds, ◌>>=◌) tt
          | inl (progressed, e') ↦ elim (Option-cases progressed) [
            | inl e'' ↦ rw (e, e', e'', io_rounds, ◌>>=◌) h
            | inr (more, e'') ↦
                let unit : IsUnit (IsMadeBy port) more =
                  subst (IsStep (IsMadeBy port)) (e' ∙ ap ok e'') step in
                rw (e, e', e'', io_rounds, ◌>>=◌, IsWithin)
                  (io_rounds-IsWithin fuel budget (work + more) stepped.0 (ground (arith, unit.0)))
          ]
        ]
      ]

  pub close_rounds-IsWithin :
      (fuel now budget work : ℕ) (st : ConnectionSlot env × Option T)
      → work ≤ budget
      → IsWithin budget (close_rounds fuel now budget work st).1
  unfolding close_rounds
  close_rounds-IsWithin zero now budget work st h = h
  close_rounds-IsWithin (suc fuel) now budget work st h =
      let stepped : (ConnectionSlot env × Option T) × Result (Option ℕ) EngineError =
        close_round now (budget - work) st in
      let step : IsStep (IsMadeBy port) stepped.1 = close_round-Steps now (budget - work) st in
      elim (Bool-cases (ltb work budget)) [
        | inr e ↦ rw (e, close_rounds) h
        | inl e ↦ elim (Result-cases stepped.1) [
          | inr (failure, e') ↦ rw (e, e', close_rounds, ◌>>=◌) tt
          | inl (progressed, e') ↦ elim (Option-cases progressed) [
            | inl e'' ↦ rw (e, e', e'', close_rounds, ◌>>=◌) h
            | inr (more, e'') ↦
                let unit : IsUnit (IsMadeBy port) more =
                  subst (IsStep (IsMadeBy port)) (e' ∙ ap ok e'') step in
                rw (e, e', e'', close_rounds, ◌>>=◌, IsWithin)
                  (close_rounds-IsWithin fuel now budget (saturating_add work more) stepped.0
                    (ground (arith, unit.0)))
          ]
        ]
      ]

  -- More fuel than rounds of the budget that are left changes nothing.
  io_rounds_enough :
      (made : IsMadeBy port) (fuel extra budget work : ℕ) (st : ConnectionSlot env × Option T)
      → budget ≤ work + fuel
      → io_rounds (fuel + extra) budget work st ≡ io_rounds fuel budget work st
  unfolding io_rounds
  io_rounds_enough made zero zero budget work st h = refl
  io_rounds_enough made zero (suc extra) budget work st h =
      rw zero-add (elim (Bool-cases (ltb work budget)) [
        | inl e ↦ absurd (ground arith)
        | inr e ↦ rw (e, io_rounds) refl
      ])
  io_rounds_enough made (suc fuel) extra budget work st h =
      let stepped : (ConnectionSlot env × Option T) × Result (Option ℕ) EngineError =
        io_round (budget - work) st in
      let step : IsStep (IsMadeBy port) stepped.1 = io_round-Steps (budget - work) st in
      rw suc-add (elim (Bool-cases (ltb work budget && not (is_some (st.0).close_request))) [
        | inr e ↦ rw (e, io_rounds) refl
        | inl e ↦ elim (Result-cases stepped.1) [
          | inr (failure, e') ↦ rw (e, e', io_rounds, ◌>>=◌) refl
          | inl (progressed, e') ↦ elim (Option-cases progressed) [
            | inl e'' ↦ rw (e, e', e'', io_rounds, ◌>>=◌) refl
            | inr (more, e'') ↦
                let unit : IsUnit (IsMadeBy port) more =
                  subst (IsStep (IsMadeBy port)) (e' ∙ ap ok e'') step in
                let some_work : 1 ≤ more = unit.1 made in
                rw (e, e', e'', io_rounds, ◌>>=◌)
                  (io_rounds_enough made fuel extra budget (work + more) stepped.0 (omega arith))
          ]
        ]
      ])

  close_rounds_enough :
      (made : IsMadeBy port) (fuel extra now budget work : ℕ) (st : ConnectionSlot env × Option T)
      → budget < 2 ^ 64
      → budget ≤ work + fuel
      → close_rounds (fuel + extra) now budget work st ≡ close_rounds fuel now budget work st
  unfolding close_rounds
  close_rounds_enough made zero zero now budget work st fits h = refl
  close_rounds_enough made zero (suc extra) now budget work st fits h =
      rw zero-add (elim (Bool-cases (ltb work budget)) [
        | inl e ↦ absurd (ground arith)
        | inr e ↦ rw (e, close_rounds) refl
      ])
  close_rounds_enough made (suc fuel) extra now budget work st fits h =
      let stepped : (ConnectionSlot env × Option T) × Result (Option ℕ) EngineError =
        close_round now (budget - work) st in
      let step : IsStep (IsMadeBy port) stepped.1 = close_round-Steps now (budget - work) st in
      rw suc-add (elim (Bool-cases (ltb work budget)) [
        | inr e ↦ rw (e, close_rounds) refl
        | inl e ↦ elim (Result-cases stepped.1) [
          | inr (failure, e') ↦ rw (e, e', close_rounds, ◌>>=◌) refl
          | inl (progressed, e') ↦ elim (Option-cases progressed) [
            | inl e'' ↦ rw (e, e', e'', close_rounds, ◌>>=◌) refl
            | inr (more, e'') ↦
                let unit : IsUnit (IsMadeBy port) more =
                  subst (IsStep (IsMadeBy port)) (e' ∙ ap ok e'') step in
                let some_work : 1 ≤ more = unit.1 made in
                let left : budget ≤ saturating_add work more + fuel = ground arith in
                rw (e, e', e'', close_rounds, ◌>>=◌)
                  (close_rounds_enough made fuel extra now budget (saturating_add work more)
                    stepped.0 fits left)
          ]
        ]
      ])

  -- The two loops of a quantum end by their own tests, if whatever the transport does that is not
  -- idle counts an operation: rounds beyond the budget, however many, change neither loop, the I/O
  -- from no work and the shutdown from any.
  pub quantum_ends :
      (made : IsMadeBy port) (extra now budget work : ℕ) (fits : budget < 2 ^ 64)
      (st : ConnectionSlot env × Option T)
      → (io_rounds (budget + extra) budget 0 st ≡ io_rounds budget budget 0 st)
        × (close_rounds (budget + extra) now budget work st
            ≡ close_rounds budget now budget work st)
  quantum_ends made extra now budget work fits st = (
    io_rounds_enough made budget extra budget 0 st (omega arith),
    close_rounds_enough made budget extra now budget work st fits (omega arith),
  )
