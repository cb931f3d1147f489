-- ===== src/Slot/Numbers.antt =====
-- crates/bornera/src/lifecycle.rs, behind the latch of state.rs: the numbers of the lifecycle events.
use bornera.Prelude.{◌≡◌, refl, ◌∙◌, Option, Result, ok, err, inl, inr, ◌⊎◌, arith}
use bornera.Identity.{OperationId}
use bornera.Admission.Options.{Moment}
use bornera.Operation.{CloseReason}
use bornera.Transport.Port.{SlotTransport}
use bornera.Slot.Kinds.{
  OwnerFailure, EngineState, running, failed_with, failure_of, EngineError, owner_failed,
}
use bornera.Slot.State.{
  Environment, ConnectionSlot, Run, ensure_running, latch_owner_failure, latch_failure, latch,
  guarded,
}
use bornera.Slot.Control.{
  open_admission_inner, cancel_inner, begin_drain_inner, finalize_inner, open_admission, cancel,
  begin_drain, finalize,
}
use bornera.Slot.Quantum.{SlotProgress, drive_quantum_inner, drive_quantum}
use bornera.Slot.Steady.{IsNumbered, Moved, SlotSteady}
use bornera.Slot.Steady.Quantum.{drive_quantum_inner-Steady}
use bornera.Slot.Steady.Control.{
  cancel_inner-Steady, begin_drain_inner-Steady, finalize_inner-Steady, open_admission_inner-Steady,
}

state_cases :
    (state : EngineState)
    → (state ≡ running) ⊎ ((first : OwnerFailure) × (state ≡ failed_with first))
state_cases running = inl refl
state_cases (failed_with first) = inr (first, refl)

module _ {env : Environment} where
  -- A slot after a call: its events are numbered, and its limits are those before.
  abbrev pub IsKept : ConnectionSlot env → ConnectionSlot env → Type 0
  IsKept s s' = IsNumbered s' × (s'.limits ≡ s.limits)

  -- A failure changes neither the events nor the limits.
  latch_failure-Numbered :
      (e : EngineError) (s : ConnectionSlot env)
      → (IsNumbered s → IsNumbered (latch_failure e s)) × ((latch_failure e s).limits ≡ s.limits)
  unfolding latch_failure latch_owner_failure failure_of
  latch_failure-Numbered e s =
      let kept : ((latch_failure e s).lifecycle ≡ s.lifecycle)
          × ((latch_failure e s).event_sequence ≡ s.event_sequence)
          × ((latch_failure e s).limits ≡ s.limits) =
        (ground arith, ground arith, ground arith) in
      (λ h. rw (kept.0, kept.1) h, kept.2)

  latch_failure-IsKept :
      {A : Type 0} (s : ConnectionSlot env) (r : ConnectionSlot env × Result A EngineError)
      → IsNumbered s
      → Moved s r.0
      → IsKept s (elim (r.1) [ ok a ↦ r.0 | err e ↦ latch_failure e r.0 ])
  latch_failure-IsKept s (s', ok a) h moved = (moved.numbered h, moved.limits_kept)
  latch_failure-IsKept s (s', err e) h moved = (
    (latch_failure-Numbered e s').0 (moved.numbered h),
    (latch_failure-Numbered e s').1 ∙ moved.limits_kept,
  )

  guarded-IsKept :
      {A : Type 0} (m : Run (ConnectionSlot env) A) (s : ConnectionSlot env)
      → SlotSteady m
      → IsNumbered s
      → IsKept s (guarded m s).0
  unfolding guarded ensure_running failure_of latch
  guarded-IsKept m s steady h = elim (state_cases s.state) [
    | inl e ↦
        let ran : guarded m s ≡ latch m s = ground arith in
        rw ran (latch_failure-IsKept s (m s) h (steady s).0)
    | inr (first, e) ↦
        let refused : guarded m s ≡ (s, err (owner_failed first)) = ground arith in
        rw refused (h, refl)
  ]

  -- Every call that drives a slot keeps its limits, and the events that wait to be drained
  -- numbered in ascending order, up to the slot's counter.
  pub calls_numbered :
      {T : Type 0} ⦃port : SlotTransport T⦄ (s : ConnectionSlot env) (numbered : IsNumbered s)
      (operation : OperationId) (deadline now : Moment) (reason : CloseReason)
      (transport : Option T)
      → IsKept s (open_admission s).0
        × IsKept s (cancel operation s).0
        × IsKept s (begin_drain deadline s).0
        × IsKept s (finalize reason s).0
        × IsKept s (drive_quantum now (s, transport)).0.0
  unfolding open_admission cancel begin_drain finalize drive_quantum ensure_running failure_of
  calls_numbered {T = T} s h operation deadline now reason transport = (
    guarded-IsKept open_admission_inner s open_admission_inner-Steady h,
    guarded-IsKept (cancel_inner operation) s (cancel_inner-Steady operation) h,
    guarded-IsKept (begin_drain_inner deadline) s (begin_drain_inner-Steady deadline) h,
    guarded-IsKept (finalize_inner reason) s (finalize_inner-Steady reason) h,
    elim (state_cases s.state) [
      | inl e ↦
          let r : (ConnectionSlot env × Option T) × Result SlotProgress EngineError =
            drive_quantum_inner now (s, transport) in
          let ran : drive_quantum now (s, transport)
              ≡ ((elim (r.1) [ ok a ↦ r.0.0 | err e ↦ latch_failure e r.0.0 ], r.0.1), r.1) =
            ground arith in
          rw ran (
            latch_failure-IsKept s (r.0.0, r.1) h (drive_quantum_inner-Steady now (s, transport)).0)
      | inr (first, e) ↦
          let refused : drive_quantum now (s, transport)
              ≡ ((s, transport), err (owner_failed first)) =
            ground arith in
          rw refused (h, refl)
    ],
  )
