-- ===== src/Slot/Latch.antt =====
-- crates/bornera/src/state.rs, control.rs and drive/slot.rs: the latch of a slot, over every call that
-- drives it.
use bornera.Prelude.{ℕ, ◌≡◌, ◌∙◌, false, Option, none, some, Result, ok, err, arith}
use bornera.Identity.{OperationId}
use bornera.Admission.Options.{Moment}
use bornera.Operation.{CloseReason}
use bornera.Transport.Port.{SlotTransport}
use bornera.Slot.Kinds.{
  abort, running, failed_with, failure_of, EngineError, is_owner_failed, category,
}
use bornera.Slot.State.{
  Environment, ConnectionSlot, Run, ensure_running, latch_owner_failure, latch_failure, latch,
  guarded,
}
use bornera.Slot.Control.{
  open_admission_inner, cancel_inner, begin_drain_inner, finalize_inner, open_admission, cancel,
  begin_drain, finalize,
}
use bornera.Slot.Quantum.{SlotProgress, drive_quantum_inner, drive_quantum}
use bornera.Slot.Steady.{Fine, SlotSteady}
use bornera.Slot.Steady.Quantum.{drive_quantum_inner-Steady}
use bornera.Slot.Steady.Control.{
  cancel_inner-Steady, begin_drain_inner-Steady, finalize_inner-Steady, open_admission_inner-Steady,
}

module _ {env : Environment} where
  -- A call has left the slot running, or it has failed and the slot has its failure and an abort.
  abbrev pub IsLatched : {A : Type 0} → ConnectionSlot env → Result A EngineError → Type 0
  IsLatched s (ok a) = s.state ≡ running
  IsLatched s (err e) =
      (s.state ≡ failed_with (category e))
      × (s.close_request ≡ some abort)
      × (s.drain_deadline ≡ none)

  latch_failure-IsLatched :
      (A : Type 0) (e : EngineError) (s : ConnectionSlot env)
      → s.state ≡ running
      → is_owner_failed e ≡ false
      → IsLatched {A = A} (latch_failure e s) (err e)
  unfolding latch_failure latch_owner_failure failure_of
  latch_failure-IsLatched A e s h fresh = (ground arith, ground arith, ground arith)

  -- What the latch makes of a steady step on a running slot.
  latched :
      (A : Type 0) (s : ConnectionSlot env) (r : ConnectionSlot env × Result A EngineError)
      → s.state ≡ running
      → Fine (λ s'. s') s r
      → IsLatched (elim (r.1) [ ok a ↦ r.0 | err e ↦ latch_failure e r.0 ]) r.1
  latched A s (s', ok a) h fine = fine.0.state_kept ∙ h
  latched A s (s', err e) h fine = latch_failure-IsLatched A e s' (fine.0.state_kept ∙ h) fine.1

  guarded_running :
      {A : Type 0} (m : Run (ConnectionSlot env) A) (s : ConnectionSlot env)
      → s.state ≡ running
      → guarded m s ≡ latch m s
  unfolding guarded ensure_running failure_of
  guarded_running m s h = ground arith

  guarded-IsLatched :
      {A : Type 0} (m : Run (ConnectionSlot env) A) (s : ConnectionSlot env)
      → SlotSteady m
      → s.state ≡ running
      → IsLatched (guarded m s).0 (guarded m s).1
  unfolding latch
  guarded-IsLatched m s steady h = rw (guarded_running m s h) (latched _ s (m s) h (steady s))

  module _ {T : Type 0} ⦃port : SlotTransport T⦄ where
    quantum_running :
        (now : ℕ) (s : ConnectionSlot env) (transport : Option T)
        → s.state ≡ running
        → let r = drive_quantum_inner now (s, transport) in
          drive_quantum now (s, transport)
          ≡ ((elim (r.1) [ ok a ↦ r.0.0 | err e ↦ latch_failure e r.0.0 ], r.0.1), r.1)
    unfolding drive_quantum ensure_running failure_of
    quantum_running now s transport h = ground arith

    -- Each call that drives a running slot leaves it running if it succeeds; if it fails, the slot
    -- has failed for the category of that very error, its drain has no deadline, and it asks for
    -- an abort.
    pub calls-IsLatched :
        (s : ConnectionSlot env) (running_slot : s.state ≡ running) (operation : OperationId)
        (deadline now : Moment) (reason : CloseReason) (transport : Option T)
        → (let r = open_admission s in IsLatched r.0 r.1)
          × (let r = cancel operation s in IsLatched r.0 r.1)
          × (let r = begin_drain deadline s in IsLatched r.0 r.1)
          × (let r = finalize reason s in IsLatched r.0 r.1)
          × (let r = drive_quantum now (s, transport) in IsLatched r.0.0 r.1)
    unfolding open_admission cancel begin_drain finalize
    calls-IsLatched s h operation deadline now reason transport =
        let r : (ConnectionSlot env × Option T) × Result SlotProgress EngineError =
          drive_quantum_inner now (s, transport) in
        (
          guarded-IsLatched open_admission_inner s open_admission_inner-Steady h,
          guarded-IsLatched (cancel_inner operation) s (cancel_inner-Steady operation) h,
          guarded-IsLatched (begin_drain_inner deadline) s (begin_drain_inner-Steady deadline) h,
          guarded-IsLatched (finalize_inner reason) s (finalize_inner-Steady reason) h,
          rw (quantum_running now s transport h)
              (latched _ s (r.0.0, r.1) h (drive_quantum_inner-Steady now (s, transport))),
        )
