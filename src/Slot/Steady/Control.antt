-- ===== src/Slot/Steady/Control.antt =====
-- crates/bornera/src/control.rs: what the host asks of a slot is a steady step, behind its latch.
use bornera.Prelude.{ℕ, ◌≡◌, refl, Bool, true, false, none, some, inl, inr, if◌then◌else◌}
use bornera.Identity.{OperationId}
use bornera.Operation.{CloseReason}
use bornera.Connection.Effect.{ConnectionInput, CancelOutcome}
use bornera.Connection.Core.Integrity.{is_applied}
use bornera.Slot.Kinds.{admission_opened, sequence_of}
use bornera.Slot.State.{Environment, ConnectionSlot, ◌>>◌, return}
use bornera.Slot.Events.{publish_admission_opened}
use bornera.Slot.Transition.{interpret_unit}
use bornera.Slot.Failure.{apply}
use bornera.Slot.Control.{
  is_transport_open, force_shutdown_settlement, force_shutdown, cancel_inner, set_drain,
  begin_drain_inner, request_close, finalize_inner, open_admission_live, open_admission_inner,
}
use bornera.Slot.Steady.{Moved, still, via, if-Fine, return-Steady, SlotSteady, >>=-Steady}
use bornera.Slot.Steady.Publication.{publish_numbered-Steady}
use bornera.Slot.Steady.Closes.{core_call-Steady, apply_then-Steady}
use bornera.Slot.Steady.Effects.{interpret_unit-Steady}
use bornera.Slot.Steady.Shutdown.{request_cases, shutdown_cases}

admission_numbered : (n epoch : ℕ) → sequence_of (admission_opened n epoch) ≡ n
unfolding sequence_of
admission_numbered n epoch = refl

module _ {env : Environment} where
  pub cancel_inner-Steady :
      (operation : OperationId) → SlotSteady {env = env} (cancel_inner operation)
  unfolding cancel_inner
  cancel_inner-Steady operation s =
      apply_then-Steady (ConnectionInput.cancel s.core.machine.epoch operation)
        (λ t. return (elim t.cancel_outcome [
          | none ↦ CancelOutcome.already_terminal
          | some outcome ↦ outcome
        ]))
        (λ t s'. (still s', tt)) s

  begun-Moved :
      (deadline : ℕ) (b : Bool) (s : ConnectionSlot env)
      → Moved s (if b then record s { drain_deadline = some deadline } else s)
  begun-Moved deadline true s = record { state_kept = refl; limits_kept = refl; numbered = λ h. h }
  begun-Moved deadline false s = still s

  pub begin_drain_inner-Steady :
      (deadline : ℕ) → SlotSteady {env = env} (begin_drain_inner deadline)
  unfolding begin_drain_inner apply
  begin_drain_inner-Steady deadline s =
      >>=-Steady (λ s. s) (apply (ConnectionInput.begin_drain s.core.machine.epoch))
        (λ t. set_drain deadline t >> (do interpret_unit t; return t.disposition))
        (core_call-Steady _)
        (λ t.
          >>=-Steady (λ s. s) (set_drain deadline t)
            (λ _. do interpret_unit t; return t.disposition)
            (λ s'. (begun-Moved deadline (is_applied t.disposition) s', tt))
            (λ _.
              return-Steady (λ s. s) (interpret_unit t) t.disposition (interpret_unit-Steady t)))
        s

  force_shutdown-Moved : (s : ConnectionSlot env) → Moved s (force_shutdown s).0
  unfolding force_shutdown force_shutdown_settlement
  force_shutdown-Moved s = elim (request_cases s.close_request) [
    | inl h ↦ simp (h, force_shutdown) (still s)
    | inr (inl h) ↦ simp (h, force_shutdown) (still s)
    | inr (inr (reason, shutdown, h)) ↦ elim (shutdown_cases shutdown) [
      | inl h' ↦ simp (h, h', force_shutdown) (still s)
      | inr (inl h') ↦ simp (h, h', force_shutdown) (still s)
      | inr (inr (inl (deadline, h'))) ↦
          simp (h, h', force_shutdown)
            (record { state_kept = refl; limits_kept = refl; numbered = λ h. h })
      | inr (inr (inr (deadline, h'))) ↦
          simp (h, h', force_shutdown)
            (record { state_kept = refl; limits_kept = refl; numbered = λ h. h })
    ]
  ]

  request_close-Steady : (reason : CloseReason) → SlotSteady {env = env} (request_close reason)
  unfolding request_close
  request_close-Steady reason s =
      apply_then-Steady (ConnectionInput.close_requested s.core.machine.epoch reason)
        (λ t. return t.disposition) (λ t s'. (still s', tt)) s

  opened_if-Steady :
      (b : Bool) → SlotSteady {env = env} (if b then publish_admission_opened else return tt)
  opened_if-Steady true s = publish_numbered-Steady admission_opened admission_numbered s
  opened_if-Steady false s = (still s, tt)

  pub finalize_inner-Steady :
      (reason : CloseReason) → SlotSteady {env = env} (finalize_inner reason)
  unfolding finalize_inner
  finalize_inner-Steady reason s =
      let forced : ConnectionSlot env × Bool = force_shutdown s in
      if-Fine (λ s. s) forced.1 s _ _ (force_shutdown-Moved s, tt)
        (via (λ s. s) s forced.0 _ (force_shutdown-Moved s) (request_close-Steady reason forced.0))

  pub open_admission_inner-Steady : SlotSteady {env = env} open_admission_inner
  unfolding open_admission_inner open_admission_live
  open_admission_inner-Steady s =
      if-Fine (λ s. s) (is_transport_open s) s _ _
        (apply_then-Steady (ConnectionInput.open_admission s.core.machine.epoch)
          (λ t. do
            if is_applied t.disposition then publish_admission_opened else return tt
            return t.disposition)
          (λ t.
            return-Steady (λ s. s)
              (if is_applied t.disposition then publish_admission_opened else return tt)
              t.disposition (opened_if-Steady (is_applied t.disposition)))
          s)
        (still s, tt)
