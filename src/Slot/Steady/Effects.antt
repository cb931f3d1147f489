-- ===== src/Slot/Steady/Effects.antt =====
-- crates/bornera/src/transition.rs: to carry out a transition of the core is a steady step.
use bornera.Prelude.{
  ℕ, ◌≡◌, refl, subst, false, Option, none, some, List, [], ◌∷◌, Result, ok, err, Option-cases, inl,
  inr, Bool-cases, ◌&&◌,
}
use bornera.Identity.{ConnectionEpoch, OperationId}
use bornera.Operation.{CloseReason, OperationOutcome}
use bornera.Connection.Effect.{
  ConnectionEffect, schedule_deadline, discard_write, cancel_deadline, close_epoch, publish_outcome,
  ConnectionTransition,
}
use bornera.Slot.Kinds.{
  EngineError, invariant_error, unexpected_discard_effect, missing_shutdown_deadline, closing_event,
  is_owner_failed, sequence_of,
}
use bornera.Slot.State.{Environment, ConnectionSlot, Run}
use bornera.Slot.Events.{publish_closing}
use bornera.Slot.Transition.{
  retain_first, Interpreting, retained, publish_unit, publish_reply, interpret_effect,
  interpret_effects, begin_close, finish_close, interpret, interpret_unit, interpret_reply,
  is_opened, is_drained,
}
use bornera.Slot.Steady.{Moved, still, onward, IsFresh, SlotSteady}
use bornera.Slot.Steady.Publication.{
  publish_numbered-Steady, drop_deadline-Moved, schedule-Steady, publish-Steady,
  publish_unit-Steady,
}

abbrev AllFresh : Option EngineError → Type 0
AllFresh none = Unit
AllFresh (some e) = is_owner_failed e ≡ false

retain_first-AllFresh :
    (failure : Option EngineError) (r : Result (Unit {0}) EngineError)
    → AllFresh failure
    → IsFresh r
    → AllFresh (retain_first failure r)
unfolding retain_first
retain_first-AllFresh failure (ok _) hf hr = hf
retain_first-AllFresh none (err e) hf hr = hr
retain_first-AllFresh (some first) (err e) hf hr = hf

closing_numbered :
    (n epoch : ℕ) (reason : CloseReason) → sequence_of (closing_event n epoch reason) ≡ n
unfolding sequence_of
closing_numbered n epoch reason = refl

module _ {env : Environment} where
  -- The walk over the effects, from a slot.
  abbrev IsWalked : ConnectionSlot env → Interpreting env → Type 0
  IsWalked s i = Moved s i.slot × AllFresh i.failure

  retained-IsWalked :
      (m : Run (ConnectionSlot env) (Unit {0})) (s : ConnectionSlot env) (i : Interpreting env)
      → SlotSteady m
      → IsWalked s i
      → IsWalked s (retained m i)
  retained-IsWalked m s i hm hi = (
    onward s i.slot (m i.slot).0 hi.0 (hm i.slot).0,
    retain_first-AllFresh i.failure (m i.slot).1 hi.1 (hm i.slot).1,
  )

  module _ {R : Type 0}
      (take : ConnectionEpoch
        → OperationId
        → OperationOutcome R
        → Run (ConnectionSlot env) (Unit {0}))
      (steady : (epoch : ConnectionEpoch) (operation : OperationId) (outcome : OperationOutcome R)
        → SlotSteady (take epoch operation outcome)) where
    interpret_effect-IsWalked :
        (s : ConnectionSlot env) (i : Interpreting env) (effect : ConnectionEffect R)
        → IsWalked s i
        → IsWalked s (interpret_effect take i effect)
    unfolding interpret_effect
    interpret_effect-IsWalked s i (schedule_deadline epoch operation deadline) h =
        retained-IsWalked _ s i (schedule-Steady _ deadline) h
    interpret_effect-IsWalked s i (discard_write effect epoch operation) h =
        retained-IsWalked (λ s'. (s', err (invariant_error unexpected_discard_effect))) s i
          (λ s'. (still s', refl)) h
    interpret_effect-IsWalked s i (cancel_deadline epoch operation) h =
        (onward s i.slot _ h.0 (drop_deadline-Moved operation i.slot), h.1)
    interpret_effect-IsWalked s i (close_epoch epoch reason) h = h
    interpret_effect-IsWalked s i (publish_outcome epoch operation outcome) h =
        retained-IsWalked _ s i (steady epoch operation outcome) h

    interpret_effects-IsWalked :
        (s : ConnectionSlot env) (i : Interpreting env) (effects : List (ConnectionEffect R))
        → IsWalked s i
        → IsWalked s (interpret_effects take i effects)
    unfolding interpret_effects
    interpret_effects-IsWalked s i [] h = h
    interpret_effects-IsWalked s i (e ∷ es) h =
        interpret_effects-IsWalked s (interpret_effect take i e) es
          (interpret_effect-IsWalked s i e h)

  begin_close-IsWalked :
      (s : ConnectionSlot env) (i : Interpreting env) (reason : CloseReason)
      → IsWalked s i
      → IsWalked s (begin_close reason i)
  unfolding begin_close
  begin_close-IsWalked s i reason h =
      let i' : Interpreting env = retained (publish_closing reason) i in
      let published : IsWalked s i' =
        retained-IsWalked (publish_closing reason) s i
          (publish_numbered-Steady (λ n epoch. closing_event n epoch reason)
            (λ n epoch. closing_numbered n epoch reason))
          h in
      let moved : Moved s i'.slot = published.0 in
      elim (Bool-cases (is_opened i'.slot.transport_state && is_drained reason)) [
        | inr e ↦
            rw (e, begin_close)
              (
                record {
                  state_kept = moved.state_kept;
                  limits_kept = moved.limits_kept;
                  numbered = moved.numbered;
                },
                published.1,
              )
        | inl e ↦ elim (Option-cases i'.slot.drain_deadline) [
          | inl e' ↦
              rw (e, e', begin_close)
                (
                  record {
                    state_kept = moved.state_kept;
                    limits_kept = moved.limits_kept;
                    numbered = moved.numbered;
                  },
                  retain_first-AllFresh i'.failure (err (invariant_error missing_shutdown_deadline))
                      published.1 refl,
                )
          | inr (deadline, e') ↦
              rw (e, e', begin_close)
                (
                  record {
                    state_kept = moved.state_kept;
                    limits_kept = moved.limits_kept;
                    numbered = moved.numbered;
                  },
                  published.1,
                )
        ]
      ]

  finish_close-IsWalked :
      (s : ConnectionSlot env) (i : Interpreting env) → IsWalked s i → IsWalked s (finish_close i)
  unfolding finish_close
  finish_close-IsWalked s i h = elim (Option-cases i.close_reason) [
    | inl e ↦ rw (e, finish_close) h
    | inr (reason, e) ↦ elim (Option-cases i.slot.close_request) [
      | inl e' ↦ rw (e, e', finish_close) (begin_close-IsWalked s i reason h)
      | inr (request, e') ↦ rw (e, e', finish_close) h
    ]
  ]

  pub interpret-Steady :
      {R : Type 0}
      (take : ConnectionEpoch
        → OperationId
        → OperationOutcome R
        → Run (ConnectionSlot env) (Unit {0}))
      → ((epoch : ConnectionEpoch) (operation : OperationId) (outcome : OperationOutcome R)
          → SlotSteady (take epoch operation outcome))
      → (t : ConnectionTransition R) → SlotSteady (interpret take t)
  unfolding interpret
  interpret-Steady take steady t s =
      let i : Interpreting env = record { slot = s; close_reason = none; failure = none } in
      let i' : Interpreting env = finish_close (interpret_effects take i t.effects) in
      let walked : IsWalked s i' =
        finish_close-IsWalked s (interpret_effects take i t.effects)
          (interpret_effects-IsWalked take steady s i t.effects (still s, tt)) in
      elim (Option-cases i'.failure) [
        | inl e ↦ rw (e, interpret) (walked.0, tt)
        | inr (failure, e) ↦ rw (e, interpret) (walked.0, subst AllFresh e walked.1)
      ]

  pub interpret_unit-Steady :
      (t : ConnectionTransition (Unit {0})) → SlotSteady {env = env} (interpret_unit t)
  interpret_unit-Steady t = interpret-Steady publish_unit publish_unit-Steady t

  pub interpret_reply-Steady :
      (t : ConnectionTransition env.frame) → SlotSteady {env = env} (interpret_reply t)
  interpret_reply-Steady t =
      interpret-Steady publish_reply (λ epoch operation outcome. publish-Steady _) t
