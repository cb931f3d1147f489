-- ===== src/Slot/Outcomes.antt =====
-- crates/bornera/src/transition.rs: what reaches the batch of outcomes.
use bornera.Prelude.{
  ℕ, ◌+◌, ◌≡◌, refl, sym, ap, ◌∙◌, ◌&&◌, Option, none, some, List, [], ◌∷◌, ◌++◌, append-nil,
  append_assoc, Result, ok, err, Result-cases, Option-cases, Bool-cases, inl, inr, arith,
}
use bornera.Identity.{OperationId}
use bornera.Operation.{CloseReason}
use bornera.Connection.Effect.{
  ConnectionEffect, schedule_deadline, discard_write, cancel_deadline, close_epoch, publish_outcome,
  ConnectionTransition,
}
use bornera.Slot.Kinds.{
  DeadlineEvent, EngineError, EngineOutcome, ConnectionEvent, invariant_error,
  unexpected_discard_effect, missing_shutdown_deadline, closing_event,
}
use bornera.Slot.State.{Environment, ConnectionSlot, Run}
use bornera.Slot.Events.{publish_event, publish_closing}
use bornera.Slot.Transition.{
  is_opened, is_drained, drop_deadline, schedule, publish, retain_first, Interpreting, retained,
  publish_reply, interpret_effect, interpret_effects, begin_close, finish_close, interpret,
  interpret_reply,
}
use bornera.Slot.Steady.Publication.{publish_next_cases}

-- The outcomes that a transition publishes, in its order.
abbrev pub outcomes_of : {R : Type 0} → List (ConnectionEffect R) → List (EngineOutcome R)
outcomes_of [] = []
outcomes_of (publish_outcome epoch operation outcome ∷ es) =
    record { epoch = epoch; operation = operation; outcome = outcome } ∷ outcomes_of es
outcomes_of (schedule_deadline epoch operation deadline ∷ es) = outcomes_of es
outcomes_of (discard_write effect epoch operation ∷ es) = outcomes_of es
outcomes_of (cancel_deadline epoch operation ∷ es) = outcomes_of es
outcomes_of (close_epoch epoch reason ∷ es) = outcomes_of es

-- A step of the walk that ends without a failure began without one, and succeeded.
unfailed :
    (failure : Option EngineError) (r : Result (Unit {0}) EngineError)
    → retain_first failure r ≡ none
    → (failure ≡ none) × (r ≡ ok tt)
unfolding retain_first
unfailed failure (ok _) h = (h, refl)
unfailed none (err e) h = absurd (ground arith)
unfailed (some first) (err e) h = absurd (ground arith)

outcomes_of_cons :
    {R : Type 0} (effect : ConnectionEffect R) (es : List (ConnectionEffect R))
    → outcomes_of (effect ∷ es) ≡ outcomes_of (effect ∷ []) ++ outcomes_of es
outcomes_of_cons (publish_outcome epoch operation outcome) es = refl
outcomes_of_cons (schedule_deadline epoch operation deadline) es = refl
outcomes_of_cons (discard_write effect epoch operation) es = refl
outcomes_of_cons (cancel_deadline epoch operation) es = refl
outcomes_of_cons (close_epoch epoch reason) es = refl

module _ {env : Environment} where
  -- The outcomes that wait to be drained.
  abbrev pub waiting : ConnectionSlot env → List (EngineOutcome env.frame)
  waiting s = env.outcomes.items s.outcomes

  -- A walk without a failure has added these outcomes.
  abbrev Added : ConnectionSlot env → List (EngineOutcome env.frame) → Interpreting env → Type 0
  Added s os i = i.failure ≡ none → waiting i.slot ≡ waiting s ++ os

  drop_deadline_outcomes :
      (operation : OperationId) (s : ConnectionSlot env)
      → (drop_deadline operation s).outcomes ≡ s.outcomes
  unfolding drop_deadline
  drop_deadline_outcomes operation s = ground arith

  schedule_outcomes :
      (event : DeadlineEvent) (deadline : ℕ) (s : ConnectionSlot env)
      → (schedule event deadline s).0.outcomes ≡ s.outcomes
  unfolding schedule
  schedule_outcomes event deadline s = ground (arith, drop_deadline_outcomes event.operation s)

  publish_event_outcomes :
      (event : ConnectionEvent) (s : ConnectionSlot env)
      → (publish_event event s).0.outcomes ≡ s.outcomes
  unfolding publish_event
  publish_event_outcomes event s = ground arith

  publish_closing_outcomes :
      (reason : CloseReason) (s : ConnectionSlot env)
      → (publish_closing reason s).0.outcomes ≡ s.outcomes
  publish_closing_outcomes reason s =
      elim (publish_next_cases (λ n epoch. closing_event n epoch reason) s) [
        | inl e ↦ rw e (
            publish_event_outcomes
              (closing_event (s.event_sequence + 1) s.core.machine.epoch reason) s)
        | inr e ↦ rw e refl
      ]

  publish_outcomes :
      (outcome : EngineOutcome env.frame) (s : ConnectionSlot env)
      → (publish outcome s).1 ≡ ok tt
      → waiting (publish outcome s).0 ≡ waiting s ++ outcome ∷ []
  unfolding publish
  publish_outcomes outcome s h = elim (Result-cases (env.outcomes.try_push s.outcomes outcome)) [
    | inl (batch, e) ↦ rw (e, publish) (env.outcomes.items_push s.outcomes batch outcome e)
    | inr (failure, e) ↦ absurd (ground arith)
  ]

  quiet :
      (m : Run (ConnectionSlot env) (Unit {0})) (s : ConnectionSlot env)
      (os : List (EngineOutcome env.frame)) (i : Interpreting env)
      → (m i.slot).0.outcomes ≡ i.slot.outcomes
      → Added s os i
      → Added s os (retained m i)
  quiet m s os i same h e = ap env.outcomes.items same ∙ h (unfailed i.failure (m i.slot).1 e).0

  loud :
      (m : Run (ConnectionSlot env) (Unit {0})) (s : ConnectionSlot env)
      (os : List (EngineOutcome env.frame)) (o : EngineOutcome env.frame) (i : Interpreting env)
      → ((m i.slot).1 ≡ ok tt → waiting (m i.slot).0 ≡ waiting i.slot ++ o ∷ [])
      → Added s os i
      → Added s (os ++ o ∷ []) (retained m i)
  loud m s os o i pushed h e =
      let before : (i.failure ≡ none) × ((m i.slot).1 ≡ ok tt) =
        unfailed i.failure (m i.slot).1 e in
      pushed before.1 ∙ ap (λ xs. xs ++ o ∷ []) (h before.0) ∙ append_assoc (waiting s) os (o ∷ [])

  effect_outcomes :
      (s : ConnectionSlot env) (os : List (EngineOutcome env.frame)) (i : Interpreting env)
      (effect : ConnectionEffect env.frame)
      → Added s os i
      → Added s (os ++ outcomes_of (effect ∷ [])) (interpret_effect publish_reply i effect)
  unfolding interpret_effect
  effect_outcomes s os i (publish_outcome epoch operation outcome) h =
      let o : EngineOutcome env.frame = record {
        epoch = epoch;
        operation = operation;
        outcome = outcome;
      } in
      loud (publish o) s os o i (publish_outcomes o i.slot) h
  effect_outcomes s os i (schedule_deadline epoch operation deadline) h =
      let event : DeadlineEvent = record { epoch = epoch; operation = operation } in
      rw append-nil
        (quiet (schedule event deadline) s os i (schedule_outcomes event deadline i.slot) h)
  effect_outcomes s os i (discard_write effect epoch operation) h =
      rw append-nil
        (quiet (λ s. (s, err (invariant_error unexpected_discard_effect))) s os i refl h)
  effect_outcomes s os i (cancel_deadline epoch operation) h =
      rw append-nil (λ e. ap env.outcomes.items (drop_deadline_outcomes operation i.slot) ∙ h e)
  effect_outcomes s os i (close_epoch epoch reason) h = rw append-nil h

  effects_outcomes :
      (s : ConnectionSlot env) (os : List (EngineOutcome env.frame)) (i : Interpreting env)
      (es : List (ConnectionEffect env.frame))
      → Added s os i
      → Added s (os ++ outcomes_of es) (interpret_effects publish_reply i es)
  unfolding interpret_effects
  effects_outcomes s os i [] h = rw append-nil h
  effects_outcomes s os i (effect ∷ es) h =
      let later : Added s (os ++ outcomes_of (effect ∷ []) ++ outcomes_of es)
          (interpret_effects publish_reply (interpret_effect publish_reply i effect) es) =
        effects_outcomes s (os ++ outcomes_of (effect ∷ []))
          (interpret_effect publish_reply i effect) es (effect_outcomes s os i effect h) in
      λ e.
        later e
        ∙ ap (◌++◌ (waiting s)) (
            append_assoc os (outcomes_of (effect ∷ [])) (outcomes_of es)
            ∙ ap (◌++◌ os) (sym (outcomes_of_cons effect es)))

  begin_close_outcomes :
      (s : ConnectionSlot env) (os : List (EngineOutcome env.frame)) (i : Interpreting env)
      (reason : CloseReason)
      → Added s os i
      → Added s os (begin_close reason i)
  unfolding begin_close
  begin_close_outcomes s os i reason h =
      let i' : Interpreting env = retained (publish_closing reason) i in
      let published : Added s os i' =
        quiet (publish_closing reason) s os i (publish_closing_outcomes reason i.slot) h in
      elim (Bool-cases (is_opened i'.slot.transport_state && is_drained reason)) [
        | inr e ↦ rw (e, begin_close) published
        | inl e ↦ elim (Option-cases i'.slot.drain_deadline) [
          | inl e' ↦
              rw (e, e', begin_close)
                (λ none_failed.
                  published
                    (unfailed i'.failure (err (invariant_error missing_shutdown_deadline))
                      none_failed).0)
          | inr (deadline, e') ↦ rw (e, e', begin_close) published
        ]
      ]

  finish_close_outcomes :
      (s : ConnectionSlot env) (os : List (EngineOutcome env.frame)) (i : Interpreting env)
      → Added s os i
      → Added s os (finish_close i)
  unfolding finish_close
  finish_close_outcomes s os i h = elim (Option-cases i.close_reason) [
    | inl e ↦ rw (e, finish_close) h
    | inr (reason, e) ↦ elim (Option-cases i.slot.close_request) [
      | inl e' ↦ rw (e, e', finish_close) (begin_close_outcomes s os i reason h)
      | inr (request, e') ↦ rw (e, e', finish_close) h
    ]
  ]

  -- If a slot carries out the transition of a reply without a failure, the outcomes that wait to
  -- be drained are those before, followed by the ones that the transition publishes, in its order.
  pub interpret_reply_outcomes :
      (t : ConnectionTransition env.frame) (s s' : ConnectionSlot env)
      (carried_out : interpret_reply t s ≡ (s', ok tt))
      → waiting s' ≡ waiting s ++ outcomes_of t.effects
  unfolding interpret
  interpret_reply_outcomes t s s' carried_out =
      let i : Interpreting env = record { slot = s; close_reason = none; failure = none } in
      let i' : Interpreting env = finish_close (interpret_effects publish_reply i t.effects) in
      let start : Added s [] i = λ _. sym (append-nil (waiting s)) in
      let added : Added s (outcomes_of t.effects) i' =
        finish_close_outcomes s (outcomes_of t.effects)
          (interpret_effects publish_reply i t.effects) (effects_outcomes s [] i t.effects start) in
      elim (Option-cases i'.failure) [
        | inl e ↦ ap (λ r. waiting r.0) (sym carried_out) ∙ added e
        | inr (failure, e) ↦ absurd (ground arith)
      ]
