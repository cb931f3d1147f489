-- ===== src/Slot/Steady/Publication.antt =====
-- crates/bornera/src/lifecycle.rs and transition.rs: publications and timers are steady steps.
use bornera.Prelude.{
  ℕ, ◌+◌, ◌≤◌, ◌<◌, ◌≡◌, refl, List, [], ◌∷◌, ◌++◌, All, All-append, err, Result-cases,
  Option-cases, inl, inr, ◌⊎◌, arith, Bool-cases, leb, length, get_elem?, ◌==◌,
}
use bornera.Prelude.Search.{position}
use bornera.Identity.{ConnectionEpoch, OperationId}
use bornera.Operation.{OperationOutcome, reply, write_complete, failed, cancelled}
use bornera.Slot.Kinds.{
  EngineOutcome, event_sequence_exhausted, invariant_error, DeadlineEvent, ConnectionEvent,
  sequence_of,
}
use bornera.Slot.State.{Environment, ConnectionSlot}
use bornera.Slot.Events.{next_event_sequence, publish_event, publish_next}
use bornera.Slot.Transition.{drop_deadline, schedule, publish, publish_unit}
use bornera.Slot.Steady.{Ascending, Moved, still, IsFresh, SlotSteady}

Ascending-append :
    (es : List ConnectionEvent) (e : ConnectionEvent) (n : ℕ)
    → Ascending es
    → All (λ x. sequence_of x ≤ n) es
    → n < sequence_of e
    → Ascending (es ++ e ∷ [])
Ascending-append [] e n ha hb h = (tt, tt)
Ascending-append (x ∷ es) e n ha hb h = (
  All-append (λ later. sequence_of x < sequence_of later) es (e ∷ []) ha.0
      (omega (arith, hb.0), tt),
  Ascending-append es e n ha.1 hb.1 h,
)

below :
    (es : List ConnectionEvent) (n m : ℕ)
    → All (λ x. sequence_of x ≤ n) es
    → n ≤ m
    → All (λ x. sequence_of x ≤ m) es
below [] n m hb h = tt
below (x ∷ es) n m hb h = (omega (arith, hb.0), below es n m hb.1 h)

module _ {env : Environment} where
  publish_event-Moved :
      (event : ConnectionEvent) (s : ConnectionSlot env)
      → s.event_sequence < sequence_of event
      → Moved s (publish_event event s).0 × IsFresh (publish_event event s).1
  unfolding publish_event
  publish_event-Moved event s h = elim (Result-cases (env.events.try_push s.lifecycle event)) [
    | inl (batch, e) ↦
        rw (e, publish_event)
          (
            record {
              state_kept = refl;
              limits_kept = refl;
              numbered = λ p. rw (env.events.items_push s.lifecycle batch event e) (
                Ascending-append (env.events.items s.lifecycle) event s.event_sequence p.0 p.1 h,
                All-append (λ x. sequence_of x ≤ sequence_of event) (env.events.items s.lifecycle)
                    (event ∷ [])
                    (below (env.events.items s.lifecycle) s.event_sequence (sequence_of event) p.1
                      (omega arith))
                    (omega arith, tt),
              );
            },
            tt,
          )
    | inr (failure, e) ↦ elim (Result-cases (env.events.try_push s.recovery_events event)) [
      | inl (batch, e') ↦
          rw (e, e', publish_event)
            (
              record {
                state_kept = refl;
                limits_kept = refl;
                numbered = λ p. (
                  p.0,
                  below (env.events.items s.lifecycle) s.event_sequence (sequence_of event) p.1
                      (omega arith),
                );
              },
              refl,
            )
      | inr (failure', e') ↦
          rw (e, e', publish_event)
            (
              record {
                state_kept = refl;
                limits_kept = refl;
                numbered = λ p. (
                  p.0,
                  below (env.events.items s.lifecycle) s.event_sequence (sequence_of event) p.1
                      (omega arith),
                );
              },
              refl,
            )
    ]
  ]

  -- The next number is taken, or the numbers are exhausted.
  pub publish_next_cases :
      (event : ℕ → ConnectionEpoch → ConnectionEvent) (s : ConnectionSlot env)
      → (publish_next event s ≡ publish_event (event (s.event_sequence + 1) s.core.machine.epoch) s)
        ⊎ (publish_next event s ≡ (s, err (invariant_error event_sequence_exhausted)))
  unfolding publish_next next_event_sequence
  publish_next_cases event s = ground arith

  pub publish_numbered-Steady :
      (event : ℕ → ConnectionEpoch → ConnectionEvent)
      → ((n : ℕ) (epoch : ConnectionEpoch) → sequence_of (event n epoch) ≡ n)
      → SlotSteady {env = env} (publish_next event)
  publish_numbered-Steady event numbered s = elim (publish_next_cases event s) [
    | inr e ↦ rw e (still s, refl)
    | inl e ↦ rw e (
        publish_event-Moved (event (s.event_sequence + 1) s.core.machine.epoch) s
          (omega (arith, numbered (s.event_sequence + 1) s.core.machine.epoch)))
  ]

  pub drop_deadline-Moved :
      (operation : OperationId) (s : ConnectionSlot env) → Moved s (drop_deadline operation s)
  unfolding drop_deadline
  drop_deadline-Moved operation s =
      elim (Option-cases (position (λ entry. entry.operation == operation) s.deadlines)) [
        | inl e ↦ rw (e, drop_deadline) (still s)
        | inr (index, e) ↦ elim (Option-cases (get_elem? s.deadlines index)) [
          | inl e' ↦ rw (e, e', drop_deadline) (still s)
          | inr (entry, e') ↦
              rw (e, e', drop_deadline)
                (record { state_kept = refl; limits_kept = refl; numbered = λ h. h })
        ]
      ]

  pub schedule-Steady :
      (event : DeadlineEvent) (deadline : ℕ) → SlotSteady {env = env} (schedule event deadline)
  unfolding schedule
  schedule-Steady event deadline s =
      let s' : ConnectionSlot env = drop_deadline event.operation s in
      let dropped : Moved s s' = drop_deadline-Moved event.operation s in
      elim (Bool-cases (leb s'.limits.operation_capacity (length s'.deadlines))) [
        | inl e ↦ rw (e, schedule) (dropped, refl)
        | inr e ↦ elim (Result-cases (env.timers.schedule s'.timers deadline event)) [
          | inl (scheduled, e') ↦
              rw (e, e', schedule)
                (
                  record {
                    state_kept = dropped.state_kept;
                    limits_kept = dropped.limits_kept;
                    numbered = dropped.numbered;
                  },
                  tt,
                )
          | inr (failure, e') ↦ rw (e, e', schedule) (dropped, refl)
        ]
      ]

  pub publish-Steady :
      (outcome : EngineOutcome env.frame) → SlotSteady {env = env} (publish outcome)
  unfolding publish
  publish-Steady outcome s = elim (Result-cases (env.outcomes.try_push s.outcomes outcome)) [
    | inl (batch, e) ↦
        rw (e, publish) (record { state_kept = refl; limits_kept = refl; numbered = λ h. h }, tt)
    | inr (failure, e) ↦ elim (Result-cases (env.outcomes.try_push s.recovery_outcomes outcome)) [
      | inl (batch, e') ↦
          rw (e, e', publish)
            (record { state_kept = refl; limits_kept = refl; numbered = λ h. h }, refl)
      | inr (failure', e') ↦ rw (e, e', publish) (still s, refl)
    ]
  ]

  pub publish_unit-Steady :
      (epoch : ConnectionEpoch) (operation : OperationId) (outcome : OperationOutcome (Unit {0}))
      → SlotSteady {env = env} (publish_unit epoch operation outcome)
  publish_unit-Steady epoch operation (reply _) s = (still s, refl)
  publish_unit-Steady epoch operation (write_complete delivery) s = publish-Steady _ s
  publish_unit-Steady epoch operation (failed failure delivery) s = publish-Steady _ s
  publish_unit-Steady epoch operation (cancelled delivery) s = publish-Steady _ s
