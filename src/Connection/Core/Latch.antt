-- ===== src/Connection/Core/Latch.antt =====
-- connection/core.rs, progress.rs and integrity.rs: the failures of the steps of an owner and its latch.
use bornera.Prelude.{
  ℕ, ◌≡◌, Bool, true, false, Option, none, some, is_some, List, [], ◌∷◌, ◌++◌, Result, ok, err,
  Bool-cases, inl, inr, arith,
}
use bornera.Host.{Calandria, ByteBudget}
use bornera.Identity.{ConnectionEpoch, OperationId, EffectId}
use bornera.Admission.Options.{Moment}
use bornera.Operation.{Delivery}
use bornera.Write.Frame.{WriteFrame, FrameMeasure, DiscardedWrite}
use bornera.Connection.Effect.{
  ConnectionTransition, ConnectionEffect, ConnectionInput, InboundReply, discard_write,
  schedule_deadline, cancel_deadline, close_epoch, publish_outcome,
}
use bornera.Connection.Journal
use bornera.Connection.Core.State.{
  ConnectionCore, ConnectionCoreInvariant, ConnectionCoreError, write, Op, ◌>>=◌, missing_write,
  write_policy_mismatch, recovery_journal_capacity, keep, poison,
}
use bornera.Connection.Core.Integrity.{
  ensure_healthy, begin_recovery_journal, begin_operation_recovery_journal, retain_discarded,
  take_discarded, reconcile_discard, reconcile_effects, reconcile, absorb_write_transition,
  verify_ownership, verify_ownership_on_hot_path, is_applied,
}
use bornera.Connection.Core.Drive.{
  front_write, prepare_deadline_journal, prepare_input_journal, prepare_reply_journal,
  advance_frames, retain_owner, retain_completed,
}

-- The writer has refused a report; any other failure is the owner's.
abbrev pub is_write : ConnectionCoreError → Bool
is_write (write e) = true
is_write _ = false

module _ {F B : Type 0} where
  -- A failure of the owner has left it poisoned.
  abbrev pub IsHeld : {A : Type 0} → ConnectionCore F B × Result A ConnectionCoreError → Type 0
  IsHeld (c, ok a) = Unit
  IsHeld (c, err e) = is_write e ≡ false → is_some c.poisoned ≡ true

  abbrev pub Holds : {A : Type 0} → Op F B A → Type 0
  Holds m = (c : ConnectionCore F B) → IsHeld (m c)

  bound-IsHeld :
      {A A' : Type 0} (r : ConnectionCore F B × Result A ConnectionCoreError) (f : A → Op F B A')
      → IsHeld r
      → ((a : A) → Holds (f a))
      → IsHeld {A = A'} (elim (r.1) [ ok a ↦ f a r.0 | err e ↦ (r.0, err e) ])
  bound-IsHeld (c, ok a) f h k = k a c
  bound-IsHeld (c, err e) f h k = h

  pub then-Holds :
      {A A' : Type 0} (m : Op F B A) (f : A → Op F B A')
      → Holds m
      → ((a : A) → Holds (f a))
      → Holds (m >>= f)
  then-Holds m f h k c = bound-IsHeld (m c) f (h c) k

  poison-Holds : (A : Type 0) (source : ConnectionCoreInvariant) → Holds (poison {A = A} source)
  unfolding poison
  poison-Holds A source c = ground arith

  pub healthy-Holds : Holds ensure_healthy
  unfolding ensure_healthy poison
  healthy-Holds c = ground arith

  begin-Holds : Holds begin_recovery_journal
  unfolding begin_recovery_journal poison
  begin-Holds c = ground arith

  begin_operation-Holds :
      (operation : OperationId) → Holds (begin_operation_recovery_journal operation)
  unfolding begin_operation_recovery_journal poison
  begin_operation-Holds operation c = ground arith

  retain_discarded-Holds :
      (operation : OperationId) (d : DiscardedWrite F) → Holds (retain_discarded operation d)
  unfolding retain_discarded poison
  retain_discarded-Holds operation d c = ground arith

  module _ ⦃lib : ByteBudget B⦄ where
    take-Holds : (effect : EffectId) (epoch : ConnectionEpoch) → Holds (take_discarded effect epoch)
    unfolding take_discarded poison
    take-Holds effect epoch c = ground arith

    pub frames-Holds :
        (epoch : ConnectionEpoch) (effect : EffectId) (written : ℕ)
        → Holds (advance_frames epoch effect written)
    unfolding advance_frames poison
    frames-Holds epoch effect written c = ground arith

    retain_owner-Holds :
        (operation : OperationId) (effect : EffectId) → Holds (retain_owner operation effect)
    unfolding retain_owner poison
    retain_owner-Holds operation effect c = ground arith

    module _ ⦃host : Calandria⦄ where
      pub verify-Holds : (debug : Bool) → Holds (verify_ownership_on_hot_path debug)
      unfolding verify_ownership_on_hot_path verify_ownership poison
      verify-Holds debug c = ground arith

      deadline-Holds :
          (operation : OperationId) (now : Moment) → Holds (prepare_deadline_journal operation now)
      unfolding prepare_deadline_journal begin_recovery_journal begin_operation_recovery_journal
          poison
      deadline-Holds operation now c = ground arith

      pub input-Holds : (input : ConnectionInput) → Holds (prepare_input_journal input)
      unfolding prepare_input_journal
      input-Holds (ConnectionInput.cancel epoch operation) c =
          ground (arith, begin_operation-Holds operation c)
      input-Holds (ConnectionInput.deadline_elapsed epoch operation now) c =
          ground (arith, deadline-Holds operation now c)
      input-Holds (ConnectionInput.open_admission epoch) c = tt
      input-Holds (ConnectionInput.begin_drain epoch) c = tt
      input-Holds (ConnectionInput.epoch_closed epoch) c = tt
      input-Holds (ConnectionInput.close_requested epoch reason) c = ground (arith, begin-Holds c)
      input-Holds (ConnectionInput.reply_malformed epoch) c = ground (arith, begin-Holds c)

      pub reply-Holds :
          {R : Type 0} (received : InboundReply R) → Holds (prepare_reply_journal received)
      unfolding prepare_reply_journal begin_recovery_journal begin_operation_recovery_journal poison
      reply-Holds received c = ground arith

    -- The tails of the operations below.
    abbrev store_discarded : EffectId → OperationId → Option (DiscardedWrite F) → Op F B (Unit {0})
    store_discarded effect operation none = poison (missing_write operation effect)
    store_discarded effect operation (some d) = retain_discarded operation d

    store-Holds :
        (effect : EffectId) (operation : OperationId) (o : Option (DiscardedWrite F))
        → Holds (store_discarded effect operation o)
    store-Holds effect operation none = poison-Holds (Unit {0}) (missing_write operation effect)
    store-Holds effect operation (some d) = retain_discarded-Holds operation d

    discard-Holds :
        (effect : EffectId) (epoch : ConnectionEpoch) (operation : OperationId)
        → Holds (reconcile_discard effect epoch operation)
    unfolding reconcile_discard poison
    discard-Holds effect epoch operation =
        then-Holds (take_discarded effect epoch) (store_discarded effect operation)
          (take-Holds effect epoch) (store-Holds effect operation)

    reconcile_effects-Holds :
        (R : Type 0) (es : List (ConnectionEffect R)) (output : ConnectionTransition R)
        → Holds (reconcile_effects es output)
    unfolding reconcile_effects
    reconcile_effects-Holds R [] output = λ c. tt
    reconcile_effects-Holds R (discard_write effect epoch operation ∷ es) output =
        then-Holds (reconcile_discard effect epoch operation) (λ _. reconcile_effects es output)
          (discard-Holds effect epoch operation) (λ _. reconcile_effects-Holds R es output)
    reconcile_effects-Holds R (schedule_deadline epoch operation deadline ∷ es) output =
        reconcile_effects-Holds R es _
    reconcile_effects-Holds R (cancel_deadline epoch operation ∷ es) output =
        reconcile_effects-Holds R es _
    reconcile_effects-Holds R (close_epoch epoch reason ∷ es) output =
        reconcile_effects-Holds R es _
    reconcile_effects-Holds R (publish_outcome epoch operation outcome ∷ es) output =
        reconcile_effects-Holds R es _

    pub reconcile-Holds : (R : Type 0) (t : ConnectionTransition R) → Holds (reconcile t)
    unfolding reconcile
    reconcile-Holds R t = reconcile_effects-Holds R t.effects (record t { effects = [] })

    pub absorb-Holds :
        (combined t : ConnectionTransition (Unit {0})) (operation : OperationId) (effect : EffectId)
        → Holds (absorb_write_transition combined t operation effect)
    unfolding absorb_write_transition
    absorb-Holds combined t operation effect c = elim (Bool-cases (is_applied t.disposition)) [
      | inr q ↦
          rw (q, absorb_write_transition)
            (poison-Holds (ConnectionTransition (Unit {0}))
              (write_policy_mismatch operation effect t.disposition) c)
      | inl q ↦
          rw (q, absorb_write_transition)
            (then-Holds (reconcile t)
              (λ absorbed c.
                (c, ok (record combined { effects = combined.effects ++ absorbed.effects })))
              (reconcile-Holds _ t) (λ absorbed c. tt) c)
    ]

    pub retain-Holds :
        (operation : OperationId) (effect : EffectId) (frame : F) (measure : FrameMeasure)
        (delivery : Delivery)
        → Holds (retain_completed operation effect frame measure delivery)
    unfolding retain_completed
    retain-Holds operation effect frame measure delivery c =
        let d : DiscardedWrite F = record {
          operation = operation;
          effect = effect;
          frame = frame;
          measure = measure;
          written = measure.wire_bytes;
          delivery = delivery;
        } in
        let r : ConnectionCore F B × Result Bool ConnectionCoreError =
          keep (λ j. Journal.retain_write j d) c in
        elim (Bool-cases (Journal.retain_write c.journal d).1) [
          | inl q ↦ rw (q, retain_completed) (retain_owner-Holds operation effect r.0)
          | inr q ↦ rw (q, retain_completed) (poison-Holds (Unit {0}) recovery_journal_capacity r.0)
        ]

  pub front_write-IsHeld :
      (view : WriteFrame F) (c : ConnectionCore F B) (maximum : ℕ)
      → IsHeld (front_write view c maximum)
  unfolding front_write
  front_write-IsHeld view c maximum = ground arith
