-- ===== src/Slot/Transition.antt =====
-- crates/bornera/src/transition.rs: what a slot does for the effects of a transition of its core. The
-- first failure is kept, and the later effects are carried out all the same.
use bornera.Prelude.{
  ℕ, ◌-◌, Bool, true, false, ◌&&◌, Option, none, some, List, [], ◌∷◌, ◌++◌, length, get_elem?, set,
  take, leb, ◌==◌, if◌then◌else◌, Result, ok, err,
}
use bornera.Prelude.Search.{position}
use bornera.Identity.{ConnectionEpoch, OperationId}
use bornera.Admission.Options.{Deadline}
use bornera.Operation.{
  CloseReason, drained, OperationOutcome, reply, write_complete, failed, cancelled,
}
use bornera.Transport.Diagnostic.{TransportState, opened, closing}
use bornera.Connection.Effect.{
  ConnectionEffect, schedule_deadline, discard_write, cancel_deadline, close_epoch, publish_outcome,
  ConnectionTransition,
}
use bornera.Slot.Kinds.{
  DeadlineEvent, ShutdownState, immediate, pending, core_close, EngineError, invariant_error,
  deadline_index_capacity, deadline_schedule, outcome_publication, recovery_outcome_publication,
  missing_shutdown_deadline, unexpected_discard_effect, unexpected_unit_reply, EngineOutcome,
}
use bornera.Slot.State.{Environment, ConnectionSlot, Run}
use bornera.Slot.Events.{publish_closing}

-- `Vec::swap_remove(i)`, without the entry: the last entry takes its place.
unfoldable pub swap_remove : {A : Type 0} → ℕ → List A → List A
swap_remove i xs = elim (get_elem? xs (length xs - 1)) [
  | none ↦ xs
  | some last ↦ take (length xs - 1) (set xs i last)
]

unfoldable pub retain_first :
    Option EngineError → Result (Unit {0}) EngineError → Option EngineError
retain_first failure (ok _) = failure
retain_first none (err e) = some e
retain_first (some first) (err e) = some first

abbrev pub is_opened : TransportState → Bool
is_opened opened = true
is_opened _ = false

abbrev pub is_drained : CloseReason → Bool
is_drained drained = true
is_drained _ = false

module _ {env : Environment} where
  unfoldable pub drop_deadline : OperationId → ConnectionSlot env → ConnectionSlot env
  unfolding swap_remove
  drop_deadline operation s = elim (position (λ entry. entry.operation == operation) s.deadlines) [
    | none ↦ s
    | some index ↦ elim (get_elem? s.deadlines index) [
      | none ↦ s
      | some entry ↦ record s {
        deadlines = swap_remove index s.deadlines;
        timers = env.timers.cancel s.timers entry.token;
      }
    ]
  ]

  unfoldable pub schedule : DeadlineEvent → Deadline → Run (ConnectionSlot env) (Unit {0})
  unfolding drop_deadline
  schedule event deadline s =
      let s' = drop_deadline event.operation s in
      if leb s'.limits.operation_capacity (length s'.deadlines)
      then (s', err (invariant_error deadline_index_capacity))
      else (elim (env.timers.schedule s'.timers deadline event) [
        | err failure ↦ (s', err (invariant_error (deadline_schedule failure)))
        | ok (timers, token) ↦ (
          record s' {
            timers = timers;
            deadlines = s'.deadlines ++ record { operation = event.operation; token = token } ∷ [];
          },
          ok tt,
        )
      ])

  unfoldable pub publish : EngineOutcome env.frame → Run (ConnectionSlot env) (Unit {0})
  publish outcome s = elim (env.outcomes.try_push s.outcomes outcome) [
    | ok batch ↦ (record s { outcomes = batch }, ok tt)
    | err failure ↦ elim (env.outcomes.try_push s.recovery_outcomes outcome) [
      | ok batch ↦ (
        record s { recovery_outcomes = batch },
        err (invariant_error (outcome_publication failure)),
      )
      | err failure' ↦ (s, err (invariant_error (recovery_outcome_publication failure')))
    ]
  ]

-- The local variables of `interpret_unit` and `interpret_reply`, with the slot.
pub record Interpreting (env : Environment) : Type 0 where
  pub slot : ConnectionSlot env
  pub close_reason : Option CloseReason
  pub failure : Option EngineError

module _ {env : Environment} where
  abbrev pub retained : Run (ConnectionSlot env) (Unit {0}) → Interpreting env → Interpreting env
  retained m i = let r = m i.slot in record i { slot = r.0; failure = retain_first i.failure r.1 }

  -- How a published outcome is taken: by `interpret_unit`, and by `interpret_reply`.
  abbrev pub publish_unit :
      ConnectionEpoch
      → OperationId
      → OperationOutcome (Unit {0})
      → Run (ConnectionSlot env) (Unit {0})
  publish_unit epoch operation (reply _) s = (s, err (invariant_error unexpected_unit_reply))
  publish_unit epoch operation (write_complete delivery) s =
      publish (record { epoch = epoch; operation = operation; outcome = write_complete delivery }) s
  publish_unit epoch operation (failed failure delivery) s =
      publish (record { epoch = epoch; operation = operation; outcome = failed failure delivery }) s
  publish_unit epoch operation (cancelled delivery) s =
      publish (record { epoch = epoch; operation = operation; outcome = cancelled delivery }) s

  abbrev pub publish_reply :
      ConnectionEpoch
      → OperationId
      → OperationOutcome env.frame
      → Run (ConnectionSlot env) (Unit {0})
  publish_reply epoch operation outcome =
      publish (record { epoch = epoch; operation = operation; outcome = outcome })

  module _ {R : Type 0}
      (take : ConnectionEpoch
        → OperationId
        → OperationOutcome R
        → Run (ConnectionSlot env) (Unit {0})) where
    unfoldable pub interpret_effect : Interpreting env → ConnectionEffect R → Interpreting env
    unfolding schedule drop_deadline publish retain_first
    interpret_effect i (schedule_deadline epoch operation deadline) =
        retained (schedule (record { epoch = epoch; operation = operation }) deadline) i
    interpret_effect i (discard_write effect epoch operation) =
        retained (λ s. (s, err (invariant_error unexpected_discard_effect))) i
    interpret_effect i (cancel_deadline epoch operation) = record i {
      slot = drop_deadline operation i.slot;
    }
    interpret_effect i (close_epoch epoch reason) = record i { close_reason = some reason }
    interpret_effect i (publish_outcome epoch operation outcome) =
        retained (take epoch operation outcome) i

    unfoldable pub interpret_effects :
        Interpreting env → List (ConnectionEffect R) → Interpreting env
    unfolding interpret_effect
    interpret_effects i [] = i
    interpret_effects i (e ∷ es) = interpret_effects (interpret_effect i e) es

  -- How the transport is to shut down, the drain deadline taken, and whether one is missing.
  unfoldable pub begin_close : CloseReason → Interpreting env → Interpreting env
  unfolding retain_first
  begin_close reason i =
      let i' = retained (publish_closing reason) i in
      let s = i'.slot in
      let directed : ShutdownState → ConnectionSlot env = λ shutdown. record s {
        drain_deadline = none;
        transport_state = closing;
        close_request = some (core_close reason shutdown);
      } in
      if is_opened s.transport_state && is_drained reason
      then (elim s.drain_deadline [
        | some deadline ↦ record i' { slot = directed (pending deadline) }
        | none ↦ record i' {
          slot = directed immediate;
          failure = retain_first i'.failure (err (invariant_error missing_shutdown_deadline));
        }
      ])
      else record i' { slot = directed immediate }

  unfoldable pub finish_close : Interpreting env → Interpreting env
  unfolding begin_close
  finish_close i = elim i.close_reason [
    | none ↦ i
    | some reason ↦ elim i.slot.close_request [ some request ↦ i | none ↦ begin_close reason i ]
  ]

  unfoldable pub interpret :
      {R : Type 0}
      → (ConnectionEpoch → OperationId → OperationOutcome R → Run (ConnectionSlot env) (Unit {0}))
      → ConnectionTransition R
      → Run (ConnectionSlot env) (Unit {0})
  unfolding interpret_effects finish_close
  interpret take t s =
      let i : Interpreting env = record { slot = s; close_reason = none; failure = none } in
      let i' = finish_close (interpret_effects take i t.effects) in
      (i'.slot, elim i'.failure [ none ↦ ok tt | some e ↦ err e ])

  abbrev pub interpret_unit : ConnectionTransition (Unit {0}) → Run (ConnectionSlot env) (Unit {0})
  interpret_unit = interpret publish_unit

  abbrev pub interpret_reply : ConnectionTransition env.frame → Run (ConnectionSlot env) (Unit {0})
  interpret_reply = interpret publish_reply
