-- ===== src/Connection/Settlement/Handlers.antt =====
-- The settlement of each handler.
use bornera.Prelude.{
  ◌+◌, ◌≡◌, false, none, some, inl, inr, List, ◌∷◌, All, Bool-cases, List-cases, Option-cases,
  arith,
}
use bornera.Prelude.Search.{find?, erase_first}
use bornera.Prelude.Weights.{weigh-erase, weigh-modify, find?-passes, All-find?}
use bornera.Host.{Calandria}
use bornera.Identity.{ConnectionEpoch, OperationId, EffectId}
use bornera.Admission.Options.{Moment, draining, is_reply_expected}
use bornera.Admission.Ledger
use bornera.Operation.{
  CloseReason, deadline_after_possible_send, malformed_reply, unexpected_reply, match_key_mismatch,
  key_mismatch, reply, OperationRecord, is_terminal,
}
use bornera.Matching.{named, pop_front}
use bornera.Matching.Laws.{get-find?, get_mut-find?, get_mut_found, remove_found}
use bornera.Connection.Effect.{
  ConnectionInput, InboundReply, ConnectionTransition, applied, fault, cancel_deadline,
  publish_outcome,
}
use bornera.Connection.Effect
use bornera.Connection.Machine.{ConnectionMachine, finish_drain, close_into}
use bornera.Admission.Ledger.{ReservationLedger}
use bornera.Connection.Drive.{
  start, await, end_observation, write_started, finish_write, write_completed, cancel_queued,
  cancel_sent, cancel, expire_queued, deadline_elapsed, open_admission, begin_drain,
  close_requested, epoch_closed, reply_malformed, complete_front, apply_reply, apply, Outcome,
  with_effects, publish_unless_terminal,
}
use bornera.Connection.Settlement.Counts.{owes, unsettled, publications, IsPhased}
use bornera.Connection.Settlement.Closure.{close-settles, finish_drain-settles}

-- The machine and the transition of an outcome balance what `m` owed.
abbrev pub Settles : {R : Type 0} → OperationId → ConnectionMachine → Outcome R → Type 0
Settles id m (m', t) = publications id t + unsettled id m' ≡ unsettled id m

module _ (id : OperationId) (m : ConnectionMachine) ⦃host : Calandria⦄ where
  pub write_started-Settles :
      (epoch : ConnectionEpoch) (operation : OperationId) (effect : EffectId)
      → Settles id m (write_started m epoch operation effect)
  unfolding write_started
  write_started-Settles epoch operation effect =
      elim (Option-cases (find? (named operation) m.matching.pending)) [
        | inl e ↦ ground (arith, get-find? m.matching operation)
        | inr (r, e) ↦ ground (
          arith,
          get-find? m.matching operation,
          get_mut-find? m.matching operation start,
          weigh-modify (owes id) (named operation) start m.matching.pending r,
        )
      ]

  module _ {R : Type 0} where
    -- The removal of a record, with what is published of it.
    removal-Settles :
        (operation : OperationId) (r : OperationRecord) (l : ReservationLedger)
        (t : ConnectionTransition R)
        → find? (named operation) m.matching.pending ≡ some r
        → publications id t ≡ owes id r
        → Settles id m (
            finish_drain
              (record m {
                ledger = l;
                matching = record (m.matching) {
                  pending = erase_first (named operation) m.matching.pending;
                };
              })
              t)
    removal-Settles operation r l t e settled = omega (
      arith,
      finish_drain-settles id
          (record m {
            ledger = l;
            matching = record (m.matching) {
              pending = erase_first (named operation) m.matching.pending;
            };
          })
          t,
      weigh-erase (owes id) (named operation) m.matching.pending r e,
    )

  cancel_queued-Settles :
      (operation : OperationId) (r : OperationRecord)
      → find? (named operation) m.matching.pending ≡ some r
      → is_terminal r.phase ≡ false
      → Settles id m (cancel_queued m operation)
  unfolding cancel_queued
  cancel_queued-Settles operation r e owed =
      rw (remove_found m.matching operation r e, cancel_queued)
        (removal-Settles operation r _ _ e
          (ground (arith, find?-passes (named operation) m.matching.pending r)))

  cancel_sent-Settles :
      (operation : OperationId) (r : OperationRecord)
      → find? (named operation) m.matching.pending ≡ some r
      → is_terminal r.phase ≡ false
      → Settles id m (cancel_sent m operation)
  unfolding cancel_sent
  cancel_sent-Settles operation r e owed = ground (
    arith,
    get_mut-find? m.matching operation end_observation,
    find?-passes (named operation) m.matching.pending r,
    weigh-modify (owes id) (named operation) end_observation m.matching.pending r,
  )

  cancel-Settles :
      (epoch : ConnectionEpoch) (operation : OperationId) → Settles id m (cancel m epoch operation)
  unfolding cancel
  cancel-Settles epoch operation =
      elim (Option-cases (find? (named operation) m.matching.pending)) [
        | inl e ↦ ground (arith, get-find? m.matching operation)
        | inr (r, e) ↦ ground (
          arith,
          get-find? m.matching operation,
          cancel_queued-Settles operation r e,
          cancel_sent-Settles operation r e,
        )
      ]

  expire_queued-Settles :
      (operation : OperationId) (r : OperationRecord)
      → find? (named operation) m.matching.pending ≡ some r
      → is_terminal r.phase ≡ false
      → Settles id m (expire_queued m operation)
  unfolding expire_queued
  expire_queued-Settles operation r e owed =
      rw (remove_found m.matching operation r e, expire_queued)
        (removal-Settles operation r _ _ e
          (ground (arith, find?-passes (named operation) m.matching.pending r)))

  -- A deadline settles an operation only while no byte was sent, so no tombstone is settled again.
  deadline_elapsed-Settles :
      (epoch : ConnectionEpoch) (operation : OperationId) (now : Moment)
      → All IsPhased m.matching.pending
      → Settles id m (deadline_elapsed m epoch operation now)
  unfolding deadline_elapsed close_into
  deadline_elapsed-Settles epoch operation now phased =
      elim (Option-cases (find? (named operation) m.matching.pending)) [
        | inl e ↦ ground (arith, get-find? m.matching operation)
        | inr (r, e) ↦
            let own = All-find? IsPhased (named operation) m.matching.pending r e phased in
            ground (
              arith,
              get-find? m.matching operation,
              own,
              expire_queued-Settles operation r e,
              close-settles id m deadline_after_possible_send none
                  (Effect.new {R = Unit {0}} applied),
            )
      ]

  finish_write-Settles :
      (operation : OperationId) (r : OperationRecord)
      → find? (named operation) m.matching.pending ≡ some r
      → Settles id m (finish_write m operation r)
  unfolding finish_write
  finish_write-Settles operation r e = elim (Bool-cases (is_reply_expected r.completion)) [
    | inl waits ↦
        rw (waits, get_mut_found m.matching operation r e await, finish_write)
          (ground (arith, weigh-modify (owes id) (named operation) await m.matching.pending r))
    | inr over ↦
        rw (over, remove_found m.matching operation r e, finish_write)
          (removal-Settles operation r _ _ e
            (ground (arith, find?-passes (named operation) m.matching.pending r)))
  ]

module _ (id : OperationId) (m : ConnectionMachine) ⦃host : Calandria⦄ where
  pub write_completed-Settles :
      (epoch : ConnectionEpoch) (operation : OperationId) (effect : EffectId)
      → Settles id m (write_completed m epoch operation effect)
  unfolding write_completed
  write_completed-Settles epoch operation effect =
      elim (Option-cases (find? (named operation) m.matching.pending)) [
        | inl e ↦ ground (arith, get-find? m.matching operation)
        | inr (r, e) ↦ ground (
          arith,
          get-find? m.matching operation,
          finish_write-Settles id
              (record m {
                ledger = Ledger.release_write m.ledger r.reservation.write_retained_bytes;
              })
              operation r e,
        )
      ]

  begin_drain-Settles : (epoch : ConnectionEpoch) → Settles id m (begin_drain m epoch)
  unfolding begin_drain
  begin_drain-Settles epoch = ground (
    arith,
    finish_drain-settles id (record m { gate = draining }) (Effect.new {R = Unit {0}} applied),
  )

  close_requested-Settles :
      (epoch : ConnectionEpoch) (reason : CloseReason)
      → Settles id m (close_requested m epoch reason)
  unfolding close_requested close_into
  close_requested-Settles epoch reason =
      ground (arith, close-settles id m reason none (Effect.new {R = Unit {0}} applied))

  reply_malformed-Settles : (epoch : ConnectionEpoch) → Settles id m (reply_malformed m epoch)
  unfolding reply_malformed close_into
  reply_malformed-Settles epoch =
      ground (arith, close-settles id m malformed_reply none (Effect.new {R = Unit {0}} fault))

  -- Every input settles exactly what it publishes.
  pub apply-Settles :
      (input : ConnectionInput) → All IsPhased m.matching.pending → Settles id m (apply m input)
  unfolding apply open_admission epoch_closed
  apply-Settles (ConnectionInput.open_admission epoch) phased = ground arith
  apply-Settles (ConnectionInput.cancel epoch operation) phased =
      cancel-Settles id m epoch operation
  apply-Settles (ConnectionInput.deadline_elapsed epoch operation now) phased =
      deadline_elapsed-Settles id m epoch operation now phased
  apply-Settles (ConnectionInput.reply_malformed epoch) phased = reply_malformed-Settles epoch
  apply-Settles (ConnectionInput.begin_drain epoch) phased = begin_drain-Settles epoch
  apply-Settles (ConnectionInput.close_requested epoch reason) phased =
      close_requested-Settles epoch reason
  apply-Settles (ConnectionInput.epoch_closed epoch) phased = ground arith

  module _ {R : Type 0} where
    complete_front-Settles :
        (front : OperationRecord) (rest : List OperationRecord) (frame : R)
        → m.matching.pending ≡ front ∷ rest
        → Settles id m (complete_front m frame)
    unfolding complete_front pop_front
    complete_front-Settles front rest frame e = ground (
      arith,
      finish_drain-settles id
          (record m {
            ledger = Ledger.release_operation m.ledger front.reservation false;
            matching = record (m.matching) { pending = rest };
          })
          (with_effects applied (
            cancel_deadline m.epoch front.id
            ∷ publish_unless_terminal front (publish_outcome m.epoch front.id (reply frame)))),
    )

    -- A reply settles the front, or all that is pending.
    pub apply_reply-Settles : (received : InboundReply R) → Settles id m (apply_reply m received)
    unfolding apply_reply close_into
    apply_reply-Settles received = elim (List-cases m.matching.pending) [
      | inl e ↦ ground (arith, close-settles id m unexpected_reply none (Effect.new {R = R} fault))
      | inr (front, rest, e) ↦
          let expected = front.reservation.match_key in
          ground (
            arith,
            close-settles id m unexpected_reply none (Effect.new {R = R} fault),
            close-settles id m (match_key_mismatch expected received.key)
                (some (front.id, key_mismatch expected received.key)) (Effect.new {R = R} fault),
            complete_front-Settles front rest received.frame e,
          )
    ]
