-- ===== src/Connection/Soundness/Handlers.antt =====
-- The soundness of each handler.
use bornera.Prelude.{
  ◌≡◌, ◌≢◌, Bool, true, false, none, some, List, [], ◌∷◌, Bool-cases, List-cases, Option-cases, inl,
  inr, arith,
}
use bornera.Prelude.Search.{find?, erase_first, modify_first}
use bornera.Prelude.Weights.{All-find?, All-erase, All-modify}
use bornera.Host.{Calandria}
use bornera.Identity.{ConnectionEpoch, OperationId, EffectId}
use bornera.Admission.Options.{Moment, draining, is_reply_expected}
use bornera.Admission.Ledger
use bornera.Admission.Ledger.{ReservationLedger}
use bornera.Operation.{
  deadline_after_possible_send, malformed_reply, unexpected_reply, match_key_mismatch, key_mismatch,
  reply, OperationRecord, is_queued, is_possibly_sent,
}
use bornera.Matching.{named, pop_front}
use bornera.Matching.Laws.{get-find?, get_mut-find?, get_mut_found, remove_found}
use bornera.Connection.Effect
use bornera.Connection.Effect.{
  ConnectionInput, InboundReply, ConnectionTransition, applied, fault, cancel_deadline,
  publish_outcome,
}
use bornera.Connection.Machine.{ConnectionMachine, is_live, finish_drain, close_into}
use bornera.Connection.Drive.{
  start, await, end_observation, write_started, finish_write, write_completed, cancel_queued,
  cancel_sent, cancel, expire_queued, deadline_elapsed, open_admission, begin_drain,
  close_requested, epoch_closed, reply_malformed, complete_front, apply_reply, apply, with_effects,
  publish_unless_terminal,
}
use bornera.Connection.Settlement.{IsPhased}
use bornera.Connection.Soundness.Invariant.{IsOrderly, IsSound, close-IsSound, finish_drain-IsSound}

-- The first entry that passes is still there after a change to it.
modify_first-ne_nil {ℓ} :
    {A : Type ℓ} (p : A → Bool) (f : A → A) (xs : List A) → xs ≢ [] → modify_first p f xs ≢ []
unfolding modify_first
modify_first-ne_nil p f [] h = absurd (ground arith)
modify_first-ne_nil p f (x ∷ xs) h = ground arith

abbrev with_pending : ConnectionMachine → List OperationRecord → ConnectionMachine
with_pending m records = record m { matching = record (m.matching) { pending = records } }

module _ ⦃host : Calandria⦄ where
  erase-IsOrderly :
      (m : ConnectionMachine) (operation : OperationId) (l : ReservationLedger)
      → IsSound m
      → IsOrderly (record (with_pending m (erase_first (named operation) m.matching.pending)) {
        ledger = l;
      })
  unfolding erase_first
  erase-IsOrderly m operation l s =
      let kept = All-erase IsPhased (named operation) m.matching.pending s.orderly.phased in
      ground arith

  modify-IsSound :
      (m : ConnectionMachine) (operation : OperationId) (f : OperationRecord → OperationRecord)
      (r : OperationRecord)
      → find? (named operation) m.matching.pending ≡ some r
      → (IsPhased r → IsPhased (f r))
      → IsSound m
      → IsSound (with_pending m (modify_first (named operation) f m.matching.pending))
  unfolding modify_first
  modify-IsSound m operation f r e keep s =
      let own = All-find? IsPhased (named operation) m.matching.pending r e s.orderly.phased in
      let kept =
        All-modify IsPhased (named operation) f m.matching.pending r e (keep own)
          s.orderly.phased in
      ground (arith, modify_first-ne_nil (named operation) f m.matching.pending)

  module _ (m : ConnectionMachine) (s : IsSound m) where
    pub write_started-IsSound :
        (epoch : ConnectionEpoch) (operation : OperationId) (effect : EffectId)
        → IsSound (write_started m epoch operation effect).0
    unfolding write_started
    write_started-IsSound epoch operation effect =
        elim (Option-cases (find? (named operation) m.matching.pending)) [
          | inl e ↦ ground (arith, get-find? m.matching operation)
          | inr (r, e) ↦ elim (Bool-cases (is_queued r.phase)) [
            | inl fresh ↦ ground (
              arith,
              get-find? m.matching operation,
              get_mut-find? m.matching operation start,
              modify-IsSound m operation start r e (λ p. ground arith) s,
            )
            | inr other ↦ ground (arith, get-find? m.matching operation)
          ]
        ]

    module _ {R : Type 0} where
      removal-IsSound :
          (operation : OperationId) (l : ReservationLedger) (t : ConnectionTransition R)
          → IsSound
              (finish_drain
                (record (with_pending m (erase_first (named operation) m.matching.pending)) {
                  ledger = l;
                })
                t).0
      removal-IsSound operation l t = finish_drain-IsSound _ t (erase-IsOrderly m operation l s)

    module _ (operation : OperationId) (r : OperationRecord)
        (found : find? (named operation) m.matching.pending ≡ some r) where
      cancel_queued-IsSound : IsSound (cancel_queued m operation).0
      unfolding cancel_queued
      cancel_queued-IsSound =
          rw (remove_found m.matching operation r found, cancel_queued)
            (removal-IsSound operation _ _)

      cancel_sent-IsSound : is_possibly_sent r.delivery ≡ true → IsSound (cancel_sent m operation).0
      unfolding cancel_sent
      cancel_sent-IsSound sent =
          rw (get_mut_found m.matching operation r found end_observation, cancel_sent)
            (modify-IsSound m operation end_observation r found (λ p. ground arith) s)

      expire_queued-IsSound : IsSound (expire_queued m operation).0
      unfolding expire_queued
      expire_queued-IsSound =
          rw (remove_found m.matching operation r found, expire_queued)
            (removal-IsSound operation _ _)

      finish_write-IsSound : IsSound (finish_write m operation r).0
      unfolding finish_write
      finish_write-IsSound = elim (Bool-cases (is_reply_expected r.completion)) [
        | inl waits ↦
            rw (waits, get_mut_found m.matching operation r found await, finish_write)
              (modify-IsSound m operation await r found (λ p. ground arith) s)
        | inr over ↦
            rw (over, remove_found m.matching operation r found, finish_write)
              (removal-IsSound operation _ _)
      ]

    cancel-IsSound :
        (epoch : ConnectionEpoch) (operation : OperationId) → IsSound (cancel m epoch operation).0
    unfolding cancel
    cancel-IsSound epoch operation =
        elim (Option-cases (find? (named operation) m.matching.pending)) [
          | inl e ↦ ground (arith, get-find? m.matching operation)
          | inr (r, e) ↦ ground (
            arith,
            get-find? m.matching operation,
            cancel_queued-IsSound operation r e,
            cancel_sent-IsSound operation r e,
          )
        ]

    deadline_elapsed-IsSound :
        (epoch : ConnectionEpoch) (operation : OperationId) (now : Moment)
        → IsSound (deadline_elapsed m epoch operation now).0
    unfolding deadline_elapsed close_into
    deadline_elapsed-IsSound epoch operation now =
        elim (Option-cases (find? (named operation) m.matching.pending)) [
          | inl e ↦ ground (arith, get-find? m.matching operation)
          | inr (r, e) ↦ ground (
            arith,
            get-find? m.matching operation,
            expire_queued-IsSound operation r e,
            close-IsSound m deadline_after_possible_send none (Effect.new {R = Unit {0}} applied) s,
          )
        ]

module _ ⦃host : Calandria⦄ (m : ConnectionMachine) (s : IsSound m) where
  pub write_completed-IsSound :
      (epoch : ConnectionEpoch) (operation : OperationId) (effect : EffectId)
      → IsSound (write_completed m epoch operation effect).0
  unfolding write_completed
  write_completed-IsSound epoch operation effect =
      elim (Option-cases (find? (named operation) m.matching.pending)) [
        | inl e ↦ ground (arith, get-find? m.matching operation)
        | inr (r, e) ↦
            let released = record m {
              ledger = Ledger.release_write m.ledger r.reservation.write_retained_bytes;
            } in
            let sound : IsSound released = ground arith in
            ground (
              arith,
              get-find? m.matching operation,
              finish_write-IsSound released sound operation r e,
            )
      ]

  begin_drain-IsSound : (epoch : ConnectionEpoch) → IsSound (begin_drain m epoch).0
  unfolding begin_drain
  begin_drain-IsSound epoch = elim (Bool-cases (is_live m.phase)) [
    | inl alive ↦
        let orderly : IsOrderly (record m { gate = draining }) = ground arith in
        ground (
          arith,
          finish_drain-IsSound (record m { gate = draining }) (Effect.new {R = Unit {0}} applied)
              orderly,
        )
    | inr over ↦ ground arith
  ]

  -- Every input keeps the policy sound.
  pub apply-IsSound : (input : ConnectionInput) → IsSound (apply m input).0
  unfolding apply open_admission close_requested epoch_closed reply_malformed close_into
  apply-IsSound (ConnectionInput.open_admission epoch) = ground arith
  apply-IsSound (ConnectionInput.cancel epoch operation) = cancel-IsSound m s epoch operation
  apply-IsSound (ConnectionInput.deadline_elapsed epoch operation now) =
      deadline_elapsed-IsSound m s epoch operation now
  apply-IsSound (ConnectionInput.reply_malformed epoch) =
      ground (arith, close-IsSound m malformed_reply none (Effect.new {R = Unit {0}} fault) s)
  apply-IsSound (ConnectionInput.begin_drain epoch) = begin_drain-IsSound epoch
  apply-IsSound (ConnectionInput.close_requested epoch reason) =
      ground (arith, close-IsSound m reason none (Effect.new {R = Unit {0}} applied) s)
  apply-IsSound (ConnectionInput.epoch_closed epoch) = ground arith

  module _ {R : Type 0} where
    complete_front-IsSound :
        (front : OperationRecord) (rest : List OperationRecord) (frame : R)
        → m.matching.pending ≡ front ∷ rest
        → IsSound (complete_front m frame).0
    unfolding complete_front pop_front
    complete_front-IsSound front rest frame e =
        let popped = record (with_pending m rest) {
          ledger = Ledger.release_operation m.ledger front.reservation false;
        } in
        let orderly : IsOrderly popped = ground arith in
        ground (
          arith,
          finish_drain-IsSound popped
              (with_effects applied (
                cancel_deadline m.epoch front.id
                ∷ publish_unless_terminal front (publish_outcome m.epoch front.id (reply frame))))
              orderly,
        )

    -- So does every reply.
    pub apply_reply-IsSound : (received : InboundReply R) → IsSound (apply_reply m received).0
    unfolding apply_reply close_into
    apply_reply-IsSound received = elim (List-cases m.matching.pending) [
      | inl e ↦ ground (arith, close-IsSound m unexpected_reply none (Effect.new {R = R} fault) s)
      | inr (front, rest, e) ↦
          let expected = front.reservation.match_key in
          ground (
            arith,
            close-IsSound m unexpected_reply none (Effect.new {R = R} fault) s,
            close-IsSound m (match_key_mismatch expected received.key)
                (some (front.id, key_mismatch expected received.key)) (Effect.new {R = R} fault) s,
            complete_front-IsSound front rest received.frame e,
          )
    ]
