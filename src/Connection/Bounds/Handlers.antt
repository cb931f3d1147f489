-- ===== src/Connection/Bounds/Handlers.antt =====
-- The bounds of the epoch's ledger, under each call on its policy.
use bornera.Prelude.{
  ℕ, Bool, true, false, Option, none, some, List, [], ◌∷◌, Bool-cases, Option-cases, List-cases,
  Result-cases, inl, inr, arith,
}
use bornera.Host.{Calandria}
use bornera.Identity.{ConnectionEpoch, OperationId, EffectId}
use bornera.Limits.{ConnectionLimits}
use bornera.Admission.Options.{Moment, OperationOptions, draining, is_reply_expected}
use bornera.Admission.Ledger
use bornera.Admission.Ledger.{ReservationLedger, release_operation, rollback_permit}
use bornera.Admission.Bounds.{
  IsWithin, reserve-IsWithin, commit-IsWithin, release_write-IsWithin, release_all-IsWithin,
}
use bornera.Operation.{
  CloseReason, drained, deadline_after_possible_send, malformed_reply, unexpected_reply,
  match_key_mismatch, key_mismatch, OperationRecord, OperationFailure,
}
use bornera.Matching
use bornera.Matching.{OrderedVerified}
use bornera.Connection.Effect
use bornera.Connection.Effect.{
  ConnectionTransition, push, close_epoch, applied, fault, ConnectionInput, InboundReply,
}
use bornera.Connection.Machine.{
  ConnectionMachine, close_records, close_with_failure_into, close_into, finish_drain,
}
use bornera.Connection.Permit.{
  OperationPermit, reserve, reserve_admitted, commit_permit, drop_permit,
}
use bornera.Connection.Drive.{
  write_started, finish_write, write_completed, cancel, cancel_queued, cancel_sent, expire_queued,
  deadline_elapsed, open_admission, begin_drain, close_requested, epoch_closed, reply_malformed,
  complete_front, apply_reply, apply,
}
use bornera.Connection.History.{commit_if_allowed}

module _ ⦃host : Calandria⦄ (limits : ConnectionLimits) where
  module _ {R : Type 0} where
    close_records-IsWithin :
        (epoch : ConnectionEpoch) (reason : CloseReason)
        (named : Option (OperationId × OperationFailure)) (rs : List OperationRecord)
        (l : ReservationLedger) (t : ConnectionTransition R)
        → IsWithin limits l
        → IsWithin limits (close_records epoch reason named rs l t).0
    unfolding close_records release_operation
    close_records-IsWithin epoch reason named [] l t w = w
    close_records-IsWithin epoch reason named (r ∷ rs) l t w =
        close_records-IsWithin epoch reason named rs _ _
          (release_all-IsWithin limits l w r.reservation r.write_held false)

    module _ (m : ConnectionMachine) (w : IsWithin limits m.ledger) where
      close-IsWithin :
          (reason : CloseReason) (named : Option (OperationId × OperationFailure))
          (t : ConnectionTransition R)
          → IsWithin limits (close_with_failure_into m reason named t).0.ledger
      unfolding close_with_failure_into
      close-IsWithin reason named t = ground (
        arith,
        close_records-IsWithin m.epoch reason named m.matching.pending m.ledger
            (push t (close_epoch m.epoch reason)) w,
      )

      close_into-IsWithin :
          (reason : CloseReason) (t : ConnectionTransition R)
          → IsWithin limits (close_into m reason t).0.ledger
      unfolding close_into
      close_into-IsWithin reason t = close-IsWithin reason none t

      drain-IsWithin : (t : ConnectionTransition R) → IsWithin limits (finish_drain m t).0.ledger
      unfolding finish_drain
      drain-IsWithin t = ground (arith, w, close_into-IsWithin drained t)

    module _ (m : ConnectionMachine) (w : IsWithin limits m.ledger) where
      -- The release of a record, with the end of a drain after it.
      released-IsWithin :
          (r : OperationRecord) (held : Bool) (left : OrderedVerified) (t : ConnectionTransition R)
          → IsWithin limits
              (finish_drain
                (record m {
                  ledger = release_operation m.ledger r.reservation held;
                  matching = left;
                })
                t).0.ledger
      unfolding release_operation
      released-IsWithin r held left t =
          drain-IsWithin
            (record m { ledger = release_operation m.ledger r.reservation held; matching = left })
            (release_all-IsWithin limits m.ledger w r.reservation held false) t

  module _ (m : ConnectionMachine) (w : IsWithin limits m.ledger) where
    cancel_queued-IsWithin :
        (operation : OperationId) → IsWithin limits (cancel_queued m operation).0.ledger
    unfolding cancel_queued
    cancel_queued-IsWithin operation = elim (Option-cases (Matching.remove m.matching operation)) [
      | inl e ↦ ground (arith, w)
      | inr ((r, left), e) ↦ rw (e, cancel_queued) (released-IsWithin m w r r.write_held left _)
    ]

    expire_queued-IsWithin :
        (operation : OperationId) → IsWithin limits (expire_queued m operation).0.ledger
    unfolding expire_queued
    expire_queued-IsWithin operation = elim (Option-cases (Matching.remove m.matching operation)) [
      | inl e ↦ ground (arith, w)
      | inr ((r, left), e) ↦ rw (e, expire_queued) (released-IsWithin m w r r.write_held left _)
    ]

    finish_write-IsWithin :
        (operation : OperationId) (r : OperationRecord)
        → IsWithin limits (finish_write m operation r).0.ledger
    unfolding finish_write
    finish_write-IsWithin operation r = elim (Bool-cases (is_reply_expected r.completion)) [
      | inl waits ↦ rw (waits, finish_write) (ground (arith, w))
      | inr over ↦ elim (Option-cases (Matching.remove m.matching operation)) [
        | inl e ↦ ground (arith, w)
        | inr ((removed, left), e) ↦
            rw (over, e, finish_write) (released-IsWithin m w removed false left _)
      ]
    ]

    complete_front-IsWithin :
        {R : Type 0} (frame : R) → IsWithin limits (complete_front m frame).0.ledger
    unfolding complete_front
    complete_front-IsWithin frame = elim (Option-cases (Matching.pop_front m.matching)) [
      | inl e ↦ ground (arith, w)
      | inr ((r, left), e) ↦ rw (e, complete_front) (released-IsWithin m w r false left _)
    ]

  module _ (m : ConnectionMachine) (w : IsWithin limits m.ledger) where
    pub apply-IsWithin : (input : ConnectionInput) → IsWithin limits (apply m input).0.ledger
    unfolding apply open_admission cancel cancel_sent deadline_elapsed reply_malformed begin_drain
        close_requested epoch_closed
    apply-IsWithin (ConnectionInput.open_admission epoch) = ground (arith, w)
    apply-IsWithin (ConnectionInput.cancel epoch operation) =
        ground (arith, w, cancel_queued-IsWithin m w operation)
    apply-IsWithin (ConnectionInput.deadline_elapsed epoch operation now) = ground (
      arith,
      w,
      expire_queued-IsWithin m w operation,
      close_into-IsWithin m w deadline_after_possible_send (Effect.new {R = Unit {0}} applied),
    )
    apply-IsWithin (ConnectionInput.reply_malformed epoch) =
        ground (arith, w, close_into-IsWithin m w malformed_reply (Effect.new {R = Unit {0}} fault))
    apply-IsWithin (ConnectionInput.begin_drain epoch) = ground (
      arith,
      w,
      drain-IsWithin (record m { gate = draining }) w (Effect.new {R = Unit {0}} applied),
    )
    apply-IsWithin (ConnectionInput.close_requested epoch reason) =
        ground (arith, w, close_into-IsWithin m w reason (Effect.new {R = Unit {0}} applied))
    apply-IsWithin (ConnectionInput.epoch_closed epoch) = ground (arith, w)

    pub apply_reply-IsWithin :
        {R : Type 0} (received : InboundReply R) → IsWithin limits (apply_reply m received).0.ledger
    unfolding apply_reply
    apply_reply-IsWithin {R} received = elim (List-cases m.matching.pending) [
      | inl e ↦
          ground (arith, w, close_into-IsWithin m w unexpected_reply (Effect.new {R = R} fault))
      | inr (front, rest, e) ↦
          let expected = front.reservation.match_key in
          ground (
            arith,
            w,
            close_into-IsWithin m w unexpected_reply (Effect.new {R = R} fault),
            close-IsWithin m w (match_key_mismatch expected received.key)
                (some (front.id, key_mismatch expected received.key)) (Effect.new {R = R} fault),
            complete_front-IsWithin m w received.frame,
          )
    ]

    pub write_started-IsWithin :
        (epoch : ConnectionEpoch) (operation : OperationId) (effect : EffectId)
        → IsWithin limits (write_started m epoch operation effect).0.ledger
    unfolding write_started
    write_started-IsWithin epoch operation effect = ground (arith, w)

    pub write_completed-IsWithin :
        (epoch : ConnectionEpoch) (operation : OperationId) (effect : EffectId)
        → IsWithin limits (write_completed m epoch operation effect).0.ledger
    unfolding write_completed
    write_completed-IsWithin epoch operation effect =
        elim (Option-cases (Matching.get m.matching operation)) [
          | inl e ↦ ground (arith, w)
          | inr (r, e) ↦
              let freed = Ledger.release_write m.ledger r.reservation.write_retained_bytes in
              let within =
                release_write-IsWithin limits m.ledger w r.reservation.write_retained_bytes in
              ground
                (arith, w, finish_write-IsWithin (record m { ledger = freed }) within operation r)
        ]

    reserve_admitted-IsWithin :
        (options : OperationOptions) → IsWithin limits (reserve_admitted m options).0.ledger
    unfolding reserve_admitted rollback_permit
    reserve_admitted-IsWithin options =
        let reserved =
          Ledger.reserve m.ledger options.retained_bytes options.write_retained_bytes in
        let within =
          reserve-IsWithin limits m.ledger w options.retained_bytes options.write_retained_bytes in
        elim (Result-cases (reserved.1)) [
          | inl (r, e) ↦
              ground (arith, within, release_all-IsWithin limits reserved.0 within r true true)
          | inr (x, e) ↦ ground (arith, within)
        ]

    pub permit-IsWithin :
        (now : Moment) (options : OperationOptions)
        → IsWithin limits (reserve m now options).0.ledger
    unfolding reserve
    permit-IsWithin now options = ground (arith, w, reserve_admitted-IsWithin options)

    pub commit_if_allowed-IsWithin :
        (permit : OperationPermit) (retained : ℕ)
        → IsWithin limits (commit_if_allowed m permit retained).ledger
    unfolding commit_if_allowed commit_permit
    commit_if_allowed-IsWithin permit retained =
        ground (arith, w, commit-IsWithin limits m.ledger w permit.reservation retained)

    pub drop_permit-IsWithin :
        (permit : OperationPermit) → IsWithin limits (drop_permit m permit).ledger
    unfolding drop_permit rollback_permit
    drop_permit-IsWithin permit =
        ground (arith, w, release_all-IsWithin limits m.ledger w permit.reservation true true)
