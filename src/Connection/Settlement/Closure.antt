-- ===== src/Connection/Settlement/Closure.antt =====
-- The settlement of closure and of the end of a drain.
use bornera.Prelude.{◌+◌, ◌≡◌, Option, none, List, [], ◌∷◌, arith}
use bornera.Prelude.Weights.{weigh, weigh-append}
use bornera.Host.{Calandria}
use bornera.Identity.{ConnectionEpoch, OperationId}
use bornera.Operation.{CloseReason, OperationRecord, OperationFailure}
use bornera.Admission.Ledger.{ReservationLedger}
use bornera.Connection.Effect.{ConnectionTransition, close_epoch, push}
use bornera.Connection.Machine.{
  ConnectionMachine, closed_effects, close_records, close_with_failure_into, close_into,
  finish_drain,
}
use bornera.Connection.Settlement.Counts.{owes, unsettled, publishes, publications}

publishes-closed_effects :
    (R : Type 0) (id : OperationId) (epoch : ConnectionEpoch) (reason : CloseReason)
    (named : Option (OperationId × OperationFailure)) (r : OperationRecord)
    → weigh (publishes {R = R} id) (closed_effects epoch reason named r) ≡ owes id r
publishes-closed_effects R id epoch reason named r = ground arith

module _ {R : Type 0} (id : OperationId) ⦃host : Calandria⦄ where
  publications-close_records :
      (epoch : ConnectionEpoch) (reason : CloseReason)
      (named : Option (OperationId × OperationFailure)) (rs : List OperationRecord)
      (l : ReservationLedger) (t : ConnectionTransition R)
      → publications id (close_records epoch reason named rs l t).1
        ≡ publications id t + weigh (owes id) rs
  unfolding close_records
  publications-close_records epoch reason named [] l t = omega arith
  publications-close_records epoch reason named (r ∷ rs) l t = omega (
    arith,
    publications-close_records epoch reason named rs _ _,
    weigh-append (publishes id) t.effects (closed_effects epoch reason named r),
    publishes-closed_effects R id epoch reason named r,
  )

  -- What is published and what is still owed, together, are what they were.
  pub close-settles :
      (m : ConnectionMachine) (reason : CloseReason)
      (named : Option (OperationId × OperationFailure)) (t : ConnectionTransition R)
      → let (m', t') = close_with_failure_into m reason named t in
        publications id t' + unsettled id m' ≡ publications id t + unsettled id m
  unfolding close_with_failure_into
  close-settles m reason named t = ground (
    arith,
    publications-close_records m.epoch reason named m.matching.pending m.ledger
        (push t (close_epoch m.epoch reason)),
    weigh-append (publishes id) t.effects (close_epoch m.epoch reason ∷ []),
  )

  pub finish_drain-settles :
      (m : ConnectionMachine) (t : ConnectionTransition R)
      → let (m', t') = finish_drain m t in
        publications id t' + unsettled id m' ≡ publications id t + unsettled id m
  unfolding finish_drain close_into
  finish_drain-settles m t = ground (arith, close-settles m CloseReason.drained none t)
