-- ===== src/Connection/Machine.antt =====
-- connection/machine.rs and connection/close.rs: the policy state of one epoch, its closure, and the end of a drain.
-- The ledger that the source shares through `Rc<RefCell<_>>` is a field; `ledger_id` stands for the
-- allocation, which a permit names (`Rc::ptr_eq`).
use bornera.Prelude.{
  ℕ, Bool, true, false, ◌&&◌, Option, none, some, List, [], ◌∷◌, ◌++◌, ◌==◌, if◌then◌else◌,
}
use bornera.Host.{Calandria}
use bornera.Identity.{
  EndpointId, LaneId, ConnectionId, ConnectionEpoch, OperationId, IdentitySeeds, zero_seeds,
}
use bornera.Identity.Generator
use bornera.Identity.Generator.{IdentityGenerator}
use bornera.Limits.{ConnectionLimits}
use bornera.Admission.Options.{AdmissionGate, session_only, is_draining}
use bornera.Admission.Ledger
use bornera.Admission.Ledger.{ReservationLedger}
use bornera.Operation.{
  CloseReason, drained, OperationRecord, OperationFailure, connection_closed, is_terminal,
}
use bornera.Matching
use bornera.Matching.{OrderedVerified}
use bornera.Connection.Effect.{
  ConnectionTransition, ConnectionEffect, close_epoch, cancel_deadline, discard_write,
  publish_failed, push,
}

pub data ConnectionPhase : Type 0 where
  live closing closed : ConnectionPhase

abbrev pub is_live : ConnectionPhase → Bool
is_live live = true
is_live _ = false

abbrev pub is_closing : ConnectionPhase → Bool
is_closing closing = true
is_closing _ = false

pub record ConnectionMachine : Type 0 where
  pub endpoint : EndpointId
  pub lane : LaneId
  pub connection : ConnectionId
  pub epoch : ConnectionEpoch
  pub phase : ConnectionPhase
  pub gate : AdmissionGate
  pub close_reason : Option CloseReason
  pub identities : IdentityGenerator
  pub ledger_id : ℕ
  pub ledger : ReservationLedger
  pub matching : OrderedVerified

-- `ledger_id` names the allocation that `Rc::new` makes.
unfoldable pub with_identity_seeds :
    EndpointId
    → LaneId
    → ConnectionId
    → ConnectionEpoch
    → ConnectionLimits
    → IdentitySeeds
    → ℕ
    → ConnectionMachine
with_identity_seeds endpoint lane connection epoch limits seeds ledger_id = record {
  endpoint = endpoint;
  lane = lane;
  connection = connection;
  epoch = epoch;
  phase = live;
  gate = session_only;
  close_reason = none;
  identities = Generator.new seeds;
  ledger_id = ledger_id;
  ledger = Ledger.new limits;
  matching = Matching.new limits.match_keys limits.max_operations;
}

unfoldable pub new :
    EndpointId → LaneId → ConnectionId → ConnectionEpoch → ConnectionLimits → ℕ → ConnectionMachine
unfolding with_identity_seeds
new endpoint lane connection epoch limits ledger_id =
    with_identity_seeds endpoint lane connection epoch limits zero_seeds ledger_id

-- The operation's own failure if it is the one named, or the closure.
abbrev pub failure_for :
    Option (OperationId × OperationFailure) → CloseReason → OperationRecord → OperationFailure
failure_for none reason r = connection_closed reason
failure_for (some (operation, failure)) reason r =
    if operation == r.id then failure else connection_closed reason

module _ {R : Type 0} where
  -- The effects of one round of the `while` of closure, for the record that it pops.
  abbrev pub closed_effects :
      ConnectionEpoch
      → CloseReason
      → Option (OperationId × OperationFailure)
      → OperationRecord
      → List (ConnectionEffect R)
  closed_effects epoch reason named r =
      cancel_deadline epoch r.id
      ∷ ((if r.write_held then discard_write r.effect epoch r.id ∷ [] else [])
          ++ (if is_terminal r.phase
              then []
              else publish_failed epoch r.id (failure_for named reason r) r.delivery ∷ []))

  module _ ⦃host : Calandria⦄ where
    -- The `while` of closure, over the records that are left.
    unfoldable pub close_records :
        ConnectionEpoch
        → CloseReason
        → Option (OperationId × OperationFailure)
        → List OperationRecord
        → ReservationLedger
        → ConnectionTransition R
        → ReservationLedger × ConnectionTransition R
    close_records epoch reason named [] ledger t = (ledger, t)
    close_records epoch reason named (r ∷ rest) ledger t =
        close_records epoch reason named rest
          (Ledger.release_operation ledger r.reservation r.write_held)
          (record t { effects = t.effects ++ closed_effects epoch reason named r })

    unfoldable pub close_with_failure_into :
        ConnectionMachine
        → CloseReason
        → Option (OperationId × OperationFailure)
        → ConnectionTransition R
        → ConnectionMachine × ConnectionTransition R
    unfolding close_records
    close_with_failure_into m reason named t =
        let closed =
          close_records m.epoch reason named m.matching.pending m.ledger
            (push t (close_epoch m.epoch reason)) in
        if is_live m.phase
        then (
          record m {
            gate = AdmissionGate.closed;
            phase = closing;
            close_reason = some reason;
            ledger = closed.0;
            matching = record (m.matching) { pending = [] };
          },
          closed.1,
        )
        else (m, t)

    unfoldable pub close_into :
        ConnectionMachine
        → CloseReason
        → ConnectionTransition R
        → ConnectionMachine × ConnectionTransition R
    unfolding close_with_failure_into
    close_into m reason t = close_with_failure_into m reason none t

    unfoldable pub finish_drain :
        ConnectionMachine → ConnectionTransition R → ConnectionMachine × ConnectionTransition R
    unfolding close_into
    finish_drain m t =
        if is_draining m.gate && Matching.is_empty m.matching
        then close_into m drained t
        else (m, t)
