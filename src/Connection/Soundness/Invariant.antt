-- ===== src/Connection/Soundness/Invariant.antt =====
-- The invariant of the policy, at the start and after a closure or the end of a drain.
use bornera.Prelude.{ℕ, ◌≡◌, ◌≢◌, true, false, Option, none, [], All, is_some, arith}
use bornera.Host.{Calandria}
use bornera.Identity.{EndpointId, LaneId, ConnectionId, ConnectionEpoch, OperationId, IdentitySeeds}
use bornera.Limits.{ConnectionLimits}
use bornera.Admission.Options.{AdmissionGate, draining}
use bornera.Operation.{CloseReason, OperationFailure}
use bornera.Matching
use bornera.Connection.Effect.{ConnectionTransition}
use bornera.Connection.Machine.{
  ConnectionMachine, is_live, with_identity_seeds, close_with_failure_into, close_into,
  finish_drain,
}
use bornera.Connection.Settlement.{IsPhased}

-- All of the invariant but that a drain ends with the last record.
pub record IsOrderly (m : ConnectionMachine) : Type 0 where
  pub phased : All IsPhased m.matching.pending
  pub live_gate : is_live m.phase ≡ true → m.gate ≢ AdmissionGate.closed
  pub live_reason : is_live m.phase ≡ true → m.close_reason ≡ none
  pub shut_gate : is_live m.phase ≡ false → m.gate ≡ AdmissionGate.closed
  pub shut_reason : is_live m.phase ≡ false → is_some m.close_reason ≡ true
  pub shut_empty : is_live m.phase ≡ false → m.matching.pending ≡ []

pub record IsSound (m : ConnectionMachine) : Type 0 where
  pub orderly : IsOrderly m
  pub drain_busy : m.gate ≡ draining → m.matching.pending ≢ []

-- A new epoch is sound.
pub with_identity_seeds-IsSound :
    (endpoint : EndpointId) (lane : LaneId) (connection : ConnectionId) (epoch : ConnectionEpoch)
    (limits : ConnectionLimits) (seeds : IdentitySeeds) (ledger_id : ℕ)
    → IsSound (with_identity_seeds endpoint lane connection epoch limits seeds ledger_id)
unfolding with_identity_seeds Matching.new
with_identity_seeds-IsSound endpoint lane connection epoch limits seeds ledger_id = ground arith

module _ {R : Type 0} ⦃host : Calandria⦄ (m : ConnectionMachine) where
  pub close-IsSound :
      (reason : CloseReason) (named : Option (OperationId × OperationFailure))
      (t : ConnectionTransition R)
      → IsSound m
      → IsSound (close_with_failure_into m reason named t).0
  unfolding close_with_failure_into
  close-IsSound reason named t s = ground arith

  pub finish_drain-IsSound :
      (t : ConnectionTransition R) → IsOrderly m → IsSound (finish_drain m t).0
  unfolding finish_drain close_into close_with_failure_into
  finish_drain-IsSound t s = ground (arith, s.phased)
