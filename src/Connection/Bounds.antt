-- ===== src/Connection/Bounds.antt =====
-- The bounds of the epoch's ledger, over any sequence of calls on its policy.
mod Handlers
use bornera.Prelude.{ℕ, ◌≤◌, ◌≡◌, List, [], ◌∷◌}
use bornera.Host.{Calandria}
use bornera.Identity.{EndpointId, LaneId, ConnectionId, ConnectionEpoch, IdentitySeeds}
use bornera.Limits.{ConnectionLimits}
use bornera.Admission.Bounds.{IsWithin, new-IsWithin}
use bornera.Connection.Machine.{ConnectionMachine, with_identity_seeds}
use bornera.Connection.History.{
  Call, reserves, commits, drops, inputs, replies, starts, completes, step, run,
}
use Handlers.{
  apply-IsWithin, apply_reply-IsWithin, write_started-IsWithin, write_completed-IsWithin,
  permit-IsWithin, commit_if_allowed-IsWithin, drop_permit-IsWithin,
}

module _ {R : Type 0} ⦃host : Calandria⦄ (limits : ConnectionLimits) where
  step-IsWithin :
      (m : ConnectionMachine) (c : Call R)
      → IsWithin limits m.ledger
      → IsWithin limits (step m c).ledger
  unfolding step
  step-IsWithin m (reserves now options) w = permit-IsWithin limits m w now options
  step-IsWithin m (commits permit retained) w =
      commit_if_allowed-IsWithin limits m w permit retained
  step-IsWithin m (drops permit) w = drop_permit-IsWithin limits m w permit
  step-IsWithin m (inputs input) w = apply-IsWithin limits m w input
  step-IsWithin m (replies received) w = apply_reply-IsWithin limits m w received
  step-IsWithin m (starts epoch operation effect) w =
      write_started-IsWithin limits m w epoch operation effect
  step-IsWithin m (completes epoch operation effect) w =
      write_completed-IsWithin limits m w epoch operation effect

  run-IsWithin :
      (m : ConnectionMachine) (cs : List (Call R))
      → IsWithin limits m.ledger
      → IsWithin limits (run m cs).ledger
  unfolding run
  run-IsWithin m [] w = w
  run-IsWithin m (c ∷ cs) w = run-IsWithin (step m c) cs (step-IsWithin m c w)

  -- After any sequence of calls on the policy of a new epoch, its ledger has the limits of the
  -- epoch, and the operations, the retained bytes, the write frames and their retained bytes that
  -- it counts are within them.
  pub epoch-IsWithin :
      (endpoint : EndpointId) (lane : LaneId) (connection : ConnectionId) (epoch : ConnectionEpoch)
      (seeds : IdentitySeeds) (ledger_id : ℕ) (cs : List (Call R))
      → IsWithin limits
          (run
            (with_identity_seeds endpoint lane connection epoch limits seeds ledger_id)
            cs).ledger
  unfolding with_identity_seeds
  epoch-IsWithin endpoint lane connection epoch seeds ledger_id cs =
      run-IsWithin (with_identity_seeds endpoint lane connection epoch limits seeds ledger_id) cs
        (new-IsWithin limits)
