-- ===== src/Connection/Settlement/Counts.antt =====
-- How often an operation is published, and how many of its records still owe an outcome.
use bornera.Prelude.{ℕ, Bool, true, false, not, ◌&&◌, ◌≡◌, ◌==◌}
use bornera.Prelude.Weights.{weigh}
use bornera.Identity.{OperationId}
use bornera.Operation.{
  OperationRecord, queued, writing, awaiting_reply, terminal, not_sent, possibly_sent, is_terminal,
}
use bornera.Connection.Effect.{ConnectionEffect, ConnectionTransition, publish_outcome}
use bornera.Connection.Machine.{ConnectionMachine}

abbrev pub one_if : Bool → ℕ
one_if true = 1
one_if false = 0

-- A record owes an outcome until it is a tombstone.
abbrev pub owes : OperationId → OperationRecord → ℕ
owes id r = one_if (not (is_terminal r.phase) && (r.id == id))

abbrev pub unsettled : OperationId → ConnectionMachine → ℕ
unsettled id m = weigh (owes id) m.matching.pending

module _ {R : Type 0} where
  abbrev pub publishes : OperationId → ConnectionEffect R → ℕ
  publishes id (publish_outcome epoch operation outcome) = one_if (operation == id)
  publishes id _ = 0

  abbrev pub publications : OperationId → ConnectionTransition R → ℕ
  publications id t = weigh (publishes id) t.effects

-- What the phase of a record says of its bytes and of its frame.
pub record IsPhased (r : OperationRecord) : Type 0 where
  pub queued_unsent : r.phase ≡ queued → (r.delivery ≡ not_sent) × (r.write_held ≡ true)
  pub writing_sent : r.phase ≡ writing → (r.delivery ≡ possibly_sent) × (r.write_held ≡ true)
  pub awaiting_released : r.phase ≡ awaiting_reply → r.write_held ≡ false
  pub terminal_sent : r.phase ≡ terminal → r.delivery ≡ possibly_sent
