-- ===== src/Connection/Drive/Outcomes.antt =====
-- What every handler answers, and the parts of a transition that several share.
use bornera.Prelude.{none, List, [], ◌∷◌, if◌then◌else◌}
use bornera.Identity.{ConnectionEpoch, OperationId}
use bornera.Operation.{OperationRecord, is_terminal}
use bornera.Connection.Effect.{
  ConnectionTransition, ConnectionEffect, InputDisposition, discard_write,
}
use bornera.Connection.Machine.{ConnectionMachine}

-- A machine, and the transition of a command or an input.
abbrev pub Outcome : Type 0 → Type 0
Outcome R = ConnectionMachine × ConnectionTransition R

-- The effect that gives a held frame back.
abbrev pub discard_if_held :
    {R : Type 0} → ConnectionEpoch → OperationRecord → OperationId → List (ConnectionEffect R)
discard_if_held epoch r operation =
    if r.write_held then discard_write r.effect epoch operation ∷ [] else []

-- The outcome of a record, unless it has been published.
abbrev pub publish_unless_terminal :
    {R : Type 0} → OperationRecord → ConnectionEffect R → List (ConnectionEffect R)
publish_unless_terminal r e = if is_terminal r.phase then [] else e ∷ []

-- A transition of these effects, in this order.
abbrev pub with_effects :
    {R : Type 0} → InputDisposition → List (ConnectionEffect R) → ConnectionTransition R
with_effects d es = record { disposition = d; cancel_outcome = none; effects = es }
