-- ===== src/Connection/Effect.antt =====
-- connection/effect.rs, connection/input.rs and connection/transition.rs: what an epoch is told, and
-- what it answers.
use bornera.Prelude.{Option, none, some, List, [], ◌∷◌, ◌++◌}
use bornera.Identity.{ConnectionEpoch, OperationId, EffectId, MatchKey}
use bornera.Admission.Options.{Deadline, Moment}
use bornera.Operation.{CloseReason, Delivery, OperationFailure, OperationOutcome, failed}

pub data ConnectionEffect (R : Type 0) : Type 0 where
  schedule_deadline : ConnectionEpoch → OperationId → Deadline → ConnectionEffect R
  discard_write : EffectId → ConnectionEpoch → OperationId → ConnectionEffect R
  cancel_deadline : ConnectionEpoch → OperationId → ConnectionEffect R
  close_epoch : ConnectionEpoch → CloseReason → ConnectionEffect R
  publish_outcome : ConnectionEpoch → OperationId → OperationOutcome R → ConnectionEffect R

-- ConnectionEffect::failed
abbrev pub publish_failed :
    {R : Type 0} → ConnectionEpoch → OperationId → OperationFailure → Delivery → ConnectionEffect R
publish_failed epoch operation failure delivery =
    publish_outcome epoch operation (failed failure delivery)

pub data ConnectionInput : Type 0 where
  open_admission : ConnectionEpoch → ConnectionInput
  cancel : ConnectionEpoch → OperationId → ConnectionInput
  deadline_elapsed : ConnectionEpoch → OperationId → Moment → ConnectionInput
  reply_malformed : ConnectionEpoch → ConnectionInput
  begin_drain : ConnectionEpoch → ConnectionInput
  close_requested : ConnectionEpoch → CloseReason → ConnectionInput
  epoch_closed : ConnectionEpoch → ConnectionInput

pub record InboundReply (R : Type 0) : Type 0 where
  pub epoch : ConnectionEpoch
  pub key : MatchKey
  pub frame : R

pub data InputDisposition : Type 0 where
  applied ignored_stale_epoch ignored_unknown_operation ignored_stale_effect : InputDisposition
  already_terminal ignored_invalid_phase fault : InputDisposition

pub data CancelOutcome : Type 0 where
  cancelled_not_sent : CancelOutcome
  observation_cancelled : Delivery → CancelOutcome
  already_terminal : CancelOutcome

pub record ConnectionTransition (R : Type 0) : Type 0 where
  pub disposition : InputDisposition
  pub cancel_outcome : Option CancelOutcome
  pub effects : List (ConnectionEffect R)

module _ {R : Type 0} where
  abbrev pub new : InputDisposition → ConnectionTransition R
  new disposition = record { disposition = disposition; cancel_outcome = none; effects = [] }

  -- `transition.cancelled(outcome)`
  abbrev pub with_cancelled : CancelOutcome → ConnectionTransition R → ConnectionTransition R
  with_cancelled outcome t = record t { cancel_outcome = some outcome }

  abbrev pub push : ConnectionTransition R → ConnectionEffect R → ConnectionTransition R
  push t e = record t { effects = t.effects ++ e ∷ [] }
