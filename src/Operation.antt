-- ===== src/Operation.antt =====
-- delivery.rs, operation/, and the close reasons of connection/effect.rs: what one accepted
-- operation is, which phase it is in, and how it can end.
use bornera.Prelude.{Bool, true, false}
use bornera.Identity.{OperationId, EffectId, MatchKey}
use bornera.Admission.Options.{Reservation, CompletionMode, Deadline}

pub data Delivery : Type 0 where
  not_sent possibly_sent : Delivery

abbrev pub is_possibly_sent : Delivery → Bool
is_possibly_sent not_sent = false
is_possibly_sent possibly_sent = true

-- Delivery::possibly_sent: certainty only ever weakens.
abbrev pub mark_possibly_sent : Delivery → Delivery
mark_possibly_sent d = possibly_sent

pub data CloseReason : Type 0 where
  drained requested deadline_after_possible_send transport_lost connect_failed : CloseReason
  connect_timed_out unexpected_reply malformed_reply inbound_retained_capacity : CloseReason
  match_key_mismatch : MatchKey → MatchKey → CloseReason

pub data OperationPhase : Type 0 where
  queued writing awaiting_reply terminal : OperationPhase

abbrev pub is_terminal : OperationPhase → Bool
is_terminal terminal = true
is_terminal _ = false

abbrev pub is_queued : OperationPhase → Bool
is_queued queued = true
is_queued _ = false

-- `matches!(phase, Writing | Terminal)`
abbrev pub is_writing_or_terminal : OperationPhase → Bool
is_writing_or_terminal writing = true
is_writing_or_terminal terminal = true
is_writing_or_terminal _ = false

-- `matches!(phase, AwaitingReply | Terminal)`
abbrev pub is_awaiting_or_terminal : OperationPhase → Bool
is_awaiting_or_terminal awaiting_reply = true
is_awaiting_or_terminal terminal = true
is_awaiting_or_terminal _ = false

pub data OperationFailure : Type 0 where
  deadline_elapsed : OperationFailure
  connection_closed : CloseReason → OperationFailure
  key_mismatch : MatchKey → MatchKey → OperationFailure

pub data OperationOutcome (R : Type 0) : Type 0 where
  reply : R → OperationOutcome R
  write_complete : Delivery → OperationOutcome R
  failed : OperationFailure → Delivery → OperationOutcome R
  cancelled : Delivery → OperationOutcome R

pub record OperationRecord : Type 0 where
  pub id : OperationId
  pub effect : EffectId
  pub deadline : Deadline
  pub reservation : Reservation
  pub phase : OperationPhase
  pub completion : CompletionMode
  pub delivery : Delivery
  pub write_held : Bool
