-- ===== src/Admission/Options.antt =====
-- admission/gate.rs, admission/options.rs, admission/error.rs: the classes of work, what the gate
-- admits, and what one operation asks for.
use bornera.Prelude.{ℕ, Bool, true, false}
use bornera.Identity.{MatchKey}

-- calandria::Deadline and calandria::Moment
abbrev pub Deadline : Type 0
Deadline = ℕ

abbrev pub Moment : Type 0
Moment = ℕ

pub data AdmissionClass : Type 0 where
  session regular : AdmissionClass

-- `opened` is `AdmissionGate::Open`.
pub data AdmissionGate : Type 0 where
  session_only opened draining closed : AdmissionGate

unfoldable pub admits : AdmissionGate → AdmissionClass → Bool
admits session_only session = true
admits session_only regular = false
admits opened class = true
admits draining class = false
admits closed class = false

abbrev pub is_session_only : AdmissionGate → Bool
is_session_only session_only = true
is_session_only _ = false

abbrev pub is_draining : AdmissionGate → Bool
is_draining draining = true
is_draining _ = false

-- `matches!(gate, Closed | Draining)`
abbrev pub is_closed_or_draining : AdmissionGate → Bool
is_closed_or_draining closed = true
is_closed_or_draining draining = true
is_closed_or_draining _ = false

pub data CompletionMode : Type 0 where
  reply_expected write_complete : CompletionMode

abbrev pub is_reply_expected : CompletionMode → Bool
is_reply_expected reply_expected = true
is_reply_expected write_complete = false

pub record OperationOptions : Type 0 where
  pub deadline : Deadline
  pub class : AdmissionClass
  pub retained_bytes : ℕ
  pub write_retained_bytes : ℕ
  pub completion_mode : CompletionMode

-- OperationOptions::until
abbrev pub until : Deadline → OperationOptions
until deadline = record {
  deadline = deadline;
  class = regular;
  retained_bytes = 0;
  write_retained_bytes = 0;
  completion_mode = reply_expected;
}

pub record Reservation : Type 0 where
  pub retained_bytes : ℕ
  pub write_retained_bytes : ℕ
  pub match_key : MatchKey

pub data ReserveError : Type 0 where
  admission_closed deadline_elapsed operation_capacity retained_byte_capacity : ReserveError
  write_capacity match_key_exhausted identity_exhausted owner_poisoned : ReserveError

pub data CommitErrorKind : Type 0 where
  foreign_permit admission_closed frame_too_large owner_poisoned : CommitErrorKind
