-- ===== src/Witnesses/Data.antt =====
-- Concrete stand-ins for the external crates, and the small states that the examples run on.
use bornera.Prelude.{
  ℕ, ◌+◌, ◌-◌, ◌^◌, ◌≤◌, ◌<◌, ◌≡◌, refl, true, false, Option, none, some, List, [], ◌∷◌, ltb, leb,
  if◌then◌else◌, arith,
}
use bornera.Host.{Calandria, ByteBudget}
use bornera.Limits.{ConnectionLimits}
use bornera.Identity.{zero_seeds}
use bornera.Admission.Options.{AdmissionClass, OperationOptions, reply_expected}
use bornera.Write.Frame.{WriteFrame}
use bornera.Write.Queue.{WriteQueue}
use bornera.Connection.Machine.{ConnectionMachine, with_identity_seeds}
use bornera.Connection.Permit.{OperationPermit}

abbrev bounded_add : ℕ → ℕ → Option ℕ
bounded_add a b = if ltb (a + b) (2 ^ 64) then some (a + b) else none

abbrev bounded_sub : ℕ → ℕ → Option ℕ
bounded_sub a b = if leb b a then some (a - b) else none

abbrev bounded_from : ℕ → Option ℕ
bounded_from n = if ltb n (2 ^ 64) then some n else none

pub from_exact : (n m : ℕ) → bounded_from n ≡ some m → m ≡ n
from_exact n m h = ground arith

pub from_fits : (n : ℕ) → n < 2 ^ 64 → bounded_from n ≡ some n
from_fits n h = ground arith

pub add_fits : (a b : ℕ) → a + b < 2 ^ 64 → bounded_add a b ≡ some (a + b)
add_fits a b h = ground arith

pub add_exact : (a b c : ℕ) → bounded_add a b ≡ some c → c ≡ a + b
add_exact a b c h = ground arith

pub sub_fits : (a b : ℕ) → b ≤ a → bounded_sub a b ≡ some (a - b)
sub_fits a b h = ground arith

pub sub_under : (a b : ℕ) → a < b → bounded_sub a b ≡ none
sub_under a b h = ground arith

instance abbrev pub calandria : Calandria
calandria = record {
  checked_add = bounded_add;
  checked_sub = bounded_sub;
  try_from = bounded_from;
  is_elapsed_at = λ deadline now. leb deadline now;
  try_from_exact = from_exact;
  try_from_fits = from_fits;
  checked_add_fits = add_fits;
  checked_add_exact = add_exact;
  checked_sub_fits = sub_fits;
  checked_sub_under = sub_under;
}

pub record Budget : Type 0 where
  pub limit : ℕ
  pub used : ℕ

abbrev reserved : Budget → ℕ → Option Budget
reserved b n = if leb (b.used + n) b.limit then some (record b { used = b.used + n }) else none

abbrev given_back : Budget → ℕ → Option Budget
given_back b n = if leb n b.used then some (record b { used = b.used - n }) else none

pub reserved_fits :
    (b : Budget) (n : ℕ)
    → b.used + n ≤ b.limit
    → (b' : Budget) × (reserved b n ≡ some b') × (b'.used ≡ b.used + n) × (b'.limit ≡ b.limit)
reserved_fits b n h = (record b { used = b.used + n }, ground arith, refl, refl)

pub reserved_over : (b : Budget) (n : ℕ) → b.limit < b.used + n → reserved b n ≡ none
reserved_over b n h = ground arith

pub given_back_fits :
    (b : Budget) (n : ℕ)
    → n ≤ b.used
    → (b' : Budget) × (given_back b n ≡ some b') × (b'.used ≡ b.used - n) × (b'.limit ≡ b.limit)
given_back_fits b n h = (record b { used = b.used - n }, ground arith, refl, refl)

pub given_back_under : (b : Budget) (n : ℕ) → b.used < n → given_back b n ≡ none
given_back_under b n h = ground arith

instance abbrev pub byte_budget : ByteBudget Budget
byte_budget = record {
  new = λ n. record { limit = n; used = 0 };
  limit = λ b. b.limit;
  used = λ b. b.used;
  can_reserve = λ b n. leb (b.used + n) b.limit;
  try_reserve = reserved;
  release = given_back;
  used_new = λ n. refl;
  limit_new = λ n. refl;
  can_reserve_lem = λ b n. refl;
  try_reserve_fits = reserved_fits;
  try_reserve_over = reserved_over;
  release_fits = given_back_fits;
  release_under = given_back_under;
}

abbrev pub two_limits : ConnectionLimits
two_limits = record {
  max_operations = 2;
  max_retained_bytes = 100;
  max_write_frames = 2;
  max_write_retained_bytes = 100;
  match_keys = record { first = 10; last = 20 };
}

-- The view of frames that are their own bytes.
abbrev pub plain : WriteFrame (List ℕ)
plain = record { bytes = λ f. f; retained_bytes = λ f. 4 }

-- A writer of epoch 7 with two frames, one byte of the first confirmed.
abbrev pub two_frames : WriteQueue (List ℕ) Budget
two_frames = record {
  epoch = 7;
  limits = record { max_frames = 3; max_retained_bytes = 20 };
  frames =
      record {
        operation = 1;
        effect = 11;
        frame = 65 ∷ 66 ∷ 67 ∷ [];
        measure = record { wire_bytes = 3; retained_bytes = 4 };
        written = 1;
        started = true;
      }
      ∷ record {
        operation = 2;
        effect = 12;
        frame = 68 ∷ 69 ∷ [];
        measure = record { wire_bytes = 2; retained_bytes = 4 };
        written = 0;
        started = false;
      }
      ∷ [];
  retained_budget = record { inner = record { limit = 20; used = 8 } };
}

-- A new policy of epoch 7.
abbrev pub fresh_machine : ConnectionMachine
fresh_machine = with_identity_seeds 1 2 3 7 two_limits zero_seeds 5

abbrev pub a_permit : OperationPermit
a_permit = record {
  ledger_id = 5;
  epoch = 7;
  operation = 0;
  effect = 0;
  deadline = 50;
  class = AdmissionClass.session;
  completion = reply_expected;
  reservation = record { retained_bytes = 8; write_retained_bytes = 6; match_key = 10 };
  active = true;
}

abbrev pub a_request : OperationOptions
a_request = record {
  deadline = 50;
  class = AdmissionClass.session;
  retained_bytes = 8;
  write_retained_bytes = 6;
  completion_mode = reply_expected;
}
