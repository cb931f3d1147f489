-- ===== src/Witnesses/Writer.antt =====
-- The writer, at concrete frames.
use bornera.Prelude.{
  ℕ, ◌+◌, ◌≤◌, ◌<◌, ◌^◌, ◌≡◌, ◌≢◌, refl, Bool, true, false, Option, none, some, List, [], ◌∷◌, ◌++◌,
  map, ◌↔◌, Result, ok, err, arith, All, length,
}
use bornera.Prelude.Search.{find?}
use bornera.Write.Frame.{
  QueuedWrite, FrameMeasure, identity_in_use, WriteIdentityKind, into_discarded,
}
use bornera.Write.Queue.{of_effect}
use bornera.Write.Admit.{admit}
use bornera.Write.Progress.{advance, discard, discard_all}
use bornera.Write.Validity.{
  IsValid, IsAdmissible, admit-iff-IsAdmissible, admit_refused, admit-IsValid, advance-IsValid,
  discard_found, discard-IsValid, discard_all_lem, without,
}
use bornera.Write.Budget.{used}
use bornera.Write.Stream.{unsent}
use bornera.Write.Transmission.{
  Round, IsPositive, IsSendable, send_rounds, send_rounds-unsent, send_rounds_complete,
}
use bornera.Witnesses.Data.{byte_budget, plain, two_frames}

pub two_frames-IsValid : IsValid two_frames
unfolding used
two_frames-IsValid = ground arith

two_frames-IsSendable : IsSendable plain two_frames
two_frames-IsSendable = record { valid = two_frames-IsValid; stable = (refl, (refl, tt)) }

abbrev one_byte : List ℕ
one_byte = 70 ∷ []

abbrev small : FrameMeasure
small = record { wire_bytes = 1; retained_bytes = 4 }

admit-iff-IsAdmissible_example :
    ((admit two_frames 7 3 13 small one_byte).1 ≡ ok tt)
    ↔ IsAdmissible two_frames two_frames-IsValid 7 3 13 small one_byte
admit-iff-IsAdmissible_example =
    admit-iff-IsAdmissible two_frames two_frames-IsValid 7 3 13 small one_byte

taken_again :
    (admit two_frames 7 1 13 small one_byte).1
    ≡ err (identity_in_use WriteIdentityKind.operation, one_byte)
unfolding admit bornera.Prelude.Search.position
taken_again = refl

admit_refused_example :
    ((admit two_frames 7 1 13 small one_byte).0 ≡ two_frames) × (one_byte ≡ one_byte)
admit_refused_example =
    admit_refused two_frames two_frames-IsValid 7 1 13 small one_byte
      (identity_in_use WriteIdentityKind.operation, one_byte) taken_again

admit-IsValid_example : IsValid (admit two_frames 7 3 13 small one_byte).0
admit-IsValid_example =
    admit-IsValid two_frames two_frames-IsValid 7 3 13 small one_byte (omega arith)

advance-IsValid_example : IsValid (advance two_frames 7 11 2).0
advance-IsValid_example = advance-IsValid two_frames 7 11 2 two_frames-IsValid

discard-IsValid_example : IsValid (discard two_frames 7 12).0
discard-IsValid_example = discard-IsValid two_frames two_frames-IsValid 12 7

discard_all_lem_example :
    let (q', all) = discard_all two_frames in
    (all.writes ≡ map into_discarded two_frames.frames)
    × (all.retained_bytes ≡ 8)
    × (q'.frames ≡ [])
    × IsValid q'
discard_all_lem_example = discard_all_lem two_frames two_frames-IsValid 0

abbrev two_rounds : List Round
two_rounds = record { max_bytes = 8; taken = 1 } ∷ record { max_bytes = 8; taken = 9 } ∷ []

send_rounds-unsent_example :
    let (sent, q') = send_rounds plain two_frames two_rounds in
    (66 ∷ 67 ∷ 68 ∷ 69 ∷ [] ≡ sent ++ unsent plain q'.frames) × IsSendable plain q'
send_rounds-unsent_example = send_rounds-unsent plain two_frames two_rounds two_frames-IsSendable

abbrev whole_round : Round
whole_round = record { max_bytes = 8; taken = 9 }

abbrev six_rounds : List Round
six_rounds = whole_round ∷ whole_round ∷ whole_round ∷ whole_round ∷ whole_round ∷ whole_round ∷ []

six_rounds-IsPositive : All IsPositive six_rounds
six_rounds-IsPositive = ground arith

send_rounds_complete_example :
    ((send_rounds plain two_frames six_rounds).1.frames ≡ [])
    × ((send_rounds plain two_frames six_rounds).0 ≡ 66 ∷ 67 ∷ 68 ∷ 69 ∷ [])
send_rounds_complete_example =
    send_rounds_complete plain two_frames six_rounds two_frames-IsSendable six_rounds-IsPositive
      (omega arith)

abbrev second_frame : QueuedWrite (List ℕ)
second_frame = record {
  operation = 2;
  effect = 12;
  frame = 68 ∷ 69 ∷ [];
  measure = record { wire_bytes = 2; retained_bytes = 4 };
  written = 0;
  started = false;
}

second_found : find? (of_effect 12) two_frames.frames ≡ some second_frame
unfolding find?
second_found = refl

discard_found_example : discard two_frames 7 12 ≡ (
  without two_frames two_frames-IsValid 12 second_frame second_found,
  ok (some (into_discarded second_frame)),
)
discard_found_example = discard_found two_frames two_frames-IsValid 12 second_frame second_found
