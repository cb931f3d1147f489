-- ===== src/Witnesses/Frames.antt =====
-- The frame driver, around a decoder of two-byte frames.
use bornera.Prelude.{
  ℕ, ◌+◌, ◌≤◌, ◌<◌, ◌≡◌, refl, true, false, Option, none, some, List, [], ◌∷◌, ◌++◌, length, Result,
  ok, err, arith,
}
use bornera.Framing.{
  FrameDecoder, decoder_error, retained_byte_capacity, FrameDriver, feed, next_frame,
}
use bornera.Framing.Latch.{feeds, extracts, call, calls, refusals, failure_final}
use bornera.Framing.Bounds.{
  IsBounded, feed-IsBounded, next_frame-IsBounded, feed_fits, feed_refused,
}
use bornera.Witnesses.Data.{calandria}

abbrev first_pair : List ℕ → List ℕ × Result (Option (List ℕ)) ℕ
first_pair [] = ([], ok none)
first_pair (a ∷ []) = (a ∷ [], ok none)
first_pair (a ∷ b ∷ rest) = (rest, ok (some (a ∷ b ∷ [])))

abbrev pairs : FrameDecoder (List ℕ) (List ℕ) ℕ
pairs = record {
  feed = λ held bytes. (held ++ bytes, ok tt);
  next_frame = first_pair;
  retained_bytes = length;
}

abbrev driver : FrameDriver (List ℕ)
driver = record { decoder = 65 ∷ []; max_retained_bytes = 3; failed = false }

abbrev failed_driver : FrameDriver (List ℕ)
failed_driver = record driver { failed = true }

driver-IsBounded : IsBounded pairs driver
driver-IsBounded _ = omega arith

abbrev two_bytes : List ℕ
two_bytes = 66 ∷ 67 ∷ []

abbrev three_bytes : List ℕ
three_bytes = 66 ∷ 67 ∷ 68 ∷ []

feed-IsBounded_example : IsBounded pairs (feed pairs driver two_bytes).0
feed-IsBounded_example = feed-IsBounded pairs driver two_bytes driver-IsBounded

next_frame-IsBounded_example : IsBounded pairs (next_frame pairs driver).0
next_frame-IsBounded_example = next_frame-IsBounded pairs driver driver-IsBounded

two_bytes_fed : (feed pairs driver two_bytes).1 ≡ ok tt
unfolding feed
two_bytes_fed = refl

feed_fits_example :
    (1 + 2 ≤ 3)
    × ((pairs.feed driver.decoder two_bytes).1 ≡ ok tt)
    × ((feed pairs driver two_bytes).0.failed ≡ false)
feed_fits_example = feed_fits pairs driver two_bytes two_bytes_fed

three_bytes_refused : (feed pairs driver three_bytes).1 ≡ err (retained_byte_capacity 1 3 3)
unfolding feed
three_bytes_refused = refl

feed_refused_example : ((feed pairs driver three_bytes).0 ≡ driver) × (3 < 1 + 3)
feed_refused_example =
    feed_refused pairs driver three_bytes 1 3 3 (omega arith) (omega arith) three_bytes_refused

-- A decoder that refuses every chunk.
abbrev refusing : FrameDecoder (List ℕ) ℕ ℕ
refusing = record {
  feed = λ d bytes. (d, err 5);
  next_frame = λ d. (d, ok none);
  retained_bytes = length;
}

refused_feed : (call refusing driver (feeds two_bytes)).1 ≡ some (decoder_error 5)
unfolding call feed
refused_feed = refl

failure_final_example :
    calls refusing (call refusing driver (feeds two_bytes)).0 (extracts ∷ feeds [] ∷ [])
    ≡ ((call refusing driver (feeds two_bytes)).0, refusals refusing (extracts ∷ feeds [] ∷ []))
failure_final_example =
    failure_final refusing driver (feeds two_bytes) (decoder_error 5) (extracts ∷ feeds [] ∷ [])
      refused_feed refl
