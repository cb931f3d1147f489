-- ===== src/Framing/Latch.antt =====
-- framing/driver.rs: the latch of a driver, over any sequence of its calls.
use bornera.Prelude.{
  ℕ, ◌≡◌, refl, Bool, true, false, Option, none, some, List, [], ◌∷◌, Result, ok, err, arith,
}
use bornera.Host.{Calandria}
use bornera.Framing.{
  FrameDecoder, FrameDecodeError, decoder_failed, retained_byte_capacity, input_size_overflow,
  FrameDriver, feed, next_frame,
}

pub data DriverCall : Type 0 where
  feeds : List ℕ → DriverCall
  extracts : DriverCall

abbrev pub failure_in : {A E : Type 0} → Result A (FrameDecodeError E) → Option (FrameDecodeError E)
failure_in (ok a) = none
failure_in (err e) = some e

-- A chunk was refused for its size, before the decoder saw it.
abbrev pub is_refusal : {E : Type 0} → FrameDecodeError E → Bool
is_refusal (retained_byte_capacity retained incoming limit) = true
is_refusal input_size_overflow = true
is_refusal _ = false

module _ {D Frame E : Type 0} (adapter : FrameDecoder D Frame E) ⦃host : Calandria⦄ where
  -- The driver after a call, and the failure of the call.
  unfoldable pub call : FrameDriver D → DriverCall → FrameDriver D × Option (FrameDecodeError E)
  call d (feeds bytes) = let r = feed adapter d bytes in (r.0, failure_in r.1)
  call d extracts = let r = next_frame adapter d in (r.0, failure_in r.1)

  -- The driver after some calls, and their failures.
  unfoldable pub calls :
      FrameDriver D → List DriverCall → FrameDriver D × List (Option (FrameDecodeError E))
  unfolding call
  calls d [] = (d, [])
  calls d (c ∷ cs) = let later = calls (call d c).0 cs in (later.0, (call d c).1 ∷ later.1)

  -- As many answers as calls, each that the decoder has failed.
  unfoldable pub refusals : List DriverCall → List (Option (FrameDecodeError E))
  refusals [] = []
  refusals (c ∷ cs) = some decoder_failed ∷ refusals cs

  feed_latches :
      (d : FrameDriver D) (bytes : List ℕ) (e : FrameDecodeError E)
      → (feed adapter d bytes).1 ≡ err e
      → is_refusal e ≡ false
      → (feed adapter d bytes).0.failed ≡ true
  unfolding feed
  feed_latches d bytes e h fresh = ground arith

  next_latches :
      (d : FrameDriver D) (e : FrameDecodeError E)
      → (next_frame adapter d).1 ≡ err e
      → (next_frame adapter d).0.failed ≡ true
  unfolding next_frame
  next_latches d e h = ground arith

  call_latches :
      (d : FrameDriver D) (c : DriverCall) (e : FrameDecodeError E)
      → (call d c).1 ≡ some e
      → is_refusal e ≡ false
      → (call d c).0.failed ≡ true
  unfolding call
  call_latches d (feeds bytes) e h fresh = feed_latches d bytes e (ground arith) fresh
  call_latches d extracts e h fresh = next_latches d e (ground arith)

  failed_final :
      (d : FrameDriver D) (c : DriverCall) → d.failed ≡ true → call d c ≡ (d, some decoder_failed)
  unfolding call feed next_frame
  failed_final d (feeds bytes) f = ground arith
  failed_final d extracts f = ground arith

  calls_final :
      (d : FrameDriver D) (cs : List DriverCall) → d.failed ≡ true → calls d cs ≡ (d, refusals cs)
  unfolding calls refusals
  calls_final d [] f = refl
  calls_final d (c ∷ cs) f = rw (failed_final d c f, calls_final d cs f) refl

  -- If a call of a driver fails, but not as a chunk that is refused for its size, no call that
  -- follows changes the driver, and each answers `decoder_failed`.
  pub failure_final :
      (d : FrameDriver D) (c : DriverCall) (e : FrameDecodeError E) (cs : List DriverCall)
      (fails : (call d c).1 ≡ some e) (fresh : is_refusal e ≡ false)
      → calls (call d c).0 cs ≡ ((call d c).0, refusals cs)
  failure_final d c e cs fails fresh = calls_final (call d c).0 cs (call_latches d c e fails fresh)
