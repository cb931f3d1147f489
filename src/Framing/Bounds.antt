-- ===== src/Framing/Bounds.antt =====
-- The driver's bound and its latch, for any decoder.
use bornera.Prelude.{
  ℕ, ◌+◌, ◌≤◌, ◌<◌, ◌^◌, ◌≡◌, false, List, length, ok, err, Option-cases, inl, inr, arith,
}
use bornera.Host.{Calandria}
use bornera.Framing.{FrameDecoder, FrameDriver, new, feed, next_frame, retained_byte_capacity}

module _ {D Frame E : Type 0} (adapter : FrameDecoder D Frame E) where
  -- A driver that has not failed holds a decoder within its bound.
  abbrev pub IsBounded : FrameDriver D → Type 0
  IsBounded d = d.failed ≡ false → adapter.retained_bytes d.decoder ≤ d.max_retained_bytes

  pub new-IsBounded :
      (decoder : D) (limit : ℕ) {d : FrameDriver D} → new adapter decoder limit ≡ ok d → IsBounded d
  unfolding new
  new-IsBounded decoder limit e = ground arith

  module _ ⦃host : Calandria⦄ (d : FrameDriver D) where
    -- For any decoder, a driver that is within its bound or has failed is within its bound or has
    -- failed after `feed`.
    pub feed-IsBounded : (bytes : List ℕ) → IsBounded d → IsBounded (feed adapter d bytes).0
    unfolding feed
    feed-IsBounded bytes b = ground arith

    -- For any decoder, a driver that is within its bound or has failed is within its bound or has
    -- failed after `next_frame`.
    pub next_frame-IsBounded : IsBounded d → IsBounded (next_frame adapter d).0
    unfolding next_frame
    next_frame-IsBounded b = ground arith

    -- If `feed` succeeds, the bytes retained before it and those of the chunk are together within
    -- the bound, the decoder took the chunk, and the driver has not failed.
    pub feed_fits :
        (bytes : List ℕ)
        → (feed adapter d bytes).1 ≡ ok tt
        → (adapter.retained_bytes d.decoder + length bytes ≤ d.max_retained_bytes)
          × ((adapter.feed d.decoder bytes).1 ≡ ok tt)
          × ((feed adapter d bytes).0.failed ≡ false)
    unfolding feed
    feed_fits bytes e = elim (Option-cases (host.try_from (length bytes))) [
      | inl none_from ↦ absurd (ground arith)
      | inr (n, from) ↦
          elim (Option-cases (host.checked_add (adapter.retained_bytes d.decoder) n)) [
            | inl over ↦ absurd (ground arith)
            | inr (total, adds) ↦
                let same = host.try_from_exact (length bytes) n from in
                let exact =
                  host.checked_add_exact (adapter.retained_bytes d.decoder) n total adds in
                ground (arith, same, exact)
          ]
    ]

    -- If a chunk of fewer than 2 ^ 64 bytes is refused for want of room by a driver whose bound is
    -- below 2 ^ 64, the driver is unchanged, and the bytes retained and those of the chunk are
    -- together above the bound.
    pub feed_refused :
        (bytes : List ℕ) (a b c : ℕ)
        → length bytes < 2 ^ 64
        → d.max_retained_bytes < 2 ^ 64
        → (feed adapter d bytes).1 ≡ err (retained_byte_capacity a b c)
        → ((feed adapter d bytes).0 ≡ d)
          × (d.max_retained_bytes < adapter.retained_bytes d.decoder + length bytes)
    unfolding feed
    feed_refused bytes a b c short limit e =
        let from = host.try_from_fits (length bytes) short in
        let retained = adapter.retained_bytes d.decoder in
        elim (Option-cases (host.checked_add retained (length bytes))) [
          | inl over ↦
              let fits = host.checked_add_fits retained (length bytes) in
              ground (arith, from, over, fits)
          | inr (total, adds) ↦
              let exact = host.checked_add_exact retained (length bytes) total adds in
              ground (arith, from, exact)
        ]
