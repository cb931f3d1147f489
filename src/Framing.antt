-- ===== src/Framing.antt =====
-- framing/: retained-byte enforcement around one protocol-owned decoder. The decoder is the
-- protocol's: it enters as a record of its operations, its state explicit.
pub mod Bounds
pub mod Latch
use bornera.Prelude.{
  ℕ, ◌≤◌, ◌<◌, ◌^◌, ◌≡◌, refl, Bool, true, false, Option, none, some, List, length, ltb,
  if◌then◌else◌, Result, ok, err, arith, Bool-cases, Option-cases, inl, inr,
}
use bornera.Host.{Calandria}

-- The trait `FrameDecoder`.
pub record FrameDecoder (D Frame Error : Type 0) : Type 0 where
  pub feed : D → List ℕ → D × Result (Unit {0}) Error
  pub next_frame : D → D × Result (Option Frame) Error
  pub retained_bytes : D → ℕ

pub data FrameDecodeError (E : Type 0) : Type 0 where
  decoder_failed : FrameDecodeError E
  retained_byte_capacity : ℕ → ℕ → ℕ → FrameDecodeError E
  input_size_overflow : FrameDecodeError E
  decoder_error : E → FrameDecodeError E
  retained_contract_violation : ℕ → ℕ → FrameDecodeError E

pub record FrameDriver (D : Type 0) : Type 0 where
  pub decoder : D
  pub max_retained_bytes : ℕ
  pub failed : Bool

module _ {D Frame E : Type 0} (adapter : FrameDecoder D Frame E) where
  unfoldable pub new : D → ℕ → Result (FrameDriver D) (FrameDecodeError E)
  new decoder max_retained_bytes =
      let retained = adapter.retained_bytes decoder in
      if ltb max_retained_bytes retained
      then err (retained_contract_violation retained max_retained_bytes)
      else ok
          (record { decoder = decoder; max_retained_bytes = max_retained_bytes; failed = false })

  unfoldable pub validate_retained :
      FrameDriver D → FrameDriver D × Result (Unit {0}) (FrameDecodeError E)
  validate_retained d =
      let retained = adapter.retained_bytes d.decoder in
      if ltb d.max_retained_bytes retained
      then (
        record d { failed = true },
        err (retained_contract_violation retained d.max_retained_bytes),
      )
      else (d, ok tt)

  -- `feed`, once the chunk is admitted
  unfoldable pub feed_admitted :
      FrameDriver D → List ℕ → FrameDriver D × Result (Unit {0}) (FrameDecodeError E)
  unfolding validate_retained
  feed_admitted d bytes =
      let (decoder, fed) = adapter.feed d.decoder bytes in
      elim fed [
        | err e ↦ (record d { decoder = decoder; failed = true }, err (decoder_error e))
        | ok _ ↦ validate_retained (record d { decoder = decoder })
      ]

  unfoldable pub feed :
      ⦃host : Calandria⦄
      → FrameDriver D
      → List ℕ
      → FrameDriver D × Result (Unit {0}) (FrameDecodeError E)
  unfolding feed_admitted
  feed ⦃host⦄ d bytes =
      let retained = adapter.retained_bytes d.decoder in
      let full : Result (Unit {0}) (FrameDecodeError E) =
        err (retained_byte_capacity retained (length bytes) d.max_retained_bytes) in
      if d.failed then (d, err decoder_failed) else (elim (host.try_from (length bytes)) [
        | none ↦ (d, err input_size_overflow)
        | some incoming ↦ elim (host.checked_add retained incoming) [
          | none ↦ (d, full)
          | some accepted ↦
              if ltb d.max_retained_bytes accepted then (d, full) else feed_admitted d bytes
        ]
      ])

  unfoldable pub next_frame :
      FrameDriver D → FrameDriver D × Result (Option Frame) (FrameDecodeError E)
  unfolding validate_retained
  next_frame d =
      let (decoder, extracted) = adapter.next_frame d.decoder in
      let checked = validate_retained (record d { decoder = decoder }) in
      if d.failed then (d, err decoder_failed) else (elim extracted [
        | err e ↦ (record d { decoder = decoder; failed = true }, err (decoder_error e))
        | ok frame ↦ elim (checked.1) [ err e ↦ (checked.0, err e) | ok _ ↦ (checked.0, ok frame) ]
      ])
