-- ===== src/Slot/Frame.antt =====
-- crates/bornera/src/frame.rs: an encoded frame with the memory that it retains.
use bornera.Prelude.{ℕ, List, none, some, length, ltb, if◌then◌else◌, Result, ok, err}
use bornera.Host.{Calandria}
use bornera.Write.Frame.{WriteFrame}

pub record OutboundFrame : Type 0 where
  pub bytes : List ℕ
  pub retained : ℕ

pub data OutboundFrameError : Type 0 where
  length_overflow : OutboundFrameError
  underreported : ℕ → ℕ → OutboundFrameError

module _ ⦃host : Calandria⦄ where
  unfoldable pub new : List ℕ → ℕ → Result OutboundFrame OutboundFrameError
  new bytes retained = elim (host.try_from (length bytes)) [
    | none ↦ err length_overflow
    | some visible ↦
        if ltb retained visible
        then err (underreported visible retained)
        else ok (record { bytes = bytes; retained = retained })
  ]

  unfoldable pub copy_from_slice : List ℕ → Result OutboundFrame OutboundFrameError
  copy_from_slice bytes = elim (host.try_from (length bytes)) [
    | none ↦ err length_overflow
    | some retained ↦ ok (record { bytes = bytes; retained = retained })
  ]

-- `impl WriteFrame for OutboundFrame`: its bytes never change.
abbrev pub outbound : WriteFrame OutboundFrame
outbound = record { bytes = λ f. f.bytes; retained_bytes = λ f. f.retained }
