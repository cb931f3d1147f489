-- ===== src/Slot/Application.antt =====
-- crates/bornera/src/drive/application.rs: one step of decoding, of reading, and of writing.
use bornera.Prelude.{
  ℕ, ◌-◌, Bool, true, false, not, ◌&&◌, ◌||◌, Option, none, some, List, length, ◌++◌, take, drop,
  ltb, leb, ◌==◌, if◌then◌else◌, ok, err,
}
use bornera.Operation.{transport_lost, inbound_retained_capacity}
use bornera.Framing
use bornera.Write.Frame.{WriteSlice}
use bornera.Write.Front.{front_is_empty, min_usize}
use bornera.Transport.Port.{SlotTransport}
use bornera.Transport.Diagnostic
use bornera.Transport.Diagnostic.{IoError, ErrorKind, TransportFailurePhase}
use bornera.Connection.Core.Drive
use bornera.Slot.Frame.{outbound}
use bornera.Slot.Kinds.{invariant_error, transport_read_contract}
use bornera.Slot.State.{Environment, ConnectionSlot, Run, ◌>>=◌, ◌>>◌, return, lift}
use bornera.Slot.Transition.{interpret_unit, interpret_reply}
use bornera.Slot.Failure.{core_call, apply_reply, close_for, close_malformed, close_decode_error}
use bornera.Slot.Control.{is_transport_open, is_connecting, record_transport_failure}

abbrev pub is_would_block : IoError → Bool
is_would_block e = elim e.kind [ ErrorKind.would_block ↦ true | _ ↦ false ]

module _ {env : Environment} where
  unfoldable pub buffered_read_bytes : ConnectionSlot env → ℕ
  buffered_read_bytes s = env.adapter.retained_bytes s.decoder.decoder

  -- A decoded frame, within its bound or not.
  unfoldable pub take_frame : env.frame → Run (ConnectionSlot env) (Unit {0})
  take_frame frame s =
      let (classifier, key) = env.reply_key s.classifier frame in
      let classified : ConnectionSlot env = record s { classifier = classifier } in
      if ltb s.limits.decoder.reply_bytes (env.retained_bytes frame)
      then close_for inbound_retained_capacity s
      else (elim key [
        | none ↦ close_malformed classified
        | some found ↦
            (do
              t ← apply_reply (record { epoch = s.core.machine.epoch; key = found; frame = frame })
              interpret_reply t)
              classified
      ])

  unfoldable pub drive_decoder_once : Run (ConnectionSlot env) (Unit {0})
  unfolding take_frame buffered_read_bytes
  drive_decoder_once s =
      let (driver, extracted) = Framing.next_frame env.adapter s.decoder in
      let s' : ConnectionSlot env = record s { decoder = driver } in
      let rested : ConnectionSlot env = record s' { decoder_pending = false } in
      elim extracted [
        | err e ↦ close_decode_error e rested
        | ok found ↦ elim found [
          | some frame ↦ take_frame frame s'
          | none ↦
              if leb s.limits.decoder.buffered_bytes (buffered_read_bytes rested)
              then close_for inbound_retained_capacity rested
              else (rested, ok tt)
        ]
      ]

  -- The bytes that were read go to the decoder.
  unfoldable pub feed_decoder : List ℕ → Run (ConnectionSlot env) (Unit {0})
  feed_decoder bytes s =
      let (driver, fed) = Framing.feed env.adapter ⦃host = env.host⦄ s.decoder bytes in
      let s' : ConnectionSlot env = record s { decoder = driver } in
      elim fed [
        | err e ↦ close_decode_error e s'
        | ok _ ↦ (record s' { decoder_pending = true }, ok tt)
      ]

  -- How much of the read buffer may be filled.
  unfoldable pub read_length : ConnectionSlot env → ℕ
  unfolding buffered_read_bytes
  read_length s =
      min_usize (s.limits.decoder.buffered_bytes - buffered_read_bytes s) (length s.read_buffer)

  -- A failure of the transport: noted, and the epoch is closed.
  unfoldable pub lose_transport :
      TransportFailurePhase → IoError → Run (ConnectionSlot env) (Unit {0})
  unfolding record_transport_failure
  lose_transport phase source s =
      close_for transport_lost (record_transport_failure (Diagnostic.from_io phase source) s)

  -- The bytes that the transport says to have read into the slice of the buffer.
  unfoldable pub take_read : ℕ → ℕ → Run (ConnectionSlot env) (Unit {0})
  unfolding feed_decoder
  take_read room read s =
      if read == 0
      then close_for transport_lost s
      else (if ltb room read
          then (s, err (invariant_error (transport_read_contract room read)))
          else feed_decoder (take read s.read_buffer) s)

  -- Written bytes go to the core, and its transition is carried out.
  unfoldable pub confirm_written : WriteSlice → ℕ → Run (ConnectionSlot env) (Unit {0})
  confirm_written front written = do
    t ← core_call (
        Drive.advance_write ⦃host = env.host⦄ ⦃lib = env.budgets⦄ env.debug_assertions front.epoch
          front.effect written)
    interpret_unit t

module _ {env : Environment} {T : Type 0} ⦃port : SlotTransport T⦄ where
  -- The read itself: the slice that the transport has written is put back into the buffer.
  unfoldable pub read_transport : Run (ConnectionSlot env × T) (Unit {0})
  unfolding take_read lose_transport
  read_transport (s, transport) =
      let room = read_length s in
      let (transport', slice, result) = port.read transport (take room s.read_buffer) in
      let s' : ConnectionSlot env = record s { read_buffer = slice ++ drop room s.read_buffer } in
      elim result [
        | ok read ↦ lift (take_read room read) (s', transport')
        | err source ↦
            if is_would_block source
            then ((s', port.clear_read transport'), ok tt)
            else lift (lose_transport TransportFailurePhase.read source) (s', transport')
      ]

  unfoldable pub drive_read_once : Run (ConnectionSlot env × T) (Option (Unit {0}))
  unfolding read_transport
  drive_read_once (s, transport) =
      if not (port.can_read transport)
      then ((s, transport), ok none)
      else (if read_length s == 0
          then (do lift (close_for inbound_retained_capacity); return (some tt)) (s, transport)
          else (do read_transport; return (some tt)) (s, transport))

  unfoldable pub write_front : WriteSlice → Run (ConnectionSlot env × T) (Unit {0})
  unfolding confirm_written lose_transport
  write_front front (s, transport) =
      let (transport', result) = port.write transport front.bytes in
      elim result [
        | ok written ↦
            if written == 0
            then lift (close_for transport_lost) (s, transport')
            else lift (confirm_written front written) (s, transport')
        | err source ↦
            if is_would_block source
            then ((s, port.clear_write transport'), ok tt)
            else lift (lose_transport TransportFailurePhase.write source) (s, transport')
      ]

  unfoldable pub write_slice : Option WriteSlice → Run (ConnectionSlot env × T) (Option (Unit {0}))
  unfolding confirm_written write_front
  write_slice none (s, transport) = ((s, transport), ok none)
  write_slice (some front) (s, transport) =
      if length front.bytes == 0
      then (do lift (confirm_written front 0); return (some tt)) (s, transport)
      else (if port.can_write transport
          then (do write_front front; return (some tt)) (s, transport)
          else ((s, transport), ok none))

  unfoldable pub drive_write_once : Run (ConnectionSlot env × T) (Option (Unit {0}))
  unfolding write_slice
  drive_write_once (s, transport) =
      if port.is_open transport
      then (do
        front ← lift (core_call (λ c. Drive.front_write outbound c s.limits.io.chunk_bytes))
        write_slice front)
          (s, transport)
      else ((s, transport), ok none)

  unfoldable pub has_runnable_io : T → ConnectionSlot env → Bool
  has_runnable_io transport s =
      s.decoder_pending
      || (is_connecting s && (port.is_open transport || port.can_establish transport))
      || (is_transport_open s && port.has_transport_work transport)
      || (is_transport_open s && port.can_read transport)
      || (is_transport_open s
          && port.is_open transport
          && ltb 0 (length s.core.writes.frames)
          && (front_is_empty s.core.writes || port.can_write transport))
