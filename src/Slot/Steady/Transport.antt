-- ===== src/Slot/Steady/Transport.antt =====
-- crates/bornera/src/drive/application.rs and transport.rs: the steps beside a transport are steady.
use bornera.Prelude.{
  ℕ, ◌≡◌, refl, not, ◌&&◌, ◌++◌, Option, none, some, List, length, take, drop, Result, Result-cases,
  inl, inr, Bool-cases, subst, ◌==◌,
}
use bornera.Operation.{transport_lost, connect_failed, inbound_retained_capacity}
use bornera.Write.Frame.{WriteSlice}
use bornera.Transport.Port.{SlotTransport}
use bornera.Transport.Progress.{TransportBudget, TransportProgress, fits, is_idle}
use bornera.Transport.Diagnostic.{opened, IoError, TransportFailurePhase, TransportError}
use bornera.Connection.Core.Drive
use bornera.Slot.Frame.{outbound}
use bornera.Slot.Kinds.{transport_opened, sequence_of}
use bornera.Slot.State.{Environment, ConnectionSlot, Run, lift}
use bornera.Slot.Failure.{core_call, close_for}
use bornera.Slot.Control.{is_connecting}
use bornera.Slot.Application.{
  is_would_block, read_length, read_transport, drive_read_once, confirm_written, write_front,
  write_slice, drive_write_once,
}
use bornera.Slot.Establish.{
  validate_transport_progress, transport_budget, note_opened, establish, work_transport,
  drive_transport_once,
}
use bornera.Slot.Steady.{
  Moved, still, via, if-Fine, return-Steady, IsFresh, PairSteady, >>=-Steady, lift-Steady,
}
use bornera.Slot.Steady.Publication.{publish_numbered-Steady}
use bornera.Slot.Steady.Closes.{core_call-Steady, close_for-Steady}
use bornera.Slot.Steady.Drive.{
  take_read-Steady, lose_transport-Steady, confirm_written-Steady, fail_transport-Steady,
}

opened_numbered : (n epoch : ℕ) → sequence_of (transport_opened n epoch) ≡ n
unfolding sequence_of
opened_numbered n epoch = refl

pub validate-IsFresh :
    (budget : TransportBudget) (progress : TransportProgress)
    → IsFresh (validate_transport_progress budget progress)
unfolding validate_transport_progress
validate-IsFresh budget progress = elim (Bool-cases (fits progress budget)) [
  | inr e ↦ rw (e, validate_transport_progress) refl
  | inl e ↦ elim (Bool-cases (is_idle progress)) [
    | inl e' ↦ rw (e, e', validate_transport_progress) refl
    | inr e' ↦ rw (e, e', validate_transport_progress) tt
  ]
]

module _ {env : Environment} {T : Type 0} ⦃port : SlotTransport T⦄ where
  read_transport-Steady : PairSteady {env = env} {T = T} read_transport
  unfolding read_transport
  read_transport-Steady (s, transport) =
      let room : ℕ = read_length s in
      let read : T × List ℕ × Result ℕ IoError = port.read transport (take room s.read_buffer) in
      let s' : ConnectionSlot env = record s { read_buffer = read.1 ++ drop room s.read_buffer } in
      let moved : Moved s s' = record {
        state_kept = refl;
        limits_kept = refl;
        numbered = λ h. h;
      } in
      elim (Result-cases read.2) [
        | inl (n, h) ↦
            rw (h, read_transport) (via (λ s. s) s s' _ moved (take_read-Steady room n s'))
        | inr (e, h) ↦ elim (Bool-cases (is_would_block e)) [
          | inl h' ↦ rw (h, h', read_transport) (moved, tt)
          | inr h' ↦
              rw (h, h', read_transport)
                (via (λ s. s) s s' _ moved (lose_transport-Steady TransportFailurePhase.read e s'))
        ]
      ]

  pub drive_read_once-Steady : PairSteady {env = env} {T = T} drive_read_once
  unfolding drive_read_once
  drive_read_once-Steady (s, transport) =
      if-Fine (λ st. st.0) (not (port.can_read transport)) (s, transport) _ _ (still s, tt)
        (if-Fine (λ st. st.0) (read_length s == 0) (s, transport) _ _
          (return-Steady (λ st. st.0) (lift (close_for inbound_retained_capacity)) (some tt)
            (lift-Steady (close_for inbound_retained_capacity)
              (close_for-Steady inbound_retained_capacity))
            (s, transport))
          (return-Steady (λ st. st.0) read_transport (some tt) read_transport-Steady
            (s, transport)))

  write_front-Steady : (front : WriteSlice) → PairSteady {env = env} {T = T} (write_front front)
  unfolding write_front
  write_front-Steady front (s, transport) =
      let written : T × Result ℕ IoError = port.write transport front.bytes in
      elim (Result-cases written.1) [
        | inl (n, h) ↦ elim (Bool-cases (n == 0)) [
          | inl h' ↦ rw (h, h', write_front) (close_for-Steady transport_lost s)
          | inr h' ↦ rw (h, h', write_front) (confirm_written-Steady front n s)
        ]
        | inr (e, h) ↦ elim (Bool-cases (is_would_block e)) [
          | inl h' ↦ rw (h, h', write_front) (still s, tt)
          | inr h' ↦ rw (h, h', write_front) (lose_transport-Steady TransportFailurePhase.write e s)
        ]
      ]

  write_slice-Steady :
      (front : Option WriteSlice) → PairSteady {env = env} {T = T} (write_slice front)
  unfolding write_slice
  write_slice-Steady none (s, transport) = (still s, tt)
  write_slice-Steady (some front) (s, transport) =
      if-Fine (λ st. st.0) (length front.bytes == 0) (s, transport) _ _
        (return-Steady (λ st. st.0) (lift (confirm_written front 0)) (some tt)
          (lift-Steady (confirm_written front 0) (confirm_written-Steady front 0)) (s, transport))
        (if-Fine (λ st. st.0) (port.can_write transport) (s, transport) _ _
          (return-Steady (λ st. st.0) (write_front front) (some tt) (write_front-Steady front)
            (s, transport))
          (still s, tt))

  pub drive_write_once-Steady : PairSteady {env = env} {T = T} drive_write_once
  unfolding drive_write_once
  drive_write_once-Steady (s, transport) =
      let front : Run (ConnectionSlot env) (Option WriteSlice) =
        core_call (λ c. Drive.front_write outbound c s.limits.io.chunk_bytes) in
      if-Fine (λ st. st.0) (port.is_open transport) (s, transport) _ _
        (>>=-Steady (λ st. st.0) (lift front) write_slice
          (lift-Steady front
            (core_call-Steady (λ c. Drive.front_write outbound c s.limits.io.chunk_bytes)))
          write_slice-Steady (s, transport))
        (still s, tt)

  note_opened-Steady : PairSteady {env = env} {T = T} note_opened
  unfolding note_opened
  note_opened-Steady (s, transport) =
      let at_open : ConnectionSlot env = record s { transport_state = opened } in
      if-Fine (λ st. st.0) (port.is_open transport) (s, transport) _ _
        (via (λ s. s) s at_open _
          (record { state_kept = refl; limits_kept = refl; numbered = λ h. h })
          (publish_numbered-Steady transport_opened opened_numbered at_open))
        (still s, tt)

  establish-Steady : PairSteady {env = env} {T = T} establish
  unfolding establish
  establish-Steady (s, transport) =
      let budget : TransportBudget = transport_budget s in
      let driven : T × Result TransportProgress TransportError =
        port.drive_establishment transport s.socket_policy budget in
      elim (Result-cases driven.1) [
        | inr (e, h) ↦ rw (h, establish) (fail_transport-Steady connect_failed e s)
        | inl (progress, h) ↦ elim (Result-cases (validate_transport_progress budget progress)) [
          | inr (e, h') ↦
              rw (h, h', establish) (still s, subst IsFresh h' (validate-IsFresh budget progress))
          | inl (_, h') ↦
              rw (h, h', establish)
                (return-Steady (λ st. st.0) note_opened (some progress.operations)
                  note_opened-Steady (s, driven.0))
        ]
      ]

  work_transport-Steady : PairSteady {env = env} {T = T} work_transport
  unfolding work_transport
  work_transport-Steady (s, transport) =
      let budget : TransportBudget = transport_budget s in
      let driven : T × Result TransportProgress TransportError =
        port.drive_transport transport budget in
      elim (Result-cases driven.1) [
        | inr (e, h) ↦ rw (h, work_transport) (fail_transport-Steady transport_lost e s)
        | inl (progress, h) ↦ elim (Result-cases (validate_transport_progress budget progress)) [
          | inr (e, h') ↦
              rw (h, h', work_transport)
                (still s, subst IsFresh h' (validate-IsFresh budget progress))
          | inl (_, h') ↦ rw (h, h', work_transport) (still s, tt)
        ]
      ]

  pub drive_transport_once-Steady :
      (remaining : ℕ) → PairSteady {env = env} {T = T} (drive_transport_once remaining)
  unfolding drive_transport_once
  drive_transport_once-Steady remaining (s, transport) =
      if-Fine (λ st. st.0) (is_connecting s && port.is_open transport) (s, transport) _ _
        (still s, refl)
        (if-Fine (λ st. st.0) (remaining == 0) (s, transport) _ _ (still s, tt)
          (if-Fine (λ st. st.0) (is_connecting s) (s, transport) _ _
            (if-Fine (λ st. st.0) (port.can_establish transport) (s, transport) _ _
              (establish-Steady (s, transport)) (still s, tt))
            (if-Fine (λ st. st.0) (port.has_transport_work transport) (s, transport) _ _
              (work_transport-Steady (s, transport)) (still s, tt))))
