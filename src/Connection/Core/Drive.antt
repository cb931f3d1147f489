-- ===== src/Connection/Core/Drive.antt =====
-- connection/core.rs and connection/progress.rs: the operations of the owner. `debug_assertions` is
-- the build's, and a call that looks at frames takes their view of that moment.
use bornera.Prelude.{
  ℕ, Bool, false, not, ◌&&◌, ◌||◌, Option, none, some, ◌==◌, if◌then◌else◌, Result, ok, err,
}
use bornera.Host.{Calandria, ByteBudget}
use bornera.Identity.{ConnectionEpoch, OperationId, EffectId}
use bornera.Admission.Options.{
  Moment, OperationOptions, ReserveError, owner_poisoned, CommitErrorKind,
}
use bornera.Operation.{is_terminal, is_awaiting_or_terminal, is_possibly_sent, Delivery}
use bornera.Matching
use bornera.Write.Frame.{
  WriteFrame, FrameMeasure, capture, WriteAdmissionFailure, exceeds_remaining,
  progress_accounting_overflow, retained_accounting_underflow, WriteProgress, pending, complete,
  WriteBoundary, crossed, unchanged, WriteSlice,
}
use bornera.Write.Front.{front}
use bornera.Write.Admit.{admit}
use bornera.Write.Progress.{advance}
use bornera.Connection.Effect
use bornera.Connection.Effect.{ConnectionTransition, ConnectionInput, InboundReply, applied}
use bornera.Connection.Machine.{is_live}
use bornera.Connection.Permit
use bornera.Connection.Permit.{OperationPermit, commit_failure, commit_permit}
use bornera.Connection.Drive.{write_started, write_completed}
use bornera.Connection.Drive
use bornera.Connection.Journal
use bornera.Connection.Core.State.{
  ConnectionCore, frame_contract_violation, reservation_accounting, write_accounting,
  write_progress_contract, recovery_journal_capacity, unexpected_write, ConnectionCoreError,
  invariant, poisoned, write, Op, ◌>>=◌, ◌>>◌, return, fail, policy, keep, clear_journal, poison,
}
use bornera.Connection.Core.Integrity.{
  begin_recovery_journal, begin_operation_recovery_journal, ensure_healthy,
  verify_ownership_on_hot_path, reconcile, absorb_write_transition,
}

pub data FrameCommitFailure : Type 0 where
  policy_failure : CommitErrorKind → FrameCommitFailure
  writer_failure : WriteAdmissionFailure → FrameCommitFailure

-- A refused commit, with the permit and the frame that it gives back.
pub record FrameCommitError (F : Type 0) : Type 0 where
  pub failure : FrameCommitFailure
  pub permit : OperationPermit
  pub frame : F

module _ {F B : Type 0} where
  unfoldable pub front_write :
      WriteFrame F
      → ConnectionCore F B
      → ℕ
      → ConnectionCore F B × Result (Option WriteSlice) ConnectionCoreError
  front_write view c maximum = elim c.poisoned [
    | some source ↦ (c, err (poisoned source))
    | none ↦
        if c.machine.ledger.poisoned
        then (
          record c { poisoned = some reservation_accounting },
          err (invariant reservation_accounting),
        )
        else (elim (front view c.writes maximum) [
          | ok slice ↦ (c, ok slice)
          | err violation ↦ (
            record c { poisoned = some (frame_contract_violation violation) },
            err (invariant (frame_contract_violation violation)),
          )
        ])
  ]

  module _ ⦃host : Calandria⦄ where
    unfoldable pub prepare_deadline_journal : OperationId → Moment → Op F B (Unit {0})
    prepare_deadline_journal operation now c = elim (Matching.get c.machine.matching operation) [
      | none ↦ (c, ok tt)
      | some r ↦
          if not (host.is_elapsed_at r.deadline now)
          then (c, ok tt)
          else (if is_possibly_sent r.delivery
              then begin_recovery_journal c
              else begin_operation_recovery_journal operation c)
    ]

    unfoldable pub prepare_input_journal : ConnectionInput → Op F B (Unit {0})
    unfolding prepare_deadline_journal
    prepare_input_journal (ConnectionInput.open_admission epoch) c = (c, ok tt)
    prepare_input_journal (ConnectionInput.begin_drain epoch) c = (c, ok tt)
    prepare_input_journal (ConnectionInput.epoch_closed epoch) c = (c, ok tt)
    prepare_input_journal (ConnectionInput.close_requested epoch reason) c =
        if epoch == c.machine.epoch && is_live c.machine.phase
        then begin_recovery_journal c
        else (c, ok tt)
    prepare_input_journal (ConnectionInput.reply_malformed epoch) c =
        if epoch == c.machine.epoch && is_live c.machine.phase
        then begin_recovery_journal c
        else (c, ok tt)
    prepare_input_journal (ConnectionInput.cancel epoch operation) c =
        let live : Bool = elim (Matching.get c.machine.matching operation) [
          | none ↦ false
          | some r ↦ not (is_terminal r.phase)
        ] in
        if epoch == c.machine.epoch && live
        then begin_operation_recovery_journal operation c
        else (c, ok tt)
    prepare_input_journal (ConnectionInput.deadline_elapsed epoch operation now) c =
        if epoch == c.machine.epoch then prepare_deadline_journal operation now c else (c, ok tt)

  unfoldable pub prepare_reply_journal : {R : Type 0} → InboundReply R → Op F B (Unit {0})
  prepare_reply_journal reply c =
      if not (reply.epoch == c.machine.epoch) || not (is_live c.machine.phase)
      then (c, ok tt)
      else (elim (Matching.front c.machine.matching) [
        | none ↦ begin_recovery_journal c
        | some r ↦
            if not (is_awaiting_or_terminal r.phase && not r.write_held)
              || not (reply.key == r.reservation.match_key)
            then begin_recovery_journal c
            else begin_operation_recovery_journal r.id c
      ])

  module _ ⦃lib : ByteBudget B⦄ where
    -- The writer's `advance`, its failures mapped as `advance_write` maps them.
    unfoldable pub advance_frames : ConnectionEpoch → EffectId → ℕ → Op F B (WriteProgress F)
    advance_frames epoch effect written c =
        let r = advance c.writes epoch effect written in
        let c' = record c { writes = r.0 } in
        elim (r.1) [
          | ok progress ↦ (c', ok progress)
          | err e ↦ elim e [
            | retained_accounting_underflow retained released ↦ poison write_accounting c'
            | progress_accounting_overflow measured written ↦ poison write_accounting c'
            | exceeds_remaining excess remaining ↦
                poison (write_progress_contract excess remaining) c'
            | other ↦ (clear_journal >> fail (write other)) c'
          ]
        ]

    -- The record that owned a completed frame goes to the journal.
    unfoldable pub retain_owner : OperationId → EffectId → Op F B (Unit {0})
    retain_owner operation effect c = elim (Matching.get_indexed c.machine.matching operation) [
      | none ↦ poison (unexpected_write operation effect) c
      | some (wire_index, r) ↦
          (do
            held ← keep (λ j. Journal.retain_operation j r wire_index)
            if held then return tt else poison recovery_journal_capacity)
            c
    ]

    -- So does the frame, first.
    unfoldable pub retain_completed :
        OperationId → EffectId → F → FrameMeasure → Delivery → Op F B (Unit {0})
    unfolding retain_owner
    retain_completed operation effect frame measure delivery = do
      kept ← keep (λ j. Journal.retain_write j (record {
        operation = operation;
        effect = effect;
        frame = frame;
        measure = measure;
        written = measure.wire_bytes;
        delivery = delivery;
      }))
      if kept then retain_owner operation effect else poison recovery_journal_capacity

  module _ ⦃host : Calandria⦄ ⦃lib : ByteBudget B⦄ (debug_assertions : Bool) where
    -- The checks that `reserve` and `commit` make first.
    unfoldable pub admit_call : Op F B (Unit {0})
    admit_call = do ensure_healthy; verify_ownership_on_hot_path debug_assertions

    unfoldable pub reserve :
        ConnectionCore F B
        → Moment
        → OperationOptions
        → ConnectionCore F B × Result OperationPermit ReserveError
    unfolding admit_call
    reserve c now options =
        let checked = admit_call c in
        let reserved = Permit.reserve checked.0.machine now options in
        elim (checked.1) [
          | err e ↦ (checked.0, err owner_poisoned)
          | ok _ ↦ (record (checked.0) { machine = reserved.0 }, reserved.1)
        ]

    -- `commit`, behind its first checks.
    unfoldable pub commit_checked :
        WriteFrame F
        → ConnectionCore F B
        → OperationPermit
        → F
        → ConnectionCore F B
          × Result (OperationId × ConnectionTransition (Unit {0})) (FrameCommitError F)
    commit_checked view c permit frame =
        let measure = capture view frame in
        let admitted = admit c.writes permit.epoch permit.operation permit.effect measure frame in
        let committed = commit_permit c.machine permit measure.retained_bytes in
        elim (commit_failure c.machine permit measure.retained_bytes) [
          | some kind ↦
              (c, err (record { failure = policy_failure kind; permit = permit; frame = frame }))
          | none ↦ elim (admitted.1) [
            | err (failure, returned) ↦ (
              record c { writes = admitted.0 },
              err (record { failure = writer_failure failure; permit = permit; frame = returned }),
            )
            | ok _ ↦ (record c { writes = admitted.0; machine = committed.0 }, ok committed.1)
          ]
        ]

    unfoldable pub commit :
        WriteFrame F
        → ConnectionCore F B
        → OperationPermit
        → F
        → ConnectionCore F B
          × Result (OperationId × ConnectionTransition (Unit {0})) (FrameCommitError F)
    unfolding admit_call commit_checked
    commit view c permit frame =
        let checked = admit_call c in
        let committed = commit_checked view checked.0 permit frame in
        elim (checked.1) [
          | err e ↦ (
            checked.0,
            err (record {
              failure = policy_failure CommitErrorKind.owner_poisoned;
              permit = permit;
              frame = frame;
            }),
          )
          | ok _ ↦ committed
        ]

    unfoldable pub apply : ConnectionInput → Op F B (ConnectionTransition (Unit {0}))
    apply input = do
      ensure_healthy
      verify_ownership_on_hot_path debug_assertions
      prepare_input_journal input
      t ← policy (λ m. Drive.apply m input)
      output ← reconcile t
      ensure_healthy
      clear_journal
      return output

    unfoldable pub apply_reply : {R : Type 0} → InboundReply R → Op F B (ConnectionTransition R)
    apply_reply reply = do
      ensure_healthy
      verify_ownership_on_hot_path debug_assertions
      prepare_reply_journal reply
      t ← policy (λ m. Drive.apply_reply m reply)
      output ← reconcile t
      ensure_healthy
      clear_journal
      return output

    -- The policy's part of a report, once the writer and the journal have taken theirs.
    unfoldable pub report_started :
        ConnectionEpoch
        → OperationId
        → EffectId
        → WriteBoundary
        → Op F B (ConnectionTransition (Unit {0}))
    report_started epoch operation effect unchanged = return (Effect.new applied)
    report_started epoch operation effect crossed = do
      t ← policy (λ m. write_started m epoch operation effect)
      absorb_write_transition (Effect.new applied) t operation effect

    unfoldable pub report_completed :
        ConnectionEpoch
        → OperationId
        → EffectId
        → ConnectionTransition (Unit {0})
        → Op F B (ConnectionTransition (Unit {0}))
    report_completed epoch operation effect combined = do
      t ← policy (λ m. write_completed m epoch operation effect)
      absorb_write_transition combined t operation effect

    unfoldable pub settle_progress :
        ConnectionEpoch → EffectId → WriteProgress F → Op F B (ConnectionTransition (Unit {0}))
    unfolding report_started report_completed retain_completed
    settle_progress epoch effect (pending operation boundary) =
        report_started epoch operation effect boundary
    settle_progress epoch effect (complete operation owner frame measure boundary delivery) = do
      retain_completed operation owner frame measure delivery
      combined ← report_started epoch operation effect boundary
      report_completed epoch operation effect combined

    unfoldable pub advance_write :
        ConnectionEpoch → EffectId → ℕ → Op F B (ConnectionTransition (Unit {0}))
    unfolding settle_progress
    advance_write epoch effect written = do
      ensure_healthy
      _ ← keep (λ j. (Journal.begin_write_progress j, tt))
      progress ← advance_frames epoch effect written
      combined ← settle_progress epoch effect progress
      ensure_healthy
      clear_journal
      return combined
