-- ===== src/Connection/Core/Held.antt =====
-- connection/core.rs and connection/progress.rs: the failures of the owner's calls, each of which is the
-- owner's own or the writer's refusal.
use bornera.Prelude.{ℕ, Bool, ok}
use bornera.Host.{Calandria, ByteBudget}
use bornera.Identity.{ConnectionEpoch, OperationId, EffectId}
use bornera.Write.Frame.{WriteProgress, pending, complete, WriteBoundary, crossed, unchanged}
use bornera.Connection.Effect.{
  ConnectionTransition, ConnectionEffect, ConnectionInput, InboundReply, applied, discard_write,
  schedule_deadline, cancel_deadline, close_epoch, publish_outcome,
}
use bornera.Connection.Effect
use bornera.Connection.Journal
use bornera.Connection.Drive
use bornera.Connection.Drive.{write_started, write_completed}
use bornera.Connection.Core.State.{Op, ◌>>=◌, policy, keep, clear_journal}
use bornera.Connection.Core.Integrity.{ensure_healthy, reconcile, verify_ownership_on_hot_path}
use bornera.Connection.Core.Drive.{
  prepare_input_journal, prepare_reply_journal, advance_frames, retain_completed, apply,
  apply_reply, report_started, report_completed, settle_progress, advance_write,
}
use bornera.Connection.Core.Latch.{
  Holds, then-Holds, healthy-Holds, verify-Holds, input-Holds, reply-Holds, reconcile-Holds,
  absorb-Holds, frames-Holds, retain-Holds,
}

module _ {F B : Type 0} ⦃lib : ByteBudget B⦄ ⦃host : Calandria⦄ (debug : Bool) where
  started-Holds :
      (epoch : ConnectionEpoch) (operation : OperationId) (effect : EffectId)
      (boundary : WriteBoundary)
      → Holds {F = F} {B = B} (report_started debug epoch operation effect boundary)
  unfolding report_started
  started-Holds epoch operation effect unchanged c = tt
  started-Holds epoch operation effect crossed c =
      let r = write_started c.machine epoch operation effect in
      absorb-Holds (Effect.new applied) r.1 operation effect (record c { machine = r.0 })

  completed-Holds :
      (epoch : ConnectionEpoch) (operation : OperationId) (effect : EffectId)
      (combined : ConnectionTransition (Unit {0}))
      → Holds {F = F} {B = B} (report_completed debug epoch operation effect combined)
  unfolding report_completed
  completed-Holds epoch operation effect combined c =
      let r = write_completed c.machine epoch operation effect in
      absorb-Holds combined r.1 operation effect (record c { machine = r.0 })

  abbrev completed :
      ConnectionEpoch
      → OperationId
      → EffectId
      → WriteBoundary
      → Op F B (ConnectionTransition (Unit {0}))
  completed epoch operation effect boundary =
      report_started debug epoch operation effect boundary
      >>= report_completed debug epoch operation effect

  settle-Holds :
      (epoch : ConnectionEpoch) (effect : EffectId) (progress : WriteProgress F)
      → Holds {F = F} {B = B} (settle_progress debug epoch effect progress)
  unfolding settle_progress
  settle-Holds epoch effect (pending operation boundary) =
      started-Holds epoch operation effect boundary
  settle-Holds epoch effect (complete operation owner frame measure boundary delivery) =
      then-Holds (retain_completed operation owner frame measure delivery)
        (λ _. completed epoch operation effect boundary)
        (retain-Holds operation owner frame measure delivery)
        (λ _.
          then-Holds {F = F} {B = B} (report_started debug epoch operation effect boundary)
            (report_completed debug epoch operation effect)
            (started-Holds epoch operation effect boundary)
            (completed-Holds epoch operation effect))

  -- What the calls have in common: their end, the reconciliation before it, and the checks.
  abbrev ended : {A : Type 0} → A → Op F B A
  ended a = ensure_healthy >>= λ _. clear_journal >>= λ _ c. (c, ok a)

  abbrev reconciled :
      {R : Type 0} → Op F B (ConnectionTransition R) → Op F B (ConnectionTransition R)
  reconciled p = p >>= λ t. reconcile t >>= ended

  abbrev checked :
      {R : Type 0}
      → Op F B (Unit {0})
      → Op F B (ConnectionTransition R)
      → Op F B (ConnectionTransition R)
  checked prepare p = ensure_healthy >>= λ _.
      verify_ownership_on_hot_path debug >>= λ _. prepare >>= λ _. reconciled p

  ended-Holds : (A : Type 0) (a : A) → Holds (ended a)
  ended-Holds A a =
      then-Holds ensure_healthy (λ _. clear_journal >>= λ _ c. (c, ok a)) healthy-Holds (λ _ c. tt)

  reconciled-Holds :
      (R : Type 0) (p : Op F B (ConnectionTransition R)) → Holds p → Holds (reconciled p)
  reconciled-Holds R p h =
      then-Holds p (λ t. reconcile t >>= ended) h
        (λ t.
          then-Holds (reconcile t) ended (reconcile-Holds R t)
            (ended-Holds (ConnectionTransition R)))

  checked-Holds :
      (R : Type 0) (prepare : Op F B (Unit {0})) (p : Op F B (ConnectionTransition R))
      → Holds prepare
      → Holds p
      → Holds (checked prepare p)
  checked-Holds R prepare p h k =
      then-Holds ensure_healthy
        (λ _. verify_ownership_on_hot_path debug >>= λ _. prepare >>= λ _. reconciled p)
        healthy-Holds
        (λ _.
          then-Holds (verify_ownership_on_hot_path debug) (λ _. prepare >>= λ _. reconciled p)
            (verify-Holds debug)
            (λ _. then-Holds prepare (λ _. reconciled p) h (λ _. reconciled-Holds R p k)))

  pub apply-Holds : (input : ConnectionInput) → Holds {F = F} {B = B} (apply debug input)
  unfolding apply
  apply-Holds input =
      checked-Holds (Unit {0}) (prepare_input_journal input) (policy (λ m. Drive.apply m input))
        (input-Holds input) (λ c. tt)

  pub apply_reply-Holds :
      {R : Type 0} (received : InboundReply R) → Holds {F = F} {B = B} (apply_reply debug received)
  unfolding apply_reply
  apply_reply-Holds {R} received =
      checked-Holds R (prepare_reply_journal received) (policy (λ m. Drive.apply_reply m received))
        (reply-Holds received) (λ c. tt)

  abbrev settled : ConnectionEpoch → EffectId → ℕ → Op F B (ConnectionTransition (Unit {0}))
  settled epoch effect written = advance_frames epoch effect written >>= λ progress.
      settle_progress debug epoch effect progress >>= ended

  settled-Holds :
      (epoch : ConnectionEpoch) (effect : EffectId) (written : ℕ)
      → Holds (settled epoch effect written)
  settled-Holds epoch effect written =
      then-Holds (advance_frames epoch effect written)
        (λ progress. settle_progress debug epoch effect progress >>= ended)
        (frames-Holds epoch effect written)
        (λ progress.
          then-Holds {F = F} {B = B} (settle_progress debug epoch effect progress) ended
            (settle-Holds epoch effect progress) (ended-Holds (ConnectionTransition (Unit {0}))))

  pub advance_write-Holds :
      (epoch : ConnectionEpoch) (effect : EffectId) (written : ℕ)
      → Holds {F = F} {B = B} (advance_write debug epoch effect written)
  unfolding advance_write
  advance_write-Holds epoch effect written =
      let begin : Op F B (Unit {0}) = keep (λ j. (Journal.begin_write_progress j, tt)) in
      then-Holds ensure_healthy (λ _. begin >>= λ _. settled epoch effect written) healthy-Holds
        (λ _.
          then-Holds begin (λ _. settled epoch effect written) (λ c. tt)
            (λ _. settled-Holds epoch effect written))
