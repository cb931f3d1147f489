-- ===== src/Slot/Refusal.antt =====
-- crates/bornera/src/state.rs, control.rs, admission.rs and drive/slot.rs: what a slot answers once a call
-- that drives it has failed.
use bornera.Prelude.{◌≡◌, ◌≢◌, ◌∙◌, refl, Option, List, [], ◌∷◌, Result, ok, err, arith}
use bornera.Identity.{OperationId}
use bornera.Admission.Options.{Deadline, Moment, OperationOptions, ReserveError}
use bornera.Operation.{CloseReason, requested}
use bornera.Connection.Permit.{OperationPermit}
use bornera.Connection.Effect.{InputDisposition, CancelOutcome}
use bornera.Transport.Port.{SlotTransport}
use bornera.Slot.Frame.{OutboundFrame}
use bornera.Slot.Kinds.{
  OwnerFailure, running, failed_with, failure_of, EngineError, owner_failed, category,
}
use bornera.Slot.State.{Environment, ConnectionSlot, ensure_running, guarded}
use bornera.Slot.Control.{open_admission, cancel, begin_drain, finalize}
use bornera.Slot.Admission.{EngineCommitError, reserve, commit, owner_refused}
use bornera.Slot.Quantum.{SlotProgress, drive_quantum}
use bornera.Slot.Latch.{IsLatched, calls-IsLatched}

-- The calls of a host on a slot, but for those that take out what the slot has published or settle a
-- close, and for recovery.
pub data SlotCall : Type 0 where
  opens : SlotCall
  cancels : OperationId → SlotCall
  drains : Deadline → SlotCall
  finalizes : CloseReason → SlotCall
  drives : Moment → SlotCall
  reserves : Moment → OperationOptions → SlotCall
  commits : OperationPermit → OutboundFrame → SlotCall

pub data Answer : Type 0 where
  done : Answer
  failed : EngineError → Answer
  unreserved : ReserveError → Answer
  uncommitted : EngineCommitError → Answer

abbrev pub answer : {A : Type 0} → Result A EngineError → Answer
answer (ok a) = done
answer (err e) = failed e

abbrev pub reservation_answer : {A : Type 0} → Result A ReserveError → Answer
reservation_answer (ok a) = done
reservation_answer (err e) = unreserved e

abbrev pub commit_answer : {A : Type 0} → Result A EngineCommitError → Answer
commit_answer (ok a) = done
commit_answer (err e) = uncommitted e

reservation_apart :
    {A : Type 0} (r : Result A ReserveError) (e : EngineError) → reservation_answer r ≢ failed e
reservation_apart (ok a) e h = absurd (ground arith)
reservation_apart (err e') e h = absurd (ground arith)

commit_apart :
    {A : Type 0} (r : Result A EngineCommitError) (e : EngineError) → commit_answer r ≢ failed e
commit_apart (ok a) e h = absurd (ground arith)
commit_apart (err e') e h = absurd (ground arith)

-- What a call is told by a slot that has failed.
unfoldable pub refusal : OwnerFailure → SlotCall → Answer
refusal first (reserves now options) = unreserved ReserveError.owner_poisoned
refusal first (commits permit frame) = uncommitted (owner_refused first permit frame)
refusal first _ = failed (owner_failed first)

unfoldable pub refusals : OwnerFailure → List SlotCall → List Answer
unfolding refusal
refusals first [] = []
refusals first (c ∷ cs) = refusal first c ∷ refusals first cs

module _ {env : Environment} where
  -- What the latch says of an answer.
  latched_state :
      {A : Type 0} (s : ConnectionSlot env) (r : Result A EngineError) (e : EngineError)
      → IsLatched s r
      → answer r ≡ failed e
      → s.state ≡ failed_with (category e)
  latched_state s (ok a) e h same = absurd (ground arith)
  latched_state s (err e') e h same = h.0 ∙ ground arith

module _ {env : Environment} {T : Type 0} ⦃port : SlotTransport T⦄ where
  -- The slot and its transport after a call, and the answer.
  unfoldable pub call :
      ConnectionSlot env × Option T → SlotCall → (ConnectionSlot env × Option T) × Answer
  call (s, t) opens = let r = open_admission s in ((r.0, t), answer r.1)
  call (s, t) (cancels operation) = let r = cancel operation s in ((r.0, t), answer r.1)
  call (s, t) (drains deadline) = let r = begin_drain deadline s in ((r.0, t), answer r.1)
  call (s, t) (finalizes reason) = let r = finalize reason s in ((r.0, t), answer r.1)
  call (s, t) (drives now) = let r = drive_quantum now (s, t) in (r.0, answer r.1)
  call (s, t) (reserves now options) =
      let r = reserve now options s in ((r.0, t), reservation_answer r.1)
  call (s, t) (commits permit frame) =
      let r = commit permit frame s in ((r.0, t), commit_answer r.1)

  unfoldable pub calls :
      ConnectionSlot env × Option T → List SlotCall → (ConnectionSlot env × Option T) × List Answer
  unfolding call
  calls x [] = (x, [])
  calls x (c ∷ cs) = let later = calls (call x c).0 cs in (later.0, (call x c).1 ∷ later.1)

  call_refused :
      (s : ConnectionSlot env) (t : Option T) (first : OwnerFailure) (c : SlotCall)
      → s.state ≡ failed_with first
      → call (s, t) c ≡ ((s, t), refusal first c)
  unfolding call refusal open_admission cancel begin_drain finalize guarded ensure_running
      failure_of drive_quantum reserve commit
  call_refused s t first opens h = ground arith
  call_refused s t first (cancels operation) h = ground arith
  call_refused s t first (drains deadline) h = ground arith
  call_refused s t first (finalizes reason) h = ground arith
  call_refused s t first (drives now) h = ground arith
  call_refused s t first (reserves now options) h = ground arith
  call_refused s t first (commits permit frame) h = ground arith

  calls_refused :
      (s : ConnectionSlot env) (t : Option T) (first : OwnerFailure) (cs : List SlotCall)
      → s.state ≡ failed_with first
      → calls (s, t) cs ≡ ((s, t), refusals first cs)
  unfolding calls refusals
  calls_refused s t first [] h = refl
  calls_refused s t first (c ∷ cs) h =
      rw (call_refused s t first c h, calls_refused s t first cs h) refl

  call_latches :
      (s : ConnectionSlot env) (t : Option T) (c : SlotCall) (e : EngineError)
      → s.state ≡ running
      → (call (s, t) c).1 ≡ failed e
      → (call (s, t) c).0.0.state ≡ failed_with (category e)
  unfolding call
  call_latches s t opens e h fails =
      let r : ConnectionSlot env × Result InputDisposition EngineError = open_admission s in
      latched_state r.0 r.1 e (calls-IsLatched s h 0 0 0 requested t).0 fails
  call_latches s t (cancels operation) e h fails =
      let r : ConnectionSlot env × Result CancelOutcome EngineError = cancel operation s in
      latched_state r.0 r.1 e (calls-IsLatched s h operation 0 0 requested t).1 fails
  call_latches s t (drains deadline) e h fails =
      let r : ConnectionSlot env × Result InputDisposition EngineError = begin_drain deadline s in
      latched_state r.0 r.1 e (calls-IsLatched s h 0 deadline 0 requested t).2 fails
  call_latches s t (finalizes reason) e h fails =
      let r : ConnectionSlot env × Result InputDisposition EngineError = finalize reason s in
      latched_state r.0 r.1 e (calls-IsLatched s h 0 0 0 reason t).3 fails
  call_latches s t (drives now) e h fails =
      let r : (ConnectionSlot env × Option T) × Result SlotProgress EngineError =
        drive_quantum now (s, t) in
      latched_state r.0.0 r.1 e (calls-IsLatched s h 0 0 now requested t).4 fails
  call_latches s t (reserves now options) e h fails =
      let r : ConnectionSlot env × Result OperationPermit ReserveError = reserve now options s in
      absurd (reservation_apart r.1 e fails)
  call_latches s t (commits permit frame) e h fails =
      let r : ConnectionSlot env × Result OperationId EngineCommitError = commit permit frame s in
      absurd (commit_apart r.1 e fails)

  -- If a call that opens admission, cancels, drains, finalizes or drives a running slot fails, no
  -- call of these, no reservation and no commit that follows changes the slot or its transport:
  -- they answer with the category of that failure, a reservation that the owner is poisoned, and a
  -- commit gives the permit and the frame back.
  pub slot_failure_final :
      (s : ConnectionSlot env) (transport : Option T) (running_slot : s.state ≡ running)
      (c : SlotCall) (e : EngineError) (fails : (call (s, transport) c).1 ≡ failed e)
      (cs : List SlotCall)
      → let after = (call (s, transport) c).0 in calls after cs ≡ (after, refusals (category e) cs)
  slot_failure_final s transport h c e fails cs =
      let after : ConnectionSlot env × Option T = (call (s, transport) c).0 in
      calls_refused after.0 after.1 (category e) cs (call_latches s transport c e h fails)
