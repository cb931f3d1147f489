-- ===== src/Connection/Core/Commit.antt =====
-- connection/core.rs: the commit of a permit with its frame, on every branch.
use bornera.Prelude.{
  ◌≡◌, refl, Bool, true, false, none, List, [], ◌∷◌, ◌++◌, map-append, err, Result-cases, inl, inr,
  arith,
}
use bornera.Host.{Calandria, ByteBudget}
use bornera.Identity.{OperationId, EffectId}
use bornera.Operation.{OperationRecord}
use bornera.Write.Frame.{WriteFrame, QueuedWrite, capture}
use bornera.Write.Queue.{identities}
use bornera.Matching
use bornera.Write.Admit.{admit}
use bornera.Write.Validity.{IsValid, admit_refused, admit_accepted}
use bornera.Connection.Permit.{OperationPermit, record_of, commit_permit}
use bornera.Connection.Core.State.{ConnectionCore, poison}
use bornera.Connection.Core.Integrity.{
  ensure_healthy, verify_ownership, verify_ownership_on_hot_path, merge_violation,
}
use bornera.Connection.Core.Audit.{held_identities, merge_violation_iff}
use bornera.Connection.Core.Drive.{FrameCommitError, admit_call, commit_checked, commit}

module _ {F B : Type 0} ⦃host : Calandria⦄ ⦃lib : ByteBudget B⦄ (debug_assertions : Bool) where
  ensure_keeps :
      (c : ConnectionCore F B)
      → ((ensure_healthy c).0.machine ≡ c.machine) × ((ensure_healthy c).0.writes ≡ c.writes)
  unfolding ensure_healthy poison
  ensure_keeps c = ground arith

  verify_keeps :
      (c : ConnectionCore F B)
      → ((verify_ownership_on_hot_path debug_assertions c).0.machine ≡ c.machine)
        × ((verify_ownership_on_hot_path debug_assertions c).0.writes ≡ c.writes)
  unfolding verify_ownership_on_hot_path verify_ownership poison
  verify_keeps c = ground arith

  -- The first checks look at the owner, and at most latch a failure.
  admit_call_keeps :
      (c : ConnectionCore F B)
      → ((admit_call debug_assertions c).0.machine ≡ c.machine)
        × ((admit_call debug_assertions c).0.writes ≡ c.writes)
  unfolding admit_call
  admit_call_keeps c = ground (arith, ensure_keeps c, verify_keeps (ensure_healthy c).0)

  module _ (view : WriteFrame F) (permit : OperationPermit) (frame : F)
      (e : FrameCommitError F) where
    checked_refused :
        (c : ConnectionCore F B)
        → IsValid c.writes
        → (commit_checked debug_assertions view c permit frame).1 ≡ err e
        → (e.permit ≡ permit)
          × (e.frame ≡ frame)
          × ((commit_checked debug_assertions view c permit frame).0.machine ≡ c.machine)
          × ((commit_checked debug_assertions view c permit frame).0.writes ≡ c.writes)
    unfolding commit_checked
    checked_refused c v h =
        let measure = capture view frame in
        elim (Result-cases
          (admit c.writes permit.epoch permit.operation permit.effect measure frame).1) [
            | inl (done, a) ↦ ground arith
            | inr (x, a) ↦ ground (
              arith,
              admit_refused c.writes v permit.epoch permit.operation permit.effect measure frame x
                  a,
            )
          ]

    -- A commit that an owner with a valid writer refuses, for whatever reason, gives back the
    -- permit and the frame and leaves the policy and the writer unchanged.
    pub commit_refused :
        (c : ConnectionCore F B)
        → IsValid c.writes
        → (commit debug_assertions view c permit frame).1 ≡ err e
        → (e.permit ≡ permit)
          × (e.frame ≡ frame)
          × ((commit debug_assertions view c permit frame).0.machine ≡ c.machine)
          × ((commit debug_assertions view c permit frame).0.writes ≡ c.writes)
    unfolding commit
    commit_refused c v h =
        let (same, kept) = admit_call_keeps c in
        let v' : IsValid (admit_call debug_assertions c).0.writes = rw kept v in
        ground (arith, same, kept, checked_refused (admit_call debug_assertions c).0 v')

abbrev identity_pair : {F : Type 0} → QueuedWrite F → OperationId × EffectId
identity_pair f = (f.operation, f.effect)

held-append :
    (rs : List OperationRecord) (r : OperationRecord)
    → r.write_held ≡ true
    → held_identities (rs ++ r ∷ []) ≡ held_identities rs ++ (r.id, r.effect) ∷ []
held-append [] r h = ground arith
held-append (x ∷ rs) r h = ground (arith, held-append rs r h)

module _ {F B : Type 0} ⦃host : Calandria⦄ ⦃lib : ByteBudget B⦄ (debug_assertions : Bool)
    (view : WriteFrame F) (permit : OperationPermit) (frame : F) where
  -- The writer holds the frames of the records.
  abbrev IsOwned : ConnectionCore F B → Type 0
  IsOwned c = identities c.writes ≡ held_identities c.machine.matching.pending

  checked-IsOwned :
      (c : ConnectionCore F B)
      → IsValid c.writes
      → IsOwned c
      → IsOwned (commit_checked debug_assertions view c permit frame).0
  unfolding commit_checked commit_permit Matching.push
  checked-IsOwned c v own =
      let measure = capture view frame in
      elim (Result-cases
        (admit c.writes permit.epoch permit.operation permit.effect measure frame).1) [
          | inl (done, a) ↦ ground (
            arith,
            own,
            admit_accepted c.writes v permit.epoch permit.operation permit.effect measure frame a,
            map-append identity_pair c.writes.frames (
                record {
                  operation = permit.operation;
                  effect = permit.effect;
                  frame = frame;
                  measure = measure;
                  written = 0;
                  started = false;
                }
                ∷ []),
            held-append c.machine.matching.pending (record_of permit measure.retained_bytes) refl,
          )
          | inr (x, a) ↦ ground (
            arith,
            own,
            admit_refused c.writes v permit.epoch permit.operation permit.effect measure frame x a,
          )
        ]

  -- If the writer is valid and the walk of the audit finds nothing, it finds nothing after a
  -- commit either, whether the commit is refused or accepted.
  pub commit_audited :
      (c : ConnectionCore F B)
      → IsValid c.writes
      → merge_violation c.machine.matching.pending (identities c.writes) ≡ none
      → let after = (commit debug_assertions view c permit frame).0 in
        merge_violation after.machine.matching.pending (identities after.writes) ≡ none
  unfolding commit
  commit_audited c v audited =
      let checked = (admit_call debug_assertions c).0 in
      let (same, kept) = admit_call_keeps debug_assertions c in
      let own = (merge_violation_iff c.machine.matching.pending (identities c.writes)).0 audited in
      let own' : IsOwned checked = rw (same, kept) own in
      let v' : IsValid checked.writes = rw kept v in
      let after = (commit debug_assertions view c permit frame).0 in
      (merge_violation_iff after.machine.matching.pending (identities after.writes)).1
        (ground (arith, own', checked-IsOwned checked v' own'))
