-- ===== src/Connection/Epochs.antt =====
-- connection/drive.rs, cancellation.rs, deadline.rs, lifecycle.rs and response.rs: the life of one epoch
-- over any sequence of calls, and the calls that name another epoch.
use bornera.Prelude.{
  ℕ, ◌+◌, ◌≡◌, ◌≢◌, refl, ap, subst, Bool, true, false, List, [], ◌∷◌, select, ◌==◌, ==_self,
  Bool-cases, inl, inr, arith,
}
use bornera.Host.{Calandria}
use bornera.Identity.{ConnectionEpoch, OperationId}
use bornera.Connection.Machine.{
  ConnectionMachine, close_with_failure_into, close_into, finish_drain,
}
use bornera.Connection.Permit.{reserve, reserve_admitted, commit_permit, drop_permit}
use bornera.Connection.Drive.{write_started, write_completed, finish_write}
use bornera.Connection.Fencing.{
  epoch_of, apply_stale, report_stale, apply_reply_stale, IsLater, apply-IsLater,
  apply_reply-IsLater,
}
use bornera.Connection.History.{
  Call, reserves, commits, drops, inputs, replies, starts, completes, commit_if_allowed, step, run,
  published_by, published,
}

-- Whether a call is for the epoch, or names none.
abbrev pub is_current : {R : Type 0} → ConnectionEpoch → Call R → Bool
is_current n (inputs input) = epoch_of input == n
is_current n (replies received) = received.epoch == n
is_current n (starts epoch operation effect) = epoch == n
is_current n (completes epoch operation effect) = epoch == n
is_current n _ = true

apart : (a b : ℕ) → (a == b) ≡ false → a ≢ b
apart a b h same = absurd (ground (arith, ==_self b))

IsLater-trans : (a b c : ConnectionMachine) → IsLater a b → IsLater b c → IsLater a c
IsLater-trans a b c h k = record {
  same_epoch = ground arith;
  same_ledger = ground arith;
  forward = ground arith;
  reason_kept = λ shut. ground arith;
  gate_shut = λ shut gate. ground arith;
}

module _ {R : Type 0} ⦃host : Calandria⦄ where
  step-IsLater : (m : ConnectionMachine) (c : Call R) → IsLater m (step m c)
  unfolding step reserve reserve_admitted commit_if_allowed commit_permit drop_permit write_started
      write_completed finish_write finish_drain close_into close_with_failure_into
  step-IsLater m (reserves now options) = ground arith
  step-IsLater m (commits permit retained) = ground arith
  step-IsLater m (drops permit) = ground arith
  step-IsLater m (inputs input) = apply-IsLater m input
  step-IsLater m (replies received) = apply_reply-IsLater m received
  step-IsLater m (starts epoch operation effect) = ground arith
  step-IsLater m (completes epoch operation effect) = ground arith

  -- Over any sequence of calls, a policy keeps its epoch and the name of its ledger, and its phase
  -- moves only forward; if it was not live before, its reason to close stays, and a closed gate
  -- stays closed.
  pub run-IsLater : (m : ConnectionMachine) (cs : List (Call R)) → IsLater m (run m cs)
  unfolding run
  run-IsLater m [] = ground arith
  run-IsLater m (c ∷ cs) =
      IsLater-trans m (step m c) (run (step m c) cs) (step-IsLater m c) (run-IsLater (step m c) cs)

  -- A call of another epoch.
  foreign_ignored :
      (id : OperationId) (m : ConnectionMachine) (c : Call R)
      → is_current m.epoch c ≡ false
      → (step m c ≡ m) × (published_by id m c ≡ 0)
  unfolding step published_by
  foreign_ignored id m (inputs input) h =
      let stale = apply_stale m input (apart _ _ h) in (stale.0, rw stale.1 refl)
  foreign_ignored id m (replies received) h =
      let stale = apply_reply_stale m received (apart _ _ h) in (stale.0, rw stale.1 refl)
  foreign_ignored id m (starts epoch operation effect) h =
      let stale = (report_stale m epoch operation effect (apart _ _ h)).0 in
      (stale.0, rw stale.1 refl)
  foreign_ignored id m (completes epoch operation effect) h =
      let stale = (report_stale m epoch operation effect (apart _ _ h)).1 in
      (stale.0, rw stale.1 refl)
  foreign_ignored id m (reserves now options) h = absurd (ground arith)
  foreign_ignored id m (commits permit retained) h = absurd (ground arith)
  foreign_ignored id m (drops permit) h = absurd (ground arith)

  abbrev IsSame : OperationId → ConnectionMachine → List (Call R) → ConnectionEpoch → Type 0
  IsSame id m cs n =
      (run m cs ≡ run m (select (is_current n) cs))
      × (published id m cs ≡ published id m (select (is_current n) cs))

  -- If the inputs, the replies and the reports of writes that name another epoch than the policy's
  -- are left out of a sequence of calls, the policy is the same in the end, and any operation has
  -- the same number of published outcomes.
  pub run-current :
      (id : OperationId) (m : ConnectionMachine) (cs : List (Call R))
      → (run m cs ≡ run m (select (is_current m.epoch) cs))
        × (published id m cs ≡ published id m (select (is_current m.epoch) cs))
  unfolding run published
  run-current id m [] = (refl, refl)
  run-current id m (c ∷ cs) = elim (Bool-cases (is_current m.epoch c)) [
    | inl here ↦
        let later =
          subst (IsSame id (step m c) cs) ((step-IsLater m c).same_epoch)
            (run-current id (step m c) cs) in
        rw (here, run, published) (later.0, ap (λ n. published_by id m c + n) later.1)
    | inr other ↦
        let ignored = foreign_ignored id m c other in
        let later = run-current id m cs in
        rw (other, ignored.0, ignored.1) (later.0, omega (arith, later.1))
  ]
