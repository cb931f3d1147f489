-- ===== src/Connection/History.antt =====
-- Any sequence of calls on one epoch's policy: permits, commits, inputs, replies and write progress.
use bornera.Prelude.{
  ℕ, ◌+◌, ◌≡◌, refl, true, false, none, some, List, [], ◌∷◌, All-append, ◌==◌, arith,
}
use bornera.Prelude.Weights.{weigh-append}
use bornera.Host.{Calandria}
use bornera.Identity.{ConnectionEpoch, OperationId, EffectId}
use bornera.Admission.Options.{Moment, OperationOptions, admits}
use bornera.Matching
use bornera.Connection.Effect.{ConnectionInput, InboundReply}
use bornera.Connection.Machine.{ConnectionMachine, is_live}
use bornera.Connection.Permit.{
  OperationPermit, record_of, reserve, reserve_admitted, commit_failure, commit_permit, drop_permit,
}
use bornera.Connection.Drive.{apply, apply_reply, write_started, write_completed}
use bornera.Connection.Settlement.{
  one_if, owes, unsettled, publications, IsPhased, apply-Settles, apply_reply-Settles,
  write_started-Settles, write_completed-Settles,
}
use bornera.Connection.Soundness.{
  IsSound, apply-IsSound, apply_reply-IsSound, write_started-IsSound, write_completed-IsSound,
}

pub data Call (R : Type 0) : Type 0 where
  reserves : Moment → OperationOptions → Call R
  commits : OperationPermit → ℕ → Call R
  drops : OperationPermit → Call R
  inputs : ConnectionInput → Call R
  replies : InboundReply R → Call R
  starts completes : ConnectionEpoch → OperationId → EffectId → Call R

-- A permit is committed behind the policy's check.
unfoldable pub commit_if_allowed :
    ⦃host : Calandria⦄ → ConnectionMachine → OperationPermit → ℕ → ConnectionMachine
commit_if_allowed m permit retained = elim (commit_failure m permit retained) [
  | none ↦ (commit_permit m permit retained).0
  | some kind ↦ m
]

module _ {R : Type 0} ⦃host : Calandria⦄ where
  unfoldable pub step : ConnectionMachine → Call R → ConnectionMachine
  unfolding commit_if_allowed
  step m (reserves now options) = (reserve m now options).0
  step m (commits permit retained) = commit_if_allowed m permit retained
  step m (drops permit) = drop_permit m permit
  step m (inputs input) = (apply m input).0
  step m (replies received) = (apply_reply m received).0
  step m (starts epoch operation effect) = (write_started m epoch operation effect).0
  step m (completes epoch operation effect) = (write_completed m epoch operation effect).0

  unfoldable pub run : ConnectionMachine → List (Call R) → ConnectionMachine
  run m [] = m
  run m (c ∷ cs) = run (step m c) cs

  -- How often a call publishes an outcome of the operation, and how often it accepts it.
  unfoldable pub published_by : OperationId → ConnectionMachine → Call R → ℕ
  published_by id m (reserves now options) = 0
  published_by id m (commits permit retained) = 0
  published_by id m (drops permit) = 0
  published_by id m (inputs input) = publications id (apply m input).1
  published_by id m (replies received) = publications id (apply_reply m received).1
  published_by id m (starts epoch operation effect) =
      publications id (write_started m epoch operation effect).1
  published_by id m (completes epoch operation effect) =
      publications id (write_completed m epoch operation effect).1

  unfoldable pub accepted_by : OperationId → ConnectionMachine → Call R → ℕ
  accepted_by id m (commits permit retained) = elim (commit_failure m permit retained) [
    | none ↦ one_if (permit.operation == id)
    | some kind ↦ 0
  ]
  accepted_by id m _ = 0

  unfoldable pub published : OperationId → ConnectionMachine → List (Call R) → ℕ
  published id m [] = 0
  published id m (c ∷ cs) = published_by id m c + published id (step m c) cs

  unfoldable pub accepted : OperationId → ConnectionMachine → List (Call R) → ℕ
  accepted id m [] = 0
  accepted id m (c ∷ cs) = accepted_by id m c + accepted id (step m c) cs

module _ ⦃host : Calandria⦄ (m : ConnectionMachine) where
  reserve-IsSound :
      (now : Moment) (options : OperationOptions) → IsSound m → IsSound (reserve m now options).0
  unfolding reserve
  reserve-IsSound now options s = ground arith

  drop_permit-IsSound : (permit : OperationPermit) → IsSound m → IsSound (drop_permit m permit)
  unfolding drop_permit
  drop_permit-IsSound permit s = ground arith

  module _ (permit : OperationPermit) (retained : ℕ) where
    push-IsSound :
        IsSound m → admits m.gate permit.class ≡ true → IsSound (commit_permit m permit retained).0
    unfolding commit_permit Matching.push admits
    push-IsSound s open_gate =
        let pushed =
          All-append IsPhased m.matching.pending (record_of permit retained ∷ []) s.orderly.phased
            (ground arith, tt) in
        ground arith

    commit-IsSound : IsSound m → IsSound (commit_if_allowed m permit retained)
    unfolding commit_if_allowed commit_failure
    commit-IsSound s = ground (arith, push-IsSound s)

module _ ⦃host : Calandria⦄ where
  commit-settles :
      (id : OperationId) (m : ConnectionMachine) (permit : OperationPermit) (retained : ℕ)
      → elim (commit_failure m permit retained) [
        | none ↦ one_if (permit.operation == id)
        | some kind ↦ 0
      ]
          + unsettled id m
        ≡ unsettled id (commit_if_allowed m permit retained)
  unfolding commit_if_allowed commit_permit Matching.push
  commit-settles id m permit retained =
      ground (arith, weigh-append (owes id) m.matching.pending (record_of permit retained ∷ []))

  reserve-unsettled :
      (id : OperationId) (m : ConnectionMachine) (now : Moment) (options : OperationOptions)
      → unsettled id (reserve m now options).0 ≡ unsettled id m
  unfolding reserve reserve_admitted
  reserve-unsettled id m now options = ground arith

module _ {R : Type 0} ⦃host : Calandria⦄ where
  pub step-IsSound : (m : ConnectionMachine) (c : Call R) → IsSound m → IsSound (step m c)
  unfolding step
  step-IsSound m (reserves now options) s = reserve-IsSound m now options s
  step-IsSound m (commits permit retained) s = commit-IsSound m permit retained s
  step-IsSound m (drops permit) s = drop_permit-IsSound m permit s
  step-IsSound m (inputs input) s = apply-IsSound m s input
  step-IsSound m (replies received) s = apply_reply-IsSound m s received
  step-IsSound m (starts epoch operation effect) s =
      write_started-IsSound m s epoch operation effect
  step-IsSound m (completes epoch operation effect) s =
      write_completed-IsSound m s epoch operation effect

  -- Any sequence of calls on a sound policy leaves it sound: phases fit delivery and frame, a live
  -- policy has a gate that is not closed and no reason to close, a policy that is not live has a
  -- closed gate, a reason and no records, and a drain ends with its last record.
  pub run-IsSound : (m : ConnectionMachine) (cs : List (Call R)) → IsSound m → IsSound (run m cs)
  unfolding run
  run-IsSound m [] s = s
  run-IsSound m (c ∷ cs) s = run-IsSound (step m c) cs (step-IsSound m c s)

  step-settles :
      (id : OperationId) (m : ConnectionMachine) (c : Call R)
      → IsSound m
      → accepted_by id m c + unsettled id m ≡ published_by id m c + unsettled id (step m c)
  unfolding step accepted_by published_by drop_permit
  step-settles id m (reserves now options) s = ground (arith, reserve-unsettled id m now options)
  step-settles id m (commits permit retained) s =
      ground (arith, commit-settles id m permit retained)
  step-settles id m (drops permit) s = ground arith
  step-settles id m (inputs input) s = ground (arith, apply-Settles id m input s.orderly.phased)
  step-settles id m (replies received) s = ground (arith, apply_reply-Settles id m received)
  step-settles id m (starts epoch operation effect) s =
      ground (arith, write_started-Settles id m epoch operation effect)
  step-settles id m (completes epoch operation effect) s =
      ground (arith, write_completed-Settles id m epoch operation effect)

  -- Over any sequence of calls on a sound policy, and for any operation identity, the records of
  -- it that owed an outcome before and the commits of it that were accepted are, all told, its
  -- published outcomes and its records that still owe one.
  pub run-settles :
      (id : OperationId) (m : ConnectionMachine) (cs : List (Call R))
      → IsSound m
      → accepted id m cs + unsettled id m ≡ published id m cs + unsettled id (run m cs)
  unfolding run accepted published
  run-settles id m [] s = refl
  run-settles id m (c ∷ cs) s =
      omega (arith, step-settles id m c s, run-settles id (step m c) cs (step-IsSound m c s))

  -- Over any sequence of calls on a sound policy with no records, after which the policy is no
  -- longer live, every operation identity was published exactly as often as it was accepted.
  pub run-settles-all :
      (id : OperationId) (m : ConnectionMachine) (cs : List (Call R))
      → IsSound m
      → m.matching.pending ≡ []
      → is_live (run m cs).phase ≡ false
      → published id m cs ≡ accepted id m cs
  run-settles-all id m cs s fresh over =
      let balance = run-settles id m cs s in
      let sound = run-IsSound m cs s in
      let left : unsettled id (run m cs) ≡ 0 = rw (sound.orderly.shut_empty over) refl in
      let before : unsettled id m ≡ 0 = rw fresh refl in omega (arith, balance, left, before)
