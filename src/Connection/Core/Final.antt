-- ===== src/Connection/Core/Final.antt =====
-- connection/core.rs and connection/progress.rs: the calls on an owner after a call that has failed.
use bornera.Prelude.{
  ℕ, suc, ◌≡◌, ◌≢◌, refl, Bool, true, false, some, is_some, List, [], ◌∷◌, Result, ok, err,
  if◌then◌else◌, Bool-cases, Option-cases, inl, inr, arith,
}
use bornera.Host.{Calandria, ByteBudget}
use bornera.Identity.{ConnectionEpoch, EffectId}
use bornera.Admission.Options.{Moment, OperationOptions}
use bornera.Write.Frame.{WriteFrame}
use bornera.Connection.Effect.{ConnectionInput, InboundReply}
use bornera.Connection.Permit.{OperationPermit}
use bornera.Connection.Core.State.{
  ConnectionCore, ConnectionCoreInvariant, reservation_accounting, ConnectionCoreError, invariant,
  poisoned, poison,
}
use bornera.Connection.Core.Integrity.{ensure_healthy}
use bornera.Connection.Core.Drive.{
  front_write, admit_call, reserve, commit, apply, apply_reply, advance_write,
}
use bornera.Connection.Core.Latch.{is_write, IsHeld, front_write-IsHeld}
use bornera.Connection.Core.Held.{apply-Holds, apply_reply-Holds, advance_write-Holds}

-- The calls of a client, but for recovery, which takes what the owner holds also after a failure.
pub data CoreCall (F R : Type 0) : Type 0 where
  applies : ConnectionInput → CoreCall F R
  replies : InboundReply R → CoreCall F R
  advances : ConnectionEpoch → EffectId → ℕ → CoreCall F R
  lends : WriteFrame F → ℕ → CoreCall F R
  reserves : Moment → OperationOptions → CoreCall F R
  commits : WriteFrame F → OperationPermit → F → CoreCall F R

-- The answer of a call: it succeeded, it was refused, or the owner has failed.
pub data CoreAnswer : Type 0 where
  done refused : CoreAnswer
  failed : ConnectionCoreError → CoreAnswer

abbrev pub answer : {A : Type 0} → Result A ConnectionCoreError → CoreAnswer
answer (ok a) = done
answer (err e) = failed e

abbrev pub admission : {A E : Type 0} → Result A E → CoreAnswer
admission (ok a) = done
admission (err e) = refused

abbrev pub is_done : CoreAnswer → Bool
is_done done = true
is_done _ = false

refused_apart : {A E : Type 0} (r : Result A E) (e : ConnectionCoreError) → admission r ≢ failed e
refused_apart (ok a) e h = absurd (ground arith)
refused_apart (err e') e h = absurd (ground arith)

module _ {F B : Type 0} where
  held_answer :
      {A : Type 0} (r : ConnectionCore F B × Result A ConnectionCoreError) (e : ConnectionCoreError)
      → IsHeld r
      → answer r.1 ≡ failed e
      → is_write e ≡ false
      → is_some r.0.poisoned ≡ true
  held_answer (c, ok a) e h same fresh = absurd (ground arith)
  held_answer (c, err e') e h same fresh = h (ground arith)

  -- What every call of an owner that has failed meets first.
  abbrev latched : ConnectionCore F B → ConnectionCoreInvariant → ConnectionCoreError
  latched c source =
      if c.machine.ledger.poisoned then invariant reservation_accounting else poisoned source

  healthy_poisoned :
      (c : ConnectionCore F B) (source : ConnectionCoreInvariant)
      → c.poisoned ≡ some source
      → ensure_healthy c ≡ (c, err (latched c source))
  unfolding ensure_healthy poison
  healthy_poisoned c source e = elim (Bool-cases c.machine.ledger.poisoned) [
    | inl q ↦ simp (q, e, ensure_healthy, poison)
    | inr q ↦ simp (q, e, ensure_healthy)
  ]

module _ {F B R : Type 0} ⦃host : Calandria⦄ ⦃lib : ByteBudget B⦄ (debug : Bool) where
  -- The owner after a call, and the answer.
  unfoldable pub call : ConnectionCore F B → CoreCall F R → ConnectionCore F B × CoreAnswer
  call c (applies input) = let r = apply debug input c in (r.0, answer r.1)
  call c (replies received) = let r = apply_reply debug received c in (r.0, answer r.1)
  call c (advances epoch effect written) =
      let r = advance_write debug epoch effect written c in (r.0, answer r.1)
  call c (lends view maximum) = let r = front_write view c maximum in (r.0, answer r.1)
  call c (reserves now options) = let r = reserve debug c now options in (r.0, admission r.1)
  call c (commits view permit frame) =
      let r = commit debug view c permit frame in (r.0, admission r.1)

  -- The owner after some calls, and how many of them succeeded.
  unfoldable pub calls : ConnectionCore F B → List (CoreCall F R) → ConnectionCore F B × ℕ
  unfolding call
  calls c [] = (c, 0)
  calls c (k ∷ ks) =
      let later = calls (call c k).0 ks in
      (later.0, elim (is_done (call c k).1) [ true ↦ suc later.1 | false ↦ later.1 ])

  call_latches :
      (c : ConnectionCore F B) (k : CoreCall F R) (e : ConnectionCoreError)
      → (call c k).1 ≡ failed e
      → is_write e ≡ false
      → is_some (call c k).0.poisoned ≡ true
  unfolding call
  call_latches c (applies input) e h fresh =
      held_answer (apply debug input c) e (apply-Holds debug input c) h fresh
  call_latches c (replies received) e h fresh =
      held_answer (apply_reply debug received c) e (apply_reply-Holds debug received c) h fresh
  call_latches c (advances epoch effect written) e h fresh =
      held_answer (advance_write debug epoch effect written c) e
        (advance_write-Holds debug epoch effect written c) h fresh
  call_latches c (lends view maximum) e h fresh =
      held_answer (front_write view c maximum) e (front_write-IsHeld view c maximum) h fresh
  call_latches c (reserves now options) e h fresh =
      absurd (refused_apart (reserve debug c now options).1 e h)
  call_latches c (commits view permit frame) e h fresh =
      absurd (refused_apart (commit debug view c permit frame).1 e h)

  poisoned_refuses :
      (c : ConnectionCore F B) (k : CoreCall F R) (source : ConnectionCoreInvariant)
      → c.poisoned ≡ some source
      → ((call c k).0 ≡ c) × (is_done (call c k).1 ≡ false)
  unfolding call apply apply_reply advance_write front_write reserve commit admit_call
  poisoned_refuses c k source e =
      let healthy = healthy_poisoned c source e in
      elim k [
        | applies input ↦ ground (arith, healthy)
        | replies received ↦ ground (arith, healthy)
        | advances epoch effect written ↦ ground (arith, healthy)
        | lends view maximum ↦ ground arith
        | reserves now options ↦ ground (arith, healthy)
        | commits view permit frame ↦ ground (arith, healthy)
      ]

  poisoned_calls :
      (c : ConnectionCore F B) (ks : List (CoreCall F R)) (source : ConnectionCoreInvariant)
      → c.poisoned ≡ some source
      → calls c ks ≡ (c, 0)
  unfolding calls
  poisoned_calls c [] source e = refl
  poisoned_calls c (k ∷ ks) source e =
      let refused_call = poisoned_refuses c k source e in
      let later : calls (call c k).0 ks ≡ (c, 0) =
        rw (refused_call.0) (poisoned_calls c ks source e) in
      rw (refused_call.1, later) refl

  -- If an input, a reply, a report of progress or the loan of the front frame fails, but not as a
  -- report that the writer refuses, then of the inputs, replies, reports, loans, reservations and
  -- commits that follow none succeeds and none changes the owner.
  pub core_failure_final :
      (c : ConnectionCore F B) (k : CoreCall F R) (e : ConnectionCoreError)
      (ks : List (CoreCall F R)) (fails : (call c k).1 ≡ failed e) (owners : is_write e ≡ false)
      → calls (call c k).0 ks ≡ ((call c k).0, 0)
  core_failure_final c k e ks fails owners = elim (Option-cases (call c k).0.poisoned) [
    | inl none_there ↦ absurd (ground (arith, call_latches c k e fails owners))
    | inr (source, held) ↦ poisoned_calls (call c k).0 ks source held
  ]
