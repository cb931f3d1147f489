-- ===== src/Witnesses/Slots.antt =====
-- The theorems of a slot, on a small one.
use bornera.Prelude.{ℕ, ◌+◌, ◌≡◌, refl, true, false, none, some, List, [], ◌∷◌, ◌++◌, ok, arith}
use bornera.Operation.{requested}
use bornera.Slot.Frame.{OutboundFrame}
use bornera.Slot.Kinds.{
  EngineError, core_error, failure_of, failed_with, core_failure, owner_failed,
}
use bornera.Slot.State.{ConnectionSlot}
use bornera.Slot.Control.{open_admission, cancel_inner, cancel, begin_drain, finalize}
use bornera.Slot.Quantum.{drive_quantum, io_rounds, close_rounds}
use bornera.Operation.{reply}
use bornera.Prelude.Search.{position}
use bornera.Connection.Effect.{ConnectionTransition, applied, publish_outcome, cancel_deadline}
use bornera.Slot.Transition.{
  interpret_reply, interpret, interpret_effects, interpret_effect, publish, retain_first,
  drop_deadline, finish_close,
}
use bornera.Slot.Outcomes.{waiting, outcomes_of, interpret_reply_outcomes}
use bornera.Slot.Latch.{IsLatched, calls-IsLatched}
use bornera.Slot.Refusal.{
  SlotCall, cancels, drives, commits, reserves, opens, failed, call, calls, refusals,
  slot_failure_final,
}
use bornera.Connection.Core.State.{write_accounting, poisoned}
use bornera.Connection.Core.Integrity.{ensure_healthy}
use bornera.Connection.Core.Drive
use bornera.Slot.Failure
use bornera.Slot.State.{ensure_running, guarded, latch}
use bornera.Slot.Numbers.{IsKept, calls_numbered}
use bornera.Slot.Work.{IsBounded, quantum_within}
use bornera.Slot.Rounds.{quantum_ends}
use bornera.Witnesses.Data.{calandria, byte_budget, a_permit, a_request}
use bornera.Witnesses.SlotData.{bytewise, direct, direct-IsMadeBy, a_slot}

calls-IsLatched_example :
    (let r = open_admission a_slot in IsLatched r.0 r.1)
    × (let r = cancel 4 a_slot in IsLatched r.0 r.1)
    × (let r = begin_drain 90 a_slot in IsLatched r.0 r.1)
    × (let r = finalize requested a_slot in IsLatched r.0 r.1)
    × (let r = drive_quantum 10 (a_slot, some false) in IsLatched r.0.0 r.1)
calls-IsLatched_example = calls-IsLatched a_slot refl 4 90 10 requested (some false)

abbrev a_frame : OutboundFrame
a_frame = record { bytes = 1 ∷ 2 ∷ []; retained = 2 }

-- The owner has failed, but the slot does not know it yet.
abbrev broken_slot : ConnectionSlot bytewise
broken_slot = record a_slot { core = record (a_slot.core) { poisoned = some write_accounting } }

abbrev owner_broken : EngineError
owner_broken = core_error (poisoned write_accounting)

cancel_fails : (call (broken_slot, some true) (cancels 4)).1 ≡ failed owner_broken
unfolding call cancel guarded ensure_running failure_of cancel_inner Failure.apply Drive.apply
    ensure_healthy latch bornera.Connection.Core.State.with_identity_seeds
    bornera.Connection.Machine.with_identity_seeds bornera.Admission.Ledger.new
cancel_fails = refl

abbrev later_calls : List SlotCall
later_calls = drives 10 ∷ commits a_permit a_frame ∷ reserves 10 a_request ∷ opens ∷ []

slot_failure_final_example :
    (let after = (call (broken_slot, some true) (cancels 4)).0 in
      calls after later_calls ≡ (after, refusals core_failure later_calls))
unfolding bornera.Slot.Kinds.category
slot_failure_final_example =
    slot_failure_final broken_slot (some true) refl (cancels 4) owner_broken cancel_fails
      later_calls

calls_numbered_example :
    IsKept a_slot (open_admission a_slot).0
    × IsKept a_slot (cancel 4 a_slot).0
    × IsKept a_slot (begin_drain 90 a_slot).0
    × IsKept a_slot (finalize requested a_slot).0
    × IsKept a_slot (drive_quantum 10 (a_slot, some false)).0.0
calls_numbered_example = calls_numbered a_slot (tt, tt) 4 90 10 requested (some false)

quantum_ends_example :
    (io_rounds (3 + 5) 3 0 (a_slot, some false) ≡ io_rounds 3 3 0 (a_slot, some false))
    × (close_rounds (3 + 5) 10 3 1 (a_slot, some false)
        ≡ close_rounds 3 10 3 1 (a_slot, some false))
quantum_ends_example = quantum_ends direct-IsMadeBy 5 10 3 1 (omega arith) (a_slot, some false)

quantum_within_example : IsBounded 3 (drive_quantum 10 (a_slot, some false)).1
quantum_within_example = quantum_within 10 a_slot (some false)

-- A reply of operation 4, whose deadline is then cancelled.
abbrev a_transition : ConnectionTransition ℕ
a_transition = record {
  disposition = applied;
  cancel_outcome = none;
  effects = publish_outcome 7 4 (reply 9) ∷ cancel_deadline 7 4 ∷ [];
}

abbrev published : ConnectionSlot bytewise
published = record a_slot {
  outcomes = record {
    capacity = 2;
    held = record { epoch = 7; operation = 4; outcome = reply 9 } ∷ [];
  };
}

a_transition_carried_out : interpret_reply a_transition a_slot ≡ (published, ok tt)
unfolding interpret interpret_effects interpret_effect publish retain_first drop_deadline
    finish_close position
a_transition_carried_out = refl

interpret_reply_outcomes_example :
    waiting published ≡ waiting a_slot ++ outcomes_of a_transition.effects
interpret_reply_outcomes_example =
    interpret_reply_outcomes a_transition a_slot published a_transition_carried_out
