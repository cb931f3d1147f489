-- ===== src/Witnesses/Cores.antt =====
-- The owner of the policy and of its frames, at rest with two operations, and after a failure.
use bornera.Prelude.{ℕ, ◌≡◌, refl, true, none, List, [], ◌∷◌, map, ◌↔◌, arith}
use bornera.Operation.{OperationRecord, terminal, queued, possibly_sent, not_sent}
use bornera.Admission.Options.{reply_expected}
use bornera.Write.Frame.{into_discarded}
use bornera.Write.Queue.{identities}
use bornera.Connection.Effect.{ConnectionInput, InboundReply}
use bornera.Connection.Journal.{RecoveryJournal}
use bornera.Connection.Journal
use bornera.Connection.Core.State.{ConnectionCore, reservation_accounting, invariant}
use bornera.Connection.Core.Integrity.{merge_violation}
use bornera.Connection.Core.Audit.{held_identities, merge_violation_iff}
use bornera.Connection.Core.Recovery.{recover}
use bornera.Connection.Core.Recovered.{DistinctIds, expected, released}
use bornera.Connection.Core.Complete.{IsIdle, recover_lem}
use bornera.Connection.Core.Drive.{front_write}
use bornera.Connection.Core.Final.{
  CoreCall, applies, replies, advances, lends, reserves, commits, failed, call, calls,
  core_failure_final,
}
use bornera.Witnesses.Data.{
  Budget, calandria, byte_budget, plain, two_frames, fresh_machine, a_permit, a_request,
}

abbrev pub record_with : ℕ → ℕ → OperationRecord
record_with operation effect = record {
  id = operation;
  effect = effect;
  deadline = 50;
  reservation = record { retained_bytes = 8; write_retained_bytes = 4; match_key = 10 };
  phase = queued;
  completion = reply_expected;
  delivery = not_sent;
  write_held = true;
}

-- The first is a tombstone whose frame is still being written.
abbrev pub two_records : List OperationRecord
two_records =
    record (record_with 1 11) { phase = terminal; delivery = possibly_sent } ∷ record_with 2 12 ∷ []

abbrev pub at_rest : ConnectionCore (List ℕ) Budget
at_rest = record {
  machine = record fresh_machine {
    matching = record (fresh_machine.matching) { pending = two_records };
  };
  writes = two_frames;
  journal = Journal.new 2 2;
  poisoned = none;
}

merge_violation_iff_example :
    (merge_violation two_records (identities two_frames) ≡ none)
    ↔ (identities two_frames ≡ held_identities two_records)
merge_violation_iff_example = merge_violation_iff two_records (identities two_frames)

at_rest-IsIdle : IsIdle at_rest.journal
unfolding Journal.new
at_rest-IsIdle = record {
  no_operations = refl;
  no_writes = refl;
  no_overflow = refl;
  disarmed = refl;
}

pub audited : merge_violation two_records (identities two_frames) ≡ none
unfolding merge_violation
audited = refl

apart : DistinctIds two_records
apart = ground arith

recover_lem_example :
    let (c', recovery) = recover at_rest in
    (recovery.operations ≡ expected two_records (map into_discarded two_frames.frames))
    × (recovery.unmatched_writes ≡ [])
    × (c'.machine.ledger ≡ released at_rest.machine.ledger two_records)
    × (recovery.ownership_diverged ≡ c'.machine.ledger.poisoned)
    × (c'.machine.matching.pending ≡ [])
    × (c'.writes.frames ≡ [])
recover_lem_example = recover_lem at_rest at_rest-IsIdle audited apart

abbrev a_reply : InboundReply ℕ
a_reply = record { epoch = 7; key = 10; frame = 99 }

abbrev pub a_frame : List ℕ
a_frame = 70 ∷ []

-- The accounting of the reservations has failed, but the owner does not know it yet.
abbrev miscounted : ConnectionCore (List ℕ) Budget
miscounted = record at_rest {
  machine = record (at_rest.machine) {
    ledger = record (at_rest.machine.ledger) { poisoned = true };
  };
}

abbrev later_calls : List (CoreCall (List ℕ) ℕ)
later_calls =
    applies (ConnectionInput.begin_drain 7)
    ∷ replies a_reply
    ∷ advances 7 11 1
    ∷ reserves 0 a_request
    ∷ commits plain a_permit a_frame
    ∷ []

abbrev a_loan : CoreCall (List ℕ) ℕ
a_loan = lends plain 8

loan_fails : (call true miscounted a_loan).1 ≡ failed (invariant reservation_accounting)
unfolding call front_write
loan_fails = refl

core_failure_final_example :
    calls true (call true miscounted a_loan).0 later_calls ≡ ((call true miscounted a_loan).0, 0)
core_failure_final_example =
    core_failure_final true miscounted a_loan (invariant reservation_accounting) later_calls
      loan_fails refl
