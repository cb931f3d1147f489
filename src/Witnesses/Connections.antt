-- ===== src/Witnesses/Connections.antt =====
-- The policy of an epoch, at concrete calls.
use bornera.Prelude.{
  ℕ, select, ◌+◌, ◌≡◌, ◌≢◌, refl, Bool, true, false, Option, none, some, List, [], ◌∷◌, arith,
}
use bornera.Admission.Options.{AdmissionGate}
use bornera.Identity.{zero_seeds}
use bornera.Operation.{requested}
use bornera.Matching
use bornera.Connection.Effect.{ConnectionInput, InboundReply}
use bornera.Connection.Machine.{ConnectionMachine, is_live, with_identity_seeds}
use bornera.Connection.Drive.{apply, apply_reply, write_started, write_completed}
use bornera.Connection.Settlement.{unsettled}
use bornera.Connection.Soundness.{IsSound, with_identity_seeds-IsSound}
use bornera.Connection.History.{
  Call, reserves, commits, drops, inputs, replies, starts, completes, run, published, accepted,
  run-IsSound, run-settles, run-settles-all,
}
use bornera.Admission.Bounds.{IsWithin}
use bornera.Connection.Bounds.{epoch-IsWithin}
use bornera.Connection.Fencing.{IsLater}
use bornera.Connection.Epochs.{is_current, run-IsLater, run-current}
use bornera.Witnesses.Data.{calandria, two_limits, fresh_machine, a_permit, a_request}

-- Reserve, commit, write, answer; then another commit, refused for its class, and a closure.
abbrev calls : List (Call ℕ)
calls =
    reserves 0 a_request
    ∷ commits a_permit 4
    ∷ starts 7 0 0
    ∷ completes 7 0 0
    ∷ replies (record { epoch = 7; key = 10; frame = 99 })
    ∷ inputs (ConnectionInput.close_requested 7 requested)
    ∷ []

fresh-IsSound : IsSound fresh_machine
fresh-IsSound = with_identity_seeds-IsSound 1 2 3 7 two_limits zero_seeds 5

-- The calls accept operation 0, answer it, and end the epoch.
calls_once :
    (accepted 0 fresh_machine calls ≡ 1)
    × (published 0 fresh_machine calls ≡ 1)
    × (is_live (run fresh_machine calls).phase ≡ false)
unfolding accepted published bornera.Connection.History.accepted_by
    bornera.Connection.Permit.commit_failure bornera.Connection.History.step
    bornera.Connection.Permit.reserve bornera.Admission.Options.admits with_identity_seeds
    bornera.Identity.Generator.available bornera.Identity.Generator.new
    bornera.Admission.Ledger.reserve bornera.Admission.Ledger.new bornera.Admission.KeySet.new
    bornera.Admission.KeySet.contains bornera.Admission.KeySet.insert
    bornera.Identity.Generator.take bornera.Connection.History.published_by write_started
    bornera.Connection.Permit.commit_permit bornera.Admission.KeySet.checked_next_power_of_two
    bornera.Admission.KeySet.find bornera.Admission.KeySet.find_from bornera.Admission.KeySet.home
    bornera.Admission.KeySet.insert_from bornera.Admission.KeySet.next
    bornera.Admission.KeySet.power_from bornera.Admission.KeySet.remove
    bornera.Admission.KeySet.replace_from bornera.Admission.KeySet.table_size
    bornera.Admission.Ledger.allocate_key bornera.Admission.Ledger.commit
    bornera.Admission.Ledger.free_key bornera.Admission.Ledger.release_all
    bornera.Admission.Ledger.release_operation bornera.Admission.Ledger.release_write
    bornera.Admission.Ledger.released_permits bornera.Admission.Ledger.released_write
    bornera.Admission.Ledger.reserve_key bornera.Admission.Ledger.reserve_totals
    bornera.Admission.Ledger.rollback_permit bornera.Connection.Drive.close_requested
    bornera.Connection.Drive.complete_front bornera.Connection.Drive.finish_write
    bornera.Connection.History.commit_if_allowed bornera.Connection.Machine.close_into
    bornera.Connection.Machine.close_records bornera.Connection.Machine.close_with_failure_into
    bornera.Connection.Machine.finish_drain bornera.Connection.Permit.reserve_admitted
    bornera.Limits.KeySpace.next bornera.Matching.get bornera.Matching.get_indexed
    bornera.Matching.get_mut bornera.Matching.index_of bornera.Matching.new
    bornera.Matching.pop_front bornera.Matching.push bornera.Matching.remove
    bornera.Prelude.Search.modify_first bornera.Prelude.Search.position
    bornera.Prelude.Search.remove_at apply apply_reply write_completed run
calls_once = (refl, refl, refl)

run-IsSound_example : IsSound (run fresh_machine calls)
run-IsSound_example = run-IsSound fresh_machine calls fresh-IsSound

run-settles_example :
    accepted 0 fresh_machine calls + unsettled 0 fresh_machine
    ≡ published 0 fresh_machine calls + unsettled 0 (run fresh_machine calls)
run-settles_example = run-settles 0 fresh_machine calls fresh-IsSound

run-settles-all_example : published 0 fresh_machine calls ≡ accepted 0 fresh_machine calls
unfolding with_identity_seeds Matching.new
run-settles-all_example = run-settles-all 0 fresh_machine calls fresh-IsSound refl calls_once.2

run-IsLater_example : IsLater fresh_machine (run fresh_machine calls)
run-IsLater_example = run-IsLater fresh_machine calls

abbrev stale_reply : InboundReply ℕ
stale_reply = record { epoch = 6; key = 10; frame = 99 }

-- Calls of the epoch before, among those of the epoch.
abbrev mixed : List (Call ℕ)
mixed = inputs (ConnectionInput.epoch_closed 6) ∷ replies stale_reply ∷ starts 6 0 0 ∷ calls

run-current_example :
    (run fresh_machine mixed ≡ run fresh_machine (select (is_current fresh_machine.epoch) mixed))
    × (published 0 fresh_machine mixed
        ≡ published 0 fresh_machine (select (is_current fresh_machine.epoch) mixed))
run-current_example = run-current 0 fresh_machine mixed

epoch-IsWithin_example : IsWithin two_limits (run fresh_machine calls).ledger
epoch-IsWithin_example = epoch-IsWithin two_limits 1 2 3 7 zero_seeds 5 calls
