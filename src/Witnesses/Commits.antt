-- ===== src/Witnesses/Commits.antt =====
-- The commit of a permit with its frame, refused and accepted.
use bornera.Prelude.{ℕ, ◌≡◌, refl, false, none, List, err}
use bornera.Admission.Options.{CommitErrorKind}
use bornera.Write.Queue.{identities}
use bornera.Connection.Machine.{with_identity_seeds}
use bornera.Connection.Permit.{OperationPermit}
use bornera.Connection.Core.Integrity.{merge_violation}
use bornera.Connection.Core.Drive.{FrameCommitError, policy_failure, commit}
use bornera.Connection.Core.Commit.{commit_refused, commit_audited}
use bornera.Witnesses.Data.{calandria, byte_budget, plain, two_frames, a_permit}
use bornera.Witnesses.Writer.{two_frames-IsValid}
use bornera.Witnesses.Cores.{at_rest, audited, a_frame}

-- A permit of another ledger.
abbrev foreign : OperationPermit
foreign = record a_permit { ledger_id = 6 }

abbrev refusal : FrameCommitError (List ℕ)
refusal = record {
  failure = policy_failure CommitErrorKind.foreign_permit;
  permit = foreign;
  frame = a_frame;
}

refused : (commit false plain at_rest foreign a_frame).1 ≡ err refusal
unfolding commit bornera.Connection.Core.Integrity.ensure_healthy with_identity_seeds
    bornera.Admission.Ledger.new bornera.Connection.Core.Integrity.verify_ownership_on_hot_path
    bornera.Connection.Permit.commit_failure
refused = refl

commit_refused_example :
    (foreign ≡ foreign)
    × (a_frame ≡ a_frame)
    × ((commit false plain at_rest foreign a_frame).0.machine ≡ at_rest.machine)
    × ((commit false plain at_rest foreign a_frame).0.writes ≡ two_frames)
commit_refused_example =
    commit_refused false plain foreign a_frame refusal at_rest two_frames-IsValid refused

commit_audited_example :
    let after = (commit false plain at_rest a_permit a_frame).0 in
    merge_violation after.machine.matching.pending (identities after.writes) ≡ none
commit_audited_example =
    commit_audited false plain a_permit a_frame at_rest two_frames-IsValid audited
