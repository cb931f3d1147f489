-- ===== src/Sets/Fencing.antt =====
-- crates/bornera/src/set_access.rs and set_recovery.rs: tokens of another generation, and of one that is
-- retired or recovered.
use bornera.Prelude.{
  ◌≡◌, ◌≢◌, ◌∙◌, refl, subst, ap, Bool, true, none, some, Result, ok, err, ◌⊎◌, inl, inr,
  Option-cases, Bool-cases, Result-cases, arith,
}
use bornera.Host.Resources.{ResourceToken, ResourceTable}
use bornera.Admission.Options.{Deadline, Moment, OperationOptions}
use bornera.Identity.{OperationId}
use bornera.Operation.{CloseReason}
use bornera.Connection.Permit.{OperationPermit}
use bornera.Slot.Frame.{OutboundFrame}
use bornera.Slot.Limits.{ConnectionIdentity}
use bornera.Slot.Kinds.{OwnerFailure, failure_of}
use bornera.Slot.Control.{open_admission, cancel, begin_drain, finalize}
use bornera.Slot.Recovery.{RecoveryReport}
use bornera.Sets.State.{
  Selector, ConnectionEntry, ConnectionToken, stale_connection, same_identity, ConnectionSet, entry,
}
use bornera.Sets.Access.{
  stale_reserve, stale_commit, stale_retire, call_entry, reserve, commit, commit_entry, retire,
}
use bornera.Sets.Recovery.{
  ConnectionRecoveryError, stale_recovery, try_recover, abandon, recover_connection, remove_entry,
}

same_identity_sound : (a b : ConnectionIdentity) → same_identity a b ≡ true → a ≡ b
same_identity_sound a b h = ground arith

module _ {sel : Selector} {S : Type 0}
    ⦃table : ResourceTable S ConnectionIdentity (ConnectionEntry sel)⦄ where
  -- Every call by a token answers that it is stale. But for a commit, which settles what is under its
  -- resource, the calls leave the set as it is; a commit gives the permit and the frame back.
  pub record IsStale (connection : ConnectionToken) (c : ConnectionSet sel S) : Type 0 where
    pub opens : call_entry open_admission connection c ≡ (c, err stale_connection)
    pub cancels :
        (operation : OperationId)
        → call_entry (cancel operation) connection c ≡ (c, err stale_connection)
    pub drains :
        (deadline : Deadline)
        → call_entry (begin_drain deadline) connection c ≡ (c, err stale_connection)
    pub finalizes :
        (reason : CloseReason)
        → call_entry (finalize reason) connection c ≡ (c, err stale_connection)
    pub reserves :
        (now : Moment) (options : OperationOptions)
        → reserve connection now options c ≡ (c, err stale_reserve)
    pub commits :
        (permit : OperationPermit) (frame : OutboundFrame)
        → (commit connection permit frame c).1 ≡ err (stale_commit permit frame)
    pub retires : retire connection c ≡ (c, err stale_retire)
    pub recovers : try_recover connection c ≡ (c, err stale_recovery)
    pub abandons :
        (requested : OwnerFailure) → abandon connection requested c ≡ (c, err stale_recovery)

  entry_stale :
      (c : ConnectionSet sel S) (connection : ConnectionToken)
      → ((e : ConnectionEntry sel)
          → table.get c.resources connection.resource ≢ some (connection.identity, e))
      → entry c connection ≡ err stale_connection
  unfolding entry
  entry_stale c connection absent =
      elim (Option-cases (table.get c.resources connection.resource)) [
        | inl e ↦ rw (e, entry) refl
        | inr ((k, v), e) ↦ elim (Bool-cases (same_identity k connection.identity)) [
          | inr q ↦ rw (e, q, entry) refl
          | inl q ↦
              absurd
                (absent v (e ∙ ap (λ i. some (i, v)) (same_identity_sound k connection.identity q)))
        ]
      ]

  stale_commit_lem :
      (c : ConnectionSet sel S) (connection : ConnectionToken) (permit : OperationPermit)
      (frame : OutboundFrame)
      → entry c connection ≡ err stale_connection
      → (commit connection permit frame c).1 ≡ err (stale_commit permit frame)
  unfolding commit commit_entry
  stale_commit_lem c connection permit frame stale = rw (stale, commit, commit_entry) refl

  entry-IsStale :
      (c : ConnectionSet sel S) (connection : ConnectionToken)
      → entry c connection ≡ err stale_connection
      → IsStale connection c
  unfolding call_entry reserve retire try_recover abandon
  entry-IsStale c connection stale = record {
    opens = ground (arith, stale);
    cancels = λ operation. ground (arith, stale);
    drains = λ deadline. ground (arith, stale);
    finalizes = λ reason. ground (arith, stale);
    reserves = λ now options. ground (arith, stale);
    commits = λ permit frame. stale_commit_lem c connection permit frame stale;
    retires = ground (arith, stale);
    recovers = ground (arith, stale);
    abandons = λ requested. ground (arith, stale);
  }

  pub absent-IsStale :
      (c : ConnectionSet sel S) (connection : ConnectionToken)
      (absent : (e : ConnectionEntry sel)
        → table.get c.resources connection.resource ≢ some (connection.identity, e))
      → IsStale connection c
  absent-IsStale c connection absent = entry-IsStale c connection (entry_stale c connection absent)

  gone-IsStale :
      (c : ConnectionSet sel S) (connection : ConnectionToken)
      → table.get c.resources connection.resource ≡ none
      → IsStale connection c
  gone-IsStale c connection gone =
      absent-IsStale c connection (λ e there. absurd (ground (arith, gone, there)))

  -- If a recovery gives a report, nothing is left under the resource.
  abbrev IsGone :
      ResourceToken
      → ConnectionSet sel S
        × Result (RecoveryReport OutboundFrame (sel.slots).frame) ConnectionRecoveryError
      → Type 0
  IsGone resource (c, err error) = Unit
  IsGone resource (c, ok report) = table.get c.resources resource ≡ none

  remove_entry-IsGone :
      (resource : ResourceToken) (reason : OwnerFailure) (failed : Bool) (c : ConnectionSet sel S)
      → IsGone resource (remove_entry resource reason failed c)
  unfolding remove_entry
  remove_entry-IsGone resource reason failed c =
      elim (Option-cases (table.remove c.resources resource)) [
        | inl e ↦ rw (e, remove_entry) tt
        | inr ((s', v), e) ↦ rw (e, remove_entry) (table.remove_gone c.resources s' resource v e)
      ]

  recover_connection-IsGone :
      (connection : ConnectionToken) (reason : OwnerFailure) (c : ConnectionSet sel S)
      → IsGone connection.resource (recover_connection connection reason c)
  unfolding recover_connection
  recover_connection-IsGone connection reason c = elim (Result-cases (entry c connection)) [
    | inr (error, e) ↦ rw (e, recover_connection) tt
    | inl (v, e) ↦ rw (e, recover_connection) (remove_entry-IsGone connection.resource reason _ _)
  ]

  try_recover-IsGone :
      (connection : ConnectionToken) (c : ConnectionSet sel S)
      → IsGone connection.resource (try_recover connection c)
  unfolding try_recover
  try_recover-IsGone connection c = elim (Result-cases (entry c connection)) [
    | inr (error, e) ↦ rw (e, try_recover) tt
    | inl (v, e) ↦ elim (Option-cases (failure_of v.slot.state)) [
      | inl f ↦ rw (e, f, try_recover) tt
      | inr (reason, f) ↦ rw (e, f, try_recover) (recover_connection-IsGone connection reason c)
    ]
  ]

  abandon-IsGone :
      (connection : ConnectionToken) (requested : OwnerFailure) (c : ConnectionSet sel S)
      → IsGone connection.resource (abandon connection requested c)
  unfolding abandon
  abandon-IsGone connection requested c = elim (Result-cases (entry c connection)) [
    | inr (error, e) ↦ rw (e, abandon) tt
    | inl (v, e) ↦ elim (Option-cases (failure_of v.slot.state)) [
      | inl f ↦ rw (e, f, abandon) (recover_connection-IsGone connection requested c)
      | inr (reason, f) ↦ rw (e, f, abandon) (recover_connection-IsGone connection reason c)
    ]
  ]

  retire_gone :
      (connection : ConnectionToken) (c : ConnectionSet sel S)
      → (retire connection c).1 ≡ ok tt
      → table.get (retire connection c).0.resources connection.resource ≡ none
  unfolding retire
  retire_gone connection c h = elim (Option-cases (table.remove c.resources connection.resource)) [
    | inl e ↦ absurd (ground arith)
    | inr ((s', v), e) ↦ ground (arith, table.remove_gone c.resources s' connection.resource v e)
  ]

  -- After a token has been used to retire an entry or to recover it, the calls that open
  -- admission, cancel, drain, finalize, reserve, commit, retire, recover and abandon by the token
  -- answer that it is stale; all but the commit leave the set as it is, and the commit gives the
  -- permit and the frame back.
  pub departed-IsStale :
      (c c' : ConnectionSet sel S) (connection : ConnectionToken) (requested : OwnerFailure)
      (report : RecoveryReport OutboundFrame (sel.slots).frame)
      (departed : (retire connection c ≡ (c', ok tt))
        ⊎ (try_recover connection c ≡ (c', ok report))
        ⊎ (abandon connection requested c ≡ (c', ok report)))
      → IsStale connection c'
  departed-IsStale c c' connection requested report departed =
      gone-IsStale c' connection (elim departed [
        | inl h ↦
            subst (λ r. table.get r.0.resources connection.resource ≡ none) h
              (retire_gone connection c (ap (λ r. r.1) h))
        | inr (inl h) ↦ subst (IsGone connection.resource) h (try_recover-IsGone connection c)
        | inr (inr h) ↦ subst (IsGone connection.resource) h (abandon-IsGone connection requested c)
      ])
