-- ===== src/Sets/Access.antt =====
-- crates/bornera/src/set_access.rs and connection_error.rs: what the host asks of one
-- entry, by a token that names its generation.
use bornera.Prelude.{
  ◌+◌, Bool, true, false, not, ◌||◌, none, some, is_some, List, select, ◌==◌, if◌then◌else◌, Result,
  ok, err,
}
use bornera.Identity.{OperationId}
use bornera.Host.Resources.{ResourceToken, ResourceTable}
use bornera.Admission.Options.{Moment, OperationOptions, ReserveError}
use bornera.Connection.Permit.{OperationPermit}
use bornera.Transport.Diagnostic.{TransportState, closed}
use bornera.Slot.Limits.{ConnectionIdentity}
use bornera.Slot.Frame.{OutboundFrame}
use bornera.Slot.Kinds.{OwnerFailure, failure_of, EngineError}
use bornera.Slot.State.{Environment, ConnectionSlot, Run}
use bornera.Slot.Admission
use bornera.Slot.Admission.{EngineCommitError, accepted_owner_failure}
use bornera.Sets.State.{
  Selector, ConnectionEntry, ConnectionToken, ConnectionAccessError, owner_error, ConnectionSet,
  entry, enqueue,
}
use bornera.Sets.Settle.{settle_connection}

pub data ConnectionReserveError : Type 0 where
  stale_reserve : ConnectionReserveError
  rejected_reserve : ReserveError → ConnectionReserveError

pub data ConnectionCommitError : Type 0 where
  stale_commit : OperationPermit → OutboundFrame → ConnectionCommitError
  connection_commit : EngineCommitError → ConnectionCommitError

pub data ConnectionRetireError : Type 0 where
  stale_retire transport_live publications_pending : ConnectionRetireError
  failed_retire : OwnerFailure → ConnectionRetireError

abbrev pub is_closed : TransportState → Bool
is_closed closed = true
is_closed _ = false

-- `retain`: the other tokens of the queue.
abbrev pub without : ResourceToken → List ResourceToken → List ResourceToken
without resource ready = select (λ t. not (t == resource)) ready

module _ {env : Environment} where
  -- `pending_outcomes` and `pending_events` of the snapshot
  unfoldable pub has_publications : ConnectionSlot env → Bool
  has_publications s =
      not (env.outcomes.len s.outcomes + env.outcomes.len s.recovery_outcomes == 0)
      || not (env.events.len s.lifecycle + env.events.len s.recovery_events == 0)

module _ {sel : Selector} {S : Type 0}
    ⦃table : ResourceTable S ConnectionIdentity (ConnectionEntry sel)⦄ where
  -- A write to the slot of an entry that is there.
  abbrev pub put_slot :
      ConnectionToken
      → ConnectionEntry sel
      → ConnectionSlot sel.slots
      → ConnectionSet sel S
      → ConnectionSet sel S
  put_slot connection e s c = record c {
    resources = table.put c.resources connection.resource (record e { slot = s });
  }

  -- After a call: the entry is queued and settled, and a failure of the settlement is reported unless
  -- the call has failed itself.
  unfoldable pub finish_call :
      {A : Type 0}
      → ResourceToken
      → Result A EngineError
      → ConnectionSet sel S
      → ConnectionSet sel S × Result A ConnectionAccessError
  finish_call resource result c =
      let settled = settle_connection resource (enqueue resource c) in
      (
        settled.0,
        elim result [
          | err error ↦ err (owner_error error)
          | ok a ↦ elim (settled.1) [ err error ↦ err (owner_error error) | ok _ ↦ ok a ]
        ],
      )

  -- `open_admission`, `cancel`, `begin_drain` and `finalize` of a set: the call of the slot by that name.
  unfoldable pub call_entry :
      {A : Type 0}
      → Run (ConnectionSlot sel.slots) A
      → ConnectionToken
      → ConnectionSet sel S
      → ConnectionSet sel S × Result A ConnectionAccessError
  unfolding finish_call
  call_entry call connection c = elim (entry c connection) [
    | err error ↦ (c, err error)
    | ok e ↦
        let r = call e.slot in finish_call connection.resource r.1 (put_slot connection e r.0 c)
  ]

  unfoldable pub reserve :
      ConnectionToken
      → Moment
      → OperationOptions
      → ConnectionSet sel S
      → ConnectionSet sel S × Result OperationPermit ConnectionReserveError
  reserve connection now options c = elim (entry c connection) [
    | err error ↦ (c, err stale_reserve)
    | ok e ↦
        let r = Admission.reserve now options e.slot in
        (
          put_slot connection e r.0 c,
          elim (r.1) [ ok permit ↦ ok permit | err error ↦ err (rejected_reserve error) ],
        )
  ]

  -- The commit of the slot, or the refusal of a stale token.
  unfoldable pub commit_entry :
      ConnectionToken
      → OperationPermit
      → OutboundFrame
      → ConnectionSet sel S
      → ConnectionSet sel S × Result OperationId ConnectionCommitError
  commit_entry connection permit frame c = elim (entry c connection) [
    | err error ↦ (c, err (stale_commit permit frame))
    | ok e ↦
        let r = Admission.commit permit frame e.slot in
        (
          put_slot connection e r.0 c,
          elim (r.1) [ ok operation ↦ ok operation | err error ↦ err (connection_commit error) ],
        )
  ]

  -- The entry under the resource of the token is queued and settled, stale or not.
  unfoldable pub commit :
      ConnectionToken
      → OperationPermit
      → OutboundFrame
      → ConnectionSet sel S
      → ConnectionSet sel S × Result OperationId ConnectionCommitError
  unfolding commit_entry
  commit connection permit frame c =
      let committed = commit_entry connection permit frame c in
      let settled =
        settle_connection connection.resource (enqueue connection.resource committed.0) in
      (
        settled.0,
        elim (committed.1) [
          | err error ↦ err error
          | ok operation ↦ elim (settled.1) [
            | ok _ ↦ ok operation
            | err source ↦ err (connection_commit (accepted_owner_failure operation source))
          ]
        ],
      )

  unfoldable pub retire :
      ConnectionToken
      → ConnectionSet sel S
      → ConnectionSet sel S × Result (Unit {0}) ConnectionRetireError
  retire connection c = elim (entry c connection) [
    | err error ↦ (c, err stale_retire)
    | ok e ↦ elim (failure_of e.slot.state) [
      | some reason ↦ (c, err (failed_retire reason))
      | none ↦
          if is_some e.transport || not (is_closed e.slot.transport_state)
          then (c, err transport_live)
          else (if has_publications e.slot
              then (c, err publications_pending)
              else (elim (table.remove c.resources connection.resource) [
                | none ↦
                    (record c { ready = without connection.resource c.ready }, err stale_retire)
                | some (resources, removed) ↦ (
                  record c { ready = without connection.resource c.ready; resources = resources },
                  ok tt,
                )
              ]))
    ]
  ]

  -- `drain_outcomes` and `drain_events` of a set: the drain of the slot by that name.
  unfoldable pub drain_entry :
      {A : Type 0}
      → (ConnectionSlot sel.slots → ConnectionSlot sel.slots × A)
      → ConnectionToken
      → ConnectionSet sel S
      → ConnectionSet sel S × Result A ConnectionAccessError
  drain_entry drain connection c = elim (entry c connection) [
    | err error ↦ (c, err error)
    | ok e ↦ let r = drain e.slot in (put_slot connection e r.0 c, ok r.1)
  ]
