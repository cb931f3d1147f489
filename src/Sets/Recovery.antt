-- ===== src/Sets/Recovery.antt =====
-- crates/bornera/src/set_recovery.rs: the recovery of one entry of a set, whose token is stale from then
-- on.
use bornera.Prelude.{Bool, true, false, ◌||◌, Option, none, some, is_some, Result, ok, err}
use bornera.Host.Resources.{ResourceToken, ResourceTable}
use bornera.Slot.Limits.{ConnectionIdentity}
use bornera.Slot.Frame.{OutboundFrame}
use bornera.Slot.Kinds.{OwnerFailure, failure_of, MioError}
use bornera.Slot.Pressure.{capture_transport_pressure}
use bornera.Slot.Recovery.{RecoveryReport, recover_owned}
use bornera.Sets.State.{
  Selector, ConnectionEntry, ConnectionToken, ConnectionSet, entry, latch_selector_failure,
}
use bornera.Sets.Access.{without}

pub data ConnectionRecoveryError : Type 0 where
  stale_recovery owner_running : ConnectionRecoveryError

module _ {sel : Selector} where
  -- The transport leaves the selector: what the selector refused, and whether its pressure was refused.
  unfoldable pub cleanup_entry :
      ResourceToken
      → sel.poller
      → ConnectionEntry sel
      → sel.poller × ConnectionEntry sel × Option MioError × Bool
  cleanup_entry resource poller e = elim e.transport [
    | none ↦ (poller, e, none, false)
    | some transport ↦
        let (poller', transport', cleanup) = sel.deregister poller transport resource in
        let captured = capture_transport_pressure ⦃port = sel.port⦄ transport' e.slot in
        (
          poller',
          record e { slot = captured.0; transport = some transport' },
          elim cleanup [ ok _ ↦ none | err error ↦ some error ],
          elim (captured.1) [ ok _ ↦ false | err error ↦ true ],
        )
  ]

module _ {sel : Selector} {S : Type 0}
    ⦃table : ResourceTable S ConnectionIdentity (ConnectionEntry sel)⦄ where
  -- Once the transport has left: the entry is removed, and its slot recovered.
  unfoldable pub remove_entry :
      ResourceToken
      → OwnerFailure
      → Bool
      → ConnectionSet sel S
      → ConnectionSet sel S
        × Result (RecoveryReport OutboundFrame (sel.slots).frame) ConnectionRecoveryError
  remove_entry resource reason failed c = elim (table.remove c.resources resource) [
    | none ↦ (record c { ready = without resource c.ready }, err stale_recovery)
    | some (resources, e) ↦ (
      record c { ready = without resource c.ready; resources = resources },
      ok (recover_owned reason failed e.slot).1,
    )
  ]

  unfoldable pub recover_connection :
      ConnectionToken
      → OwnerFailure
      → ConnectionSet sel S
      → ConnectionSet sel S
        × Result (RecoveryReport OutboundFrame (sel.slots).frame) ConnectionRecoveryError
  unfolding cleanup_entry remove_entry
  recover_connection connection reason c = elim (entry c connection) [
    | err error ↦ (c, err stale_recovery)
    | ok e ↦
        let (poller, e', cleanup, pressure) = cleanup_entry connection.resource c.poller e in
        let c' : ConnectionSet sel S = record c {
          poller = poller;
          resources = table.put c.resources connection.resource e';
        } in
        remove_entry connection.resource reason (is_some cleanup || pressure)
          (elim cleanup [ none ↦ c' | some error ↦ latch_selector_failure error c' ])
  ]

  unfoldable pub try_recover :
      ConnectionToken
      → ConnectionSet sel S
      → ConnectionSet sel S
        × Result (RecoveryReport OutboundFrame (sel.slots).frame) ConnectionRecoveryError
  unfolding recover_connection
  try_recover connection c = elim (entry c connection) [
    | err error ↦ (c, err stale_recovery)
    | ok e ↦ elim (failure_of e.slot.state) [
      | none ↦ (c, err owner_running)
      | some reason ↦ recover_connection connection reason c
    ]
  ]

  unfoldable pub abandon :
      ConnectionToken
      → OwnerFailure
      → ConnectionSet sel S
      → ConnectionSet sel S
        × Result (RecoveryReport OutboundFrame (sel.slots).frame) ConnectionRecoveryError
  unfolding recover_connection
  abandon connection requested c = elim (entry c connection) [
    | err error ↦ (c, err stale_recovery)
    | ok e ↦ elim (failure_of e.slot.state) [
      | none ↦ recover_connection connection requested c
      | some reason ↦ recover_connection connection reason c
    ]
  ]
