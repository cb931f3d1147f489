-- ===== src/Sets/Settle.antt =====
-- crates/bornera/src/set_settle.rs: the release of a transport that its slot has done with, and the
-- interest of one that it still drives.
use bornera.Prelude.{
  ℕ, false, not, none, some, select, length, ltb, ◌==◌, if◌then◌else◌, Result, ok, err,
}
use bornera.Host.Resources.{ResourceToken, ResourceTable}
use bornera.Slot.Limits.{ConnectionIdentity}
use bornera.Slot.Kinds.{
  CloseDirective, MioError, EngineError, mio_error, invariant_error, owner_failed, resource_token,
  missing_close_reason, failure_of,
}
use bornera.Slot.State.{ConnectionSlot, latch_failure}
use bornera.Slot.Pressure.{capture_transport_pressure}
use bornera.Slot.Shutdown.{observe_shutdown_complete}
use bornera.Slot.Close.{
  take_close_request, restore_close_request, abort_transport, settle_transport_closed,
}
use bornera.Sets.State.{
  Selector, ConnectionEntry, ConnectionSet, record_mio_failure, latch_readiness_error,
}

module _ {sel : Selector} where
  -- The selector refuses: noted, latched and reported.
  unfoldable pub refuse :
      MioError → ConnectionEntry sel → ConnectionEntry sel × Result ℕ EngineError
  unfolding record_mio_failure
  refuse source e = (
    record e { slot = latch_failure (mio_error source) (record_mio_failure source e.slot) },
    err (mio_error source),
  )

  -- The transport has been let go.
  unfoldable pub settle_released :
      CloseDirective → ConnectionEntry sel → ConnectionEntry sel × Result ℕ EngineError
  settle_released directive e =
      let settled = settle_transport_closed (restore_close_request directive e.slot) in
      let slot : ConnectionSlot sel.slots =
        if settled.1
        then settled.0
        else abort_transport (latch_failure (invariant_error missing_close_reason) settled.0) in
      (record e { transport = none; slot = slot }, ok 1)

  -- The transport of an entry that is to be settled.
  unfoldable pub release_transport :
      ResourceToken
      → CloseDirective
      → sel.transport
      → sel.poller
      → ConnectionEntry sel
      → sel.poller × ConnectionEntry sel × Result ℕ EngineError
  unfolding refuse settle_released
  release_transport resource directive transport poller e =
      let (poller', transport', deregistered) = sel.deregister poller transport resource in
      let captured = capture_transport_pressure ⦃port = sel.port⦄ transport' e.slot in
      let kept : ConnectionEntry sel = record e {
        slot = captured.0;
        transport = some transport';
      } in
      let restored : ConnectionSlot sel.slots = restore_close_request directive captured.0 in
      elim deregistered [
        -- The failure is noted before the request is restored, which touch different fields.
        | err source ↦
            let refused = refuse source (record kept { slot = restored }) in
            (poller', refused.0, refused.1)
        | ok _ ↦ elim (captured.1) [
          | err error ↦ (
            poller',
            record kept { transport = none; slot = latch_failure error restored },
            err error,
          )
          | ok _ ↦
              let released = settle_released directive (record kept { transport = none }) in
              (poller', released.0, released.1)
        ]
      ]

  -- What the transport says of its shutdown is taken over.
  abbrev pub observed : ConnectionEntry sel → ConnectionSlot sel.slots
  observed e = elim e.transport [
    | none ↦ e.slot
    | some transport ↦ observe_shutdown_complete ⦃port = sel.port⦄ transport e.slot
  ]

  unfoldable pub settle_entry :
      ResourceToken
      → sel.poller
      → ConnectionEntry sel
      → sel.poller × ConnectionEntry sel × Result ℕ EngineError
  unfolding release_transport settle_released
  settle_entry resource poller e =
      let taken = take_close_request (observed e) in
      let e' : ConnectionEntry sel = record e { slot = taken.0 } in
      elim (taken.1) [
        | none ↦ (poller, e', ok 0)
        | some directive ↦ elim e.transport [
          | none ↦ let released = settle_released directive e' in (poller, released.0, released.1)
          | some transport ↦ release_transport resource directive transport poller e'
        ]
      ]

  unfoldable pub sync_interest :
      ResourceToken
      → sel.poller
      → ConnectionEntry sel
      → sel.poller × ConnectionEntry sel × Result ℕ EngineError
  unfolding refuse
  sync_interest resource poller e = elim e.transport [
    | none ↦ (poller, e, ok 0)
    | some transport ↦
        let desired = sel.desired_interest transport (ltb 0 (length e.slot.core.writes.frames)) in
        let (poller', transport', registered) = sel.reregister poller transport resource desired in
        let captured = capture_transport_pressure ⦃port = sel.port⦄ transport' e.slot in
        let kept : ConnectionEntry sel = record e {
          slot = captured.0;
          transport = some transport';
        } in
        if sel.same_interest desired e.interest then (poller, e, ok 0) else (elim registered [
          | err source ↦ let refused = refuse source kept in (poller', refused.0, refused.1)
          | ok _ ↦ (
            poller',
            record kept {
              interest = desired;
              slot = elim (captured.1) [
                | err error ↦ latch_failure error captured.0
                | ok _ ↦ captured.0
              ];
            },
            ok 1,
          )
        ])
  ]

module _ {sel : Selector} {S : Type 0}
    ⦃table : ResourceTable S ConnectionIdentity (ConnectionEntry sel)⦄ where
  -- A settled entry leaves the queue.
  unfoldable pub unqueue : ResourceToken → ConnectionSet sel S → ConnectionSet sel S
  unqueue resource c = record c {
    ready = select (λ t. not (t == resource)) c.ready;
    resources = elim (table.get c.resources resource) [
      | none ↦ c.resources
      | some (identity, e) ↦ table.put c.resources resource (record e { ready_queued = false })
    ];
  }

  -- `settle_connection`, once the entry has been settled.
  unfoldable pub finish_settled :
      ResourceToken → ℕ → ConnectionSet sel S → ConnectionSet sel S × Result ℕ EngineError
  unfolding unqueue
  finish_settled resource settled c =
      let c' : ConnectionSet sel S = if settled == 0 then c else unqueue resource c in
      (
        c',
        elim (table.get c'.resources resource) [
          | none ↦ ok settled
          | some (identity, e) ↦ elim (failure_of e.slot.state) [
            | none ↦ ok settled
            | some reason ↦ err (owner_failed reason)
          ]
        ],
      )

  unfoldable pub settle_connection :
      ResourceToken → ConnectionSet sel S → ConnectionSet sel S × Result ℕ EngineError
  unfolding settle_entry finish_settled latch_readiness_error
  settle_connection resource c = elim (table.get c.resources resource) [
    | none ↦ (c, err (invariant_error resource_token))
    | some (identity, e) ↦
        let (poller, e', result) = settle_entry resource c.poller e in
        let c' : ConnectionSet sel S = record c {
          poller = poller;
          resources = table.put c.resources resource e';
        } in
        elim result [
          | err error ↦ (latch_readiness_error error c', err error)
          | ok settled ↦ finish_settled resource settled c'
        ]
  ]
