-- ===== src/Sets/State.antt =====
-- crates/bornera/src/set.rs, set_failure.rs, token.rs and command.rs: the set, the access to its entries
-- by tokens, its queue of ready entries, and the failure of its selector.
use bornera.Prelude.{
  ℕ, Bool, true, false, ◌&&◌, Option, none, some, List, [], ◌∷◌, ◌++◌, ◌==◌, if◌then◌else◌, Result,
  ok, err,
}
use bornera.Identity.{OperationId}
use bornera.Admission.Options.{Deadline}
use bornera.Host.Resources.{ResourceToken, ResourceTable}
use bornera.Transport.Port.{SlotTransport}
use bornera.Transport.Diagnostic
use bornera.Transport.Diagnostic.{TransportFailurePhase}
use bornera.Slot.Limits.{ConnectionIdentity}
use bornera.Slot.Kinds.{
  OwnerFailure, readiness_failure, MioError, system_error, mio_other, EngineError, mio_error,
  core_error, invariant_error, owner_failed,
}
use bornera.Slot.State.{Environment, ConnectionSlot, latch_owner_failure}
use bornera.Slot.Control.{record_transport_failure}

pub record ConnectionToken : Type 0 where
  pub resource : ResourceToken
  pub identity : ConnectionIdentity

pub data ConnectionCommand : Type 0 where
  open_admission close : ConnectionToken → ConnectionCommand
  cancel : ConnectionToken → OperationId → ConnectionCommand
  begin_drain : ConnectionToken → Deadline → ConnectionCommand

-- `calandria::PollEvent`: an event of a resource, or any other.
pub data PollEvent (R : Type 0) : Type 0 where
  resource_event : ResourceToken → R → PollEvent R
  other_event : PollEvent R

-- What a set reads of `calandria::PollReport`.
pub record PollReport : Type 0 where
  pub stale : ℕ
  pub saturated : Bool
  pub observed : ℕ

-- What a set takes from elsewhere: the registered transport, the selector and the mailbox.
pub record Selector : Type 1 where
  pub slots : Environment
  pub transport : Type 0
  pub port : SlotTransport transport
  pub interest : Type 0
  pub same_interest : interest → interest → Bool
  -- `SlotTransport::desired_interest`
  pub desired_interest : transport → Bool → interest
  pub poller : Type 0
  pub deregister :
      poller → transport → ResourceToken → poller × transport × Result (Unit {0}) MioError
  pub reregister :
      poller
      → transport
      → ResourceToken
      → interest
      → poller × transport × Result (Unit {0}) MioError
  pub readiness : Type 0
  -- `RegisteredTransport::observe_readiness`
  pub observe_readiness : transport → readiness → transport
  -- The batch of events is filled anew.
  pub poll :
      poller
      → ℕ
      → List (PollEvent readiness)
      → poller × List (PollEvent readiness) × Result PollReport MioError
  pub mailbox : Type 0
  pub close : mailbox → mailbox
  -- Up to so many commands, whether more are pending, and the number drained.
  pub drain : mailbox → ℕ → mailbox × List ConnectionCommand × Bool × ℕ

pub record ConnectionEntry (sel : Selector) : Type 0 where
  pub slot : ConnectionSlot sel.slots
  pub transport : Option sel.transport
  pub interest : sel.interest
  pub ready_queued : Bool

pub data ConnectionAccessError : Type 0 where
  stale_connection : ConnectionAccessError
  owner_error : EngineError → ConnectionAccessError

abbrev pub same_identity : ConnectionIdentity → ConnectionIdentity → Bool
same_identity a b =
    a.endpoint == b.endpoint
    && a.lane == b.lane
    && a.connection == b.connection
    && a.epoch == b.epoch

-- The fields of a set that its turns read or write, without the buffers that are empty between calls.
pub record ConnectionSet (sel : Selector) (S : Type 0) : Type 0 where
  pub ready_connections_per_turn : ℕ
  pub commands_per_turn : ℕ
  pub poller : sel.poller
  pub poll_events : List (PollEvent sel.readiness)
  pub resources : S
  pub ready : List ResourceToken
  pub commands : sel.mailbox
  pub command_more_pending : Bool
  pub poll_saturated : Bool
  pub stale_backend_events : ℕ
  pub stale_resource_events : ℕ
  pub stale_commands : ℕ
  pub owner_failure : Option OwnerFailure

module _ {env : Environment} where
  unfoldable pub record_mio_failure : MioError → ConnectionSlot env → ConnectionSlot env
  record_mio_failure (system_error source) s =
      record_transport_failure (Diagnostic.from_io TransportFailurePhase.readiness source) s
  record_mio_failure (mio_other code) s = s

module _ {sel : Selector} where
  -- One entry, when the selector has failed.
  unfoldable pub fail_entry : MioError → ConnectionEntry sel → ConnectionEntry sel
  unfolding record_mio_failure
  fail_entry source e = record e {
    slot = latch_owner_failure readiness_failure (record_mio_failure source e.slot);
    ready_queued = false;
  }

module _ (sel : Selector) {S : Type 0}
    ⦃table : ResourceTable S ConnectionIdentity (ConnectionEntry sel)⦄ where
  unfoldable pub fail_entries : MioError → List ResourceToken → S → S
  unfolding fail_entry
  fail_entries source [] s = s
  fail_entries source (t ∷ ts) s = elim (table.get s t) [
    | none ↦ fail_entries source ts s
    | some (identity, e) ↦ fail_entries source ts (table.put s t (fail_entry source e))
  ]

module _ {sel : Selector} {S : Type 0}
    ⦃table : ResourceTable S ConnectionIdentity (ConnectionEntry sel)⦄ where
  unfoldable pub entry :
      ConnectionSet sel S → ConnectionToken → Result (ConnectionEntry sel) ConnectionAccessError
  entry c connection = elim (table.get c.resources connection.resource) [
    | none ↦ err stale_connection
    | some (identity, e) ↦
        if same_identity identity connection.identity then ok e else err stale_connection
  ]

  unfoldable pub enqueue : ResourceToken → ConnectionSet sel S → ConnectionSet sel S
  enqueue resource c = elim (table.get c.resources resource) [
    | none ↦ c
    | some (identity, e) ↦ if e.ready_queued then c else record c {
      resources = table.put c.resources resource (record e { ready_queued = true });
      ready = c.ready ++ resource ∷ [];
    }
  ]

  unfoldable pub ensure_owner_running : ConnectionSet sel S → Result (Unit {0}) EngineError
  ensure_owner_running c = elim c.owner_failure [
    | none ↦ ok tt
    | some reason ↦ err (owner_failed reason)
  ]

  unfoldable pub latch_selector_failure : MioError → ConnectionSet sel S → ConnectionSet sel S
  unfolding fail_entries
  latch_selector_failure source c = elim c.owner_failure [
    | some reason ↦ c
    | none ↦ record c {
      owner_failure = some readiness_failure;
      commands = sel.close c.commands;
      ready = [];
      resources = fail_entries sel source (table.tokens c.resources) c.resources;
    }
  ]

  unfoldable pub latch_readiness_error : EngineError → ConnectionSet sel S → ConnectionSet sel S
  unfolding latch_selector_failure
  latch_readiness_error (mio_error source) c = latch_selector_failure source c
  latch_readiness_error (core_error e) c = c
  latch_readiness_error (invariant_error e) c = c
  latch_readiness_error (owner_failed reason) c = c
