-- ===== src/Witnesses/Sets.antt =====
-- The queue of a set, on a set of one connection.
use bornera.Prelude.{
  ℕ, ◌≡◌, ◌≢◌, refl, Bool, true, false, Option, none, some, List, [], ◌∷◌, length, ◌==◌,
  if◌then◌else◌, ok, Bool-cases, inl, inr, arith,
}
use bornera.Prelude.Search.{find?}
use bornera.Host.Resources.{ResourceToken, ResourceTable}
use bornera.Slot.Limits.{ConnectionIdentity}
use bornera.Slot.Kinds.{mio_error, mio_other, core_failure, failure_of}
use bornera.Sets.State.{
  Selector, ConnectionEntry, ConnectionCommand, resource_event, ConnectionToken, ConnectionSet,
  entry, enqueue, latch_readiness_error,
}
use bornera.Sets.Ready.{enqueue_candidates, drive_ready}
use bornera.Sets.Queue.{IsQueued}
use bornera.Sets.Turns.{ready-IsQueued}
use bornera.Sets.Access.{retire, has_publications}
use bornera.Transport.Diagnostic.{closed}
use bornera.Slot.Recovery.{recover_owned}
use bornera.Sets.Drive.{turn_component, poll_io}
use bornera.Sets.Ingest.{set_turn-IsQueued}
use bornera.Sets.Fencing.{IsStale, departed-IsStale}
use bornera.Witnesses.SlotData.{bytewise, direct, a_slot}

-- A table with room for one value, under token 0.
abbrev get : {K V : Type 0} → Option (K × V) → ResourceToken → Option (K × V)
get s t = if t == 0 then s else none

abbrev put : {K V : Type 0} → Option (K × V) → ResourceToken → V → Option (K × V)
put none t v = none
put (some (k, w)) t v = if t == 0 then some (k, v) else some (k, w)

abbrev remove : {K V : Type 0} → Option (K × V) → ResourceToken → Option (Option (K × V) × V)
remove none t = none
remove (some (k, w)) t = if t == 0 then some (none, w) else none

abbrev tokens : {K V : Type 0} → Option (K × V) → List ResourceToken
tokens none = []
tokens (some e) = 0 ∷ []

module _ {K V : Type 0} where
  get-put-same :
      (s : Option (K × V)) (t : ResourceToken) (k : K) (v v' : V)
      → get s t ≡ some (k, v)
      → get (put s t v') t ≡ some (k, v')
  get-put-same none t k v v' h = absurd (ground arith)
  get-put-same (some (j, w)) t k v v' h = ground arith

  get-put-other :
      (s : Option (K × V)) (t t' : ResourceToken) (v : V) → t ≢ t' → get (put s t v) t' ≡ get s t'
  get-put-other none t t' v h = refl
  get-put-other (some (j, w)) t t' v h = ground arith

  tokens_found :
      (s : Option (K × V)) (t : ResourceToken) (e : K × V)
      → get s t ≡ some e
      → find? (λ t'. t' == t) (tokens s) ≡ some t
  unfolding find?
  tokens_found none t e h = absurd (ground arith)
  tokens_found (some w) t e h = ground arith

  remove-gone :
      (s s' : Option (K × V)) (t : ResourceToken) (v : V)
      → remove s t ≡ some (s', v)
      → get s' t ≡ none
  remove-gone none s' t v h = absurd (ground arith)
  remove-gone (some (j, w)) s' t v h = ground arith

  instance abbrev single : ResourceTable (Option (K × V)) K V
  single = record {
    get = get;
    put = put;
    remove = remove;
    tokens = tokens;
    get_put_same = get-put-same;
    get_put_other = get-put-other;
    tokens_live = tokens_found;
    remove_gone = remove-gone;
  }

abbrev a_selector : Selector
a_selector = record {
  slots = bytewise;
  transport = Bool;
  port = direct;
  interest = Bool;
  same_interest = λ a b. if a then b else (if b then false else true);
  desired_interest = λ t writes. writes;
  poller = ℕ;
  deregister = λ p t r. (p, t, ok tt);
  reregister = λ p t r i. (p, t, ok tt);
  readiness = ℕ;
  observe_readiness = λ t r. t;
  poll = λ p maximum events.
      (p, resource_event 0 3 ∷ [], ok (record { stale = 0; saturated = false; observed = 1 }));
  mailbox = List ConnectionCommand;
  close = λ m. [];
  drain = λ m limit. ([], m, false, length m);
}

abbrev an_entry : ConnectionEntry a_selector
an_entry = record { slot = a_slot; transport = some false; interest = false; ready_queued = false }

abbrev an_identity : ConnectionIdentity
an_identity = record { endpoint = 1; lane = 2; connection = 3; epoch = 7 }

abbrev Stored : Type 0
Stored = Option (ConnectionIdentity × ConnectionEntry a_selector)

abbrev a_set : ConnectionSet a_selector Stored
a_set = record {
  ready_connections_per_turn = 2;
  commands_per_turn = 4;
  poll_events = [];
  command_more_pending = false;
  poll_saturated = true;
  stale_backend_events = 0;
  stale_commands = 0;
  poller = 0;
  resources = some (an_identity, an_entry);
  ready = [];
  commands = ConnectionCommand.close (record { resource = 0; identity = an_identity }) ∷ [];
  stale_resource_events = 0;
  owner_failure = none;
}

a_set-IsQueued : IsQueued a_set
a_set-IsQueued = record {
  once = tt;
  flagged = λ t. elim (Bool-cases (t == 0)) [ inl h ↦ rw h refl | inr h ↦ rw h tt ];
}

ready-IsQueued_example :
    IsQueued (enqueue 0 a_set)
    × IsQueued (enqueue_candidates 10 a_set)
    × IsQueued (drive_ready 10 a_set).0
    × IsQueued (latch_readiness_error (mio_error (mio_other 5)) a_set)
ready-IsQueued_example = ready-IsQueued 10 0 (mio_error (mio_other 5)) a_set a_set-IsQueued

-- The token of the generation before.
abbrev old_token : ConnectionToken
old_token = record { resource = 0; identity = record an_identity { epoch = 6 } }

-- The connection has closed, and its publications are drained.
abbrev an_old_set : ConnectionSet a_selector Stored
an_old_set = record a_set {
  resources = some (
    an_identity,
    record an_entry { slot = record a_slot { transport_state = closed }; transport = none },
  );
}

abbrev a_token : ConnectionToken
a_token = record { resource = 0; identity = an_identity }

retired_run : retire a_token an_old_set ≡ (record an_old_set { resources = none }, ok tt)
unfolding retire entry has_publications failure_of
retired_run = refl

departed-IsStale_example : IsStale a_token (record an_old_set { resources = none })
departed-IsStale_example =
    departed-IsStale an_old_set (record an_old_set { resources = none }) a_token core_failure
      (recover_owned core_failure false a_slot).1 (inl retired_run)

set_turn-IsQueued_example : IsQueued (turn_component 10 a_set).0 × IsQueued (poll_io 5 a_set).0
set_turn-IsQueued_example = set_turn-IsQueued 10 5 a_set a_set-IsQueued
