-- ===== src/Witnesses/SlotData.antt =====
-- A slot with a concrete decoder, batches, timers and transport.
use bornera.Prelude.{
  ℕ, suc, ◌≡◌, refl, subst, Bool, true, false, not, Option, none, some, List, [], ◌∷◌, ◌++◌, length,
  select, replicate, ltb, leb, ◌==◌, if◌then◌else◌, Result, ok, err, arith,
}
use bornera.Host.Queues.{EventBatch, TimerQueue}
use bornera.Identity.{zero_seeds}
use bornera.Transport.Progress.{TransportProgress, IsMade, operation, default_policy}
use bornera.Transport.Pressure.{zero_pressure}
use bornera.Transport.Diagnostic.{connecting, TransportError}
use bornera.Transport.Port.{SlotTransport}
use bornera.Connection.Core.State.{with_identity_seeds}
use bornera.Slot.Limits.{ConnectionSlotLimits}
use bornera.Slot.Kinds.{DeadlineEvent, transport_first, running}
use bornera.Slot.State.{Environment, ConnectionSlot}
use bornera.Slot.Steps.{IsMadeBy}
use bornera.Witnesses.Data.{Budget, calandria, byte_budget, two_limits}

pub record Batch (A : Type 0) : Type 0 where
  pub capacity : ℕ
  pub held : List A

module _ {A : Type 0} where
  abbrev pushed : Batch A → A → Result (Batch A) ℕ
  pushed b a =
      if ltb (length b.held) b.capacity then ok (record b { held = b.held ++ a ∷ [] }) else err 1

  abbrev held_of : Result (Batch A) ℕ → List A → List A
  held_of (ok b) other = b.held
  held_of (err e) other = other

  pub pushed_held : (b b' : Batch A) (a : A) → pushed b a ≡ ok b' → b'.held ≡ b.held ++ a ∷ []
  pushed_held b b' a h =
      let kept : held_of (pushed b a) (b.held ++ a ∷ []) ≡ b.held ++ a ∷ [] = ground arith in
      subst (λ r. held_of r (b.held ++ a ∷ []) ≡ b.held ++ a ∷ []) h kept

  abbrev pub batches : EventBatch (Batch A) A
  batches = record {
    new = λ capacity retained. record { capacity = capacity; held = [] };
    items = λ b. b.held;
    len = λ b. length b.held;
    try_push = pushed;
    drain = λ b. record b { held = [] };
    items_new = λ count retained. refl;
    len_lem = λ b. refl;
    items_push = pushed_held;
    items_drain = λ b. refl;
  }

-- Timers by deadline: the token, the deadline and the event of each.
abbrev pub Timers : Type 0
Timers = ℕ × List (ℕ × ℕ × DeadlineEvent)

abbrev insert : ℕ × ℕ × DeadlineEvent → List (ℕ × ℕ × DeadlineEvent) → List (ℕ × ℕ × DeadlineEvent)
insert e [] = e ∷ []
insert e (x ∷ xs) = let rest = x ∷ insert e xs in if ltb e.1 x.1 then e ∷ x ∷ xs else rest

abbrev first_deadline : Timers → Option ℕ
first_deadline (n, []) = none
first_deadline (n, e ∷ es) = some e.1

abbrev pop_first : Timers → ℕ → Option (Timers × ℕ × DeadlineEvent)
pop_first (n, []) now = none
pop_first (n, e ∷ es) now = if leb e.1 now then some ((n, es), e.0, e.2) else none

abbrev pub timer_queue : TimerQueue Timers DeadlineEvent
timer_queue = record {
  new = λ owner capacity. (0, []);
  len = λ q. length q.1;
  next_deadline = first_deadline;
  schedule = λ q deadline event. ok ((suc q.0, insert (q.0, deadline, event) q.1), q.0);
  pop_due = pop_first;
  cancel = λ q token. (q.0, select (λ e. not (e.0 == token)) q.1);
}

abbrev first_byte : List ℕ → List ℕ × Result (Option ℕ) ℕ
first_byte [] = ([], ok none)
first_byte (b ∷ bs) = (bs, ok (some b))

-- A protocol whose frames are single bytes, each its own key.
abbrev pub bytewise : Environment
bytewise = record {
  decoder_state = List ℕ;
  frame = ℕ;
  decode_error = ℕ;
  classifier_state = ℕ;
  timer_queue = Timers;
  outcome_batch = Batch _;
  event_batch = Batch _;
  byte_budget = Budget;
  host = calandria;
  budgets = byte_budget;
  timers = timer_queue;
  outcomes = batches;
  events = batches;
  adapter = record {
    feed = λ d bytes. (d ++ bytes, ok tt);
    next_frame = first_byte;
    retained_bytes = length;
  };
  retained_bytes = λ f. 1;
  reply_key = λ c f. (c, some f);
  debug_assertions = true;
}

-- A transport that is established by one operation, and then takes every write.
instance abbrev pub direct : SlotTransport Bool
direct = record {
  drive_establishment = λ t policy budget. (true, ok operation);
  drive_transport = λ t budget. (t, ok operation);
  begin_shutdown = λ t budget. (false, ok operation);
  can_establish = λ t. not t;
  has_transport_work = λ t. false;
  is_shutdown_complete = λ t. not t;
  is_open = λ t. t;
  can_read = λ t. false;
  can_write = λ t. true;
  pressure = λ t. zero_pressure;
  pressure_limit = λ t. 0;
  clear_read = λ t. t;
  clear_write = λ t. t;
  read = λ t slice. (t, slice, ok 0);
  write = λ t bytes. (t, ok (length bytes));
}

abbrev MadeOf : Result TransportProgress TransportError → Type 0
MadeOf (ok p) = IsMade p
MadeOf (err e) = Unit

pub operation-IsMade :
    (p : TransportProgress)
    → ◌≡◌ {A = Result TransportProgress TransportError} (ok operation) (ok p)
    → IsMade p
operation-IsMade p h = subst MadeOf h (λ _. omega arith)

pub direct-IsMadeBy : IsMadeBy direct
direct-IsMadeBy = (
  λ t policy budget p h. operation-IsMade p h,
  λ t budget p h. operation-IsMade p h,
  λ t budget p h. operation-IsMade p h,
)

abbrev pub slot_limits : ConnectionSlotLimits
slot_limits = record {
  connection = two_limits;
  decoder = record { buffered_bytes = 16; reply_bytes = 4 };
  io = record { operations = 3; chunk_bytes = 8 };
  transport = record { retained_bytes = 64 };
  publication = record { lifecycle_events = 4 };
  outcome_bytes = 8;
  operation_capacity = 2;
}

abbrev pub a_slot : ConnectionSlot bytewise
a_slot = record {
  core = with_identity_seeds ⦃lib = byte_budget⦄ 1 2 3 7 two_limits zero_seeds 5;
  decoder = record { decoder = []; max_retained_bytes = 16; failed = false };
  classifier = 0;
  limits = slot_limits;
  connect_deadline = 100;
  socket_policy = default_policy;
  timers = (0, []);
  deadlines = [];
  outcomes = record { capacity = 2; held = [] };
  lifecycle = record { capacity = 4; held = [] };
  recovery_outcomes = record { capacity = 2; held = [] };
  recovery_events = record { capacity = 4; held = [] };
  event_sequence = 0;
  read_buffer = replicate 8 0;
  decoder_pending = false;
  io_preference = transport_first;
  transport_state = connecting;
  transport_diagnostic = none;
  transport_pressure = none;
  transport_retained_limit = none;
  transport_contract_diverged = false;
  drain_deadline = none;
  close_request = none;
  state = running;
}
