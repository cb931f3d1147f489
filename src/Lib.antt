-- ===== src/Lib.antt =====
-- Bornera: a runtime-free owner of connections to remote peers. This library models its core, the
-- crate crates/bornera-core, and the slot that drives it, of the crate crates/bornera, and states what
-- makes them correct.
--
-- The core owns one connection epoch at a time. The policy (`ConnectionMachine`) admits operations
-- against bounds, gives each an identity and a match key, follows it from `queued` over `writing` and
-- `awaiting_reply` to its outcome, and answers every input with effects. The writer (`WriteQueue`)
-- owns the frames in wire order and confirms exact byte progress. The owner (`ConnectionCore`) joins
-- both: it carries the policy's discards out on the writer, audits that the two agree, latches the
-- first failure, and keeps a journal from which `recover` returns what it held. The frame driver
-- (`FrameDriver`) bounds what a protocol's decoder retains of the inbound stream. A slot
-- (`ConnectionSlot`) joins a core, a decoder, timers and batches of publications with a transport: it
-- is driven in quanta of bounded work, carries out the core's effects, and latches its first failure.
-- A set (`ConnectionSet`) keeps slots under tokens, settles them, and gives the ready ones their turns.
--
-- Files, and the code below crates/bornera-core/src/ that they model:
--   Identity, Identity/Generator     identity.rs
--   Limits, Limits/KeySpace          limits.rs, write/limits.rs
--   Admission/Options                admission/gate.rs, admission/options.rs, admission/error.rs
--   Admission/KeySet                 admission/key_set.rs, the open-addressing set of match keys
--   Admission/Ledger                 admission/ledger.rs
--   Operation                        delivery.rs, operation/, `CloseReason` of connection/effect.rs
--   Matching, Matching/Laws          matching/ordered_verified.rs
--   Framing, Framing/Bounds          framing/
--   Write/Frame, Write/Budget        write/frame.rs, error.rs, queued.rs, state.rs, accounting.rs
--   Write/Queue, Front, Admit,       write/queue.rs, admission.rs, integrity.rs
--     Progress, Audit
--   Write/Validity                   the writer's invariant and each operation's theorems
--   Write/Stream, Transmission       the writer as a byte stream, and a transport that drives it
--   Connection/Effect, Machine       connection/effect.rs, input.rs, transition.rs, machine.rs, close.rs
--   Connection/Permit                connection/reserve.rs, commit.rs, admission/permit.rs
--   Connection/Drive                 connection/drive.rs, cancellation.rs, deadline.rs, lifecycle.rs,
--                                    response.rs
--   Connection/Journal               connection/journal.rs
--   Connection/Core                  connection/core.rs, core_error.rs, integrity.rs, progress.rs,
--                                    recovery.rs, recovery_item.rs
--   Connection/Settlement,           the policy's theorems: settlement, its invariant, epoch fencing, and
--     Soundness, Fencing, History,   sequences of calls, the bounds of the ledger, and the failures of
--     Epochs, Bounds,                the owner and of the frame driver
--     Admission/Bounds, Core/Latch,
--     Core/Held, Core/Final, and
--     Framing/Latch
--
-- and below crates/bornera/src/:
--   Transport                        transport/ without TCP, snapshot.rs, socket.rs
--   Slot/Limits, Frame               config/identity.rs, config/slot_limits.rs, frame.rs
--   Slot/Kinds, State                slot.rs, state.rs, error.rs, event.rs, outcome.rs
--   Slot/Events, Transition, Failure lifecycle.rs, transition.rs, failure.rs
--   Slot/Control, Admission, Close   control.rs, admission.rs, slot_close.rs
--   Slot/Deadlines, Pressure,        drive/deadline.rs, pressure.rs, application.rs, transport.rs,
--     Application, Establish,        shutdown.rs, slot.rs
--     Shutdown, Quantum
--   Slot/Recovery                    recovery.rs, its report and `ConnectionSlot::recover_owned`
--   Slot/Steady, Latch, Refusal,      what every step of a slot keeps, its latch, its events' numbers,
--     Numbers, Outcomes              and what reaches its outcomes
--   Sets/State, Settle, Ready        set.rs, token.rs, set_failure.rs, set_settle.rs, set_drive/ready.rs
--   Sets/Drive                       set_drive.rs, command.rs, the polls of set.rs and set_failure.rs
--   Sets/Access, Recovery            set_access.rs, set_recovery.rs, connection_error.rs
--   Sets/Queue, Turns, Ingest,       the queue of a set and its flags, and tokens of another generation
--     Fencing
--   Slot/Steps, Bounds, Rounds, Work the work of a quantum and the ends of its loops
--
-- and for all:
--   Prelude                          shared names, tests, lists, searches and weighted sums
--   Host                             the operations of `calandria` and `bytebudget` that they call
--   Witnesses                        the theorems at concrete inputs
--
-- A method on `&mut self` is a function from the state to the state and the result, with the source's
-- names. A handler of the policy is `Outcome`: the machine and the transition. An operation of the
-- owner is `Op`: the owner, and a value or a failure. The ledger that permits share through
-- `Rc<RefCell<_>>` is a field of the machine; `ledger_id` names the allocation. `debug_assertions` is a
-- Boolean argument. A frame behind the trait `WriteFrame` may change between calls, so a call that
-- looks at frames takes the view of that moment. A decoder is a record of its three operations.
-- An operation of a slot is `Run`: the slot, alone or beside its transport, and a value or a failure.
-- What a slot takes from elsewhere is its `Environment`; the trait `SlotTransport` is a record of
-- operations on an explicit state, and a slot without a transport has `none`. A set takes the selector,
-- the registered transport and the mailbox as a `Selector`, and its table as a `ResourceTable`.
--
-- Numbers are natural numbers. `usize` has 64 bits: `checked_add` of progress is bounded by 2 ^ 64,
-- and `RetainedBytes` is bounded by `calandria`, whose operations are the parameter `Calandria`; the
-- budget is the parameter `ByteBudget`. Both carry as laws what a call that fits and a call that does
-- not fit return. Loops over slots run over their number; the doubling of `checked_next_power_of_two`
-- runs 64 rounds, one for each bit; the recovery of one wire index runs as many rounds as the journal
-- has slots, each of which empties one. The deadlines of a quantum run over its budget. Its I/O and its
-- shutdown run on fuel, as many rounds as the budget, which is enough because a round does some work or
-- ends its loop.
--
-- Not modelled: formatting and `Error` implementations, the accessors and the snapshots, whose fields
-- are those of the records; of a set, its construction and its drop, the connection of new entries and
-- the ports that send it commands; the standalone connection and the TCP transport; the crates
-- crates/bornera-rustls and crates/bornera-sim; tests, benches, examples and scripts.
pub mod Prelude
pub mod Host
pub mod Identity
pub mod Limits
pub mod Admission
pub mod Operation
pub mod Framing
pub mod Matching
pub mod Write
pub mod Connection
pub mod Transport
pub mod Slot
pub mod Sets
pub mod Witnesses
