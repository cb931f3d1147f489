-- ===== src/Slot/Deadlines.antt =====
-- crates/bornera/src/drive/deadline.rs: the connect, the drain and the operations' deadlines.
use bornera.Prelude.{
  ℕ, zero, suc, ◌+◌, Bool, true, false, not, ◌&&◌, ◌||◌, Option, none, some, is_some, leb, ◌==◌,
  if◌then◌else◌, ok,
}
use bornera.Prelude.Search.{position}
use bornera.Host.Queues.{TimerToken}
use bornera.Admission.Options.{Deadline, Moment}
use bornera.Operation.{requested, connect_timed_out}
use bornera.Transport.Diagnostic
use bornera.Transport.Diagnostic.{ErrorKind, TransportFailurePhase, TransportFailureKind}
use bornera.Connection.Effect.{ConnectionInput}
use bornera.Slot.Kinds.{DeadlineEvent}
use bornera.Slot.State.{Environment, ConnectionSlot, Run, ◌>>=◌, ◌>>◌, return}
use bornera.Slot.Transition.{interpret_unit, swap_remove}
use bornera.Slot.Failure.{apply, close_for}
use bornera.Slot.Control.{is_connecting, record_transport_failure}

-- How one round of the loop ends: `break` without work, `break` after it, or the next round.
pub data Round : Type 0 where
  no_work last_work more_work : Round

-- `deadline.is_none_or(|deadline| first <= deadline)`
abbrev pub is_no_later : Deadline → Option Deadline → Bool
is_no_later first none = true
is_no_later first (some deadline) = leb first deadline

module _ {env : Environment} where
  unfoldable pub drain_is_first : Moment → ConnectionSlot env → Bool
  drain_is_first now s = elim s.drain_deadline [
    | none ↦ false
    | some deadline ↦
        env.host.is_elapsed_at deadline now
        && is_no_later deadline (env.timers.next_deadline s.timers)
        && (not (is_connecting s) || leb deadline s.connect_deadline)
  ]

  unfoldable pub connect_is_first : Moment → ConnectionSlot env → Bool
  connect_is_first now s =
      is_connecting s
      && env.host.is_elapsed_at s.connect_deadline now
      && is_no_later s.connect_deadline (env.timers.next_deadline s.timers)

  -- The drain's deadline has passed: the failure is noted, and the epoch is closed.
  unfoldable pub drain_timed_out : Run (ConnectionSlot env) (Unit {0})
  drain_timed_out s =
      let noted =
        record_transport_failure
          (Diagnostic.new TransportFailurePhase.shutdown TransportFailureKind.timed_out
            ErrorKind.timed_out none)
          s in
      close_for requested (record noted { drain_deadline = none })

  -- The entry of a timer that has fired leaves the index.
  unfoldable pub drop_token : TimerToken → ConnectionSlot env → ConnectionSlot env
  unfolding swap_remove
  drop_token token s = record s {
    deadlines = elim (position (λ entry. entry.token == token) s.deadlines) [
      | none ↦ s.deadlines
      | some index ↦ swap_remove index s.deadlines
    ];
  }

  -- One due timer of an operation.
  unfoldable pub deadline_elapsed :
      Moment → TimerToken → DeadlineEvent → Run (ConnectionSlot env) Round
  unfolding drop_token
  deadline_elapsed now token event s =
      (do
        t ← apply (ConnectionInput.deadline_elapsed event.epoch event.operation now)
        interpret_unit t
        λ s'. (s', ok (if is_some s'.close_request then last_work else more_work)))
        (drop_token token s)

  unfoldable pub deadline_round : Moment → Run (ConnectionSlot env) Round
  unfolding drain_timed_out deadline_elapsed
  deadline_round now s =
      let drained = (do drain_timed_out; return last_work) s in
      let timed_out = (do close_for connect_timed_out; return last_work) s in
      if drain_is_first now s
      then drained
      else (if connect_is_first now s then timed_out else (elim (env.timers.pop_due s.timers now) [
        | none ↦ (s, ok no_work)
        | some (timers, token, event) ↦
            deadline_elapsed now token event (record s { timers = timers })
      ]))

  -- The rounds that are left of the budget, after some work.
  unfoldable pub deadline_rounds : Moment → ℕ → ℕ → Run (ConnectionSlot env) ℕ
  unfolding deadline_round
  deadline_rounds now work zero = return work
  deadline_rounds now work (suc left) = do
    round ← deadline_round now
    elim round [
      | no_work ↦ return work
      | last_work ↦ return (work + 1)
      | more_work ↦ deadline_rounds now (work + 1) left
    ]

  unfoldable pub drive_deadlines : Moment → ℕ → Run (ConnectionSlot env) ℕ
  unfolding deadline_rounds
  drive_deadlines now budget = deadline_rounds now 0 budget

  unfoldable pub has_due_deadline : Moment → ConnectionSlot env → Bool
  has_due_deadline now s =
      let elapsed : Option Deadline → Bool =
        λ deadline. elim deadline [ none ↦ false | some d ↦ env.host.is_elapsed_at d now ] in
      (is_connecting s && env.host.is_elapsed_at s.connect_deadline now)
      || elapsed s.drain_deadline
      || elapsed (env.timers.next_deadline s.timers)
