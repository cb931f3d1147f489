-- ===== src/Slot/Quantum.antt =====
-- crates/bornera/src/drive/slot.rs: one quantum of a slot, under its bound on operations. The two loops
-- run on fuel, as many rounds as the budget: each round of them does some work or ends its loop.
use bornera.Prelude.{
  ℕ, zero, suc, ◌+◌, ◌-◌, Bool, true, false, not, ◌&&◌, ◌||◌, Option, none, some, is_some, ltb,
  ◌==◌, if◌then◌else◌, ok, err,
}
use bornera.Admission.Options.{Moment}
use bornera.Transport.Port.{SlotTransport}
use bornera.Slot.Kinds.{IoPreference, transport_first, decode_first, read_first, write_first, next}
use bornera.Slot.State.{
  Environment, ConnectionSlot, Run, ◌>>=◌, ◌>>◌, return, lift, ensure_running, latch_failure,
}
use bornera.Slot.Control.{is_transport_open}
use bornera.Slot.Admission.{saturating_add}
use bornera.Slot.Deadlines.{drive_deadlines, has_due_deadline}
use bornera.Slot.Pressure.{capture_transport_pressure}
use bornera.Slot.Application.{
  drive_decoder_once, drive_read_once, drive_write_once, has_runnable_io,
}
use bornera.Slot.Establish.{drive_transport_once}
use bornera.Slot.Shutdown.{drive_shutdown_once, has_runnable_shutdown}

pub record SlotProgress : Type 0 where
  pub work : ℕ
  pub saturated : Bool

-- `progressed.map(|()| 1)`
abbrev pub one_step : Option (Unit {0}) → Option ℕ
one_step none = none
one_step (some _) = some 1

module _ {env : Environment} {T : Type 0} ⦃port : SlotTransport T⦄ where
  -- The step that the preference names, if it can be made.
  unfoldable pub preferred_step : IoPreference → ℕ → Run (ConnectionSlot env × T) (Option ℕ)
  preferred_step transport_first remaining st = drive_transport_once remaining st
  preferred_step decode_first remaining (s, transport) =
      if s.decoder_pending
      then (do lift drive_decoder_once; return (some 1)) (s, transport)
      else ((s, transport), ok none)
  preferred_step read_first remaining (s, transport) =
      if is_transport_open s
      then (do progressed ← drive_read_once; return (one_step progressed)) (s, transport)
      else ((s, transport), ok none)
  preferred_step write_first remaining (s, transport) =
      if is_transport_open s
      then (do progressed ← drive_write_once; return (one_step progressed)) (s, transport)
      else ((s, transport), ok none)

  -- The step, and after it the pressure of the transport; a failure of the step comes first.
  unfoldable pub watched_step : IoPreference → ℕ → Run (ConnectionSlot env × T) (Option ℕ)
  unfolding preferred_step
  watched_step current remaining st =
      let stepped = preferred_step current remaining st in
      let captured = capture_transport_pressure stepped.0.1 stepped.0.0 in
      (
        (captured.0, stepped.0.1),
        elim (stepped.1) [
          | err e ↦ err e
          | ok progressed ↦ elim (captured.1) [ err e ↦ err e | ok _ ↦ ok progressed ]
        ],
      )

  -- As many preferences as are left, from one on.
  unfoldable pub ready_from : ℕ → IoPreference → ℕ → Run (ConnectionSlot env × T) (Option ℕ)
  unfolding watched_step
  ready_from zero preference remaining = return none
  ready_from (suc n) preference remaining = do
    progressed ← watched_step preference remaining
    elim progressed [
      | none ↦ ready_from n (next preference) remaining
      | some work ↦
          λ st. ((record (st.0) { io_preference = next preference }, st.1), ok (some work))
    ]

  unfoldable pub drive_ready_once : ℕ → Run (ConnectionSlot env × T) (Option ℕ)
  unfolding ready_from
  drive_ready_once remaining st = ready_from 4 (st.0).io_preference remaining st

  -- `Option<&mut T>`: the slot may have no transport.
  unfoldable pub io_round : ℕ → Run (ConnectionSlot env × Option T) (Option ℕ)
  unfolding drive_ready_once
  io_round remaining (s, some transport) =
      let r = drive_ready_once remaining (s, transport) in ((r.0.0, some r.0.1), r.1)
  io_round remaining (s, none) =
      let decoded = drive_decoder_once s in
      if s.decoder_pending
      then (elim (decoded.1) [
        | err e ↦ ((decoded.0, none), err e)
        | ok _ ↦ ((record (decoded.0) { io_preference = read_first }, none), ok (some 1))
      ])
      else ((s, none), ok none)

  unfoldable pub io_rounds : ℕ → ℕ → ℕ → Run (ConnectionSlot env × Option T) ℕ
  unfolding io_round
  io_rounds zero budget work = return work
  io_rounds (suc fuel) budget work = λ st.
      elim (ltb work budget && not (is_some (st.0).close_request)) [
        | false ↦ (st, ok work)
        | true ↦
            (do
              progressed ← io_round (budget - work)
              elim progressed [
                | none ↦ return work
                | some more ↦ io_rounds fuel budget (work + more)
              ])
              st
      ]

  abbrev pub on_transport : (T → ConnectionSlot env → Bool) → ConnectionSlot env × Option T → Bool
  on_transport test (s, none) = false
  on_transport test (s, some transport) = test transport s

  abbrev pub io_report : ℕ → ℕ → Run (ConnectionSlot env × Option T) SlotProgress
  io_report budget work st = (
    st,
    ok (record {
      work = work;
      saturated =
          work == budget
          && not (is_some (st.0).close_request)
          && ((st.0).decoder_pending || on_transport has_runnable_io st);
    }),
  )

  unfoldable pub drive_io : ℕ → Run (ConnectionSlot env × Option T) SlotProgress
  unfolding io_rounds
  drive_io budget = do work ← io_rounds budget budget 0; io_report budget work

  unfoldable pub close_round : Moment → ℕ → Run (ConnectionSlot env × Option T) (Option ℕ)
  close_round now remaining (s, none) = ((s, none), ok none)
  close_round now remaining (s, some transport) =
      let r = drive_shutdown_once now remaining (s, transport) in ((r.0.0, some r.0.1), r.1)

  unfoldable pub close_rounds : ℕ → Moment → ℕ → ℕ → Run (ConnectionSlot env × Option T) ℕ
  unfolding close_round
  close_rounds zero now budget work = return work
  close_rounds (suc fuel) now budget work = λ st. elim (ltb work budget) [
    | false ↦ (st, ok work)
    | true ↦
        (do
          progressed ← close_round now (budget - work)
          elim progressed [
            | none ↦ return work
            | some more ↦ close_rounds fuel now budget (saturating_add work more)
          ])
          st
  ]

  abbrev pub close_report : Moment → ℕ → ℕ → Run (ConnectionSlot env × Option T) SlotProgress
  close_report now budget work st = (
    st,
    ok (record {
      work = work;
      saturated = work == budget && on_transport (has_runnable_shutdown now) st;
    }),
  )

  unfoldable pub drive_close_quantum :
      Moment → ℕ → ℕ → Run (ConnectionSlot env × Option T) SlotProgress
  unfolding close_rounds
  drive_close_quantum now budget work = do
    done ← close_rounds budget now budget work
    close_report now budget done

  unfoldable pub capture_first : Run (ConnectionSlot env × Option T) (Unit {0})
  capture_first (s, none) = ((s, none), ok tt)
  capture_first (s, some transport) =
      lift (capture_transport_pressure transport) (s, some transport)

  -- The deadlines, unless the slot is closing already.
  unfoldable pub deadlines_first : Moment → ℕ → Run (ConnectionSlot env × Option T) ℕ
  deadlines_first now budget st =
      if is_some (st.0).close_request then (st, ok 0) else lift (drive_deadlines now budget) st

  -- What follows the I/O: a slot that is closing now goes on with its shutdown.
  unfoldable pub after_io :
      Moment → ℕ → ℕ → SlotProgress → Run (ConnectionSlot env × Option T) SlotProgress
  unfolding drive_close_quantum
  after_io now budget work io st =
      let total = saturating_add work io.work in
      let closing = drive_close_quantum now budget total st in
      if is_some (st.0).close_request
      then closing
      else (st, ok (record { work = total; saturated = io.saturated }))

  -- What follows the deadlines, on a slot that is not closing.
  unfoldable pub drive_open_quantum :
      Moment → ℕ → ℕ → Run (ConnectionSlot env × Option T) SlotProgress
  unfolding drive_io after_io
  drive_open_quantum now budget work st =
      let driven = (do io ← drive_io (budget - work); after_io now budget work io) st in
      if work == budget
      then (
        st,
        ok (record {
          work = work;
          saturated =
              has_due_deadline now st.0
              || (st.0).decoder_pending
              || on_transport has_runnable_io st;
        }),
      )
      else driven

  unfoldable pub after_deadlines : Moment → ℕ → ℕ → Run (ConnectionSlot env × Option T) SlotProgress
  unfolding drive_open_quantum drive_close_quantum
  after_deadlines now budget work st =
      let closing = drive_close_quantum now budget work st in
      let driven = drive_open_quantum now budget work st in
      if is_some (st.0).close_request then closing else driven

  unfoldable pub drive_quantum_inner : Moment → Run (ConnectionSlot env × Option T) SlotProgress
  unfolding capture_first deadlines_first after_deadlines
  drive_quantum_inner now st =
      let budget = (st.0).limits.io.operations in
      (do capture_first; work ← deadlines_first now budget; after_deadlines now budget work) st

  unfoldable pub drive_quantum : Moment → Run (ConnectionSlot env × Option T) SlotProgress
  unfolding drive_quantum_inner ensure_running latch_failure
  drive_quantum now (s, transport) =
      let r = drive_quantum_inner now (s, transport) in
      let checked = ensure_running s in
      elim (checked.1) [
        | err e ↦ ((s, transport), err e)
        | ok _ ↦ ((elim (r.1) [ ok a ↦ r.0.0 | err e ↦ latch_failure e r.0.0 ], r.0.1), r.1)
      ]
