-- ===== src/Slot/Steps.antt =====
-- crates/bornera/src/drive/: how much work one step of a quantum reports. A step that drives the transport
-- has a budget of one operation.
use bornera.Prelude.{
  ℕ, zero, suc, ◌≤◌, ◌≡◌, refl, subst, ap, ◌∙◌, Bool, true, false, ◌&&◌, Option, none, some, Result,
  ok, err, Result-cases, Option-cases, inl, inr, arith, ◌==◌, if◌then◌else◌,
}
use bornera.Operation.{connect_failed, transport_lost}
use bornera.Transport.Port.{SlotTransport}
use bornera.Transport.Progress.{
  TcpSocketPolicy, TransportBudget, TransportProgress, fits, is_idle, IsMade,
}
use bornera.Transport.Diagnostic.{TransportError}
use bornera.Slot.Kinds.{
  EngineError, IoPreference, transport_first, decode_first, read_first, write_first, next,
}
use bornera.Slot.State.{Environment, ConnectionSlot, Run, ◌>>=◌, ◌>>◌, return, lift}
use bornera.Slot.Failure.{close_for}
use bornera.Slot.Control.{is_connecting, is_transport_open, record_transport_failure}
use bornera.Slot.Pressure.{capture_transport_pressure}
use bornera.Slot.Application.{drive_decoder_once, drive_read_once, drive_write_once}
use bornera.Slot.Establish.{
  validate_transport_progress, transport_budget, fail_transport, note_opened, establish,
  work_transport, drive_transport_once,
}
use bornera.Slot.Quantum.{
  one_step, preferred_step, watched_step, ready_from, drive_ready_once, io_round,
}

-- What the constructors of `TransportProgress` see to: work that is not idle has an operation.
abbrev pub IsMadeBy : {T : Type 0} → SlotTransport T → Type 0
IsMadeBy {T = T} port =
    ((t : T) (policy : TcpSocketPolicy) (budget : TransportBudget) (p : TransportProgress)
      → (port.drive_establishment t policy budget).1 ≡ ok p
      → IsMade p)
    × ((t : T) (budget : TransportBudget) (p : TransportProgress)
        → (port.drive_transport t budget).1 ≡ ok p
        → IsMade p)
    × ((t : T) (budget : TransportBudget) (p : TransportProgress)
        → (port.begin_shutdown t budget).1 ≡ ok p
        → IsMade p)

-- One unit of work at most, and one at least if `made` holds.
abbrev pub IsUnit : Type 0 → ℕ → Type 0
IsUnit made work = (work ≤ 1) × (made → 1 ≤ work)

abbrev pub IsStep : Type 0 → Result (Option ℕ) EngineError → Type 0
IsStep made (ok none) = Unit
IsStep made (ok (some work)) = IsUnit made work
IsStep made (err e) = Unit

pub one-IsUnit : (made : Type 0) → IsUnit made 1
one-IsUnit made = (omega arith, λ _. omega arith)

-- Progress that has been validated for one operation.
validated :
    (budget : TransportBudget) (p : TransportProgress)
    → budget.operations ≡ 1
    → validate_transport_progress budget p ≡ ok tt
    → (p.operations ≤ 1) × (is_idle p ≡ false)
unfolding validate_transport_progress fits
validated budget p h e = (ground arith, ground arith)

module _ {S : Type 0} (made : Type 0) where
  abbrev pub Steps : Run S (Option ℕ) → Type 0
  Steps m = (s : S) → IsStep made (m s).1

  pub >>=-Steps :
      {A : Type 0} (m : Run S A) (f : A → Run S (Option ℕ))
      → ((a : A) → Steps (f a))
      → Steps (m >>= f)
  >>=-Steps m f h s = elim (Result-cases (m s).1) [
    | inl (a, e) ↦ rw (e, ◌>>=◌, IsStep) (h a (m s).0)
    | inr (failure, e) ↦ rw (e, ◌>>=◌) tt
  ]

  pub one-Steps : (m : Run S (Unit {0})) → Steps (do m; return (some 1))
  one-Steps m = >>=-Steps m (λ _. return (some 1)) (λ _ s. one-IsUnit made)

  pub if-Step :
      (b : Bool) (x y : S × Result (Option ℕ) EngineError)
      → IsStep made x.1
      → IsStep made y.1
      → IsStep made (if b then x else y).1
  if-Step true x y hx hy = hx
  if-Step false x y hx hy = hy

one_step-IsStep :
    {S : Type 0} (made : Type 0) (progressed : Option (Unit {0}))
    → Steps {S = S} made (return (one_step progressed))
one_step-IsStep made none s = tt
one_step-IsStep made (some _) s = one-IsUnit made

module _ {env : Environment} {T : Type 0} ⦃port : SlotTransport T⦄ where
  pub operations-IsUnit :
      (s : ConnectionSlot env) (p : TransportProgress)
      → validate_transport_progress (transport_budget s) p ≡ ok tt
      → (IsMadeBy port → IsMade p)
      → IsUnit (IsMadeBy port) p.operations
  unfolding transport_budget
  operations-IsUnit s p e h =
      let bound : (p.operations ≤ 1) × (is_idle p ≡ false) =
        validated (transport_budget s) p refl e in
      (bound.0, λ made. h made bound.1)

  establish-Steps : Steps (IsMadeBy port) (establish {env = env} {T = T})
  unfolding establish fail_transport
  establish-Steps (s, transport) =
      let budget : TransportBudget = transport_budget s in
      let driven : T × Result TransportProgress TransportError =
        port.drive_establishment transport s.socket_policy budget in
      elim (Result-cases driven.1) [
        | inr (e, h) ↦
            rw (h, establish, IsStep)
              (one-Steps (IsMadeBy port) (close_for connect_failed)
                (record_transport_failure e.diagnostic s))
        | inl (p, h) ↦ elim (Result-cases (validate_transport_progress budget p)) [
          | inr (e, h') ↦ rw (h, h', establish) tt
          | inl (tt, h') ↦
              rw (h, h', establish, IsStep)
                (>>=-Steps (IsMadeBy port) note_opened (λ _. return (some p.operations))
                  (λ _ st.
                    operations-IsUnit s p h' (λ made. made.0 transport s.socket_policy budget p h))
                  (s, driven.0))
        ]
      ]

  work_transport-Steps : Steps (IsMadeBy port) (work_transport {env = env} {T = T})
  unfolding work_transport fail_transport
  work_transport-Steps (s, transport) =
      let budget : TransportBudget = transport_budget s in
      let driven : T × Result TransportProgress TransportError =
        port.drive_transport transport budget in
      elim (Result-cases driven.1) [
        | inr (e, h) ↦
            rw (h, work_transport, IsStep)
              (one-Steps (IsMadeBy port) (close_for transport_lost)
                (record_transport_failure e.diagnostic s))
        | inl (p, h) ↦ elim (Result-cases (validate_transport_progress budget p)) [
          | inr (e, h') ↦ rw (h, h', work_transport) tt
          | inl (tt, h') ↦
              rw (h, h', work_transport)
                (operations-IsUnit s p h' (λ made. made.1 transport budget p h))
        ]
      ]

  drive_transport_once-Steps :
      (remaining : ℕ) → Steps (IsMadeBy port) (drive_transport_once {env = env} {T = T} remaining)
  unfolding drive_transport_once
  drive_transport_once-Steps remaining (s, transport) =
      let made : Type 0 = IsMadeBy port in
      if-Step made (is_connecting s && port.is_open transport) _ _ tt (
        if-Step made (remaining == 0) _ _ tt (
          if-Step made (is_connecting s) _ _
            (if-Step made (port.can_establish transport) _ _ (establish-Steps (s, transport)) tt)
            (if-Step made (port.has_transport_work transport) _ _
              (work_transport-Steps (s, transport)) tt)))

  one_step-Steps :
      (m : Run (ConnectionSlot env × T) (Option (Unit {0})))
      → Steps (IsMadeBy port) (do progressed ← m; return (one_step progressed))
  one_step-Steps m =
      >>=-Steps (IsMadeBy port) m (λ p. return (one_step p)) (one_step-IsStep (IsMadeBy port))

  preferred_step-Steps :
      (current : IoPreference) (remaining : ℕ)
      → Steps (IsMadeBy port) (preferred_step {env = env} {T = T} current remaining)
  unfolding preferred_step
  preferred_step-Steps transport_first remaining (s, transport) =
      drive_transport_once-Steps remaining (s, transport)
  preferred_step-Steps decode_first remaining (s, transport) =
      if-Step (IsMadeBy port) s.decoder_pending _ _
        (one-Steps (IsMadeBy port) (lift drive_decoder_once) (s, transport)) tt
  preferred_step-Steps read_first remaining (s, transport) =
      if-Step (IsMadeBy port) (is_transport_open s) _ _
        (one_step-Steps drive_read_once (s, transport)) tt
  preferred_step-Steps write_first remaining (s, transport) =
      if-Step (IsMadeBy port) (is_transport_open s) _ _
        (one_step-Steps drive_write_once (s, transport)) tt

  watched_step-Steps :
      (current : IoPreference) (remaining : ℕ)
      → Steps (IsMadeBy port) (watched_step {env = env} {T = T} current remaining)
  unfolding watched_step
  watched_step-Steps current remaining st =
      let stepped : (ConnectionSlot env × T) × Result (Option ℕ) EngineError =
        preferred_step current remaining st in
      let captured : ConnectionSlot env × Result (Unit {0}) EngineError =
        capture_transport_pressure stepped.0.1 stepped.0.0 in
      let step : IsStep (IsMadeBy port) stepped.1 = preferred_step-Steps current remaining st in
      elim (Result-cases stepped.1) [
        | inr (e, h) ↦ rw (h, watched_step) tt
        | inl (progressed, h) ↦ elim (Result-cases captured.1) [
          | inr (e, h') ↦ rw (h, h', watched_step) tt
          | inl (_, h') ↦ rw (h, h', watched_step, IsStep) (subst (IsStep (IsMadeBy port)) h step)
        ]
      ]

  ready_from-Steps :
      (n : ℕ) (preference : IoPreference) (remaining : ℕ)
      → Steps (IsMadeBy port) (ready_from {env = env} {T = T} n preference remaining)
  unfolding ready_from
  ready_from-Steps zero preference remaining st = tt
  ready_from-Steps (suc n) preference remaining st =
      let stepped : (ConnectionSlot env × T) × Result (Option ℕ) EngineError =
        watched_step preference remaining st in
      let step : IsStep (IsMadeBy port) stepped.1 = watched_step-Steps preference remaining st in
      elim (Result-cases stepped.1) [
        | inr (e, h) ↦ rw (h, ready_from, ◌>>=◌) tt
        | inl (progressed, h) ↦ elim (Option-cases progressed) [
          | inl h' ↦
              rw (h, h', ready_from, ◌>>=◌, IsStep)
                (ready_from-Steps n (next preference) remaining stepped.0)
          | inr (work, h') ↦
              let found : stepped.1 ≡ ok (some work) = h ∙ ap ok h' in
              rw (found, ready_from, ◌>>=◌) (subst (IsStep (IsMadeBy port)) found step)
        ]
      ]

  pub io_round-Steps :
      (remaining : ℕ) → Steps (IsMadeBy port) (io_round {env = env} {T = T} remaining)
  unfolding io_round drive_ready_once
  io_round-Steps remaining (s, some transport) =
      ready_from-Steps 4 s.io_preference remaining (s, transport)
  io_round-Steps remaining (s, none) =
      if-Step (IsMadeBy port) s.decoder_pending _ _
        (elim (Result-cases (drive_decoder_once s).1) [
          | inr (e, h) ↦ rw h tt
          | inl (_, h) ↦ rw h (one-IsUnit (IsMadeBy port))
        ])
        tt
