-- ===== src/Slot/Steady.antt =====
-- What every step of a slot keeps, whatever it does to the core, the decoder and the transport: the
-- slot's own state and limits, and the numbering of its lifecycle events. Steps compose.
pub mod Publication
pub mod Effects
pub mod Closes
pub mod Drive
pub mod Transport
pub mod Shutdown
pub mod Quantum
pub mod Control
use bornera.Prelude.{
  ℕ, ◌≤◌, ◌<◌, ◌≡◌, refl, sym, subst, Bool, true, false, List, [], ◌∷◌, ◌++◌, All, Result, ok, err,
  Result-cases, inl, inr, arith, ◌∙◌, Bool-cases, if◌then◌else◌,
}
use bornera.Slot.Kinds.{EngineError, is_owner_failed, ConnectionEvent, sequence_of}
use bornera.Slot.State.{Environment, ConnectionSlot, Run, ◌>>=◌, ◌>>◌, return, fail, lift}

abbrev pub Ascending : List ConnectionEvent → Type 0
Ascending [] = Unit
Ascending (e ∷ es) = All (λ later. sequence_of e < sequence_of later) es × Ascending es

module _ {env : Environment} where
  -- The events that wait to be drained have ascending numbers, up to the slot's counter.
  abbrev pub IsNumbered : ConnectionSlot env → Type 0
  IsNumbered s =
      Ascending (env.events.items s.lifecycle)
      × All (λ e. sequence_of e ≤ s.event_sequence) (env.events.items s.lifecycle)

  pub record Moved (s s' : ConnectionSlot env) : Type 0 where
    pub state_kept : s'.state ≡ s.state
    pub limits_kept : s'.limits ≡ s.limits
    pub numbered : IsNumbered s → IsNumbered s'

  pub still : (s : ConnectionSlot env) → Moved s s
  still s = record { state_kept = refl; limits_kept = refl; numbered = λ h. h }

  pub onward : (s s' s'' : ConnectionSlot env) → Moved s s' → Moved s' s'' → Moved s s''
  onward s s' s'' p q = record {
    state_kept = q.state_kept ∙ p.state_kept;
    limits_kept = q.limits_kept ∙ p.limits_kept;
    numbered = λ h. q.numbered (p.numbered h);
  }

-- A failure of a step is never the refusal of an owner that has failed.
abbrev pub IsFresh {ℓ} : {A : Type ℓ} → Result A EngineError → Type 0
IsFresh (ok a) = Unit
IsFresh (err e) = is_owner_failed e ≡ false

module _ {env : Environment} {S : Type 0} (view : S → ConnectionSlot env) where
  -- What a step from a state has come to.
  abbrev pub Fine : {A : Type 0} → S → S × Result A EngineError → Type 0
  Fine s r = Moved (view s) (view r.0) × IsFresh r.1

  abbrev pub Steady : {A : Type 0} → Run S A → Type 0
  Steady m = (s : S) → Fine s (m s)

  pub if-Fine :
      {A : Type 0} (b : Bool) (s : S) (x y : S × Result A EngineError)
      → Fine s x
      → Fine s y
      → Fine s (if b then x else y)
  if-Fine true s x y hx hy = hx
  if-Fine false s x y hx hy = hy

  -- A step that goes on from a later state.
  pub via :
      {A : Type 0} (s s' : S) (r : S × Result A EngineError)
      → Moved (view s) (view s')
      → Fine s' r
      → Fine s r
  via s s' r moved h = (onward (view s) (view s') (view r.0) moved h.0, h.1)

  pub >>=-Steady :
      {A A' : Type 0} (m : Run S A) (f : A → Run S A')
      → Steady m
      → ((a : A) → Steady (f a))
      → Steady (m >>= f)
  >>=-Steady m f hm hf s = elim (Result-cases (m s).1) [
    | inl (a, e) ↦
        let rest = hf a (m s).0 in
        rw (e, ◌>>=◌, IsFresh)
          (onward (view s) (view (m s).0) (view (f a (m s).0).0) (hm s).0 rest.0, rest.1)
    | inr (failure, e) ↦ rw (e, ◌>>=◌) ((hm s).0, subst IsFresh e (hm s).1)
  ]

  pub return-Steady :
      {A : Type 0} (m : Run S (Unit {0})) (a : A) → Steady m → Steady (do m; return a)
  return-Steady m a hm = >>=-Steady m (λ _. return a) hm (λ _ s. (still (view s), tt))

module _ {env : Environment} where
  -- A step of the slot itself, and one beside a transport.
  abbrev pub SlotSteady : {A : Type 0} → Run (ConnectionSlot env) A → Type 0
  SlotSteady m = Steady (λ s. s) m

  abbrev pub PairSteady : {T A : Type 0} → Run (ConnectionSlot env × T) A → Type 0
  PairSteady m = Steady (λ st. st.0) m

  pub lift-Steady :
      {T A : Type 0} (m : Run (ConnectionSlot env) A) → SlotSteady m → PairSteady {T = T} (lift m)
  lift-Steady m hm st = hm st.0
