-- ===== src/Connection/Core/Recovered.antt =====
-- connection/recovery.rs: the recovery of an owner with no step under way.
use bornera.Prelude.{
  ℕ, ◌+◌, ◌≡◌, ◌≢◌, refl, Bool, true, false, Option, none, some, List, [], ◌∷◌, ◌++◌, append_assoc,
  append-nil, map, All, All-append, length, if◌then◌else◌, Bool-cases, List-cases, inl, inr, arith,
}
use bornera.Prelude.Search.{position, remove_at}
use bornera.Host.{Calandria}
use bornera.Identity.{OperationId, EffectId}
use bornera.Admission.Ledger
use bornera.Admission.Ledger.{ReservationLedger}
use bornera.Operation.{OperationRecord, is_terminal}
use bornera.Write.Frame.{DiscardedWrite}
use bornera.Connection.Core.Audit.{held_identities}
use bornera.Connection.Core.Recovery.{
  RecoveredOperation, Recovering, recovered_operation, owned_by, take_slot, take_write,
  recover_current_operation, recover_index, recover_unjournaled, recover_indices,
  recover_rest_current,
}

-- Accepted identities are new: no two records share theirs.
abbrev pub DistinctIds : List OperationRecord → Type 0
DistinctIds [] = Unit
DistinctIds (r ∷ rs) = All (λ later. later.id ≢ r.id) rs × DistinctIds rs

module _ {F : Type 0} where
  abbrev pub identity_of : DiscardedWrite F → OperationId × EffectId
  identity_of w = (w.operation, w.effect)

  -- What is reported of a record, with the frame that the writer gave back for it.
  abbrev pub report : OperationRecord → Option (DiscardedWrite F) → List (RecoveredOperation F)
  report r found =
      if is_terminal r.phase then [] else recovered_operation r.id r.delivery found ∷ []

  abbrev pub head_of : List (DiscardedWrite F) → Option (DiscardedWrite F)
  head_of [] = none
  head_of (w ∷ ws) = some w

  abbrev pub tail_of : List (DiscardedWrite F) → List (DiscardedWrite F)
  tail_of [] = []
  tail_of (w ∷ ws) = ws

  -- The records in wire order, each that holds a frame with the next frame of the writer.
  abbrev pub expected : List OperationRecord → List (DiscardedWrite F) → List (RecoveredOperation F)
  expected [] ws = []
  expected (r ∷ rs) ws =
      if r.write_held
      then report r (head_of ws) ++ expected rs (tail_of ws)
      else report r none ++ expected rs ws

  take_own :
      (w : DiscardedWrite F) (ws : List (DiscardedWrite F))
      → take_write (w ∷ ws) w.operation w.effect ≡ (some w, ws)
  unfolding take_write position remove_at
  take_own w ws = ground arith

  absent_write :
      (id : OperationId) (effect : EffectId) (ws : List (DiscardedWrite F))
      → All (λ w. w.operation ≢ id) ws
      → position (owned_by id effect) ws ≡ none
  unfolding position
  absent_write id effect [] h = refl
  absent_write id effect (w ∷ ws) h = ground (arith, absent_write id effect ws h.1)

  take_absent :
      (id : OperationId) (effect : EffectId) (ws : List (DiscardedWrite F))
      → All (λ w. w.operation ≢ id) ws
      → take_write ws id effect ≡ (none, ws)
  unfolding take_write
  take_absent id effect ws h = rw (absent_write id effect ws h, take_write) refl

abbrev AllApart : OperationId → List (OperationId × EffectId) → Type 0
AllApart id is = All (λ i. i.0 ≢ id) is

apart_held :
    (id : OperationId) (rs : List OperationRecord)
    → All (λ r. r.id ≢ id) rs
    → AllApart id (held_identities rs)
apart_held id [] h = tt
apart_held id (r ∷ rs) h = ground (arith, apart_held id rs h.1)

module _ {F : Type 0} where
  apart_writes :
      (id : OperationId) (ws : List (DiscardedWrite F))
      → AllApart id (map identity_of ws)
      → All (λ w. w.operation ≢ id) ws
  apart_writes id [] h = tt
  apart_writes id (w ∷ ws) h = (h.0, apart_writes id ws h.1)

-- Slots that were emptied.
abbrev pub Emptied : List (Option OperationRecord) → Type 0
Emptied ns = All (λ o. o ≡ none) ns

take_slot_past :
    (p : OperationRecord → Bool) (ns cs : List (Option OperationRecord)) (r : OperationRecord)
    → Emptied ns
    → p r ≡ true
    → take_slot p (ns ++ some r ∷ cs) ≡ some (r, (ns ++ none ∷ []) ++ cs)
unfolding take_slot
take_slot_past p [] cs r e h = ground arith
take_slot_past p (some x ∷ ns) cs r e h = absurd (ground (arith, e.0))
take_slot_past p (none ∷ ns) cs r e h = rw (take_slot_past p ns cs r e.1 h) refl

module _ ⦃host : Calandria⦄ where
  -- The ledger once every record is released.
  abbrev pub released : ReservationLedger → List OperationRecord → ReservationLedger
  released l [] = l
  released l (r ∷ rs) = released (Ledger.release_operation l r.reservation r.write_held) rs

module _ {F : Type 0} ⦃host : Calandria⦄ where
  -- A recovery with no journal.
  abbrev pub unjournaled :
      ReservationLedger
      → List (Option OperationRecord)
      → List (DiscardedWrite F)
      → List (RecoveredOperation F)
      → Bool
      → Recovering F
  unjournaled ledger current writes operations diverged = record {
    ledger = ledger;
    current = current;
    journal = [];
    writes = writes;
    operations = operations;
    diverged = diverged;
  }

  module _ (l : ReservationLedger) (ns cs : List (Option OperationRecord)) (r : OperationRecord)
      (empty : Emptied ns) (ops : List (RecoveredOperation F)) (d : Bool) where
    step_held :
        (w : DiscardedWrite F) (ws : List (DiscardedWrite F))
        → r.write_held ≡ true
        → identity_of w ≡ (r.id, r.effect)
        → recover_unjournaled (unjournaled l (ns ++ some r ∷ cs) (w ∷ ws) ops d) []
          ≡ unjournaled
              (Ledger.release_operation l r.reservation r.write_held)
              ((ns ++ none ∷ []) ++ cs)
              ws
              (ops ++ report r (some w))
              d
    unfolding recover_unjournaled recover_current_operation position
    step_held w ws held same =
        ground (
          arith,
          take_slot_past (λ _. true) ns cs r empty refl,
          take_own w ws,
          same,
          append-nil ops,
        )

    step_unheld :
        (ws : List (DiscardedWrite F))
        → r.write_held ≡ false
        → All (λ w. w.operation ≢ r.id) ws
        → recover_unjournaled (unjournaled l (ns ++ some r ∷ cs) ws ops d) []
          ≡ unjournaled
              (Ledger.release_operation l r.reservation r.write_held)
              ((ns ++ none ∷ []) ++ cs)
              ws
              (ops ++ report r none)
              d
    unfolding recover_unjournaled recover_current_operation position
    step_unheld ws gone apart = ground (
      arith,
      take_slot_past (λ _. true) ns cs r empty refl,
      take_absent r.id r.effect ws apart,
      append-nil ops,
    )

append-Emptied : (ns : List (Option OperationRecord)) → Emptied ns → Emptied (ns ++ none ∷ [])
append-Emptied ns e = All-append (λ o. o ≡ none) ns (none ∷ []) e (refl, tt)

module _ {F : Type 0} ⦃host : Calandria⦄ where
  -- What the loop over the wire indices leaves, once it has seen every record.
  abbrev pub IsSwept :
      Recovering F → ReservationLedger → List (RecoveredOperation F) → Bool → Type 0
  IsSwept s l ops d =
      (ms : List (Option OperationRecord)) × Emptied ms × (s ≡ unjournaled l ms [] ops d)

  pub sweep :
      (rs : List OperationRecord) (ws : List (DiscardedWrite F)) (l : ReservationLedger)
      (ns : List (Option OperationRecord)) (ops : List (RecoveredOperation F)) (d : Bool) (i : ℕ)
      → Emptied ns
      → map identity_of ws ≡ held_identities rs
      → DistinctIds rs
      → IsSwept
          (recover_indices (length rs) (unjournaled l (ns ++ map some rs) ws ops d) [] i)
          (released l rs)
          (ops ++ expected rs ws)
          d
  unfolding recover_indices recover_index
  sweep [] [] l ns ops d i e own apart = (ns, e, ground (arith, append-nil ns, append-nil ops))
  sweep [] (w ∷ ws) l ns ops d i e own apart = absurd (ground arith)
  sweep (r ∷ rs) ws l ns ops d i e own apart = elim (Bool-cases r.write_held) [
    | inl held ↦ elim (List-cases ws) [
      | inl nothing ↦ absurd (ground arith)
      | inr (w, rest, more) ↦
          let (ms, em, eq) =
            sweep rs rest (Ledger.release_operation l r.reservation r.write_held) (ns ++ none ∷ [])
              (ops ++ report r (some w)) d (i + 1) (append-Emptied ns e) (ground arith) apart.1 in
          (
            ms,
            em,
            ground (
              arith,
              eq,
              step_held l ns (map some rs) r e ops d w rest held (ground arith),
              append_assoc ops (report r (some w)) (expected rs rest),
            ),
          )
    ]
    | inr gone ↦
        let own' : map identity_of ws ≡ held_identities rs = ground arith in
        let away = apart_writes r.id ws (rw own' (apart_held r.id rs apart.0)) in
        let (ms, em, eq) =
          sweep rs ws (Ledger.release_operation l r.reservation r.write_held) (ns ++ none ∷ [])
            (ops ++ report r none) d (i + 1) (append-Emptied ns e) own' apart.1 in
        (
          ms,
          em,
          ground (
            arith,
            eq,
            step_unheld l ns (map some rs) r e ops d ws gone away,
            append_assoc ops (report r none) (expected rs ws),
          ),
        )
  ]

  pub rest-Emptied :
      (s : Recovering F) (ms : List (Option OperationRecord))
      → Emptied ms
      → recover_rest_current s ms ≡ s
  unfolding recover_rest_current
  rest-Emptied s [] e = refl
  rest-Emptied s (none ∷ ms) e = rest-Emptied s ms e.1
  rest-Emptied s (some x ∷ ms) e = absurd (ground (arith, e.0))
