-- ===== src/Connection/Core/Recovery.antt =====
-- connection/recovery.rs and connection/recovery_item.rs: every operation that an owner still holds
-- leaves it, in wire order, when the owner can no longer be driven.
-- `Vec<Option<_>>` slots are lists of options. The `while` over the journal entries of one wire index
-- empties one slot in each round, so as many rounds as slots are enough.
use bornera.Prelude.{
  ℕ, zero, suc, ◌+◌, Bool, true, false, not, ◌&&◌, ◌||◌, Option, none, some, List, [], ◌∷◌, ◌++◌,
  map, ◌==◌, ltb, if◌then◌else◌, length, select, is_some,
}
use bornera.Prelude.Search.{position, remove_at}
use bornera.Host.{Calandria, ByteBudget}
use bornera.Identity.{ConnectionEpoch, OperationId, EffectId}
use bornera.Admission.Ledger
use bornera.Admission.Ledger.{ReservationLedger}
use bornera.Operation.{
  OperationRecord, is_terminal, Delivery, possibly_sent, not_sent, is_possibly_sent,
}
use bornera.Write.Frame.{DiscardedWrite}
use bornera.Write.Progress.{discard_all}
use bornera.Connection.Journal
use bornera.Connection.Journal.{JournalOperation}
use bornera.Connection.Core.State.{ConnectionCore, recovered}

pub record RecoveredOperation (F : Type 0) : Type 0 where
  pub operation : OperationId
  pub delivery : Delivery
  pub frame : Option F

pub record ConnectionRecovery (F : Type 0) : Type 0 where
  pub epoch : ConnectionEpoch
  pub operations : List (RecoveredOperation F)
  pub unmatched_writes : List (DiscardedWrite F)
  pub ownership_diverged : Bool

-- What the recovery loops change: the ledger, the slots, the writes left, and what is recovered.
pub record Recovering (F : Type 0) : Type 0 where
  pub ledger : ReservationLedger
  pub current : List (Option OperationRecord)
  pub journal : List (Option JournalOperation)
  pub writes : List (DiscardedWrite F)
  pub operations : List (RecoveredOperation F)
  pub diverged : Bool

unfoldable pub weaken : Delivery → Delivery → Delivery
weaken policy writer =
    if is_possibly_sent policy || is_possibly_sent writer then possibly_sent else not_sent

-- The first filled slot that passes, emptied: `iter_mut().find(..).and_then(Option::take)`.
unfoldable pub take_slot {ℓ} :
    {A : Type ℓ} → (A → Bool) → List (Option A) → Option (A × List (Option A))
take_slot p [] = none
take_slot p (none ∷ xs) = elim (take_slot p xs) [ none ↦ none | some (a, ys) ↦ some (a, none ∷ ys) ]
take_slot p (some x ∷ xs) =
    let later : Option (_ × List (Option _)) = elim (take_slot p xs) [
      | none ↦ none
      | some (a, ys) ↦ some (a, some x ∷ ys)
    ] in
    if p x then some (x, none ∷ xs) else later

-- `a != b`
abbrev pub differ : Bool → Bool → Bool
differ a b = if a then not b else b

-- `record.as_ref().is_some_and(p)`
abbrev pub filled {ℓ} : {A : Type ℓ} → (A → Bool) → Option A → Bool
filled p none = false
filled p (some a) = p a

module _ {F : Type 0} where
  abbrev pub owned_by : OperationId → EffectId → DiscardedWrite F → Bool
  owned_by operation effect w = w.operation == operation && w.effect == effect

  unfoldable pub take_write :
      List (DiscardedWrite F)
      → OperationId
      → EffectId
      → Option (DiscardedWrite F) × List (DiscardedWrite F)
  take_write writes operation effect = elim (position (owned_by operation effect) writes) [
    | none ↦ (none, writes)
    | some index ↦ elim (remove_at index writes) [
      | none ↦ (none, writes)
      | some (w, rest) ↦ (some w, rest)
    ]
  ]

  -- An operation with the frame that was found for it.
  abbrev pub recovered_operation :
      OperationId → Delivery → Option (DiscardedWrite F) → RecoveredOperation F
  recovered_operation operation delivery none = record {
    operation = operation;
    delivery = delivery;
    frame = none;
  }
  recovered_operation operation delivery (some w) = record {
    operation = operation;
    delivery = weaken delivery w.delivery;
    frame = some w.frame;
  }

  unfoldable pub recover_journal_operation : Recovering F → JournalOperation → Recovering F
  unfolding take_write
  recover_journal_operation s j =
      let (found, rest) = take_write s.writes j.operation j.effect in
      if is_terminal j.phase then s else record s {
        writes = rest;
        operations = s.operations ++ recovered_operation j.operation j.delivery found ∷ [];
        diverged = s.diverged || differ j.write_held (is_some found);
      }

  unfoldable pub recover_current_operation :
      ⦃host : Calandria⦄ → Recovering F → OperationRecord → Recovering F
  unfolding take_write
  recover_current_operation s r =
      let (found, rest) = take_write s.writes r.id r.effect in
      record s {
        ledger = Ledger.release_operation s.ledger r.reservation r.write_held;
        writes = rest;
        operations =
            if is_terminal r.phase
            then s.operations
            else s.operations ++ recovered_operation r.id r.delivery found ∷ [];
        diverged = s.diverged || differ r.write_held (is_some found);
      }

  abbrev diverge_if : Bool → Recovering F → Recovering F
  diverge_if b s = record s { diverged = s.diverged || b }

  module _ ⦃host : Calandria⦄ where
    -- One journal entry: its record, if that is still here, or the entry itself.
    unfoldable pub recover_entry : Recovering F → JournalOperation → Recovering F
    recover_entry s j = elim (take_slot (λ r. r.id == j.operation) s.current) [
      | none ↦ recover_journal_operation s j
      | some (r, current) ↦
          recover_current_operation
            (diverge_if (not (r.effect == j.effect)) (record s { current = current })) r
    ]

    -- The `while` of one wire index; the Boolean is `recovered_journal`.
    unfoldable pub recover_index : ℕ → Recovering F → ℕ → Bool → Recovering F × Bool
    recover_index zero s wire_index seen = (s, seen)
    recover_index (suc rounds) s wire_index seen =
        elim (take_slot (λ j. j.wire_index == wire_index) s.journal) [
          | none ↦ (s, seen)
          | some (j, journal) ↦
              recover_index rounds
                (recover_entry (diverge_if seen (record s { journal = journal })) j) wire_index true
        ]

    -- The record of an index that the journal does not name.
    unfoldable pub recover_unjournaled : Recovering F → List OperationId → Recovering F
    recover_unjournaled s journal_ids =
        let absent =
          λ (r : OperationRecord). not (is_some (position (λ id. id == r.id) journal_ids)) in
        elim (take_slot absent s.current) [
          | none ↦ diverge_if true s
          | some (r, current) ↦ recover_current_operation (record s { current = current }) r
        ]

    -- The `for` over the wire indices.
    unfoldable pub recover_indices : ℕ → Recovering F → List OperationId → ℕ → Recovering F
    unfolding recover_index recover_unjournaled
    recover_indices zero s journal_ids wire_index = s
    recover_indices (suc rounds) s journal_ids wire_index =
        let (named, seen) = recover_index (length s.journal) s wire_index false in
        let next = if seen then named else recover_unjournaled named journal_ids in
        recover_indices rounds next journal_ids (wire_index + 1)

    unfoldable pub recover_rest_current :
        Recovering F → List (Option OperationRecord) → Recovering F
    recover_rest_current s [] = s
    recover_rest_current s (none ∷ rs) = recover_rest_current s rs
    recover_rest_current s (some r ∷ rs) =
        recover_rest_current (recover_current_operation (diverge_if true s) r) rs

    unfoldable pub recover_rest_journal :
        Recovering F → List (Option JournalOperation) → Recovering F
    recover_rest_journal s [] = s
    recover_rest_journal s (none ∷ js) = recover_rest_journal s js
    recover_rest_journal s (some j ∷ js) =
        recover_rest_journal (recover_journal_operation (diverge_if true s) j) js

    unfoldable pub recover_in_wire_order : Recovering F → List JournalOperation → Recovering F
    unfolding recover_indices recover_rest_current recover_rest_journal
    recover_in_wire_order s journal_operations =
        let missing = length (
          select (λ j. not (is_some (position (filled (λ r. r.id == j.operation)) s.current)))
            journal_operations) in
        let original_len = length s.current + missing in
        let out_of_range = select (λ j. not (ltb j.wire_index original_len)) journal_operations in
        let started =
          diverge_if (not (length out_of_range == 0))
            (record s { journal = map some journal_operations }) in
        let indexed =
          recover_indices original_len started (map (λ j. j.operation) journal_operations) 0 in
        let swept = recover_rest_current indexed indexed.current in
        recover_rest_journal swept swept.journal

  -- The owner afterwards, and what it held.
  unfoldable pub recover :
      {B : Type 0} ⦃host : Calandria⦄ ⦃lib : ByteBudget B⦄
      → ConnectionCore F B
      → ConnectionCore F B × ConnectionRecovery F
  unfolding recover_in_wire_order
  recover c =
      let (queue, all) = discard_all c.writes in
      let (journal, journal_writes) = Journal.take_writes c.journal in
      let (journal', journal_operations) = Journal.take_operations journal in
      let end =
        recover_in_wire_order
          (record {
            ledger = c.machine.ledger;
            current = map some c.machine.matching.pending;
            journal = [];
            writes = all.writes ++ journal_writes;
            operations = [];
            diverged = c.journal.armed || not (length journal_operations == 0);
          })
          journal_operations in
      (
        record c {
          machine = record (c.machine) {
            ledger = end.ledger;
            matching = record (c.machine.matching) { pending = [] };
          };
          writes = queue;
          journal = journal';
          poisoned = elim c.poisoned [ none ↦ some recovered | some source ↦ some source ];
        },
        record {
          epoch = c.machine.epoch;
          operations = end.operations;
          unmatched_writes = end.writes;
          ownership_diverged = end.diverged || not (length end.writes == 0) || end.ledger.poisoned;
        },
      )
