-- ===== src/Connection/Journal.antt =====
-- connection/journal.rs: preallocated slots that keep what a step takes out of its owner until the
-- step is complete.
use bornera.Prelude.{
  ℕ, zero, suc, ◌+◌, Bool, true, false, Option, none, some, List, [], ◌∷◌, ◌++◌, get_elem?, set,
  replicate, is_some, if◌then◌else◌,
}
use bornera.Identity.{OperationId, EffectId}
use bornera.Operation.{OperationRecord, OperationPhase, Delivery}
use bornera.Write.Frame.{DiscardedWrite}

pub record JournalOperation : Type 0 where
  pub wire_index : ℕ
  pub operation : OperationId
  pub effect : EffectId
  pub delivery : Delivery
  pub phase : OperationPhase
  pub write_held : Bool

pub record RecoveryJournal (F : Type 0) : Type 0 where
  pub operations : List (Option JournalOperation)
  pub operation_len : ℕ
  pub writes : List (Option (DiscardedWrite F))
  pub write_len : ℕ
  pub overflow_write : Option (DiscardedWrite F)
  pub armed : Bool

-- `slots[..n].iter_mut().for_each(|slot| *slot = None)`
abbrev pub clear_slots {ℓ} : {A : Type ℓ} → ℕ → List (Option A) → List (Option A)
clear_slots zero xs = xs
clear_slots (suc n) [] = []
clear_slots (suc n) (x ∷ xs) = none ∷ clear_slots n xs

-- `slots[..n].iter_mut().filter_map(Option::take)`: what is taken; the slots are then cleared.
abbrev pub take_slots {ℓ} : {A : Type ℓ} → ℕ → List (Option A) → List A
take_slots zero xs = []
take_slots (suc n) [] = []
take_slots (suc n) (none ∷ xs) = take_slots n xs
take_slots (suc n) (some x ∷ xs) = x ∷ take_slots n xs

abbrev pub journal_operation : OperationRecord → ℕ → JournalOperation
journal_operation r wire_index = record {
  wire_index = wire_index;
  operation = r.id;
  effect = r.effect;
  delivery = r.delivery;
  phase = r.phase;
  write_held = r.write_held;
}

module _ {F : Type 0} where
  unfoldable pub new : ℕ → ℕ → RecoveryJournal F
  new max_operations max_writes = record {
    operations = replicate max_operations none;
    operation_len = 0;
    writes = replicate max_writes none;
    write_len = 0;
    overflow_write = none;
    armed = false;
  }

  unfoldable pub clear : RecoveryJournal F → RecoveryJournal F
  clear j = record {
    operations = clear_slots j.operation_len j.operations;
    operation_len = 0;
    writes = clear_slots j.write_len j.writes;
    write_len = 0;
    overflow_write = none;
    armed = false;
  }

  unfoldable pub retain_operation :
      RecoveryJournal F → OperationRecord → ℕ → RecoveryJournal F × Bool
  retain_operation j r wire_index =
      if is_some (get_elem? j.operations j.operation_len)
      then (
        record j {
          operations = set j.operations j.operation_len (some (journal_operation r wire_index));
          operation_len = j.operation_len + 1;
        },
        true,
      )
      else (j, false)

  unfoldable pub retain_write : RecoveryJournal F → DiscardedWrite F → RecoveryJournal F × Bool
  retain_write j write =
      if is_some (get_elem? j.writes j.write_len)
      then (
        record j { writes = set j.writes j.write_len (some write); write_len = j.write_len + 1 },
        true,
      )
      else (elim j.overflow_write [
        | none ↦ (record j { overflow_write = some write }, false)
        | some kept ↦ (j, false)
      ])

  -- The `for` of `begin`, over the records from `wire_index` on.
  unfoldable pub retain_records :
      RecoveryJournal F → ℕ → List OperationRecord → RecoveryJournal F × Bool
  unfolding retain_operation
  retain_records j wire_index [] = (j, true)
  retain_records j wire_index (r ∷ rs) =
      let (j', kept) = retain_operation j r wire_index in
      let rest = retain_records j' (wire_index + 1) rs in if kept then rest else (j', false)

  unfoldable pub begin : RecoveryJournal F → List OperationRecord → RecoveryJournal F × Bool
  unfolding retain_records
  begin j records =
      let (j', kept) = retain_records (clear j) 0 records in
      if kept then (record j' { armed = true }, true) else (clear j', false)

  unfoldable pub begin_write_progress : RecoveryJournal F → RecoveryJournal F
  begin_write_progress j = let cleared = clear j in record cleared { armed = true }

  unfoldable pub begin_operation :
      RecoveryJournal F → OperationRecord → ℕ → RecoveryJournal F × Bool
  begin_operation j r wire_index =
      let cleared = clear j in retain_operation (record cleared { armed = true }) r wire_index

  unfoldable pub take_operations : RecoveryJournal F → RecoveryJournal F × List JournalOperation
  take_operations j = (
    record j { operations = clear_slots j.operation_len j.operations; operation_len = 0 },
    take_slots j.operation_len j.operations,
  )

  abbrev option_list : Option (DiscardedWrite F) → List (DiscardedWrite F)
  option_list none = []
  option_list (some w) = w ∷ []

  unfoldable pub take_writes : RecoveryJournal F → RecoveryJournal F × List (DiscardedWrite F)
  take_writes j = (
    record j {
      writes = clear_slots j.write_len j.writes;
      write_len = 0;
      overflow_write = none;
      armed = false;
    },
    take_slots j.write_len j.writes ++ option_list j.overflow_write,
  )
