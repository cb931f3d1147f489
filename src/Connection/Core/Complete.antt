-- ===== src/Connection/Core/Complete.antt =====
-- connection/recovery.rs: the whole recovery of an owner at rest.
use bornera.Prelude.{
  ◌≡◌, refl, ap, ◌∙◌, false, none, some, List, [], ◌∷◌, append-nil, map, length-map, arith,
}
use bornera.Host.{Calandria, ByteBudget}
use bornera.Admission.Ledger.{ReservationLedger}
use bornera.Operation.{OperationRecord}
use bornera.Write.Frame.{DiscardedWrite, QueuedWrite, into_discarded}
use bornera.Write.Queue.{identities}
use bornera.Write.Progress.{discard_all}
use bornera.Connection.Journal.{RecoveryJournal, take_writes, take_operations}
use bornera.Connection.Core.State.{ConnectionCore}
use bornera.Connection.Core.Integrity.{merge_violation}
use bornera.Connection.Core.Audit.{held_identities, merge_violation_iff}
use bornera.Connection.Core.Recovery.{recover, recover_in_wire_order, recover_rest_journal}
use bornera.Connection.Core.Recovered.{
  DistinctIds, identity_of, expected, released, unjournaled, sweep, rest-Emptied, IsSwept,
}

-- No step is under way: the journal keeps nothing.
pub record IsIdle {F : Type 0} (j : RecoveryJournal F) : Type 0 where
  pub no_operations : j.operation_len ≡ 0
  pub no_writes : j.write_len ≡ 0
  pub no_overflow : j.overflow_write ≡ none
  pub disarmed : j.armed ≡ false

module _ {F : Type 0} where
  identities_discarded :
      (fs : List (QueuedWrite F))
      → map identity_of (map into_discarded fs) ≡ map (λ f. (f.operation, f.effect)) fs
  identities_discarded [] = refl
  identities_discarded (f ∷ fs) = ap (λ is. (f.operation, f.effect) ∷ is) (identities_discarded fs)

  module _ ⦃host : Calandria⦄ where
    in_wire_order :
        (rs : List OperationRecord) (ws : List (DiscardedWrite F)) (l : ReservationLedger)
        → map identity_of ws ≡ held_identities rs
        → DistinctIds rs
        → IsSwept
            (recover_in_wire_order (unjournaled l (map some rs) ws [] false) [])
            (released l rs)
            (expected rs ws)
            false
    unfolding recover_in_wire_order recover_rest_journal
    in_wire_order rs ws l own apart =
        let (ms, em, eq) = sweep rs ws l [] [] false 0 tt own apart in
        (
          ms,
          em,
          ground (
            arith,
            eq,
            length-map (λ (r : OperationRecord). some r) rs,
            rest-Emptied (unjournaled (released l rs) ms [] (expected rs ws) false) ms em,
          ),
        )

    module _ {B : Type 0} ⦃lib : ByteBudget B⦄ (c : ConnectionCore F B) where
      -- An owner whose journal is empty and disarmed, whose walk of the audit finds nothing and
      -- whose records have distinct identities gives back in wire order every operation that owes
      -- an outcome, each that holds a frame with its own; no frame is left over, every reservation
      -- is released, a divergence is reported exactly if the ledger is then poisoned, and no
      -- record and no frame stays.
      pub recover_lem :
          IsIdle c.journal
          → merge_violation c.machine.matching.pending (identities c.writes) ≡ none
          → DistinctIds c.machine.matching.pending
          → let (c', recovery) = recover c in
            (recovery.operations
              ≡ expected c.machine.matching.pending (map into_discarded c.writes.frames))
            × (recovery.unmatched_writes ≡ [])
            × (c'.machine.ledger ≡ released c.machine.ledger c.machine.matching.pending)
            × (recovery.ownership_diverged ≡ c'.machine.ledger.poisoned)
            × (c'.machine.matching.pending ≡ [])
            × (c'.writes.frames ≡ [])
      unfolding recover take_writes take_operations discard_all
      recover_lem idle audited apart =
          let own : map identity_of (map into_discarded c.writes.frames)
              ≡ held_identities c.machine.matching.pending =
            identities_discarded c.writes.frames
            ∙ (merge_violation_iff c.machine.matching.pending (identities c.writes)).0 audited in
          let (ms, em, eq) =
            in_wire_order c.machine.matching.pending (map into_discarded c.writes.frames)
              c.machine.ledger own apart in
          ground (arith, eq, idle, append-nil (map into_discarded c.writes.frames))
