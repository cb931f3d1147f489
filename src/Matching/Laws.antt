-- ===== src/Matching/Laws.antt =====
-- What the lookups, updates and removals of the matching discipline do to the pending records.
use bornera.Prelude.{◌≡◌, some, arith}
use bornera.Prelude.Search.{
  find?, erase_first, modify_first, get_elem?-position, remove_at-position,
}
use mathlib.Core.Option
use bornera.Identity.{OperationId}
use bornera.Operation.{OperationRecord}
use bornera.Matching.{OrderedVerified, named, get, get_mut, remove}

module _ (m : OrderedVerified) (id : OperationId) where
  pub get-find? : get m id ≡ find? (named id) m.pending
  unfolding get
  get-find? = ground (arith, get_elem?-position (named id) m.pending)

  pub get_mut-find? :
      (f : OperationRecord → OperationRecord)
      → get_mut m id f
        ≡ Option.map
            (λ r. record m { pending = modify_first (named id) f m.pending })
            (find? (named id) m.pending)
  unfolding get_mut
  get_mut-find? f = ground (arith, get_elem?-position (named id) m.pending)

  pub remove-find? :
      remove m id
      ≡ Option.map
          (λ r. (r, record m { pending = erase_first (named id) m.pending }))
          (find? (named id) m.pending)
  unfolding remove
  remove-find? = ground (arith, remove_at-position (named id) m.pending)

  -- The same for an operation that is pending.
  module _ (r : OperationRecord) (found : find? (named id) m.pending ≡ some r) where
    pub remove_found :
        remove m id ≡ some (r, record m { pending = erase_first (named id) m.pending })
    remove_found = ground (arith, remove-find?)

    pub get_mut_found :
        (f : OperationRecord → OperationRecord)
        → get_mut m id f ≡ some (record m { pending = modify_first (named id) f m.pending })
    get_mut_found f = ground (arith, get_mut-find? f)
