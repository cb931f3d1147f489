-- ===== src/Matching.antt =====
-- matching/ordered_verified.rs: accepted operations in wire order.
pub mod Laws
use bornera.Prelude.{
  ℕ, Bool, not, Option, none, some, List, [], ◌∷◌, ◌++◌, ◌==◌, length, get_elem?, head?, select,
}
use bornera.Prelude.Search.{position, remove_at, modify_first}
use bornera.Identity.{OperationId}
use bornera.Limits.KeySpace.{MatchKeySpace}
use bornera.Operation.{OperationRecord, is_terminal}

pub record OrderedVerified : Type 0 where
  pub key_space : MatchKeySpace
  pub capacity : ℕ
  pub pending : List OperationRecord

unfoldable pub new : MatchKeySpace → ℕ → OrderedVerified
new key_space capacity = record { key_space = key_space; capacity = capacity; pending = [] }

unfoldable pub push : OrderedVerified → OperationRecord → OrderedVerified
push m r = record m { pending = m.pending ++ r ∷ [] }

-- `|record| record.id == id`
abbrev pub named : OperationId → OperationRecord → Bool
named id r = r.id == id

unfoldable pub index_of : OrderedVerified → OperationId → Option ℕ
index_of m id = position (named id) m.pending

unfoldable pub get_indexed : OrderedVerified → OperationId → Option (ℕ × OperationRecord)
unfolding index_of
get_indexed m id = elim (index_of m id) [
  | none ↦ none
  | some index ↦ elim (get_elem? m.pending index) [ none ↦ none | some r ↦ some (index, r) ]
]

unfoldable pub get : OrderedVerified → OperationId → Option OperationRecord
unfolding get_indexed
get m id = elim (get_indexed m id) [ none ↦ none | some (index, r) ↦ some r ]

-- A write through the reference that `get_mut` returns; none if it returns none.
unfoldable pub get_mut :
    OrderedVerified → OperationId → (OperationRecord → OperationRecord) → Option OrderedVerified
unfolding get_indexed
get_mut m id f = elim (get_indexed m id) [
  | none ↦ none
  | some (index, r) ↦ some (record m { pending = modify_first (named id) f m.pending })
]

abbrev pub front : OrderedVerified → Option OperationRecord
front m = head? m.pending

unfoldable pub pop_front : OrderedVerified → Option (OperationRecord × OrderedVerified)
pop_front m = elim m.pending [ [] ↦ none | r ∷ rest ↦ some (r, record m { pending = rest }) ]

unfoldable pub remove : OrderedVerified → OperationId → Option (OperationRecord × OrderedVerified)
unfolding index_of
remove m id = elim (index_of m id) [
  | none ↦ none
  | some index ↦ elim (remove_at index m.pending) [
    | none ↦ none
    | some (r, rest) ↦ some (r, record m { pending = rest })
  ]
]

abbrev pub is_empty : OrderedVerified → Bool
is_empty m = elim m.pending [ [] ↦ Bool.true | r ∷ rest ↦ Bool.false ]

unfoldable pub terminal_len : OrderedVerified → ℕ
terminal_len m = length (select (λ r. is_terminal r.phase) m.pending)

unfoldable pub active_len : OrderedVerified → ℕ
active_len m = length (select (λ r. not (is_terminal r.phase)) m.pending)
