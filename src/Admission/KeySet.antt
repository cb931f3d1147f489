-- ===== src/Admission/KeySet.antt =====
-- admission/key_set.rs: the match keys in use, an open-addressing table that closes the gap which a
-- removal leaves. A `usize` has 64 bits. The loops run over the slots' count, which is also enough
-- rounds for the `while` of `remove`: with none left it answers `false`.
use bornera.Prelude.{
  ℕ, zero, suc, ◌+◌, ◌-◌, ◌*◌, ◌%◌, ◌^◌, Bool, true, false, Option, none, some, List, ltb, leb,
  ◌==◌, if◌then◌else◌, length, get_elem?, set, replicate, is_some,
}
use bornera.Identity.{MatchKey}

pub record ActiveKeySet : Type 0 where
  pub slots : List (Option MatchKey)
  pub len : ℕ

-- usize::checked_next_power_of_two, of a number that 2 ^ 63 bounds, from the power `p`
unfoldable pub power_from : ℕ → ℕ → ℕ → Option ℕ
power_from zero p n = none
power_from (suc rounds) p n =
    let rest = power_from rounds (2 * p) n in if leb n p then some p else rest

unfoldable pub checked_next_power_of_two : ℕ → Option ℕ
unfolding power_from
checked_next_power_of_two n = power_from 64 1 n

-- The number of slots for `max_keys`.
unfoldable pub table_size : ℕ → ℕ
unfolding checked_next_power_of_two
table_size max_keys =
    let wanted =
      if ltb (max_keys * 2) (2 ^ 64) then checked_next_power_of_two (max_keys * 2) else none in
    let chosen : ℕ = elim wanted [ none ↦ max_keys | some size ↦ size ] in
    if leb chosen 1 then 1 else chosen

unfoldable pub new : ℕ → ActiveKeySet
unfolding table_size
new max_keys = record { slots = replicate (table_size max_keys) none; len = 0 }

-- `self.slots[index]`; every index in use is a remainder by the count.
abbrev pub slot : List (Option MatchKey) → ℕ → Option MatchKey
slot slots index = elim (get_elem? slots index) [ none ↦ none | some entry ↦ entry ]

unfoldable pub home : List (Option MatchKey) → MatchKey → ℕ
home slots key = (key * 0x9e3779b1) % 2 ^ 32 % length slots

unfoldable pub next : List (Option MatchKey) → ℕ → ℕ
next slots index = if index + 1 == length slots then 0 else index + 1

unfoldable pub find_from : List (Option MatchKey) → MatchKey → ℕ → ℕ → Option ℕ
unfolding next
find_from slots key zero index = none
find_from slots key (suc rounds) index =
    let rest = find_from slots key rounds (next slots index) in
    elim (slot slots index) [
      | some existing ↦ if existing == key then some index else rest
      | none ↦ none
    ]

unfoldable pub find : ActiveKeySet → MatchKey → Option ℕ
unfolding home find_from
find s key = find_from s.slots key (length s.slots) (home s.slots key)

unfoldable pub contains : ActiveKeySet → MatchKey → Bool
unfolding find
contains s key = is_some (find s key)

unfoldable pub insert_from : ActiveKeySet → MatchKey → ℕ → ℕ → ActiveKeySet × Bool
unfolding next
insert_from s key zero index = (s, false)
insert_from s key (suc rounds) index =
    let rest = insert_from s key rounds (next s.slots index) in
    elim (slot s.slots index) [
      | some existing ↦ if existing == key then (s, false) else rest
      | none ↦ (record { slots = set s.slots index (some key); len = s.len + 1 }, true)
    ]

unfoldable pub insert : ActiveKeySet → MatchKey → ActiveKeySet × Bool
unfolding home insert_from
insert s key = insert_from s key (length s.slots) (home s.slots key)

-- The loop of `remove` that places the displaced keys anew.
unfoldable pub replace_from : ActiveKeySet → ℕ → ℕ → ActiveKeySet × Bool
unfolding insert next
replace_from s zero cursor = (s, false)
replace_from s (suc rounds) cursor = elim (slot s.slots cursor) [
  | none ↦ (s, true)
  | some displaced ↦
      let taken : ActiveKeySet = record { slots = set s.slots cursor none; len = s.len - 1 } in
      let placed = insert taken displaced in
      let rest = replace_from placed.0 rounds (next s.slots cursor) in
      if placed.1 then rest else (placed.0, false)
]

unfoldable pub remove : ActiveKeySet → MatchKey → ActiveKeySet × Bool
unfolding find next replace_from
remove s key = elim (find s key) [
  | none ↦ (s, false)
  | some index ↦
      replace_from (record { slots = set s.slots index none; len = s.len - 1 }) (length s.slots)
        (next s.slots index)
]
