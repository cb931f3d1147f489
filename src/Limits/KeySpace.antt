-- ===== src/Limits/KeySpace.antt =====
-- limits.rs: the inclusive range of protocol-visible match keys.
use bornera.Prelude.{ℕ, ◌+◌, ◌-◌, ltb, ◌==◌, if◌then◌else◌, Result, ok, err}
use bornera.Identity.{MatchKey}

pub data LimitsError : Type 0 where
  zero_operation_capacity zero_write_capacity empty_match_key_space : LimitsError

pub record MatchKeySpace : Type 0 where
  pub first : MatchKey
  pub last : MatchKey

unfoldable pub new : ℕ → ℕ → Result MatchKeySpace LimitsError
new first last =
    if ltb last first then err empty_match_key_space else ok (record { first = first; last = last })

unfoldable pub capacity : MatchKeySpace → ℕ
capacity s = s.last - s.first + 1

unfoldable pub next : MatchKeySpace → MatchKey → MatchKey
next s current = if current == s.last then s.first else current + 1
