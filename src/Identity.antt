-- ===== src/Identity.antt =====
-- identity.rs: the identities, which are numbers of a fixed width.
pub mod Generator
use bornera.Prelude.{ℕ, ◌+◌, ◌^◌, Option, none, some, ltb, if◌then◌else◌}

abbrev pub EndpointId : Type 0
EndpointId = ℕ

abbrev pub LaneId : Type 0
LaneId = ℕ

abbrev pub ConnectionId : Type 0
ConnectionId = ℕ

abbrev pub ConnectionEpoch : Type 0
ConnectionEpoch = ℕ

abbrev pub OperationId : Type 0
OperationId = ℕ

abbrev pub EffectId : Type 0
EffectId = ℕ

abbrev pub MatchKey : Type 0
MatchKey = ℕ

pub record IdentitySeeds : Type 0 where
  pub operation : ℕ
  pub effect : ℕ

-- IdentitySeeds::ZERO
abbrev pub zero_seeds : IdentitySeeds
zero_seeds = record { operation = 0; effect = 0 }

-- u64::checked_add(1)
abbrev pub next_u64 : ℕ → Option ℕ
next_u64 n = if ltb (n + 1) (2 ^ 64) then some (n + 1) else none
