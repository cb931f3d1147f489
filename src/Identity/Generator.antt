-- ===== src/Identity/Generator.antt =====
-- identity.rs: the generator of operation and effect identities.
use bornera.Prelude.{ℕ, ◌&&◌, Bool, Option, none, some, is_some}
use bornera.Identity.{OperationId, EffectId, IdentitySeeds, next_u64}

pub record IdentityGenerator : Type 0 where
  pub operation : Option ℕ
  pub effect : Option ℕ

unfoldable pub new : IdentitySeeds → IdentityGenerator
new seeds = record { operation = some seeds.operation; effect = some seeds.effect }

unfoldable pub available : IdentityGenerator → Bool
available g = is_some g.operation && is_some g.effect

-- The generator after the call, and the identities it gave out.
unfoldable pub take : IdentityGenerator → IdentityGenerator × Option (OperationId × EffectId)
take g = elim g.operation [
  | none ↦ (g, none)
  | some operation ↦ elim g.effect [
    | none ↦ (g, none)
    | some effect ↦ (
      record { operation = next_u64 operation; effect = next_u64 effect },
      some (operation, effect),
    )
  ]
]
