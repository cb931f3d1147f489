-- ===== src/Connection/Core/Audit.antt =====
-- connection/integrity.rs: the walk of the ownership audit.
use bornera.Prelude.{
  ◌≡◌, refl, ◌∙◌, none, List, [], ◌∷◌, if◌then◌else◌, ◌↔◌, false, arith, Bool-cases, inl, inr,
}
use bornera.Identity.{OperationId, EffectId}
use bornera.Operation.{OperationRecord}
use bornera.Connection.Core.Integrity.{merge_violation}

-- The identities of the records that still hold their frame, in wire order.
abbrev pub held_identities : List OperationRecord → List (OperationId × EffectId)
held_identities [] = []
held_identities (r ∷ rs) =
    if r.write_held then (r.id, r.effect) ∷ held_identities rs else held_identities rs

skip_unheld :
    (r : OperationRecord) (rs : List OperationRecord) (ws : List (OperationId × EffectId))
    → r.write_held ≡ false
    → merge_violation (r ∷ rs) ws ≡ merge_violation rs ws
unfolding merge_violation
skip_unheld r rs [] h = ground arith
skip_unheld r rs (w ∷ ws) h = ground arith

-- A writer that holds the frames of the records passes.
held-pass : (rs : List OperationRecord) → merge_violation rs (held_identities rs) ≡ none
unfolding merge_violation
held-pass [] = refl
held-pass (r ∷ rs) = elim (Bool-cases r.write_held) [
  | inl held ↦ ground (arith, held-pass rs)
  | inr gone ↦ simp gone (skip_unheld r rs (held_identities rs) gone ∙ held-pass rs)
]

pass-held :
    (rs : List OperationRecord) (ws : List (OperationId × EffectId))
    → merge_violation rs ws ≡ none
    → ws ≡ held_identities rs
unfolding merge_violation
pass-held [] [] h = refl
pass-held [] ((operation, effect) ∷ ws) h = absurd (ground arith)
pass-held (r ∷ rs) [] h = ground (arith, pass-held rs [])
pass-held (r ∷ rs) ((operation, effect) ∷ ws) h =
    ground (arith, pass-held rs ((operation, effect) ∷ ws), pass-held rs ws)

-- The walk of the ownership audit finds nothing exactly when the identities in the writer are
-- those of the records that hold a frame, one for one and in wire order.
pub merge_violation_iff :
    (rs : List OperationRecord) (ws : List (OperationId × EffectId))
    → (merge_violation rs ws ≡ none) ↔ (ws ≡ held_identities rs)
merge_violation_iff rs ws = (pass-held rs ws, λ e. rw e (held-pass rs))
