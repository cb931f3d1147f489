-- ===== src/Sets/Queue.antt =====
-- crates/bornera/src/set.rs, set_failure.rs and set_drive/ready.rs: the queue of ready entries against the
-- flags of the entries.
use bornera.Prelude.{
  ◌≡◌, ◌≢◌, refl, sym, subst, ◌∙◌, Bool, true, false, ◌||◌, Option, none, some, List, [], ◌∷◌, ◌++◌,
  ◌==◌, ==_iff, ==_self, Option-cases, Bool-cases, inl, inr, arith,
}
use bornera.Host.Resources.{ResourceToken, ResourceTable}
use bornera.Admission.Options.{Moment}
use bornera.Slot.Limits.{ConnectionIdentity}
use bornera.Sets.State.{Selector, ConnectionEntry, ConnectionSet, enqueue}
use bornera.Sets.Ready.{should_enqueue, enqueue_each}

abbrev pub contains : ResourceToken → List ResourceToken → Bool
contains t [] = false
contains t (x ∷ xs) = x == t || contains t xs

abbrev pub Once : List ResourceToken → Type 0
Once [] = Unit
Once (x ∷ xs) = (contains x xs ≡ false) × Once xs

contains-append :
    (t r : ResourceToken) (xs : List ResourceToken)
    → contains t (xs ++ r ∷ []) ≡ (contains t xs || r == t)
contains-append t r [] = ground arith
contains-append t r (x ∷ xs) = ground (arith, contains-append t r xs)

pub Once-append :
    (r : ResourceToken) (xs : List ResourceToken)
    → Once xs
    → contains r xs ≡ false
    → Once (xs ++ r ∷ [])
Once-append r [] h e = (refl, tt)
Once-append r (x ∷ xs) h e =
    (contains-append x r xs ∙ ground (arith, h.0), Once-append r xs h.1 (ground arith))

-- The flag of the entry at a token, if there is one.
abbrev pub Agrees :
    {sel : Selector} → Option (ConnectionIdentity × ConnectionEntry sel) → Bool → Type 0
Agrees none queued = Unit
Agrees (some (identity, e)) queued = e.ready_queued ≡ queued

pub contains_last : (r : ResourceToken) (xs : List ResourceToken) → contains r (xs ++ r ∷ []) ≡ true
contains_last r xs = contains-append r r xs ∙ ground (arith, ==_self r)

pub contains_other :
    (t r : ResourceToken) (xs : List ResourceToken)
    → (r == t) ≡ false
    → contains t (xs ++ r ∷ []) ≡ contains t xs
contains_other t r xs h = contains-append t r xs ∙ ground arith

module _ {sel : Selector} {S : Type 0}
    ⦃table : ResourceTable S ConnectionIdentity (ConnectionEntry sel)⦄ where
  -- No token is queued twice, and the flag of an entry says whether its token is queued.
  pub record IsQueued (c : ConnectionSet sel S) : Type 0 where
    pub once : Once c.ready
    pub flagged : (t : ResourceToken) → Agrees (table.get c.resources t) (contains t c.ready)

  -- An entry written anew agrees with a queue, if it does itself and the others do.
  pub put-Agrees :
      (s : S) (r : ResourceToken) (k : ConnectionIdentity) (e v : ConnectionEntry sel)
      (ready : List ResourceToken)
      → table.get s r ≡ some (k, e)
      → v.ready_queued ≡ contains r ready
      → ((t : ResourceToken) → (r == t) ≡ false → Agrees (table.get s t) (contains t ready))
      → (t : ResourceToken) → Agrees (table.get (table.put s r v) t) (contains t ready)
  put-Agrees s r k e v ready here same other t = elim (Bool-cases (r == t)) [
    | inl h ↦
        let equal : r ≡ t = (==_iff r t).0 h in
        subst (λ t. Agrees (table.get (table.put s r v) t) (contains t ready)) equal
          (rw (table.get_put_same s r k e v here) same)
    | inr h ↦
        let apart : r ≢ t = λ equal. absurd (ground (arith, ==_self t)) in
        rw (table.get_put_other s r t v apart) (other t h)
  ]

  pub enqueue-IsQueued :
      (resource : ResourceToken) (c : ConnectionSet sel S)
      → IsQueued c
      → IsQueued (enqueue resource c)
  unfolding enqueue
  enqueue-IsQueued resource c h = elim (Option-cases (table.get c.resources resource)) [
    | inl e ↦ simp (e, enqueue) h
    | inr ((k, v), e) ↦
        let flag : v.ready_queued ≡ contains resource c.ready =
          subst (λ o. Agrees o (contains resource c.ready)) e (h.flagged resource) in
        elim (Bool-cases v.ready_queued) [
          | inl q ↦ simp (e, q, enqueue) h
          | inr q ↦
              simp (e, q, enqueue)
                (record {
                  once = Once-append resource c.ready h.once (sym flag ∙ q);
                  flagged =
                      put-Agrees c.resources resource k v (record v { ready_queued = true })
                        (c.ready ++ resource ∷ []) e (sym (contains_last resource c.ready))
                        (λ t apart. rw (contains_other t resource c.ready apart) (h.flagged t));
                })
        ]
  ]

  pub enqueue_each-IsQueued :
      (now : Moment) (ts : List ResourceToken) (c : ConnectionSet sel S)
      → IsQueued c
      → IsQueued (enqueue_each now ts c)
  unfolding enqueue_each
  enqueue_each-IsQueued now [] c h = h
  enqueue_each-IsQueued now (t ∷ ts) c h = elim (Option-cases (table.get c.resources t)) [
    | inl e ↦ simp (e, enqueue_each) (enqueue_each-IsQueued now ts c h)
    | inr ((k, v), e) ↦ elim (Bool-cases (should_enqueue now v)) [
      | inl q ↦
          simp (e, q, enqueue_each)
            (enqueue_each-IsQueued now ts (enqueue t c) (enqueue-IsQueued t c h))
      | inr q ↦ simp (e, q, enqueue_each) (enqueue_each-IsQueued now ts c h)
    ]
  ]
