-- ===== src/Sets/Turns.antt =====
-- crates/bornera/src/set_drive/ready.rs: the queue and the flags over the turns of the ready entries and
-- a failure of the selector.
use bornera.Prelude.{
  ℕ, zero, suc, ◌≡◌, ◌≢◌, refl, sym, ap, subst, ◌∙◌, Bool, true, false, Option, some, List, [], ◌∷◌,
  ◌==◌, ==_iff, ==_self, Result, List-cases, Option-cases, Bool-cases, Result-cases, ◌⊎◌, inl, inr,
  arith,
}
use bornera.Prelude.Search.{find?}
use bornera.Host.Resources.{ResourceToken, ResourceTable}
use bornera.Admission.Options.{Moment}
use bornera.Slot.Limits.{ConnectionIdentity}
use bornera.Slot.Admission.{saturating_add}
use bornera.Slot.Kinds.{MioError, EngineError, mio_error, core_error, invariant_error, owner_failed}
use bornera.Sets.State.{
  Selector, ConnectionEntry, ConnectionSet, enqueue, fail_entry, fail_entries,
  latch_selector_failure, latch_readiness_error,
}
use bornera.Sets.Settle.{refuse, settle_released, release_transport, settle_entry, sync_interest}
use bornera.Sets.Ready.{
  entry_quantum, entry_turn, ready_turn, ready_turns, drive_ready, enqueue_candidates,
}
use bornera.Sets.Queue.{
  contains, Once, Agrees, IsQueued, put-Agrees, enqueue-IsQueued, enqueue_each-IsQueued,
}

module _ {sel : Selector} where
  settle_flag :
      (resource : ResourceToken) (poller : sel.poller) (e : ConnectionEntry sel)
      → (settle_entry resource poller e).1.ready_queued ≡ e.ready_queued
  unfolding settle_entry release_transport settle_released refuse
  settle_flag resource poller e = ground arith

  interest_flag :
      (resource : ResourceToken) (poller : sel.poller) (e : ConnectionEntry sel)
      → (sync_interest resource poller e).1.ready_queued ≡ e.ready_queued
  unfolding sync_interest refuse
  interest_flag resource poller e = ground arith

  quantum_flag :
      (now : Moment) (e : ConnectionEntry sel)
      → (entry_quantum now e).0.ready_queued ≡ e.ready_queued
  unfolding entry_quantum
  quantum_flag now e = ground arith

  turn_flag :
      (now : Moment) (resource : ResourceToken) (poller : sel.poller) (e : ConnectionEntry sel)
      → (entry_turn now resource poller e).1.ready_queued ≡ e.ready_queued
  unfolding entry_turn
  turn_flag now resource poller e =
      let driven : ConnectionEntry sel = (entry_quantum now e).0 in
      let settled : sel.poller × ConnectionEntry sel × Result ℕ EngineError =
        settle_entry resource poller driven in
      let synced : sel.poller × ConnectionEntry sel × Result ℕ EngineError =
        sync_interest resource settled.0 settled.1 in
      let after_settle : settled.1.ready_queued ≡ e.ready_queued =
        settle_flag resource poller driven ∙ quantum_flag now e in
      let after_sync : synced.1.ready_queued ≡ e.ready_queued =
        interest_flag resource settled.0 settled.1 ∙ after_settle in
      elim (Result-cases settled.2) [
        | inr (error, h) ↦ rw (h, entry_turn) after_settle
        | inl (released, h) ↦ elim (Result-cases synced.2) [
          | inr (error, h') ↦ rw (h, h', entry_turn) after_sync
          | inl (registered, h') ↦ rw (h, h', entry_turn) after_sync
        ]
      ]

-- An entry whose flag is down, or none.
abbrev IsDown : {sel : Selector} → Option (ConnectionIdentity × ConnectionEntry sel) → Type 0
IsDown o = Agrees o false

module _ {sel : Selector} {S : Type 0}
    ⦃table : ResourceTable S ConnectionIdentity (ConnectionEntry sel)⦄ where
  put-IsDown :
      (s : S) (r : ResourceToken) (k : ConnectionIdentity) (e : ConnectionEntry sel)
      (source : MioError) (t : ResourceToken)
      → table.get s r ≡ some (k, e)
      → ((r == t) ≡ true) ⊎ IsDown (table.get s t)
      → IsDown (table.get (table.put s r (fail_entry source e)) t)
  unfolding fail_entry
  put-IsDown s r k e source t here either = elim (Bool-cases (r == t)) [
    | inl h ↦
        subst (λ t. IsDown (table.get (table.put s r (fail_entry source e)) t)) ((==_iff r t).0 h)
          (rw (table.get_put_same s r k e (fail_entry source e) here) refl)
    | inr h ↦
        let apart : r ≢ t = λ equal. absurd (ground (arith, ==_self t)) in
        rw (table.get_put_other s r t (fail_entry source e) apart)
          (elim either [ inl h' ↦ absurd (ground arith) | inr down ↦ down ])
  ]

module _ (sel : Selector) {S : Type 0}
    ⦃table : ResourceTable S ConnectionIdentity (ConnectionEntry sel)⦄ where
  -- The entries that are met, and those that were down, are down in the end.
  fail_entries-IsDown :
      (source : MioError) (ts : List ResourceToken) (s : S) (t : ResourceToken)
      → (find? (λ t'. t' == t) ts ≡ some t) ⊎ IsDown {sel = sel} (table.get s t)
      → IsDown {sel = sel} (table.get (fail_entries sel source ts s) t)
  unfolding fail_entries find?
  fail_entries-IsDown source [] s t (inr down) = down
  fail_entries-IsDown source [] s t (inl met) = absurd (ground arith)
  fail_entries-IsDown source (r ∷ ts) s t either = elim (Option-cases (table.get s r)) [
    | inl e ↦
        rw (e, fail_entries)
          (fail_entries-IsDown source ts s t (elim either [
            | inr down ↦ inr down
            | inl met ↦ elim (Bool-cases (r == t)) [
              | inl h ↦ inr (subst (λ t. IsDown (table.get s t)) ((==_iff r t).0 h) (rw e tt))
              | inr h ↦ inl (ground arith)
            ]
          ]))
    | inr ((k, v), e) ↦
        rw (e, fail_entries)
          (fail_entries-IsDown source ts (table.put s r (fail_entry source v)) t (elim either [
            | inr down ↦ inr (put-IsDown s r k v source t e (inr down))
            | inl met ↦ elim (Bool-cases (r == t)) [
              | inl h ↦ inr (put-IsDown s r k v source t e (inl h))
              | inr h ↦ inl (ground arith)
            ]
          ]))
  ]

module _ {sel : Selector} {S : Type 0}
    ⦃table : ResourceTable S ConnectionIdentity (ConnectionEntry sel)⦄ where
  pub latch_selector-IsQueued :
      (source : MioError) (c : ConnectionSet sel S)
      → IsQueued c
      → IsQueued (latch_selector_failure source c)
  unfolding latch_selector_failure
  latch_selector-IsQueued source c h = elim (Option-cases c.owner_failure) [
    | inr (reason, e) ↦ simp (e, latch_selector_failure) h
    | inl e ↦
        simp (e, latch_selector_failure)
          (record {
            once = tt;
            flagged = λ t.
                fail_entries-IsDown sel source (table.tokens c.resources) c.resources t
                  (elim (Option-cases (table.get c.resources t)) [
                    | inl e' ↦ inr (rw e' tt)
                    | inr (live, e') ↦ inl (table.tokens_live c.resources t live e')
                  ]);
          })
  ]

  latch_readiness-IsQueued :
      (error : EngineError) (c : ConnectionSet sel S)
      → IsQueued c
      → IsQueued (latch_readiness_error error c)
  unfolding latch_readiness_error
  latch_readiness-IsQueued (mio_error source) c h = latch_selector-IsQueued source c h
  latch_readiness-IsQueued (core_error e) c h = h
  latch_readiness-IsQueued (invariant_error e) c h = h
  latch_readiness-IsQueued (owner_failed reason) c h = h

  -- The front has left the queue.
  ready_turn-IsQueued :
      (now : Moment) (resource : ResourceToken) (rest : List ResourceToken)
      (c : ConnectionSet sel S)
      → c.ready ≡ resource ∷ rest
      → IsQueued c
      → IsQueued (ready_turn now resource (record c { ready = rest })).0
  unfolding ready_turn
  ready_turn-IsQueued now resource rest c front h =
      let once : Once (resource ∷ rest) = subst Once front h.once in
      let others : (t : ResourceToken)
          → (resource == t) ≡ false
          → Agrees (table.get c.resources t) (contains t rest) =
        λ t apart.
          subst (Agrees (table.get c.resources t)) (ap (contains t) front ∙ ground arith)
            (h.flagged t) in
      elim (Option-cases (table.get c.resources resource)) [
        | inl e ↦
            rw (e, ready_turn)
              (record {
                once = once.1;
                flagged = λ t. elim (Bool-cases (resource == t)) [
                  | inr apart ↦ others t apart
                  | inl same ↦
                      subst (λ t. Agrees (table.get c.resources t) (contains t rest))
                        ((==_iff resource t).0 same) (rw e tt)
                ];
              })
        | inr ((k, v), e) ↦
            let down : ConnectionEntry sel = record v { ready_queued = false } in
            let turn : sel.poller × ConnectionEntry sel × Result (ℕ × Bool) EngineError =
              entry_turn now resource c.poller down in
            let c' : ConnectionSet sel S = record c {
              ready = rest;
              poller = turn.0;
              resources = table.put c.resources resource turn.1;
            } in
            let kept : IsQueued c' = record {
              once = once.1;
              flagged =
                  put-Agrees c.resources resource k v turn.1 rest e
                    (turn_flag now resource c.poller down ∙ sym once.0) others;
            } in
            elim (Result-cases turn.2) [
              | inr (error, h') ↦ rw (e, h', ready_turn) (latch_readiness-IsQueued error c' kept)
              | inl ((work, requeue), h') ↦ elim (Bool-cases requeue) [
                | inl q ↦ rw (e, h', q, ready_turn) (enqueue-IsQueued resource c' kept)
                | inr q ↦ rw (e, h', q, ready_turn) kept
              ]
            ]
      ]

  ready_turns-IsQueued :
      (now : Moment) (work left : ℕ) (c : ConnectionSet sel S)
      → IsQueued c
      → IsQueued (ready_turns now work left c).0
  unfolding ready_turns
  ready_turns-IsQueued now work zero c h = h
  ready_turns-IsQueued now work (suc left) c h = elim (List-cases c.ready) [
    | inl e ↦ simp (e, ready_turns) h
    | inr (resource, rest, e) ↦
        let turn : ConnectionSet sel S × Result ℕ EngineError =
          ready_turn now resource (record c { ready = rest }) in
        let kept : IsQueued turn.0 = ready_turn-IsQueued now resource rest c e h in
        elim (Result-cases turn.1) [
          | inr (error, h') ↦ simp (e, h', ready_turns) kept
          | inl (done, h') ↦
              simp (e, h', ready_turns)
                (ready_turns-IsQueued now (saturating_add work done) left turn.0 kept)
        ]
  ]

  -- If no token is queued twice and the flag of every entry says whether its token is queued, the
  -- same holds after an entry is queued, after the scan for entries that can run, after the ready
  -- turns, and after an error of a turn.
  pub ready-IsQueued :
      (now : Moment) (resource : ResourceToken) (error : EngineError) (c : ConnectionSet sel S)
      (queued : IsQueued c)
      → IsQueued (enqueue resource c)
        × IsQueued (enqueue_candidates now c)
        × IsQueued (drive_ready now c).0
        × IsQueued (latch_readiness_error error c)
  unfolding enqueue_candidates drive_ready
  ready-IsQueued now resource error c queued = (
    enqueue-IsQueued resource c queued,
    enqueue_each-IsQueued now (table.tokens c.resources) c queued,
    ready_turns-IsQueued now 0 c.ready_connections_per_turn c queued,
    latch_readiness-IsQueued error c queued,
  )
