-- ===== src/Write/Transmission.antt =====
-- A transport that drives the writer: each round borrows the front and confirms some of what it was
-- lent.
use bornera.Prelude.{
  ℕ, ◌+◌, ◌≤◌, ◌<◌, ◌≡◌, refl, sym, ap, ◌∙◌, false, none, some, List, [], ◌∷◌, ◌++◌, append-nil,
  append_assoc, All, length, take, length-append, length-take, length-drop, ltb, Bool-cases,
  List-cases, ◌⊎◌, inl, inr, ok, err, arith,
}
use bornera.Host.{ByteBudget}
use bornera.Write.Frame.{WriteFrame, QueuedWrite, WriteSlice}
use bornera.Write.Queue.{WriteQueue}
use bornera.Write.Front.{front, min_usize}
use bornera.Write.Progress.{advance}
use bornera.Write.Validity.{
  IsMeasured, IsValid, moved, advance_pending, advance_complete, advance-IsValid,
}
use bornera.Write.Stream.{
  IsStable, unsent_of, unsent, lent, front-lent, within_frame, advance-unsent,
}

-- One round: how many bytes the transport asks for, and how many of them it takes.
pub record Round : Type 0 where
  pub max_bytes : ℕ
  pub taken : ℕ

abbrev pub IsPositive : Round → Type 0
IsPositive r = (0 < r.max_bytes) × (0 < r.taken)

module _ {F B : Type 0} ⦃lib : ByteBudget B⦄ (view : WriteFrame F) where
  abbrev confirm : WriteQueue F B → ℕ → WriteSlice → List ℕ × WriteQueue F B
  confirm q n s =
      let k = min_usize (length s.bytes) n in (take k s.bytes, (advance q s.epoch s.effect k).0)

  unfoldable pub send_round : WriteQueue F B → Round → List ℕ × WriteQueue F B
  send_round q r = elim (front view q r.max_bytes) [
    | err e ↦ ([], q)
    | ok lent_slice ↦ elim lent_slice [ none ↦ ([], q) | some s ↦ confirm q r.taken s ]
  ]

  unfoldable pub send_rounds : WriteQueue F B → List Round → List ℕ × WriteQueue F B
  send_rounds q [] = ([], q)
  send_rounds q (r ∷ rs) =
      let (sent, q') = send_round q r in
      let (more, last) = send_rounds q' rs in (sent ++ more, last)

  pub record IsSendable (q : WriteQueue F B) : Type 0 where
    pub valid : IsValid q
    pub stable : All (IsStable view) q.frames

  -- What is left to do: the bytes to send, and the frames to complete.
  abbrev pub load : WriteQueue F B → ℕ
  load q = length (unsent view q.frames) + length q.frames

  -- One round with a frame in front.
  module _ (q : WriteQueue F B) (s : IsSendable q) (f : QueuedWrite F) (rest : List (QueuedWrite F))
      (at_front : q.frames ≡ f ∷ rest) (r : Round) where
    abbrev count : ℕ
    count = min_usize (length (lent view f r.max_bytes)) r.taken

    front_facts : IsMeasured f × IsStable view f × All (IsStable view) rest
    front_facts =
        let m : All IsMeasured (f ∷ rest) = rw at_front at s.valid.measured in
        let b : All (IsStable view) (f ∷ rest) = rw at_front at s.stable in (m.0, b.0, b.1)

    send_round_lem :
        send_round q r
        ≡ (take count (lent view f r.max_bytes), (advance q q.epoch f.effect count).0)
    unfolding send_round
    send_round_lem =
        let (m, b, _) = front_facts in
        rw (front-lent view q f rest at_front m b r.max_bytes, send_round)

    count_within : count ≤ length (lent view f r.max_bytes)
    count_within = ground arith

    in_frame : f.written + count ≤ f.measure.wire_bytes
    in_frame =
        let (m, b, _) = front_facts in
        within_frame view q f rest at_front m b s.valid r.max_bytes count count_within

    -- The frames after the round: the front with its new count, or the rest.
    after_round :
        (((advance q q.epoch f.effect count).0.frames ≡ moved f count ∷ rest)
          × (f.written + count < f.measure.wire_bytes))
        ⊎ (((advance q q.epoch f.effect count).0.frames ≡ rest)
            × (f.written + count ≡ f.measure.wire_bytes))
    after_round = elim (Bool-cases (ltb (f.written + count) f.measure.wire_bytes)) [
      | inl part ↦
          let less : f.written + count < f.measure.wire_bytes = ground arith in
          inl (rw (advance_pending q s.valid f rest at_front count less), less)
      | inr whole ↦
          let all : f.written + count ≡ f.measure.wire_bytes =
            omega (arith, in_frame, not_less whole) in
          inr (rw (advance_complete q s.valid f rest at_front count all), all)
    ]
      where
        not_less :
            ltb (f.written + count) f.measure.wire_bytes ≡ false
            → f.measure.wire_bytes ≤ f.written + count
        not_less h = ground arith

    round-IsSendable : IsSendable (send_round q r).1
    round-IsSendable =
        let (m, b, others) = front_facts in
        rw send_round_lem (record {
          valid = advance-IsValid q q.epoch f.effect count s.valid;
          stable = elim after_round [ inl (e, _) ↦ rw e (b, others) | inr (e, _) ↦ rw e others ];
        })

    round-unsent :
        unsent view q.frames ≡ (send_round q r).0 ++ unsent view (send_round q r).1.frames
    round-unsent =
        let (m, b, _) = front_facts in
        rw send_round_lem
          (advance-unsent view q f rest at_front m b s.valid r.max_bytes count count_within)

    -- What is left to do falls with every round that asks for bytes and takes some.
    round-load : 0 < r.max_bytes → 0 < r.taken → load (send_round q r).1 < load q
    round-load asks takes =
        let (m, b, _) = front_facts in
        let whole = ap length round-unsent ∙ length-append (send_round q r).0 _ in
        let k = min_usize (length (unsent_of view f)) r.max_bytes in
        let k_fits : k ≤ length (unsent_of view f) = ground arith in
        let lent_length = length-take k (unsent_of view f) k_fits in
        let sent : length (send_round q r).0 ≡ count =
          ap (λ x. length x.0) send_round_lem
          ∙ length-take count (lent view f r.max_bytes) count_within in
        let before = ap length at_front in
        let after = ap (λ x. length x.1.frames) send_round_lem in
        let left = length-drop f.written (view.bytes f.frame) in
        elim after_round [
          | inl (e, less) ↦
              let kept = ap length e in
              let some_sent : 0 < count = ground (arith, lent_length, left, b, m.within_frame) in
              omega (arith, whole, sent, before, after, kept)
          | inr (e, all) ↦ let kept = ap length e in omega (arith, whole, sent, before, after, kept)
        ]

  round_empty : (q : WriteQueue F B) (r : Round) → q.frames ≡ [] → send_round q r ≡ ([], q)
  unfolding send_round front
  round_empty q r e = ground arith

  -- From a valid writer with a stable view, the bytes unsent before any rounds are those that the
  -- rounds send, followed by those still unsent after them, and the writer is again valid with a
  -- stable view.
  pub send_rounds-unsent :
      (q : WriteQueue F B) (rs : List Round)
      → IsSendable q
      → let (sent, q') = send_rounds q rs in
        (unsent view q.frames ≡ sent ++ unsent view q'.frames) × IsSendable q'
  unfolding send_rounds
  send_rounds-unsent q [] s = (refl, s)
  send_rounds-unsent q (r ∷ rs) s = elim (List-cases q.frames) [
    | inl e ↦ rw (round_empty q r e) (send_rounds-unsent q rs s)
    | inr (f, rest, e) ↦
        let (tail, good) =
          send_rounds-unsent (send_round q r).1 rs (round-IsSendable q s f rest e r) in
        (
          round-unsent q s f rest e r
              ∙ ap (λ xs. (send_round q r).0 ++ xs) tail
              ∙ sym (append_assoc (send_round q r).0 (send_rounds (send_round q r).1 rs).0 _),
          good,
        )
  ]

  empty_of_load : (q : WriteQueue F B) → load q ≡ 0 → q.frames ≡ []
  empty_of_load q h = elim (List-cases q.frames) [
    | inl e ↦ e
    | inr (f, rest, e) ↦ absurd (let l = ap length e in omega (arith, l, h))
  ]

  emptied :
      (q : WriteQueue F B) (rs : List Round)
      → IsSendable q
      → All IsPositive rs
      → load q ≤ length rs
      → (send_rounds q rs).1.frames ≡ []
  unfolding send_rounds
  emptied q [] s p enough = empty_of_load q (omega arith)
  emptied q (r ∷ rs) s p enough = elim (List-cases q.frames) [
    | inl e ↦
        let idle : load q ≤ length rs = rw e (omega arith) in
        rw (round_empty q r e) (emptied q rs s p.1 idle)
    | inr (f, rest, e) ↦
        let less = round-load q s f rest e r p.0.0 p.0.1 in
        emptied (send_round q r).1 rs (round-IsSendable q s f rest e r) p.1 (omega arith)
  ]

  -- From a valid writer with a stable view, rounds that each ask for bytes and take some, at least
  -- as many as there are unsent bytes and frames, send exactly the unsent bytes and leave no
  -- frame.
  pub send_rounds_complete :
      (q : WriteQueue F B) (rs : List Round)
      → IsSendable q
      → All IsPositive rs
      → load q ≤ length rs
      → ((send_rounds q rs).1.frames ≡ []) × ((send_rounds q rs).0 ≡ unsent view q.frames)
  send_rounds_complete q rs s p enough =
      let (stream, _) = send_rounds-unsent q rs s in
      let done = emptied q rs s p enough in
      (
        done,
        sym (append-nil _)
            ∙ ap (λ fs. (send_rounds q rs).0 ++ unsent view fs) (sym done)
            ∙ sym stream,
      )
