-- ===== src/Admission/Ledger.antt =====
-- admission/ledger.rs: the accounting behind permits and accepted operations.
use bornera.Prelude.{
  ℕ, zero, suc, ◌+◌, Bool, true, false, Option, none, some, ltb, ◌==◌, if◌then◌else◌, Result, ok,
  err,
}
use bornera.Host.{Calandria}
use bornera.Identity.{MatchKey}
use bornera.Limits.{ConnectionLimits}
use bornera.Limits.KeySpace
use bornera.Admission.KeySet
use bornera.Admission.KeySet.{ActiveKeySet}
use bornera.Admission.Options.{
  Reservation, ReserveError, operation_capacity, retained_byte_capacity, write_capacity,
  match_key_exhausted,
}

pub record ReservationLedger : Type 0 where
  pub limits : ConnectionLimits
  pub operations : ℕ
  pub permits : ℕ
  pub retained_bytes : ℕ
  pub write_frames : ℕ
  pub write_retained_bytes : ℕ
  pub active_keys : ActiveKeySet
  pub next_key : MatchKey
  pub poisoned : Bool

unfoldable pub new : ConnectionLimits → ReservationLedger
new limits = record {
  limits = limits;
  operations = 0;
  permits = 0;
  retained_bytes = 0;
  write_frames = 0;
  write_retained_bytes = 0;
  active_keys = KeySet.new limits.max_operations;
  next_key = limits.match_keys.first;
  poisoned = false;
}

-- usize::checked_sub(1)
abbrev pub checked_pred : ℕ → Option ℕ
checked_pred zero = none
checked_pred (suc n) = some n

abbrev pub poison : ReservationLedger → ReservationLedger
poison l = record l { poisoned = true }

-- The `for` of `allocate_key`: the first free key from `candidate` on.
unfoldable pub free_key : ReservationLedger → ℕ → MatchKey → Option MatchKey
free_key l zero candidate = none
free_key l (suc attempts) candidate =
    let rest = free_key l attempts (KeySpace.next l.limits.match_keys candidate) in
    if KeySet.contains l.active_keys candidate then rest else some candidate

-- `len + 1` cannot leave 64 bits: a set holds at most as many keys as it has slots.
unfoldable pub allocate_key : ReservationLedger → ReservationLedger × Result MatchKey ReserveError
unfolding free_key
allocate_key l = elim (free_key l (l.active_keys.len + 1) l.next_key) [
  | none ↦ (l, err match_key_exhausted)
  | some key ↦ (record l { next_key = KeySpace.next l.limits.match_keys key }, ok key)
]

module _ ⦃host : Calandria⦄ where
  open host use {checked_add, checked_sub}

  -- `reserve`, from the allocation of a key on
  unfoldable pub reserve_key :
      ReservationLedger → ℕ → ℕ → ℕ → ℕ → ReservationLedger × Result Reservation ReserveError
  unfolding allocate_key
  reserve_key l retained write_retained next_retained next_write =
      let (l', allocated) = allocate_key l in
      elim allocated [
        | err e ↦ (l', err e)
        | ok key ↦
            let (keys, inserted) = KeySet.insert l'.active_keys key in
            let held = record l' {
              operations = l'.operations + 1;
              permits = l'.permits + 1;
              retained_bytes = next_retained;
              write_frames = l'.write_frames + 1;
              write_retained_bytes = next_write;
              active_keys = keys;
            } in
            if inserted
            then (
              held,
              ok (record {
                retained_bytes = retained;
                write_retained_bytes = write_retained;
                match_key = key;
              }),
            )
            else (poison (record l' { active_keys = keys }), err ReserveError.owner_poisoned)
      ]

  -- The guards of `reserve`, in their order: the totals after the reservation, or the refusal.
  unfoldable pub reserve_totals : ReservationLedger → ℕ → ℕ → Result (ℕ × ℕ) ReserveError
  reserve_totals l retained write_retained =
      if l.poisoned
      then err ReserveError.owner_poisoned
      else (if l.operations == l.limits.max_operations
          then err operation_capacity
          else (elim (checked_add l.retained_bytes retained) [
            | none ↦ err retained_byte_capacity
            | some next_retained ↦
                if ltb l.limits.max_retained_bytes next_retained
                then err retained_byte_capacity
                else (if l.write_frames == l.limits.max_write_frames
                    then err write_capacity
                    else (elim (checked_add l.write_retained_bytes write_retained) [
                      | none ↦ err write_capacity
                      | some next_write ↦
                          if ltb l.limits.max_write_retained_bytes next_write
                          then err write_capacity
                          else ok (next_retained, next_write)
                    ]))
          ]))

  unfoldable pub reserve :
      ReservationLedger → ℕ → ℕ → ReservationLedger × Result Reservation ReserveError
  unfolding reserve_totals reserve_key
  reserve l retained write_retained = elim (reserve_totals l retained write_retained) [
    | err e ↦ (l, err e)
    | ok (next_retained, next_write) ↦
        reserve_key l retained write_retained next_retained next_write
  ]

  unfoldable pub commit : ReservationLedger → Reservation → ℕ → ReservationLedger
  commit l reservation actual = elim (checked_pred l.permits) [
    | none ↦ poison l
    | some permits ↦ elim (checked_sub reservation.write_retained_bytes actual) [
      | none ↦ poison l
      | some unused ↦ elim (checked_sub l.write_retained_bytes unused) [
        | none ↦ poison l
        | some write_retained ↦ record l {
          permits = permits;
          write_retained_bytes = write_retained;
        }
      ]
    ]
  ]

  -- The write part of `release_all`: the frames and bytes that stay held.
  unfoldable pub released_write : ReservationLedger → Reservation → Bool → Option (ℕ × ℕ)
  released_write l reservation false = some (l.write_frames, l.write_retained_bytes)
  released_write l reservation true = elim (checked_pred l.write_frames) [
    | none ↦ none
    | some frames ↦ elim (checked_sub l.write_retained_bytes reservation.write_retained_bytes) [
      | none ↦ none
      | some retained ↦ some (frames, retained)
    ]
  ]

  unfoldable pub released_permits : ReservationLedger → Bool → Option ℕ
  released_permits l false = some l.permits
  released_permits l true = checked_pred l.permits

  unfoldable pub release_all : ReservationLedger → Reservation → Bool → Bool → ReservationLedger
  unfolding released_write released_permits
  release_all l reservation write_held release_permit = elim (checked_pred l.operations) [
    | none ↦ poison l
    | some operations ↦ elim (checked_sub l.retained_bytes reservation.retained_bytes) [
      | none ↦ poison l
      | some retained ↦ elim (released_permits l release_permit) [
        | none ↦ poison l
        | some permits ↦ elim (released_write l reservation write_held) [
          | none ↦ poison l
          | some (frames, write_retained) ↦
              let (keys, removed) = KeySet.remove l.active_keys reservation.match_key in
              let released = record l {
                operations = operations;
                permits = permits;
                retained_bytes = retained;
                write_frames = frames;
                write_retained_bytes = write_retained;
                active_keys = keys;
              } in
              if removed then released else poison (record l { active_keys = keys })
        ]
      ]
    ]
  ]

  unfoldable pub rollback_permit : ReservationLedger → Reservation → ReservationLedger
  unfolding release_all
  rollback_permit l reservation = release_all l reservation true true

  unfoldable pub release_operation : ReservationLedger → Reservation → Bool → ReservationLedger
  unfolding release_all
  release_operation l reservation write_held = release_all l reservation write_held false

  unfoldable pub release_write : ReservationLedger → ℕ → ReservationLedger
  release_write l write_retained = elim (checked_pred l.write_frames) [
    | none ↦ poison l
    | some frames ↦ elim (checked_sub l.write_retained_bytes write_retained) [
      | none ↦ poison l
      | some retained ↦ record l { write_frames = frames; write_retained_bytes = retained }
    ]
  ]
