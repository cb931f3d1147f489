-- ===== src/Host/Queues.antt =====
-- What a slot takes from `calandria`: the event batches that it publishes into, and its timer queue.
-- A batch and a queue are known by what they hold.
use bornera.Prelude.{ℕ, ◌≡◌, Option, List, [], ◌∷◌, ◌++◌, length, Result, ok}

-- calandria::EventBatchFailure and calandria::TimerScheduleFailure, only ever passed on: a code.
abbrev pub EventBatchFailure : Type 0
EventBatchFailure = ℕ

abbrev pub TimerScheduleFailure : Type 0
TimerScheduleFailure = ℕ

-- `calandria::EventBatch<A>`, with a count and a retained limit. A refused push gives its item back
-- and leaves the batch as it was.
pub record EventBatch (S A : Type 0) : Type 0 where
  pub new : ℕ → ℕ → S
  pub items : S → List A
  pub len : S → ℕ
  pub try_push : S → A → Result S EventBatchFailure
  pub drain : S → S
  pub items_new : (count retained : ℕ) → items (new count retained) ≡ []
  pub len_lem : (s : S) → len s ≡ length (items s)
  pub items_push : (s s' : S) (a : A) → try_push s a ≡ ok s' → items s' ≡ items s ++ a ∷ []
  pub items_drain : (s : S) → items (drain s) ≡ []

-- `calandria::TimerToken`
abbrev pub TimerToken : Type 0
TimerToken = ℕ

-- `calandria::TimerQueue<V>`, made by its owner with a capacity. `pop_due` removes one due timer.
pub record TimerQueue (Q V : Type 0) : Type 0 where
  pub new : ℕ → ℕ → Q
  pub len : Q → ℕ
  pub next_deadline : Q → Option ℕ
  pub schedule : Q → ℕ → V → Result (Q × TimerToken) TimerScheduleFailure
  pub pop_due : Q → ℕ → Option (Q × TimerToken × V)
  pub cancel : Q → TimerToken → Q
