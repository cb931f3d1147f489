-- ===== src/Host/Resources.antt =====
-- `calandria::ResourceTable`: values under tokens that name a slot of the table and its generation. `put`
-- is a write through `get_mut`.
use bornera.Prelude.{ℕ, ◌≡◌, ◌≢◌, ◌==◌, Option, some, none, List}
use bornera.Prelude.Search.{find?}

abbrev pub ResourceToken : Type 0
ResourceToken = ℕ

pub record ResourceTable (S K V : Type 0) : Type 0 where
  pub get : S → ResourceToken → Option (K × V)
  pub put : S → ResourceToken → V → S
  pub remove : S → ResourceToken → Option (S × V)
  pub tokens : S → List ResourceToken
  pub get_put_same :
      (s : S) (t : ResourceToken) (k : K) (v v' : V)
      → get s t ≡ some (k, v)
      → get (put s t v') t ≡ some (k, v')
  pub get_put_other :
      (s : S) (t t' : ResourceToken) (v : V) → t ≢ t' → get (put s t v) t' ≡ get s t'
  -- Every live token is among those that `iter` gives.
  pub tokens_live :
      (s : S) (t : ResourceToken) (e : K × V)
      → get s t ≡ some e
      → find? (λ t'. t' == t) (tokens s) ≡ some t
  -- A token whose value was removed is not live.
  pub remove_gone :
      (s s' : S) (t : ResourceToken) (v : V) → remove s t ≡ some (s', v) → get s' t ≡ none
