-- ===== src/Cache/Reader.antt =====
-- The cache behind the proxy: who reads an answer (the scopes of `rag_cache_scope`).
use ecphoria.Prelude.{ℕ, ◌≡◌, Option, some, List, In, or_else}
use ecphoria.Prelude.Text.{Str, codes}
use ecphoria.Cache.{VectorIndex, normalize_key, rag_cache_scope, fingerprint}
use ecphoria.Cache.Keys.{IsFree}
use ecphoria.Cache.History.{Call, asked, stored, swept}

-- who asks, with the retrieved context
pub record Reader : Type 0 where
  pub tenant : Option Str
  pub user : Option Str
  pub context : Option Str

module _ {Index F : Type 0} (to_lowercase sha256_hex : Str → Str)
    (usearch : VectorIndex Index F) where
  abbrev pub scope_of : Reader → Str
  scope_of a = rag_cache_scope sha256_hex a.tenant a.user a.context

  -- no unit separator in the tenant or the fingerprint
  abbrev pub IsPlain : Reader → Type 0
  IsPlain a = IsFree (or_else (codes "-") a.tenant) × IsFree (fingerprint sha256_hex a.context)

  abbrev pub IsSame : Reader → Reader → Type 0
  IsSame a b =
      (or_else (codes "-") a.tenant ≡ or_else (codes "-") b.tenant)
      × (or_else (codes "-") a.user ≡ or_else (codes "-") b.user)
      × (fingerprint sha256_hex a.context ≡ fingerprint sha256_hex b.context)

  -- a call of the proxy
  abbrev pub IsProxied : ℕ × Call to_lowercase usearch → Type 0
  IsProxied (t, asked q s) = Unit
  IsProxied (t, stored q r emb s) =
      (a : Reader) × (s ≡ some (scope_of a)) × IsPlain a × IsFree (normalize_key to_lowercase q)
  IsProxied (t, swept) = Unit

  -- the answer was stored at `t` for a reader of the same tenant, user and fingerprint, and for a
  -- prompt with `Q`
  abbrev pub IsShared :
      (Str → Type 0) → List (ℕ × Call to_lowercase usearch) → ℕ → Reader → Str → Type 0
  IsShared Q calls t a r =
      (b : Reader) × (q : Str) × (emb : Option (List F)) × In
        (t, stored q r emb (some (scope_of b))) calls
      × IsSame b a
      × Q q
