-- ===== src/Cache/Keys.antt =====
-- When two questions have one key.
use ecphoria.Prelude.{
  ◌≡◌, refl, ap, sym, arith, false, Option, none, some, [], ◌∷◌, ◌++◌, eqb, All, or_else,
}
use mathlib.Core.Path.{subst}
use ecphoria.Prelude.Text.{Str, codes}
use ecphoria.Cache.{cache_key, normalize_key, rag_cache_scope, fingerprint}

-- no unit separator in the text
abbrev pub IsFree : Str → Type 0
IsFree s = All (λ c. eqb c 0x1f ≡ false) s

not_inside : (a x : Str) → IsFree (a ++ 0x1f ∷ x) → ⊥
not_inside [] x h = absurd (ground arith)
not_inside (c ∷ a) x h = not_inside a x h.1

same_first :
    (a b x y : Str) → IsFree a → IsFree b → a ++ 0x1f ∷ x ≡ b ++ 0x1f ∷ y → (a ≡ b) × (x ≡ y)
same_first [] [] x y h k e = ground arith
same_first [] (d ∷ b) x y h k e = absurd (ground arith)
same_first (c ∷ a) [] x y h k e = absurd (ground arith)
same_first (c ∷ a) (d ∷ b) x y h k e = ground (arith, same_first a b x y h.1 k.1)

same_last :
    (a b x y : Str) → IsFree x → IsFree y → a ++ 0x1f ∷ x ≡ b ++ 0x1f ∷ y → (a ≡ b) × (x ≡ y)
same_last [] [] x y h k e = ground arith
same_last [] (d ∷ b) x y h k e =
    let q : x ≡ b ++ 0x1f ∷ y = ground arith in absurd (not_inside b y (subst IsFree q h))
same_last (c ∷ a) [] x y h k e =
    let q : y ≡ a ++ 0x1f ∷ x = ground arith in absurd (not_inside a x (subst IsFree q k))
same_last (c ∷ a) (d ∷ b) x y h k e = ground (arith, same_last a b x y h k)

module _ (to_lowercase : Str → Str) where
  -- Where the normalized prompts have no unit separator, one key means one scope and one normalized
  -- prompt.
  pub same_cache_key :
      (s t : Option Str) (q r : Str)
      → IsFree (normalize_key to_lowercase q)
      → IsFree (normalize_key to_lowercase r)
      → cache_key to_lowercase s q ≡ cache_key to_lowercase t r
      → (s ≡ t) × (normalize_key to_lowercase q ≡ normalize_key to_lowercase r)
  unfolding cache_key
  same_cache_key none none q r h k e = (refl, e)
  same_cache_key none (some t) q r h k e =
      absurd (not_inside t (normalize_key to_lowercase r) (subst IsFree e h))
  same_cache_key (some s) none q r h k e =
      absurd (not_inside s (normalize_key to_lowercase q) (subst IsFree (sym e) k))
  same_cache_key (some s) (some t) q r h k e =
      let (a, b) =
        same_last s t (normalize_key to_lowercase q) (normalize_key to_lowercase r) h k e in
      (ap some a, b)

module _ (sha256_hex : Str → Str) where
  -- Where tenants and fingerprints have no unit separator, one scope means one tenant, one user and
  -- one fingerprint.
  pub same_scope :
      (t t' u u' c c' : Option Str)
      → IsFree (or_else (codes "-") t)
      → IsFree (or_else (codes "-") t')
      → IsFree (fingerprint sha256_hex c)
      → IsFree (fingerprint sha256_hex c')
      → rag_cache_scope sha256_hex t u c ≡ rag_cache_scope sha256_hex t' u' c'
      → (or_else (codes "-") t ≡ or_else (codes "-") t')
        × (or_else (codes "-") u ≡ or_else (codes "-") u')
        × (fingerprint sha256_hex c ≡ fingerprint sha256_hex c')
  unfolding rag_cache_scope
  same_scope t t' u u' c c' f f' g g' e =
      let (a, r) =
        same_first (or_else (codes "-") t) (or_else (codes "-") t')
          (or_else (codes "-") u ++ 0x1f ∷ fingerprint sha256_hex c)
          (or_else (codes "-") u' ++ 0x1f ∷ fingerprint sha256_hex c') f f' e in
      let (b, d) =
        same_last (or_else (codes "-") u) (or_else (codes "-") u') (fingerprint sha256_hex c)
          (fingerprint sha256_hex c') g g' r in
      (a, b, d)
