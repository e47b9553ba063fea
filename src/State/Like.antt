-- ===== src/State/Like.antt =====
-- `LIKE … ESCAPE '\'` as SQLite reads it, and the escaping of a prefix
-- (crates/ecphoria-core/src/memory/state.rs, `delete_by_prefix` and `export_by_prefix`).
use ecphoria.Prelude.{
  ℕ, Bool, true, false, [], ◌∷◌, ◌++◌, ◌&&◌, ◌||◌, not, ap, ◌∙◌, eqb, eqb_iff, if◌then◌else◌, ◌≡◌,
  refl, Bool-cases, inl, inr,
}
use ecphoria.Prelude.Text.{Str, codes, lower, to_lowercase, starts_with}

abbrev some_suffix : (Str → Bool) → Str → Bool
some_suffix p [] = p []
some_suffix p (c ∷ s) = p (c ∷ s) || some_suffix p s

abbrev one : (ℕ → Bool) → (Str → Bool) → Str → Bool
one test rest [] = false
one test rest (c ∷ s) = test c && rest s

abbrev is_nil : Str → Bool
is_nil [] = true
is_nil (c ∷ s) = false

-- one pattern byte against one text byte; SQLite's LIKE folds ASCII case
abbrev same_letter : ℕ → ℕ → Bool
same_letter a b = eqb (lower a) (lower b)

-- `%` stands for any text and `_` for any byte; after a backslash, `escaped`, a byte stands for
-- itself, and a pattern that ends there matches nothing.
like_from : Bool → Str → Str → Bool
like_from escaped [] s = is_nil s && not escaped
like_from true (c ∷ p) s = one (same_letter c) (like_from false p) s
like_from false (c ∷ p) s =
    let after_escape = like_from true p s in
    if eqb c b'%'
    then some_suffix (like_from false p) s
    else if eqb c b'_'
    then one (λ _. true) (like_from false p) s
    else if eqb c b'\\'
    then after_escape
    else one (same_letter c) (like_from false p) s

unfoldable pub like : Str → Str → Bool
unfolding like_from
like = like_from false

-- `s.replace(c, "\\c")`
replace : ℕ → Str → Str
replace c [] = []
replace c (d ∷ s) = if eqb d c then b'\\' ∷ c ∷ replace c s else d ∷ replace c s

unfoldable pub prefix_pattern : Str → Str
unfolding replace
prefix_pattern prefix = replace b'_' (replace b'%' (replace b'\\' prefix)) ++ b'%' ∷ []

tests :
    (like (prefix_pattern (codes "a_b%")) (codes "A_B%c") ≡ true)
    × (like (prefix_pattern (codes "a_b%")) (codes "axb%c") ≡ false)
unfolding like prefix_pattern
tests = (refl, refl)

any_text : (s : Str) → some_suffix (like_from false []) s ≡ true
unfolding like_from
any_text [] = refl
any_text (c ∷ s) = any_text s

-- a byte of the prefix, escaped or not, matches itself
like-prefix_pattern_cons :
    (c : ℕ) (prefix s : Str)
    → like (prefix_pattern (c ∷ prefix)) s ≡ one (same_letter c) (like (prefix_pattern prefix)) s
unfolding like prefix_pattern
like-prefix_pattern_cons c prefix s = elim (Bool-cases (eqb c b'\\')) [
  | inl e ↦ (let e' : c ≡ b'\\' = (eqb_iff c b'\\').0 e in rw e')
  | inr e ↦ elim (Bool-cases (eqb c b'%')) [
    | inl f ↦ (let f' : c ≡ b'%' = (eqb_iff c b'%').0 f in rw f')
    | inr f ↦ elim (Bool-cases (eqb c b'_')) [
      | inl g ↦ (let g' : c ≡ b'_' = (eqb_iff c b'_').0 g in rw g')
      | inr g ↦ simp (e, f, g)
    ]
  ]
]

-- The pattern of a prefix matches the texts that begin with it, letters taken without their case.
pub like-prefix_pattern :
    (prefix s : Str)
    → like (prefix_pattern prefix) s ≡ starts_with (to_lowercase prefix) (to_lowercase s)
like-prefix_pattern [] s = unfold like prefix_pattern in any_text s
like-prefix_pattern (c ∷ prefix) [] = like-prefix_pattern_cons c prefix []
like-prefix_pattern (c ∷ prefix) (d ∷ s) =
    like-prefix_pattern_cons c prefix (d ∷ s)
    ∙ ap (λ b. same_letter c d && b) (like-prefix_pattern prefix s)
