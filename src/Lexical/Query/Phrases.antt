-- ===== src/Lexical/Query/Phrases.antt =====
-- What FTS5 reads in a built expression: literal phrases and nothing else.
use mathlib.Core.Path.{subst}
use ecphoria.Prelude.{
  ℕ, ◌≡◌, refl, ap, sym, ◌∙◌, arith, Bool, true, false, not, Option, none, some, List, [], ◌∷◌,
  ◌++◌, if◌then◌else◌, keep, map, eqb, All, Bool-cases, eqb_iff, inl, inr, or_else,
}
use ecphoria.Prelude.Text.{Str, codes, join}
use ecphoria.Lexical.Query.{
  Unicode, is_stop_word, doubled, quoted, or_text, words, terms, expr_of, build_match_expr,
}

-- the text of a literal after its opening quote, and what follows it: two quotes stand for one
abbrev pub cons_text : ℕ → Option (Str × Str) → Option (Str × Str)
cons_text c none = none
cons_text c (some (t, rest)) = some (c ∷ t, rest)

abbrev pub literal : Str → Option (Str × Str)
literal [] = none
literal (c ∷ []) = if eqb c 34 then some ([], []) else none
literal (c ∷ d ∷ s) =
    let doubled_rest = literal s in
    let rest = literal (d ∷ s) in
    if eqb c 34
    then (if eqb d 34 then cons_text 34 doubled_rest else some ([], d ∷ s))
    else cons_text c rest

-- An expression that is the literals of the texts, with OR between each two.
unfoldable pub IsDisjunction : List Str → Str → Type 0
IsDisjunction [] s = ⊥
IsDisjunction (t ∷ []) s = (r : Str) × (s ≡ 34 ∷ r) × (literal r ≡ some (t, []))
IsDisjunction (t ∷ u ∷ ts) s =
    (r rest : Str) × (s ≡ 34 ∷ r)
    × (literal r ≡ some (t, codes " OR " ++ rest))
    × IsDisjunction (u ∷ ts) rest

-- what may follow a literal
abbrev ends_literal : Str → Bool
ends_literal [] = true
ends_literal (c ∷ s) = not (eqb c 34)

literal-end : (rest : Str) → ends_literal rest ≡ true → literal (34 ∷ rest) ≡ some ([], rest)
literal-end [] h = refl
literal-end (c ∷ s) h = ground arith

literal-other : (c : ℕ) (s : Str) → eqb c 34 ≡ false → literal (c ∷ s) ≡ cons_text c (literal s)
literal-other c [] h = ground arith
literal-other c (d ∷ s) h = ground arith

doubled-quote :
    (c : ℕ) (t s : Str) → eqb c 34 ≡ true → doubled (c ∷ t) ++ s ≡ 34 ∷ 34 ∷ (doubled t ++ s)
doubled-quote c t s h = ground arith

doubled-other : (c : ℕ) (t s : Str) → eqb c 34 ≡ false → doubled (c ∷ t) ++ s ≡ c ∷ (doubled t ++ s)
doubled-other c t s h = ground arith

-- A literal reads back as its text, whatever the text is.
literal-doubled :
    (t rest : Str) → ends_literal rest ≡ true → literal (doubled t ++ 34 ∷ rest) ≡ some (t, rest)
literal-doubled [] rest h = literal-end rest h
literal-doubled (c ∷ t) rest h = elim (Bool-cases (eqb c 34)) [
  | inl y ↦
      ap literal (doubled-quote c t (34 ∷ rest) y)
      ∙ ap (cons_text 34) (literal-doubled t rest h)
      ∙ ap (λ x. some (x ∷ t, rest)) (sym ((eqb_iff c 34).0 y))
  | inr n ↦
      ap literal (doubled-other c t (34 ∷ rest) n)
      ∙ literal-other c (doubled t ++ 34 ∷ rest) n
      ∙ ap (cons_text c) (literal-doubled t rest h)
]

append_assoc : (a b c : Str) → (a ++ b) ++ c ≡ a ++ (b ++ c)
append_assoc [] b c = refl
append_assoc (x ∷ a) b c = ap (λ s. x ∷ s) (append_assoc a b c)

join-IsDisjunction :
    (t : Str) (ts : List Str) → IsDisjunction (t ∷ ts) (join or_text (map quoted (t ∷ ts)))
unfolding IsDisjunction
join-IsDisjunction t [] = (doubled t ++ 34 ∷ [], refl, literal-doubled t [] refl)
join-IsDisjunction t (u ∷ ts) =
    let rest = join or_text (map quoted (u ∷ ts)) in
    (
      doubled t ++ 34 ∷ (or_text ++ rest),
      rest,
      ap (λ s. 34 ∷ s) (append_assoc (doubled t) (34 ∷ []) (or_text ++ rest)),
      literal-doubled t (or_text ++ rest) refl,
      join-IsDisjunction u ts,
    )

keep_if-All :
    {A : Type 0} (p : A → Bool) (b : Bool) (x : A) (rest : List A)
    → p x ≡ b
    → All (λ y. p y ≡ true) rest
    → All (λ y. p y ≡ true) (if b then x ∷ rest else rest)
keep_if-All p true x rest h a = (h, a)
keep_if-All p false x rest h a = a

keep-All : {A : Type 0} (p : A → Bool) (xs : List A) → All (λ y. p y ≡ true) (keep p xs)
keep-All p [] = tt
keep-All p (x ∷ xs) = keep_if-All p (p x) x (keep p xs) refl (keep-All p xs)

expr_of-IsDisjunction :
    (ts : List Str) (expr : Str) → expr_of ts ≡ some expr → IsDisjunction ts expr
expr_of-IsDisjunction [] expr h = absurd (ground arith)
expr_of-IsDisjunction (t ∷ ts) expr h =
    subst (IsDisjunction (t ∷ ts)) (ap (or_else []) h) (join-IsDisjunction t ts)

module _ (u : Unicode) where
  -- The expression that is built for a query is the terms of the query, each a literal that FTS5 reads
  -- back whatever its characters are, with OR between each two and nothing else; and no term is a
  -- stop word.
  pub build_match_expr-IsDisjunction :
      (query expr : Str)
      → build_match_expr u query ≡ some expr
      → IsDisjunction (terms u query) expr × All (λ t. not (is_stop_word t) ≡ true) (terms u query)
  unfolding build_match_expr terms
  build_match_expr-IsDisjunction query expr h = (
    expr_of-IsDisjunction (terms u query) expr h,
    keep-All (λ t. not (is_stop_word t)) (words u query),
  )
