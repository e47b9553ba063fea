-- ===== src/Chunk/Sizes.antt =====
-- How large the packed parts are.
use ecphoria.Prelude.{
  ℕ, ◌+◌, ◌≤◌, ◌≡◌, refl, arith, true, false, not, ◌&&◌, List, [], ◌∷◌, ◌++◌, ltb, All, In, here,
  there, Bool-cases, inl, inr, ◌⊎◌,
}
use ecphoria.Prelude.Text.{Str}
use ecphoria.Chunk.{
  byte_len, packed_from, paragraphs_from, pack_paragraphs, is_empty, unless_blank, push_line, lines,
}

-- Within the bound and the last newline, or one paragraph.
abbrev pub IsPacked : ℕ → List Str → Str → Type 0
IsPacked max_chars ps part =
    (byte_len part ≤ max_chars + 1) ⊎ ((p : Str) × In p ps × (part ≡ p ++ 10 ∷ []))

byte_len-append : (s t : Str) → byte_len (s ++ t) ≡ byte_len s + byte_len t
unfolding byte_len
byte_len-append [] t = omega arith
byte_len-append (c ∷ s) t = omega (arith, byte_len-append s t)

byte_len-push_line : (s p : Str) → byte_len (push_line s p) ≡ byte_len s + byte_len p + 1
unfolding byte_len
byte_len-push_line s p =
    ground (arith, byte_len-append s (p ++ 10 ∷ []), byte_len-append p (10 ∷ []))

in_more :
    (n : ℕ) (q : Str) (ps : List Str) (part : Str) → IsPacked n ps part → IsPacked n (q ∷ ps) part
in_more n q ps part (inl h) = inl h
in_more n q ps part (inr (p, i, e)) = inr (p, there i, e)

All-more :
    (n : ℕ) (q : Str) (ps parts : List Str)
    → All (IsPacked n ps) parts
    → All (IsPacked n (q ∷ ps)) parts
All-more n q ps [] h = tt
All-more n q ps (part ∷ parts) h = (in_more n q ps part h.0, All-more n q ps parts h.1)

unless_blank-All :
    (P : Str → Type 0) (s : Str) (rest : List Str) → P s → All P rest → All P (unless_blank s rest)
unless_blank-All P s rest p h = ground arith

module _ (n : ℕ) (ps : List Str) where
  last-IsPacked :
      (current : Str)
      → (current ≡ []) ⊎ IsPacked n ps current
      → All (IsPacked n ps) (unless_blank current [])
  last-IsPacked current (inl e) = ground arith
  last-IsPacked current (inr h) = unless_blank-All (IsPacked n ps) current [] h tt

  full-IsPacked :
      (current p : Str)
      → (current ≡ []) ⊎ IsPacked n ps current
      → not (is_empty current) && ltb n (byte_len current + byte_len p) ≡ true
      → IsPacked n ps current
  full-IsPacked current p (inl e) t = absurd (ground arith)
  full-IsPacked current p (inr h) t = h

  pushed-IsPacked :
      (current p : Str)
      → In p ps
      → not (is_empty current) && ltb n (byte_len current + byte_len p) ≡ false
      → IsPacked n ps (push_line current p)
  pushed-IsPacked [] p i f = inr (p, i, refl)
  pushed-IsPacked (c ∷ s) p i f = inl (ground (arith, byte_len-push_line (c ∷ s) p))

  packed_from-IsPacked :
      (current : Str) (qs : List Str)
      → (current ≡ []) ⊎ IsPacked n ps current
      → All (λ q. In q ps) qs
      → All (IsPacked n ps) (packed_from n current qs)
  unfolding packed_from
  packed_from-IsPacked current [] h i = last-IsPacked current h
  packed_from-IsPacked current (q ∷ qs) h i =
      elim (Bool-cases (not (is_empty current) && ltb n (byte_len current + byte_len q))) [
        | inl t ↦ ground (
          arith,
          full-IsPacked current q h t,
          packed_from-IsPacked (q ++ 10 ∷ []) qs (inr (inr (q, i.0, refl))) i.1,
        )
        | inr f ↦ ground (
          arith,
          packed_from-IsPacked (push_line current q) qs (inr (pushed-IsPacked current q i.0 f)) i.1,
        )
      ]

All-In : (ps qs : List Str) → ((q : Str) → In q qs → In q ps) → All (λ q. In q ps) qs
All-In ps [] f = tt
All-In ps (q ∷ qs) f = (f q (here refl), All-In ps qs (λ r i. f r (there i)))

-- A part has at most `max_chars` bytes and one more for its last newline, unless it is a single
-- paragraph of the body.
pub pack_paragraphs-IsPacked :
    (body : Str) (max_chars : ℕ)
    → All
        (IsPacked max_chars (paragraphs_from false [] (lines body)))
        (pack_paragraphs body max_chars)
unfolding pack_paragraphs
pack_paragraphs-IsPacked body max_chars =
    let ps = paragraphs_from false [] (lines body) in
    packed_from-IsPacked max_chars ps [] ps (inl refl) (All-In ps ps (λ q i. i))
