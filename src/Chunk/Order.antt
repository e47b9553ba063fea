-- ===== src/Chunk/Order.antt =====
-- The positions of the chunks.
use ecphoria.Prelude.{
  ℕ, zero, suc, ◌+◌, ◌≡◌, ◌∙◌, arith, some, List, [], ◌∷◌, ◌++◌, length, get_elem?, Bool-cases, inl,
  inr,
}
use ecphoria.Prelude.Text.{Str, trim}
use ecphoria.Chunk.{
  Chunk, ChunkOptions, Section, emit, chunks_from, chunk_markdown, split_sections, chunk_text,
  is_empty, parts_of,
}

-- Numbered from `n` on.
abbrev pub IsNumbered : ℕ → List (Chunk × ℕ) → Type 0
IsNumbered n [] = Unit
IsNumbered n (c ∷ cs) = (c.0.ordinal ≡ n) × IsNumbered (suc n) cs

IsNumbered-append :
    (n : ℕ) (cs ds : List (Chunk × ℕ))
    → IsNumbered n cs
    → IsNumbered (n + length cs) ds
    → IsNumbered n (cs ++ ds)
IsNumbered-append n [] ds h k = let e : n + 0 ≡ n = omega arith in rw e at k
IsNumbered-append n (c ∷ cs) ds h k =
    let e : n + suc (length cs) ≡ suc n + length cs = omega arith in
    (h.0, IsNumbered-append (suc n) cs ds h.1 (rw e at k))

emit-IsNumbered :
    (path : List Str) (n i : ℕ) (parts : List Str) → IsNumbered n (emit path n i parts)
unfolding emit
emit-IsNumbered path n i [] = tt
emit-IsNumbered path n i (p ∷ ps) = elim (Bool-cases (is_empty (trim (chunk_text path p)))) [
  | inl e ↦ ground (arith, emit-IsNumbered path n (suc i) ps)
  | inr e ↦ ground (arith, emit-IsNumbered path (suc n) (suc i) ps)
]

chunks_from-IsNumbered :
    (opts : ChunkOptions) (n : ℕ) (ss : List Section) → IsNumbered n (chunks_from opts n ss)
unfolding chunks_from
chunks_from-IsNumbered opts n [] = tt
chunks_from-IsNumbered opts n (s ∷ ss) =
    let out = emit s.heading_path n 0 (parts_of opts s) in
    IsNumbered-append n out (chunks_from opts (n + length out) ss)
      (emit-IsNumbered s.heading_path n 0 (parts_of opts s))
      (chunks_from-IsNumbered opts (n + length out) ss)

IsNumbered-get :
    (n i : ℕ) (cs : List (Chunk × ℕ)) (c : Chunk × ℕ)
    → IsNumbered n cs
    → get_elem? cs i ≡ some c
    → c.0.ordinal ≡ n + i
IsNumbered-get n i [] c h e = absurd (ground arith)
IsNumbered-get n zero (d ∷ cs) c h e = ground arith
IsNumbered-get n (suc i) (d ∷ cs) c h e = let r = IsNumbered-get (suc n) i cs c h.1 e in omega arith

-- The chunk at each position of the result has that position as its ordinal.
pub chunk_markdown-ordinal :
    (markdown : Str) (opts : ChunkOptions) (i : ℕ) (c : Chunk) (part : ℕ)
    → get_elem? (chunk_markdown markdown opts) i ≡ some (c, part)
    → c.ordinal ≡ i
unfolding chunk_markdown
chunk_markdown-ordinal markdown opts i c part e =
    IsNumbered-get 0 i (chunk_markdown markdown opts) (c, part)
      (chunks_from-IsNumbered opts 0 (split_sections markdown)) e
    ∙ omega arith
