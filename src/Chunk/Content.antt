-- ===== src/Chunk/Content.antt =====
-- Packing loses no text.
use ecphoria.Prelude.{
  ℕ, suc, ◌+◌, ◌≡◌, refl, ap, sym, ◌∙◌, arith, Bool, true, false, not, ◌&&◌, List, [], ◌∷◌, ◌++◌,
  if◌then◌else◌, ltb, is_some, or_else, length, none, some, Bool-cases, Option-cases, inl, inr,
}
use ecphoria.Prelude.Text.{Str, trim, strip_prefix}
use ecphoria.Chunk.{
  packed_from, paragraphs_from, pack_paragraphs, is_empty, unless_blank, push_line, lines, is_fence,
  byte_len, Chunk, ChunkOptions, trail, chunk_text, emit, chunks_from, chunk_markdown, Section,
  parts_of, finished, sections_from, split_sections, add_line, heading_of, opened, titles,
}
use ecphoria.Chunk.Solid.{
  solid, solid_all, append_assoc, append_nil, solid-append, solid-newline, solid-push_line,
  solid-trim, solid-empty, lines-solid,
}

unless_blank-solid :
    (s : Str) (rest : List Str) → solid_all (unless_blank s rest) ≡ solid s ++ solid_all rest
unfolding solid_all
unless_blank-solid s rest = elim (Bool-cases (is_empty (trim s))) [
  | inl e ↦ ground (arith, solid-trim s, solid-empty (trim s) e)
  | inr e ↦ ground arith
]

packed_from-solid :
    (n : ℕ) (current : Str) (ps : List Str)
    → solid_all (packed_from n current ps) ≡ solid current ++ solid_all ps
unfolding packed_from solid_all
packed_from-solid n current [] = unless_blank-solid current []
packed_from-solid n current (p ∷ ps) =
    elim (Bool-cases (not (is_empty current) && ltb n (byte_len current + byte_len p))) [
      | inl t ↦ ground (arith, packed_from-solid n (p ++ 10 ∷ []) ps, solid-newline p)
      | inr f ↦ ground (
        arith,
        packed_from-solid n (push_line current p) ps,
        solid-push_line current p,
        append_assoc (solid current) (solid p) (solid_all ps),
      )
    ]

paragraphs_from-solid :
    (in_fence : Bool) (buf : Str) (ls : List Str)
    → solid_all (paragraphs_from in_fence buf ls) ≡ solid buf ++ solid_all ls
unfolding paragraphs_from solid_all solid
paragraphs_from-solid in_fence buf [] = unless_blank-solid buf []
paragraphs_from-solid in_fence buf (line ∷ ls) =
    let pushed = solid-push_line buf line in
    let assoc = append_assoc (solid buf) (solid line) (solid_all ls) in
    elim (Bool-cases (is_fence line)) [
      | inl t ↦ elim (Bool-cases in_fence) [
        | inl i ↦ ground (arith, paragraphs_from-solid false [] ls, pushed, assoc)
        | inr i ↦ ground (arith, paragraphs_from-solid true (push_line buf line) ls, pushed, assoc)
      ]
      | inr t ↦ elim (Bool-cases (not in_fence && is_empty (trim line))) [
        | inl b ↦
            let none_left : solid line ≡ [] =
              sym (solid-trim line) ∙ solid-empty (trim line) (ground arith) in
            ground (
              arith,
              unless_blank-solid buf (paragraphs_from in_fence [] ls),
              paragraphs_from-solid in_fence [] ls,
            )
        | inr b ↦
            ground (arith, paragraphs_from-solid in_fence (push_line buf line) ls, pushed, assoc)
      ]
    ]

pack_paragraphs-solid :
    (body : Str) (max_chars : ℕ) → solid_all (pack_paragraphs body max_chars) ≡ solid body
unfolding pack_paragraphs solid
pack_paragraphs-solid body max_chars =
    packed_from-solid max_chars [] (paragraphs_from false [] (lines body))
    ∙ paragraphs_from-solid false [] (lines body)
    ∙ lines-solid body

parts_of-solid : (opts : ChunkOptions) (s : Section) → solid_all (parts_of opts s) ≡ solid s.body
unfolding parts_of solid_all
parts_of-solid opts s = elim (Bool-cases (is_empty (trim s.body))) [
  | inl e ↦ ground (arith, solid-trim s.body, solid-empty (trim s.body) e)
  | inr e ↦ ground (
    arith,
    solid-trim s.body,
    append_nil (solid (trim s.body)),
    pack_paragraphs-solid (trim s.body) opts.target_chars,
  )
]

-- the parts of all sections
abbrev pub all_parts : ChunkOptions → List Section → List Str
all_parts opts [] = []
all_parts opts (s ∷ ss) = parts_of opts s ++ all_parts opts ss

-- The lines that are no headings. A heading in a fenced block is none.
unfoldable pub text_lines : Bool → List Str → List Str
text_lines in_fence [] = []
text_lines in_fence (line ∷ ls) =
    let inside = text_lines (not in_fence) ls in
    let after = text_lines in_fence ls in
    if is_fence line
    then line ∷ inside
    else if in_fence
    then line ∷ after
    else if is_some (heading_of line)
    then after
    else line ∷ after

solid_bodies : List Section → Str
unfolding solid
solid_bodies [] = []
solid_bodies (s ∷ ss) = solid s.body ++ solid_bodies ss

finished-solid :
    (current : Section) (rest : List Section)
    → solid_bodies (finished current rest) ≡ solid current.body ++ solid_bodies rest
unfolding solid_bodies
finished-solid current rest = elim (Bool-cases (is_empty (trim current.body))) [
  | inl e ↦ ground (arith, solid-trim current.body, solid-empty (trim current.body) e)
  | inr e ↦ ground arith
]

sections_from-solid :
    (in_fence : Bool) (stack : List (ℕ × Str)) (current : Section) (ls : List Str)
    → solid_bodies (sections_from in_fence stack current ls)
      ≡ solid current.body ++ solid_all (text_lines in_fence ls)
unfolding sections_from text_lines solid_bodies solid_all solid
sections_from-solid in_fence stack current [] = finished-solid current []
sections_from-solid in_fence stack current (line ∷ ls) =
    let pushed = solid-push_line current.body line in
    let added =
      λ (b : Bool). append_assoc (solid current.body) (solid line) (solid_all (text_lines b ls)) in
    elim (Bool-cases (is_fence line)) [
      | inl t ↦ ground (
        arith,
        sections_from-solid (not in_fence) stack (add_line current line) ls,
        pushed,
        added (not in_fence),
      )
      | inr t ↦ elim (Option-cases (if in_fence then none else heading_of line)) [
        | inr n ↦ ground (
          arith,
          sections_from-solid in_fence stack (add_line current line) ls,
          pushed,
          added in_fence,
        )
        | inl ((level, title), e) ↦
            let stack' = opened stack level title in
            let next : Section = record { heading_path = titles stack'; body = [] } in
            ground (
              arith,
              finished-solid current (sections_from in_fence stack' next ls),
              sections_from-solid in_fence stack' next ls,
            )
      ]
    ]

solid_all-append : (a b : List Str) → solid_all (a ++ b) ≡ solid_all a ++ solid_all b
unfolding solid_all
solid_all-append [] b = refl
solid_all-append (s ∷ a) b =
    ground (arith, solid_all-append a b, append_assoc (solid s) (solid_all a) (solid_all b))

all_parts-solid :
    (opts : ChunkOptions) (ss : List Section) → solid_all (all_parts opts ss) ≡ solid_bodies ss
unfolding solid_all solid_bodies
all_parts-solid opts [] = refl
all_parts-solid opts (s ∷ ss) = ground (
  arith,
  solid_all-append (parts_of opts s) (all_parts opts ss),
  parts_of-solid opts s,
  all_parts-solid opts ss,
)

parts-solid :
    (markdown : Str) (opts : ChunkOptions)
    → solid_all (all_parts opts (split_sections markdown))
      ≡ solid_all (text_lines false (lines markdown))
unfolding split_sections solid
parts-solid markdown opts =
    all_parts-solid opts (split_sections markdown)
    ∙ sections_from-solid false [] (record { heading_path = []; body = [] }) (lines markdown)

-- the text of a chunk behind its trail
unfoldable pub body_text : Chunk → Str
body_text c =
    if is_empty (trail c.heading_path)
    then c.text
    else or_else [] (strip_prefix (trail c.heading_path ++ (10 ∷ 10 ∷ [])) c.text)

unfoldable pub body_texts : List (Chunk × ℕ) → List Str
unfolding body_text
body_texts [] = []
body_texts ((c, i) ∷ cs) = body_text c ∷ body_texts cs

strip_prefix-append : (p s : Str) → strip_prefix p (p ++ s) ≡ some s
strip_prefix-append [] s = refl
strip_prefix-append (c ∷ p) s = ground (arith, strip_prefix-append p s)

body_text-chunk_text :
    (path : List Str) (part : Str) (n : ℕ)
    → body_text (record { heading_path = path; text = chunk_text path part; ordinal = n })
      ≡ trim part
unfolding body_text chunk_text
body_text-chunk_text path part n = elim (Bool-cases (is_empty (trail path))) [
  | inl e ↦ ground arith
  | inr e ↦ ground (
    arith,
    append_assoc (trail path) (10 ∷ 10 ∷ []) (trim part),
    strip_prefix-append (trail path ++ (10 ∷ 10 ∷ [])) (trim part),
  )
]

right_empty : (a b : Str) → a ++ b ≡ [] → b ≡ []
right_empty [] b e = e
right_empty (x ∷ a) b e = absurd (ground arith)

dropped-solid :
    (path : List Str) (part : Str) → is_empty (trim (chunk_text path part)) ≡ true → solid part ≡ []
unfolding chunk_text solid
dropped-solid path part e =
    let none_left =
      sym (solid-trim (chunk_text path part)) ∙ solid-empty (trim (chunk_text path part)) e in
    elim (Bool-cases (is_empty (trail path))) [
      | inl t ↦ ground (arith, none_left, solid-trim part)
      | inr t ↦ right_empty (solid (trail path)) (solid part) (
          ground
            (arith, none_left, solid-append (trail path) (10 ∷ 10 ∷ trim part), solid-trim part))
    ]

emit-solid :
    (path : List Str) (n i : ℕ) (parts : List Str)
    → solid_all (body_texts (emit path n i parts)) ≡ solid_all parts
unfolding emit body_texts solid_all
emit-solid path n i [] = refl
emit-solid path n i (p ∷ ps) = elim (Bool-cases (is_empty (trim (chunk_text path p)))) [
  | inl e ↦ ground (arith, emit-solid path n (suc i) ps, dropped-solid path p e)
  | inr e ↦
      ground
        (arith, emit-solid path (suc n) (suc i) ps, body_text-chunk_text path p n, solid-trim p)
]

body_texts-append : (a b : List (Chunk × ℕ)) → body_texts (a ++ b) ≡ body_texts a ++ body_texts b
unfolding body_texts
body_texts-append [] b = refl
body_texts-append ((c, i) ∷ a) b = ap (◌∷◌ (body_text c)) (body_texts-append a b)

chunks_from-solid :
    (opts : ChunkOptions) (n : ℕ) (ss : List Section)
    → solid_all (body_texts (chunks_from opts n ss)) ≡ solid_all (all_parts opts ss)
unfolding chunks_from solid_all body_texts
chunks_from-solid opts n [] = refl
chunks_from-solid opts n (s ∷ ss) =
    let out = emit s.heading_path n 0 (parts_of opts s) in
    let rest = chunks_from opts (n + length out) ss in
    ap solid_all (body_texts-append out rest)
    ∙ solid_all-append (body_texts out) (body_texts rest)
    ∙ ground (
      arith,
      emit-solid s.heading_path n 0 (parts_of opts s),
      chunks_from-solid opts (n + length out) ss,
      solid_all-append (parts_of opts s) (all_parts opts ss),
    )

-- The chunks, each without its trail, have together, in order, every character of the document that
-- is not white space, except those of its headings.
pub chunk_markdown-solid :
    (markdown : Str) (opts : ChunkOptions)
    → solid_all (body_texts (chunk_markdown markdown opts))
      ≡ solid_all (text_lines false (lines markdown))
unfolding chunk_markdown
chunk_markdown-solid markdown opts =
    chunks_from-solid opts 0 (split_sections markdown) ∙ parts-solid markdown opts
