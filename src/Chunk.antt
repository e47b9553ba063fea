-- ===== src/Chunk.antt =====
-- Markdown chunking (crates/ecphoria-core/src/ingest/chunk.rs). Texts are lists of code points, and
-- `len()` counts the bytes of their UTF-8 encoding.
pub mod Order
pub mod Solid
pub mod Content
pub mod Sizes
pub mod Examples
use ecphoria.Prelude.{
  ℕ, zero, suc, ◌+◌, ◌-◌, ◌*◌, Bool, true, false, not, ◌&&◌, ◌||◌, Option, none, some, List, [],
  ◌∷◌, ◌++◌, if◌then◌else◌, ltb, leb, eqb, length, keep, map,
}
use ecphoria.Prelude.Text.{
  Str, codes, decimal, split, trim, trim_start_by, trim_end_by, is_whitespace, join, starts_with,
}

pub record Chunk : Type 0 where
  pub heading_path : List Str
  pub text : Str
  pub ordinal : ℕ

pub record ChunkOptions : Type 0 where
  pub target_chars : ℕ
  pub max_chars : ℕ

pub record Section : Type 0 where
  pub heading_path : List Str
  pub body : Str

abbrev pub is_empty : Str → Bool
is_empty [] = true
is_empty (c ∷ s) = false

-- the bytes of a character
abbrev pub utf8_len : ℕ → ℕ
utf8_len c = if ltb c 0x80 then 1 else if ltb c 0x800 then 2 else if ltb c 0x10000 then 3 else 4

unfoldable pub byte_len : Str → ℕ
byte_len [] = 0
byte_len (c ∷ s) = utf8_len c + byte_len s

-- `strip_suffix('\r')`, where there is one
abbrev pub strip_cr : Str → Str
strip_cr [] = []
strip_cr (c ∷ []) = if eqb c 13 then [] else c ∷ []
strip_cr (c ∷ d ∷ s) = c ∷ strip_cr (d ∷ s)

abbrev pub line_texts : List Str → List Str
line_texts [] = []
line_texts (p ∷ []) = if is_empty p then [] else p ∷ []
line_texts (p ∷ q ∷ ps) = strip_cr p ∷ line_texts (q ∷ ps)

-- `str::lines`
unfoldable pub lines : Str → List Str
lines s = line_texts (split 10 s)

abbrev pub count_hashes : Str → ℕ
count_hashes [] = 0
count_hashes (c ∷ s) = let rest = count_hashes s in if eqb c b'#' then suc rest else 0

abbrev pub drop : ℕ → Str → Str
drop zero s = s
drop (suc n) [] = []
drop (suc n) (c ∷ s) = drop n s

abbrev is_hash : ℕ → Bool
is_hash c = eqb c b'#'

abbrev pub title_of : ℕ → Str → Option (ℕ × Str)
title_of level rest =
    if starts_with (b' ' ∷ []) rest
    then some (level, trim (trim_end_by is_hash (trim rest)))
    else none

unfoldable pub heading_of : Str → Option (ℕ × Str)
heading_of line =
    let trimmed = trim_start_by is_whitespace line in
    let level = count_hashes trimmed in
    if not (starts_with (b'#' ∷ []) trimmed)
    then none
    else if leb 1 level && leb level 6
    then title_of level (drop level trimmed)
    else none

unfoldable pub is_fence : Str → Bool
is_fence line =
    let t = trim_start_by is_whitespace line in
    starts_with (codes "```") t || starts_with (codes "~~~") t

-- `push_str(line)` and `push('\n')`
abbrev pub push_line : Str → Str → Str
push_line buf line = buf ++ (line ++ 10 ∷ [])

abbrev pub finished : Section → List Section → List Section
finished current rest =
    if not (is_empty (trim current.body))
      || not (elim current.heading_path [ [] ↦ true | _ ↦ false ])
    then current ∷ rest
    else rest

abbrev pub opened : List (ℕ × Str) → ℕ → Str → List (ℕ × Str)
opened stack level title = keep (λ (e : ℕ × Str). ltb e.0 level) stack ++ (level, title) ∷ []

abbrev pub titles : List (ℕ × Str) → List Str
titles = map (λ (e : ℕ × Str). e.1)

abbrev pub add_line : Section → Str → Section
add_line s line = record s { body = push_line s.body line }

-- The loop over the lines: what it pushes from here on, the section after the loop included.
unfoldable pub sections_from : Bool → List (ℕ × Str) → Section → List Str → List Section
sections_from in_fence stack current [] = finished current []
sections_from in_fence stack current (line ∷ ls) = elim (is_fence line) [
  | true ↦ sections_from (not in_fence) stack (add_line current line) ls
  | false ↦ elim (if in_fence then none else heading_of line) [
    | none ↦ sections_from in_fence stack (add_line current line) ls
    | some (level, title) ↦
        let stack' = opened stack level title in
        let rest =
          sections_from in_fence stack' (record { heading_path = titles stack'; body = [] }) ls in
        finished current rest
  ]
]

unfoldable pub split_sections : Str → List Section
split_sections markdown =
    sections_from false [] (record { heading_path = []; body = [] }) (lines markdown)

abbrev pub unless_blank : Str → List Str → List Str
unless_blank s rest = if is_empty (trim s) then rest else s ∷ rest

-- The first loop of `pack_paragraphs`: the paragraphs pushed from here on.
unfoldable pub paragraphs_from : Bool → Str → List Str → List Str
paragraphs_from in_fence buf [] = unless_blank buf []
paragraphs_from in_fence buf (line ∷ ls) = elim (is_fence line) [
  | true ↦ elim in_fence [
    | true ↦ push_line buf line ∷ paragraphs_from false [] ls
    | false ↦ paragraphs_from true (push_line buf line) ls
  ]
  | false ↦ elim (not in_fence && is_empty (trim line)) [
    | true ↦ unless_blank buf (paragraphs_from in_fence [] ls)
    | false ↦ paragraphs_from in_fence (push_line buf line) ls
  ]
]

-- the second loop
unfoldable pub packed_from : ℕ → Str → List Str → List Str
packed_from max_chars current [] = unless_blank current []
packed_from max_chars current (p ∷ ps) =
    elim (not (is_empty current) && ltb max_chars (byte_len current + byte_len p)) [
      | true ↦ current ∷ packed_from max_chars (p ++ 10 ∷ []) ps
      | false ↦ packed_from max_chars (push_line current p) ps
    ]

unfoldable pub pack_paragraphs : Str → ℕ → List Str
unfolding paragraphs_from packed_from
pack_paragraphs body max_chars = packed_from max_chars [] (paragraphs_from false [] (lines body))

unfoldable pub trail : List Str → Str
trail path = join (codes " > ") path

unfoldable pub parts_of : ChunkOptions → Section → List Str
parts_of opts s =
    let body = trim s.body in
    if is_empty body
    then []
    else if leb (byte_len (trail s.heading_path) + byte_len body) opts.max_chars
    then body ∷ []
    else pack_paragraphs body opts.target_chars

unfoldable pub chunk_text : List Str → Str → Str
chunk_text path part =
    if is_empty (trail path) then trim part else trail path ++ (10 ∷ 10 ∷ trim part)

-- The parts from number `part_idx` on, where `ordinal` chunks stand before.
unfoldable pub emit : List Str → ℕ → ℕ → List Str → List (Chunk × ℕ)
unfolding chunk_text
emit path ordinal part_idx [] = []
emit path ordinal part_idx (part ∷ parts) = elim (is_empty (trim (chunk_text path part))) [
  | true ↦ emit path ordinal (suc part_idx) parts
  | false ↦
      (record { heading_path = path; text = chunk_text path part; ordinal = ordinal }, part_idx)
      ∷ emit path (suc ordinal) (suc part_idx) parts
]

unfoldable pub chunks_from : ChunkOptions → ℕ → List Section → List (Chunk × ℕ)
unfolding emit parts_of
chunks_from opts ordinal [] = []
chunks_from opts ordinal (s ∷ ss) =
    let out = emit s.heading_path ordinal 0 (parts_of opts s) in
    out ++ chunks_from opts (ordinal + length out) ss

unfoldable pub chunk_markdown : Str → ChunkOptions → List (Chunk × ℕ)
unfolding chunks_from split_sections
chunk_markdown markdown opts = chunks_from opts 0 (split_sections markdown)

abbrev pub with_part : Str → Option ℕ → Str
with_part base none = base
with_part base (some n) = if ltb 0 n then base ++ (b'~' ∷ decimal n) else base

unfoldable pub subject : Chunk → Str → Option ℕ → Str
unfolding trail
subject c doc_path part =
    let t = trail c.heading_path in
    let base =
      if is_empty (trim t)
      then (if eqb c.ordinal 0 then doc_path else doc_path ++ (b'#' ∷ 0xa7 ∷ decimal c.ordinal))
      else doc_path ++ (b'#' ∷ t) in
    with_part base part
