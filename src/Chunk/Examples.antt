-- ===== src/Chunk/Examples.antt =====
-- A document with a preamble, two sections under one heading and a fenced block.
use ecphoria.Prelude.{ℕ, ◌≡◌, refl, false, some, List, [], ◌∷◌, ◌++◌, All}
use ecphoria.Prelude.Text.{Str, codes, split}
use ecphoria.Chunk.{
  Chunk, ChunkOptions, chunk_markdown, chunks_from, emit, parts_of, split_sections, sections_from,
  lines, is_fence, heading_of, trail, chunk_text, byte_len, pack_paragraphs, packed_from,
  paragraphs_from, subject,
}
use ecphoria.Chunk.Sizes.{pack_paragraphs-IsPacked, IsPacked}
use ecphoria.Chunk.Solid.{solid_all}
use ecphoria.Chunk.Content.{chunk_markdown-solid, body_texts, text_lines}

abbrev line : Str → Str
line s = s ++ 10 ∷ []

abbrev document : Str
document =
    line (codes "intro")
    ++ (line (codes "# A")
        ++ (line (codes "x y")
            ++ (line (codes "```")
                ++ (line (codes "# no heading")
                    ++ (line (codes "```") ++ (line (codes "# A #") ++ codes "z"))))))

abbrev small : ChunkOptions
small = record { target_chars = 4; max_chars = 6 }

-- a section that is repeated has the address of the first one
abbrev first_a : Chunk
first_a = record {
  heading_path = codes "A" ∷ [];
  text = codes "A" ++ (10 ∷ 10 ∷ codes "z");
  ordinal = 2;
}

abbrev repeated : Str
repeated = line (codes "# A") ++ (line (codes "x") ++ (line (codes "# A") ++ codes "y"))

subjects : List (Chunk × ℕ) → List Str
subjects [] = []
subjects ((c, part) ∷ cs) = subject c (codes "d.md") (some part) ∷ subjects cs

same_address : subjects (chunk_markdown repeated small) ≡ codes "d.md#A" ∷ codes "d.md#A" ∷ []
unfolding subjects subject chunk_markdown chunks_from emit parts_of split_sections sections_from
    lines is_fence heading_of trail chunk_text byte_len pack_paragraphs packed_from paragraphs_from
    split
same_address = refl

chunk_markdown-solid_example :
    solid_all (body_texts (chunk_markdown document small))
    ≡ solid_all (text_lines false (lines document))
chunk_markdown-solid_example = chunk_markdown-solid document small

pack_paragraphs-IsPacked_example :
    All (IsPacked 4 (paragraphs_from false [] (lines document))) (pack_paragraphs document 4)
pack_paragraphs-IsPacked_example = pack_paragraphs-IsPacked document 4
