-- ===== src/Chunk/Solid.antt =====
-- The characters of a text that are not white space.
use ecphoria.Prelude.{
  ℕ, ◌≡◌, refl, ap, ◌∙◌, arith, true, List, [], ◌∷◌, ◌++◌, if◌then◌else◌, eqb, Bool-cases, inl, inr,
}
use ecphoria.Prelude.Text.{
  Str, split, trim, trim_start_by, trim_end_by, is_whitespace, keep_unless, cons_part,
}
use ecphoria.Chunk.{is_empty, push_line, lines, line_texts, strip_cr}

-- the characters that are not white space
unfoldable pub solid : Str → Str
solid [] = []
solid (c ∷ s) = let rest = solid s in if is_whitespace c then rest else c ∷ rest

-- the same of all texts together
unfoldable pub solid_all : List Str → Str
unfolding solid
solid_all [] = []
solid_all (s ∷ ss) = solid s ++ solid_all ss

pub append_assoc : (a b c : Str) → (a ++ b) ++ c ≡ a ++ (b ++ c)
append_assoc [] b c = refl
append_assoc (x ∷ a) b c = ap (◌∷◌ x) (append_assoc a b c)

pub append_nil : (a : Str) → a ++ [] ≡ a
append_nil [] = refl
append_nil (x ∷ a) = ap (◌∷◌ x) (append_nil a)

pub solid-append : (s t : Str) → solid (s ++ t) ≡ solid s ++ solid t
unfolding solid
solid-append [] t = refl
solid-append (c ∷ s) t = ground (arith, solid-append s t)

pub solid-newline : (s : Str) → solid (s ++ 10 ∷ []) ≡ solid s
unfolding solid
solid-newline [] = ground arith
solid-newline (c ∷ s) = ground (arith, solid-newline s)

pub solid-push_line : (buf line : Str) → solid (push_line buf line) ≡ solid buf ++ solid line
solid-push_line buf line =
    solid-append buf (line ++ 10 ∷ []) ∙ ap (λ t. solid buf ++ t) (solid-newline line)

trim_start-solid : (s : Str) → solid (trim_start_by is_whitespace s) ≡ solid s
unfolding solid
trim_start-solid [] = refl
trim_start-solid (c ∷ s) = ground (arith, trim_start-solid s)

keep_unless-solid : (c : ℕ) (t : Str) → solid (keep_unless (is_whitespace c) c t) ≡ solid (c ∷ t)
unfolding solid
keep_unless-solid c [] = ground arith
keep_unless-solid c (d ∷ t) = refl

trim_end-solid : (s : Str) → solid (trim_end_by is_whitespace s) ≡ solid s
unfolding solid
trim_end-solid [] = refl
trim_end-solid (c ∷ s) =
    keep_unless-solid c (trim_end_by is_whitespace s)
    ∙ ap (λ r. if is_whitespace c then r else c ∷ r) (trim_end-solid s)

pub solid-trim : (s : Str) → solid (trim s) ≡ solid s
solid-trim s = trim_end-solid (trim_start_by is_whitespace s) ∙ trim_start-solid s

pub solid-empty : (s : Str) → is_empty s ≡ true → solid s ≡ []
unfolding solid
solid-empty [] e = refl
solid-empty (c ∷ s) e = absurd (ground arith)

strip_cr-solid : (s : Str) → solid (strip_cr s) ≡ solid s
unfolding solid
strip_cr-solid [] = refl
strip_cr-solid (c ∷ []) = ground arith
strip_cr-solid (c ∷ d ∷ s) = ground (arith, strip_cr-solid (d ∷ s))

line_texts-solid : (ps : List Str) → solid_all (line_texts ps) ≡ solid_all ps
unfolding solid_all solid
line_texts-solid [] = refl
line_texts-solid ([] ∷ []) = refl
line_texts-solid ((c ∷ p) ∷ []) = refl
line_texts-solid (p ∷ q ∷ ps) = ground (arith, strip_cr-solid p, line_texts-solid (q ∷ ps))

cons_part-solid :
    (c : ℕ) (ps : List Str) → solid_all (cons_part c ps) ≡ solid (c ∷ []) ++ solid_all ps
unfolding solid_all solid
cons_part-solid c [] = ground arith
cons_part-solid c (p ∷ ps) = ground arith

split-solid : (s : Str) → solid_all (split 10 s) ≡ solid s
unfolding solid_all solid split
split-solid [] = refl
split-solid (c ∷ s) = elim (Bool-cases (eqb c 10)) [
  | inl t ↦ ground (arith, split-solid s)
  | inr f ↦ ground (arith, cons_part-solid c (split 10 s), split-solid s)
]

pub lines-solid : (s : Str) → solid_all (lines s) ≡ solid s
unfolding lines
lines-solid s = line_texts-solid (split 10 s) ∙ split-solid s
