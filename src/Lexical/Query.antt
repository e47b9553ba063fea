-- ===== src/Lexical/Query.antt =====
-- `build_match_expr` (crates/ecphoria-core/src/memory/lexical.rs), which turns free text into an FTS5
-- expression, with the stop words of crates/ecphoria-core/src/memory/cognition.rs. Texts are lists of
-- code points; the tables of Unicode are parameters.
pub mod Phrases
use ecphoria.Prelude.{
  ℕ, Bool, true, false, not, ◌||◌, Option, none, some, List, [], ◌∷◌, ◌++◌, if◌then◌else◌, keep,
  map, eqb,
}
use ecphoria.Prelude.Eq.{nat_eq, list_eq, ◌==◌}
use ecphoria.Prelude.Text.{Str, codes, split_by, trim_start_by, trim_end_by, join, split}

pub record Unicode : Type 0 where
  pub is_alphanumeric : ℕ → Bool
  pub to_lowercase : Str → Str

abbrev pub mem_text : Str → List Str → Bool
mem_text w [] = false
mem_text w (x ∷ xs) = w == x || mem_text w xs

unfoldable pub stop_words : List Str
stop_words = split b' ' (
    codes
      "a an and are as at be been being but by did do does for from had has have he her here him his how i if in into is it its me my of on or our she so than that the their them then there they this to up us was we were what when where which who why will with would you your")

unfoldable pub is_stop_word : Str → Bool
unfolding stop_words split
is_stop_word w = mem_text w stop_words

-- punctuation that stands inside a term but not at its edges
abbrev is_mark : ℕ → Bool
is_mark c = eqb c b'.' || (eqb c b'-' || eqb c b'_')

abbrev is_text : Str → Bool
is_text [] = false
is_text (c ∷ s) = true

-- `t.replace('"', "\"\"")`
abbrev pub doubled : Str → Str
doubled [] = []
doubled (c ∷ s) = if eqb c 34 then 34 ∷ 34 ∷ doubled s else c ∷ doubled s

abbrev pub quoted : Str → Str
quoted t = 34 ∷ (doubled t ++ 34 ∷ [])

abbrev pub or_text : Str
or_text = codes " OR "

abbrev pub expr_of : List Str → Option Str
expr_of [] = none
expr_of (t ∷ ts) = some (join or_text (map quoted (t ∷ ts)))

module _ (u : Unicode) where
  -- the terms before the stop words are left out
  unfoldable pub words : Str → List Str
  unfolding split_by
  words query =
      let parts = split_by (λ c. not (u.is_alphanumeric c || is_mark c)) query in
      let trimmed = map (λ t. trim_end_by is_mark (trim_start_by is_mark t)) (keep is_text parts) in
      map u.to_lowercase (keep is_text trimmed)

  unfoldable pub terms : Str → List Str
  unfolding words is_stop_word
  terms query = keep (λ t. not (is_stop_word t)) (words query)

  unfoldable pub build_match_expr : Str → Option Str
  unfolding terms
  build_match_expr query = expr_of (terms query)
