-- ===== src/Prelude/Text.antt =====
-- Texts that the program looks into, as lists of their bytes, with the methods of `str` in use.
use Prim.Native.Nat.{ℕ, zero, suc, ◌+◌, ◌/◌, ◌%◌}
use Prim.Native.Char.{code}
use Prim.Native.String.{String}
use mathlib.Core.Path.{◌≡◌, refl, ap, ◌∙◌}
use mathlib.Core.Bool.{Bool, true, false, ◌&&◌, ◌||◌}
use mathlib.Core.Option.{Option, none, some}
use mathlib.Core.List.{List, [], ◌∷◌, ◌++◌, map}
use native.Mathlib.Omega.{arith}
use ecphoria.Prelude.Lists.{All}
use ecphoria.Prelude.Tests.{ltb, leb, eqb, if◌then◌else◌}

abbrev pub Str : Type 0
Str = List ℕ

-- A literal of the source, which is ASCII.
abbrev pub codes : String → Str
codes String.[] = []
codes (String.◌∷◌ c s) = code c ∷ codes s

-- `format!("{n}")`; a number has no more digits than its value plus one
unfoldable pub decimal_fuel : ℕ → ℕ → Str
decimal_fuel zero n = []
decimal_fuel (suc f) n =
    let shorter = decimal_fuel f (n / 10) ++ (b'0' + n % 10) ∷ [] in
    if ltb n 10 then (b'0' + n) ∷ [] else shorter

unfoldable pub decimal : ℕ → Str
unfolding decimal_fuel
decimal n = decimal_fuel (suc n) n

abbrev pub starts_with : Str → Str → Bool
starts_with [] s = true
starts_with (p ∷ ps) [] = false
starts_with (p ∷ ps) (c ∷ s) = eqb p c && starts_with ps s

-- `haystack.contains(needle)`
abbrev pub contains : Str → Str → Bool
contains needle [] = starts_with needle []
contains needle (c ∷ s) = starts_with needle (c ∷ s) || contains needle s

-- `s.split_once(sep)`, for a separator of one byte
unfoldable pub split_once : ℕ → Str → Option (Str × Str)
split_once sep [] = none
split_once sep (c ∷ s) =
    let rest = split_once sep s in
    if eqb c sep then some ([], s) else elim rest [ none ↦ none | some (a, b) ↦ some (c ∷ a, b) ]

abbrev pub cons_part : ℕ → List Str → List Str
cons_part c [] = (c ∷ []) ∷ []
cons_part c (p ∷ ps) = (c ∷ p) ∷ ps

-- `s.split(sep).collect()`: one more part than separators
unfoldable pub split : ℕ → Str → List Str
split sep [] = [] ∷ []
split sep (c ∷ s) = let rest = split sep s in if eqb c sep then [] ∷ rest else cons_part c rest

-- `s.split(p).collect()`, for a test of characters
unfoldable pub split_by : (ℕ → Bool) → Str → List Str
split_by p [] = [] ∷ []
split_by p (c ∷ s) = let rest = split_by p s in if p c then [] ∷ rest else cons_part c rest

-- ASCII letters of a byte, to lower case
abbrev pub lower : ℕ → ℕ
lower c = if leb b'A' c && leb c b'Z' then c + 32 else c

abbrev pub to_lowercase : Str → Str
to_lowercase = map lower

-- the order of texts, byte by byte
abbrev pub str_lt : Str → Str → Bool
str_lt s [] = false
str_lt [] (d ∷ t) = true
str_lt (c ∷ s) (d ∷ t) = ltb c d || (eqb c d && str_lt s t)

-- `char::is_whitespace`, of a code point
abbrev pub is_whitespace : ℕ → Bool
is_whitespace c =
    (leb 9 c && leb c 13)
    || eqb c 32
    || eqb c 0x85
    || eqb c 0xa0
    || eqb c 0x1680
    || (leb 0x2000 c && leb c 0x200a)
    || eqb c 0x2028
    || eqb c 0x2029
    || eqb c 0x202f
    || eqb c 0x205f
    || eqb c 0x3000

-- `s.trim_start_matches(p)`
abbrev pub trim_start_by : (ℕ → Bool) → Str → Str
trim_start_by p [] = []
trim_start_by p (c ∷ s) = let rest = trim_start_by p s in if p c then rest else c ∷ s

abbrev pub keep_unless : Bool → ℕ → Str → Str
keep_unless drop c [] = if drop then [] else c ∷ []
keep_unless drop c (d ∷ s) = c ∷ d ∷ s

-- `s.trim_end_matches(p)`
abbrev pub trim_end_by : (ℕ → Bool) → Str → Str
trim_end_by p [] = []
trim_end_by p (c ∷ s) = keep_unless (p c) c (trim_end_by p s)

abbrev pub trim : Str → Str
trim s = trim_end_by is_whitespace (trim_start_by is_whitespace s)

-- `parts.join(sep)`
abbrev pub join : Str → List Str → Str
join sep [] = []
join sep (p ∷ []) = p
join sep (p ∷ q ∷ ps) = p ++ (sep ++ join sep (q ∷ ps))

abbrev same : Str → Str → Bool
same [] [] = true
same (c ∷ s) (d ∷ t) = eqb c d && same s t
same _ _ = false

abbrev pub ends_with : Str → Str → Bool
ends_with suffix [] = same suffix []
ends_with suffix (c ∷ s) = same suffix (c ∷ s) || ends_with suffix s

abbrev pub strip_prefix : Str → Str → Option Str
strip_prefix [] s = some s
strip_prefix (p ∷ ps) [] = none
strip_prefix (p ∷ ps) (c ∷ s) = if eqb p c then strip_prefix ps s else none

-- the text behind the first `needle`
abbrev pub after_first : Str → Str → Option Str
after_first needle [] = strip_prefix needle []
after_first needle (c ∷ s) =
    let rest = after_first needle s in
    elim (strip_prefix needle (c ∷ s)) [ some r ↦ some r | none ↦ rest ]

-- The part before the first separator is the first of the split.
pub split-append :
    (sep : ℕ) (a b : Str)
    → All (λ c. eqb c sep ≡ false) a
    → split sep (a ++ sep ∷ b) ≡ a ∷ split sep b
unfolding split
split-append sep [] b h = ground arith
split-append sep (c ∷ a) b h = ground (arith, split-append sep a b h.1)

pub split_one : (sep : ℕ) (a : Str) → All (λ c. eqb c sep ≡ false) a → split sep a ≡ a ∷ []
unfolding split
split_one sep [] h = refl
split_one sep (c ∷ a) h = ground (arith, split_one sep a h.1)

-- Texts without the separator come back from their joint text.
pub split-join :
    (sep : ℕ) (p : Str) (ps : List Str)
    → All (All (λ c. eqb c sep ≡ false)) (p ∷ ps)
    → split sep (join (sep ∷ []) (p ∷ ps)) ≡ p ∷ ps
split-join sep p [] h = split_one sep p h.0
split-join sep p (q ∷ ps) h =
    split-append sep p (join (sep ∷ []) (q ∷ ps)) h.0 ∙ ap (◌∷◌ p) (split-join sep q ps h.1)
