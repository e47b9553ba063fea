-- ===== src/Prelude/Faults.antt =====
-- Statements that a database may fail. The outcomes of the coming statements are a list, `true` for
-- a failure; a statement past its end succeeds.
use mathlib.Core.Bool.{Bool, false}
use mathlib.Core.List.{List, [], ◌∷◌}

abbrev pub fails : List Bool → Bool
fails [] = false
fails (b ∷ rest) = b

abbrev pub later : List Bool → List Bool
later [] = []
later (b ∷ rest) = rest
