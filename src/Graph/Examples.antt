-- ===== src/Graph/Examples.antt =====
-- A graph with a detour and a cycle.
use ecphoria.Prelude.{ℕ, ◌≤◌, ◌≡◌, refl, some, List, [], ◌∷◌, length, here, there}
use ecphoria.Prelude.Eq.{nat_eq, list_eq}
use ecphoria.Prelude.Assoc.{lookup, insert}
use ecphoria.Prelude.Text.{Str, codes}
use ecphoria.Graph.{Edges, shortest_path, search, visit, chain, reverse, adj_from}
use ecphoria.Graph.Sound.{IsPath}
use ecphoria.Graph.Complete.{shortest_path_found}
use ecphoria.Graph.Shortest.{shortest_path_least}

abbrev a : Str
a = codes "a"

abbrev b : Str
b = codes "b"

abbrev c : Str
c = codes "c"

abbrev d : Str
d = codes "d"

abbrev edges : Edges ℕ
edges = (a, b, 1) ∷ (b, c, 1) ∷ (c, d, 1) ∷ (b, d, 1) ∷ (d, a, 1) ∷ []

-- over the detour
detour : IsPath edges a d (a ∷ b ∷ c ∷ d ∷ [])
detour = (
  refl,
  (1, here refl),
  (refl, (1, there (here refl)), (refl, (1, there (there (here refl))), (refl, refl))),
)

shortest_path_found_example :
    (q : List Str) × (shortest_path edges a d ≡ some q) × IsPath edges a d q
shortest_path_found_example = shortest_path_found edges a d (a ∷ b ∷ c ∷ d ∷ []) detour

direct : shortest_path edges a d ≡ some (a ∷ b ∷ d ∷ [])
unfolding shortest_path search visit chain reverse adj_from lookup insert
direct = refl

shortest_path_least_example :
    IsPath edges a d (a ∷ b ∷ d ∷ [])
    × ((path : List Str) → IsPath edges a d path → length (a ∷ b ∷ d ∷ []) ≤ length path)
shortest_path_least_example = shortest_path_least edges a d (a ∷ b ∷ d ∷ []) direct
