-- ===== src/Graph.antt =====
-- Paths in the memory graph (crates/ecphoria-core/src/memory/graph_analytics.rs). A weight is a
-- value of any type: no function here reads one.
pub mod Adjacency
pub mod Traces
pub mod Sound
pub mod Complete
pub mod Levels
pub mod Shortest
pub mod Examples
use ecphoria.Prelude.{
  ℕ, zero, suc, ◌+◌, Bool, true, false, Option, none, some, List, [], ◌∷◌, ◌++◌, if◌then◌else◌,
  or_else, length,
}
use ecphoria.Prelude.Eq.{nat_eq, list_eq, ◌==◌}
use ecphoria.Prelude.Assoc.{Assoc, lookup, insert, elem}
use ecphoria.Prelude.Text.{Str}

-- `(src, dst, weight)`
abbrev pub Edges : Type 0 → Type 0
Edges W = List (Str × Str × W)

abbrev pub neighbours : Assoc Str (List Str) → Str → List Str
neighbours adj v = or_else [] (lookup v adj)

-- the loop that builds `adj`
unfoldable pub adj_from : {W : Type 0} → Assoc Str (List Str) → Edges W → Assoc Str (List Str)
adj_from adj [] = adj
adj_from adj ((s, d, w) ∷ es) = adj_from (insert s (neighbours adj s ++ d ∷ []) adj) es

-- `prev`, `q` and `seen`
pub record Search : Type 0 where
  pub prev : Assoc Str Str
  pub queue : List Str
  pub seen : List Str

-- The loop that reconstructs the path, behind its end. A chain has no more steps than `prev` entries.
unfoldable pub chain : ℕ → Assoc Str Str → Str → List Str
chain zero prev c = []
chain (suc n) prev c = elim (lookup c prev) [ none ↦ [] | some p ↦ p ∷ chain n prev p ]

unfoldable pub reverse : List Str → List Str
reverse [] = []
reverse (v ∷ vs) = reverse vs ++ v ∷ []

pub data Visit : Type 0 where
  found : List Str → Visit
  going : Search → Visit

abbrev pub link : Str → Str → Search → Search
link nb cur s = record {
  prev = insert nb cur s.prev;
  queue = s.queue ++ nb ∷ [];
  seen = nb ∷ s.seen;
}

-- the loop over the neighbours of `cur`
unfoldable pub visit : Str → Str → List Str → Search → Visit
unfolding chain reverse
visit dst cur [] s = going s
visit dst cur (nb ∷ nbs) s = elim (elem nb s.seen) [
  | true ↦ visit dst cur nbs s
  | false ↦ elim (nb == dst) [
    | true ↦ let prev = insert nb cur s.prev in found (reverse (dst ∷ chain (length prev) prev dst))
    | false ↦ visit dst cur nbs (link nb cur s)
  ]
]

-- The loop over the queue. It takes each node from the queue once.
unfoldable pub search : ℕ → Assoc Str (List Str) → Str → Search → Option (List Str)
unfolding visit
search zero adj dst s = none
search (suc n) adj dst s = elim s.queue [
  | [] ↦ none
  | cur ∷ q ↦ elim (visit dst cur (neighbours adj cur) (record s { queue = q })) [
    | found path ↦ some path
    | going s' ↦ search n adj dst s'
  ]
]

module _ {W : Type 0} where
  unfoldable pub shortest_path : Edges W → Str → Str → Option (List Str)
  unfolding search adj_from
  shortest_path edges src dst =
      if src == dst
      then some (src ∷ [])
      else search (length edges + 2) (adj_from [] edges) dst
          (record { prev = []; queue = src ∷ []; seen = src ∷ [] })
