-- ===== src/Graph/Adjacency.antt =====
-- The map of neighbours has the edges.
use ecphoria.Prelude.{
  ◌≡◌, refl, ap, sym, arith, true, List, [], ◌∷◌, ◌++◌, In, here, there, Bool-cases, inl, inr,
  if◌then◌else◌,
}
use ecphoria.Prelude.Eq.{nat_eq, list_eq, list_beq, list_beq_iff}
use ecphoria.Prelude.Assoc.{Assoc, insert, elem, lookup-insert}
use ecphoria.Prelude.Text.{Str}
use ecphoria.Graph.{Edges, neighbours, adj_from}

append_assoc : (a b c : List Str) → (a ++ b) ++ c ≡ a ++ (b ++ c)
append_assoc [] b c = refl
append_assoc (x ∷ a) b c = ap (◌∷◌ x) (append_assoc a b c)

append_nil : (a : List Str) → a ++ [] ≡ a
append_nil [] = refl
append_nil (x ∷ a) = ap (◌∷◌ x) (append_nil a)

-- the ends of the edges from `v`, in their order
abbrev pub ends : {W : Type 0} → Str → Edges W → List Str
ends v [] = []
ends v ((s, d, w) ∷ es) = let rest = ends v es in if list_beq s v then d ∷ rest else rest

pub neighbours-adj_from :
    {W : Type 0} (adj : Assoc Str (List Str)) (es : Edges W) (v : Str)
    → neighbours (adj_from adj es) v ≡ neighbours adj v ++ ends v es
unfolding adj_from
neighbours-adj_from adj [] v = sym (append_nil (neighbours adj v))
neighbours-adj_from adj ((s, d, w) ∷ es) v = ground (
  arith,
  neighbours-adj_from (insert s (neighbours adj s ++ d ∷ []) adj) es v,
  lookup-insert s v (neighbours adj s ++ d ∷ []) adj,
  list_beq_iff s v,
  append_assoc (neighbours adj s) (d ∷ []) (ends v es),
)

-- there is an edge
abbrev pub Edge : {W : Type 0} → Edges W → Str → Str → Type 0
Edge {W} es v u = (w : W) × In (v, u, w) es

pub ends-Edge : {W : Type 0} (es : Edges W) (v u : Str) → elem u (ends v es) ≡ true → Edge es v u
ends-Edge [] v u h = absurd (ground arith)
ends-Edge ((s, d, w) ∷ es) v u h = elim (Bool-cases (list_beq s v)) [
  | inr f ↦ let (x, i) = ends-Edge es v u (ground arith) in (x, there i)
  | inl t ↦ elim (Bool-cases (list_beq d u)) [
    | inl q ↦ (w, here (cc ((list_beq_iff s v).0 t, (list_beq_iff d u).0 q)))
    | inr q ↦ let (x, i) = ends-Edge es v u (ground arith) in (x, there i)
  ]
]

pub Edge-ends :
    {W : Type 0} (es : Edges W) (v u : Str) (w : W) → In (v, u, w) es → elem u (ends v es) ≡ true
Edge-ends [] v u w i = elim i [ ]
Edge-ends ((s, d, x) ∷ es) v u w (here e) = ground (arith, list_beq_iff s v, list_beq_iff d u)
Edge-ends ((s, d, x) ∷ es) v u w (there i) = ground (arith, Edge-ends es v u w i)
