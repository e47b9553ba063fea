-- ===== src/Cluster/Members/Bootstrap.antt =====
-- At most one node forms the cluster, and it is one of its members.
use ecphoria.Prelude.{
  ℕ, ◌≤◌, ◌<◌, ◌≡◌, refl, ap, sym, ◌∙◌, arith, true, List, [], ◌∷◌, is_some, inl, inr, Bool-cases,
}
use ecphoria.Prelude.Result.{Result, Result-cases, ok, err}
use ecphoria.Prelude.Rows.{Rows, get, IsSorted, Above, put-IsSorted}
use ecphoria.Prelude.Text.{Str}
use ecphoria.Cluster.Config.{
  ClusterConfig, PeerError, parse_members, members_from, with_node, no_peers, then_from, add_member,
  member_of,
}
use ecphoria.Cluster.Members.{bootstrap, is_first, formation}

then_from-ok :
    (f : Rows Str → Result PeerError (Rows Str)) (r : Result PeerError (Rows Str)) (m : Rows Str)
    → then_from f r ≡ ok m
    → (ms : Rows Str) × (r ≡ ok ms) × (f ms ≡ ok m)
then_from-ok f (err e) m h = absurd (ground arith)
then_from-ok f (ok ms) m h = (ms, refl, h)

add_member-IsSorted :
    (r : Result PeerError (ℕ × Str)) (ms m : Rows Str)
    → IsSorted ms
    → add_member r ms ≡ ok m
    → IsSorted m
add_member-IsSorted (err e) ms m s h = absurd (ground arith)
add_member-IsSorted (ok (n, addr)) ms m s h = ground (arith, put-IsSorted n addr ms s)

members_from-IsSorted :
    (ms : Rows Str) (es : List Str) (m : Rows Str)
    → IsSorted ms
    → members_from ms es ≡ ok m
    → IsSorted m
unfolding members_from
members_from-IsSorted ms [] m s h = ground arith
members_from-IsSorted ms (e ∷ es) m s h =
    let (ns, a, b) = then_from-ok (λ x. members_from x es) (add_member (member_of e) ms) m h in
    members_from-IsSorted ns es m (add_member-IsSorted (member_of e) ms ns s a) b

with_node-ok :
    (id : ℕ) (ms m : Rows Str) → with_node id ms ≡ ok m → (m ≡ ms) × (is_some (get id ms) ≡ true)
with_node-ok id ms m h = elim (Bool-cases (is_some (get id ms))) [
  | inl e ↦ ground arith
  | inr e ↦ absurd (ground arith)
]

-- The members depend on the node's own peers only, and contain the node.
parse_members-ok :
    (c : ClusterConfig) (p : Str) (ps : List Str) (m : Rows Str)
    → c.peers ≡ p ∷ ps
    → parse_members c ≡ ok m
    → (members_from [] (p ∷ ps) ≡ ok m) × (is_some (get c.node_id m) ≡ true) × IsSorted m
unfolding parse_members
parse_members-ok c p ps m e h =
    let h' : then_from (with_node c.node_id) (members_from [] (p ∷ ps)) ≡ ok m =
      ap (no_peers c) (sym e) ∙ h in
    let (ms, a, b) = then_from-ok (with_node c.node_id) (members_from [] (p ∷ ps)) m h' in
    let (q, g) = with_node-ok c.node_id ms m b in
    (a ∙ ap ok (sym q), rw q g, rw q (members_from-IsSorted [] (p ∷ ps) ms tt a))

formation-bootstrap :
    (c : ClusterConfig) (p : Str) (ps : List Str) (m : Rows Str)
    → c.peers ≡ p ∷ ps
    → formation c ≡ ok (bootstrap m)
    → (parse_members c ≡ ok m) × (is_first c.node_id m ≡ true)
unfolding formation
formation-bootstrap c p ps m e h = elim (Result-cases (parse_members c)) [
  | inr (x, q) ↦ absurd (ground arith)
  | inl (n, q) ↦ elim (Bool-cases (is_first c.node_id n)) [
    | inl f ↦ ground arith
    | inr f ↦ absurd (ground arith)
  ]
]

Above-get : (j k : ℕ) (m : Rows Str) → Above j m → is_some (get k m) ≡ true → j < k
unfolding get
Above-get j k [] a g = absurd (ground arith)
Above-get j k ((i, v) ∷ m) a g = ground (arith, Above-get j k m a.1)

first_least :
    (id k : ℕ) (m : Rows Str)
    → IsSorted m
    → is_first id m ≡ true
    → is_some (get k m) ≡ true
    → id ≤ k
unfolding get
first_least id k [] s f g = absurd (ground arith)
first_least id k ((j, a) ∷ m) s f g = ground (arith, Above-get j k m s.0)

-- Of the nodes with one list of peers at most one forms the cluster: it is a member, no member has
-- a lower id, and every node that forms it has the same id and the same members.
pub formation_once :
    (c d : ClusterConfig) (p : Str) (ps : List Str) (m n : Rows Str)
    → c.peers ≡ p ∷ ps
    → d.peers ≡ p ∷ ps
    → formation c ≡ ok (bootstrap m)
    → formation d ≡ ok (bootstrap n)
    → (c.node_id ≡ d.node_id)
      × (m ≡ n)
      × (is_some (get c.node_id m) ≡ true)
      × ((k : ℕ) → is_some (get k m) ≡ true → c.node_id ≤ k)
formation_once c d p ps m n e1 e2 h1 h2 =
    let (q1, f1) = formation-bootstrap c p ps m e1 h1 in
    let (q2, f2) = formation-bootstrap d p ps n e2 h2 in
    let (a1, g1, s1) = parse_members-ok c p ps m e1 q1 in
    let (a2, g2, s2) = parse_members-ok d p ps n e2 q2 in
    let same : m ≡ n = cc (a1, a2) in
    let up = first_least c.node_id d.node_id m s1 f1 (rw same g2) in
    let down = first_least d.node_id c.node_id n s2 f2 (rw (← same) g1) in
    (omega arith, same, g1, λ k. first_least c.node_id k m s1 f1)

least_first :
    (id : ℕ) (m : Rows Str)
    → IsSorted m
    → is_some (get id m) ≡ true
    → ((k : ℕ) → is_some (get k m) ≡ true → id ≤ k)
    → is_first id m ≡ true
unfolding get
least_first id [] s g l = absurd (ground arith)
least_first id ((j, a) ∷ m) s g l = ground (arith, Above-get j id m s.0, l j)

-- The member with the lowest id does form the cluster, once its peers parse.
pub formation_least :
    (c : ClusterConfig) (p : Str) (ps : List Str) (m : Rows Str)
    → c.peers ≡ p ∷ ps
    → parse_members c ≡ ok m
    → ((k : ℕ) → is_some (get k m) ≡ true → c.node_id ≤ k)
    → formation c ≡ ok (bootstrap m)
unfolding formation
formation_least c p ps m e h l =
    let (a, g, s) = parse_members-ok c p ps m e h in ground (arith, least_first c.node_id m s g l)
