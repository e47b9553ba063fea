-- ===== src/Graph/Complete.antt =====
-- The search ends within its fuel, and misses no path.
use mathlib.Core.Path.{subst}
use ecphoria.Prelude.{
  ℕ, zero, suc, ◌+◌, ◌≤◌, ◌<◌, ◌≡◌, ap, sym, ◌∙◌, arith, true, false, none, some, List, [], ◌∷◌,
  ◌++◌, length, length-append, or_else, Bool-cases, Option-cases, inl, inr, ◌⊎◌,
}
use ecphoria.Prelude.Eq.{nat_eq, list_eq, list_beq, list_beq_iff}
use ecphoria.Prelude.Assoc.{Assoc, elem, lookup-nil}
use ecphoria.Prelude.Text.{Str}
use ecphoria.Graph.{Edges, Search, neighbours, link, going, visit, search, shortest_path, adj_from}
use ecphoria.Graph.Adjacency.{ends, Edge-ends, neighbours-adj_from}
use ecphoria.Graph.Traces.{elem-append}
use ecphoria.Graph.Sound.{Visit-cases, IsPath, shortest_path-IsPath}

-- how many of the nodes are not seen
abbrev pub unseen : List Str → List Str → ℕ
unseen seen [] = 0
unseen seen (u ∷ us) =
    let rest = unseen seen us in elim (elem u seen) [ true ↦ rest | false ↦ suc rest ]

unseen-more : (v : Str) (seen us : List Str) → unseen (v ∷ seen) us ≤ unseen seen us
unseen-more v seen [] = omega arith
unseen-more v seen (u ∷ us) = ground (arith, unseen-more v seen us)

unseen-new :
    (v : Str) (seen us : List Str)
    → elem v us ≡ true
    → elem v seen ≡ false
    → unseen (v ∷ seen) us < unseen seen us
unseen-new v seen [] i f = absurd (ground arith)
unseen-new v seen (u ∷ us) i f = elim (Bool-cases (list_beq u v)) [
  | inl t ↦ ground (arith, list_beq_iff u v, list_beq_iff v u, unseen-more v seen us)
  | inr t ↦
      ground
        (arith, list_beq_iff u v, list_beq_iff v u, unseen-new v seen us, unseen-more v seen us)
]

module _ (adj : Assoc Str (List Str)) (nodes : List Str) (dst : Str) where
  -- every neighbour of `v` is seen
  abbrev pub IsDone : List Str → Str → Type 0
  IsDone seen v = (u : Str) → elem u (neighbours adj v) ≡ true → elem u seen ≡ true

  abbrev pub IsSwept : List Str → List Str → Str → Type 0
  IsSwept queue seen v = (elem v queue ≡ true) ⊎ IsDone seen v

  -- the same while `cur` is visited
  abbrev pub IsSweptBut : Str → List Str → List Str → Str → Type 0
  IsSweptBut cur queue seen v = (v ≡ cur) ⊎ IsSwept queue seen v

  -- what a visit that goes on has done
  pub record IsVisited (cur : Str) (nbs : List Str) (s t : Search) : Type 0 where
    pub kept : (v : Str) → elem v s.seen ≡ true → elem v t.seen ≡ true
    pub met : (v : Str) → elem v nbs ≡ true → elem v t.seen ≡ true
    pub unmet : elem dst t.seen ≡ false
    pub swept : (v : Str) → elem v t.seen ≡ true → IsSweptBut cur t.queue t.seen v
    pub smaller : length t.queue + unseen t.seen nodes ≤ length s.queue + unseen s.seen nodes

  link-IsSwept :
      (cur nb : Str) (s : Search)
      → ((v : Str) → elem v s.seen ≡ true → IsSweptBut cur s.queue s.seen v)
      → (v : Str) → elem v (nb ∷ s.seen) ≡ true
      → IsSweptBut cur (s.queue ++ nb ∷ []) (nb ∷ s.seen) v
  link-IsSwept cur nb s h v i = elim (Bool-cases (list_beq nb v)) [
    | inl t ↦ inr (inl (ground (arith, elem-append v s.queue (nb ∷ []))))
    | inr f ↦ elim (h v (ground arith)) [
      | inl e ↦ inl e
      | inr (inl q) ↦ inr (inl (ground (arith, elem-append v s.queue (nb ∷ []))))
      | inr (inr d) ↦ inr (inr (λ u l. ground (arith, d u l)))
    ]
  ]

  pub visit-IsVisited :
      (cur : Str) (nbs : List Str) (s t : Search)
      → ((v : Str) → elem v nbs ≡ true → elem v nodes ≡ true)
      → elem dst s.seen ≡ false
      → ((v : Str) → elem v s.seen ≡ true → IsSweptBut cur s.queue s.seen v)
      → visit dst cur nbs s ≡ going t
      → IsVisited cur nbs s t
  unfolding visit
  visit-IsVisited cur [] s t n f h e =
      let q : s ≡ t = ground arith in
      subst (IsVisited cur [] s) q (record {
        kept = λ v i. i;
        met = λ v i. absurd (ground arith);
        unmet = f;
        swept = h;
        smaller = omega arith;
      })
  visit-IsVisited cur (nb ∷ nbs) s t n f h e = elim (Bool-cases (elem nb s.seen)) [
    | inl i ↦
        let r = visit-IsVisited cur nbs s t (λ v k. n v (ground arith)) f h (ground arith) in
        record {
          kept = r.kept;
          met = λ v k. ground (arith, list_beq_iff nb v, r.met v, r.kept nb);
          unmet = r.unmet;
          swept = r.swept;
          smaller = r.smaller;
        }
    | inr i ↦ elim (Bool-cases (list_beq nb dst)) [
      | inl q ↦ absurd (ground arith)
      | inr q ↦
          let r =
            visit-IsVisited cur nbs (link nb cur s) t (λ v k. n v (ground arith)) (ground arith)
              (link-IsSwept cur nb s h) (ground arith) in
          let fewer = unseen-new nb s.seen nodes (n nb (ground (arith, list_beq_iff nb nb))) i in
          let longer = length-append s.queue (nb ∷ []) in
          let sm = r.smaller in
          let less : length t.queue + unseen t.seen nodes ≤ length s.queue + unseen s.seen nodes =
            omega arith in
          record {
            kept = λ v k. r.kept v (ground arith);
            met = λ v k. ground (arith, list_beq_iff nb v, r.met v, r.kept nb);
            unmet = r.unmet;
            swept = r.swept;
            smaller = less;
          }
    ]
  ]

  -- The nodes of `seen` are closed under edges, and `dst` is not one of them.
  abbrev pub IsClosed : List Str → List Str → Type 0
  IsClosed first seen =
      ((v : Str) → elem v first ≡ true → elem v seen ≡ true)
      × (elem dst seen ≡ false)
      × ((v : Str) → elem v seen ≡ true → IsDone seen v)

  pub popped-IsSwept :
      (cur : Str) (q seen : List Str)
      → ((v : Str) → elem v seen ≡ true → IsSwept (cur ∷ q) seen v)
      → (v : Str) → elem v seen ≡ true
      → IsSweptBut cur q seen v
  popped-IsSwept cur q seen h v i = elim (h v i) [
    | inr d ↦ inr (inr d)
    | inl k ↦ elim (Bool-cases (list_beq cur v)) [
      | inl t ↦ inl (sym ((list_beq_iff cur v).0 t))
      | inr f ↦ inr (inl (ground arith))
    ]
  ]

  pub visited-IsSwept :
      (cur : Str) (s t : Search)
      → IsVisited cur (neighbours adj cur) s t
      → (v : Str) → elem v t.seen ≡ true
      → IsSwept t.queue t.seen v
  visited-IsSwept cur s t r v i = elim (r.swept v i) [
    | inr h ↦ h
    | inl e ↦ inr (λ u l. r.met u (subst (λ w. elem u (neighbours adj w) ≡ true) e l))
  ]

  search-IsClosed :
      (n : ℕ) (prev : Assoc Str Str) (queue seen : List Str)
      → ((v u : Str) → elem u (neighbours adj v) ≡ true → elem u nodes ≡ true)
      → elem dst seen ≡ false
      → ((v : Str) → elem v seen ≡ true → IsSwept queue seen v)
      → length queue + unseen seen nodes < n
      → search n adj dst (record { prev = prev; queue = queue; seen = seen }) ≡ none
      → (last : List Str) × IsClosed seen last
  unfolding search
  search-IsClosed zero prev queue seen k f h l e = absurd (omega arith)
  search-IsClosed (suc n) prev [] seen k f h l e =
      (seen, (λ v i. i, f, λ v i. elim (h v i) [ inl q ↦ absurd (ground arith) | inr d ↦ d ]))
  search-IsClosed (suc n) prev (cur ∷ q) seen k f h l e =
      let s : Search = record { prev = prev; queue = q; seen = seen } in
      elim (Visit-cases (visit dst cur (neighbours adj cur) s)) [
        | inl (p, v) ↦ absurd (ground arith)
        | inr (t, v) ↦
            let r =
              visit-IsVisited cur (neighbours adj cur) s t (k cur) f (popped-IsSwept cur q seen h)
                v in
            let sm = r.smaller in
            let (final, (kept, unmet, done)) =
              search-IsClosed n t.prev t.queue t.seen k r.unmet (visited-IsSwept cur s t r)
                (omega arith) (ground arith) in
            (final, (λ w i. kept w (r.kept w i), unmet, done))
      ]

abbrev pub dests : {W : Type 0} → Edges W → List Str
dests [] = []
dests ((s, d, w) ∷ es) = d ∷ dests es

pub ends-dests :
    {W : Type 0} (es : Edges W) (v u : Str) → elem u (ends v es) ≡ true → elem u (dests es) ≡ true
ends-dests [] v u h = absurd (ground arith)
ends-dests ((s, d, w) ∷ es) v u h = ground (arith, ends-dests es v u)

unseen-dests : {W : Type 0} (es : Edges W) (seen : List Str) → unseen seen (dests es) ≤ length es
unseen-dests [] seen = omega arith
unseen-dests ((s, d, w) ∷ es) seen = ground (arith, unseen-dests es seen)

pub neighbours-ends :
    {W : Type 0} (es : Edges W) (v u : Str)
    → elem u (neighbours (adj_from [] es) v) ≡ elem u (ends v es)
neighbours-ends es v u =
    ap (elem u) (neighbours-adj_from [] es v)
    ∙ ap (λ o. elem u (or_else [] o ++ ends v es)) (lookup-nil v)

pub start-IsSwept :
    (adj : Assoc Str (List Str)) (src dst v : Str)
    → elem v (src ∷ []) ≡ true
    → IsSwept adj [] dst (src ∷ []) (src ∷ []) v
start-IsSwept adj src dst v i = inl i

-- A closed set holds the end of every path that begins in it.
closed-path :
    {W : Type 0} (es : Edges W) (v u : Str) (last path : List Str)
    → ((w x : Str) → elem w last ≡ true → elem x (ends w es) ≡ true → elem x last ≡ true)
    → elem v last ≡ true
    → IsPath es v u path
    → elem u last ≡ true
closed-path es v u last [] c i p = absurd p
closed-path es v u last (x ∷ []) c i p = subst (λ w. elem w last ≡ true) (p.0 ∙ p.1) i
closed-path es v u last (x ∷ y ∷ path) c i (e, (w, l), p) =
    closed-path es y u last (y ∷ path) c
      (c x y (subst (λ z. elem z last ≡ true) e i) (Edge-ends es x y w l)) p

searched_path :
    {W : Type 0} (es : Edges W) (src dst : Str) (path : List Str)
    → list_beq src dst ≡ false
    → IsPath es src dst path
    → shortest_path es src dst ≡ none
    → ⊥
unfolding shortest_path
searched_path es src dst path f p e =
    let adj = adj_from [] es in
    let few = unseen-dests es (src ∷ []) in
    let (last, (kept, unmet, done)) =
      search-IsClosed adj (dests es) dst (length es + 2) [] (src ∷ []) (src ∷ [])
        (λ v u l. ends-dests es v u (sym (neighbours-ends es v u) ∙ l))
        (ground (arith, list_beq_iff src dst)) (start-IsSwept adj src dst) (omega arith)
        (ground arith) in
    let reached =
      closed-path es src dst last path (λ w x i l. done w i x (neighbours-ends es w x ∙ l))
        (kept src (ground (arith, list_beq_iff src src))) p in
    ground arith

-- Where a path exists, `shortest_path` returns one: the search does not run out of fuel before it
-- finds it. A node alone is a path from itself to itself, also where no edge has it.
pub shortest_path_found :
    {W : Type 0} (es : Edges W) (src dst : Str) (path : List Str)
    → IsPath es src dst path
    → (q : List Str) × (shortest_path es src dst ≡ some q) × IsPath es src dst q
unfolding shortest_path
shortest_path_found es src dst path p = elim (Option-cases (shortest_path es src dst)) [
  | inl (q, e) ↦ (q, e, shortest_path-IsPath es src dst q e)
  | inr e ↦ elim (Bool-cases (list_beq src dst)) [
    | inl t ↦ absurd (ground arith)
    | inr f ↦ absurd (searched_path es src dst path f p e)
  ]
]
