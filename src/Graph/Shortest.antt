-- ===== src/Graph/Shortest.antt =====
-- No path is shorter than the one that the search finds.
use mathlib.Core.Path.{subst}
use ecphoria.Prelude.{
  ℕ, zero, suc, ◌+◌, ◌≤◌, ◌≡◌, refl, ap, sym, ◌∙◌, arith, true, false, some, List, [], ◌∷◌, ◌++◌,
  length, leb, Bool-cases, inl, inr,
}
use ecphoria.Prelude.Eq.{nat_eq, list_eq, list_beq, list_beq_iff}
use ecphoria.Prelude.Assoc.{Assoc, elem, lookup-nil}
use ecphoria.Prelude.Text.{Str}
use ecphoria.Graph.{Edges, Search, neighbours, visit, search, shortest_path, adj_from}
use ecphoria.Graph.Adjacency.{Edge-ends}
use ecphoria.Graph.Traces.{IsSearched}
use ecphoria.Graph.Sound.{
  Visit-cases, IsPath, shortest_path-IsPath, EndsWell, visited, start-IsSearched, popped,
  All-linked,
}
use ecphoria.Graph.Complete.{
  IsSwept, popped-IsSwept, visited-IsSwept, visit-IsVisited, dests, ends-dests, neighbours-ends,
}
use ecphoria.Graph.Levels.{IsNear, IsLevel, EndsAt, visit-EndsAt}

append_nil : (a : List Str) → a ++ [] ≡ a
append_nil [] = refl
append_nil (x ∷ a) = ap (◌∷◌ x) (append_nil a)

module _ (adj : Assoc Str (List Str)) (src : Str) where
  IsNear-le : (n m : ℕ) (v : Str) → n ≤ m → IsNear adj src n v → IsNear adj src m v
  IsNear-le zero zero v l b = b
  IsNear-le (suc n) zero v l b = absurd (omega arith)
  IsNear-le n (suc m) v l b = elim (Bool-cases (leb n m)) [
    | inl t ↦ inl (IsNear-le n m v (ground arith) b)
    | inr f ↦ let e : n ≡ suc m = ground arith in subst (λ k. IsNear adj src k v) e b
  ]

  -- The level is done: the next one begins.
  next-IsLevel :
      (nodes : List Str) (dst : Str) (n : ℕ) (next : List Str) (prev : Assoc Str Str)
      (seen : List Str)
      → IsLevel adj src n [] next prev seen
      → ((v : Str) → elem v seen ≡ true → IsSwept adj nodes dst next seen v)
      → IsLevel adj src (suc n) next [] prev seen
  next-IsLevel nodes dst n next prev seen h w = record {
    ball = λ v b. elim b [
      | inl c ↦ h.ball v c
      | inr (x, c, l) ↦ elim (w x (h.ball x c)) [ inl q ↦ absurd (h.outer x q c) | inr d ↦ d v l ]
    ];
    outer = λ v i b. ground arith;
    this_depth = h.next_depth;
    next_depth = λ v i. absurd (ground arith);
  }

  popped-IsLevel :
      (n : ℕ) (cur : Str) (this next : List Str) (prev : Assoc Str Str) (seen : List Str)
      → IsLevel adj src n (cur ∷ this) next prev seen
      → IsLevel adj src n this next prev seen
  popped-IsLevel n cur this next prev seen h = record {
    ball = h.ball;
    outer = h.outer;
    this_depth = λ v i. h.this_depth v (ground arith);
    next_depth = h.next_depth;
  }

module _ (adj : Assoc Str (List Str)) (src : Str) (nodes : List Str) (dst : Str) where
  -- The search is in level `n`.
  record IsAt (n : ℕ) (this next : List Str) (s : Search) : Type 0 where
    line : s.queue ≡ this ++ next
    searched : IsSearched adj src s
    level : IsLevel adj src n this next s.prev s.seen
    unmet : elem dst s.seen ≡ false
    swept : (v : Str) → elem v s.seen ≡ true → IsSwept adj nodes dst s.queue s.seen v

  -- The path has one node more than any path of a level has.
  abbrev IsLeast : List Str → Type 0
  IsLeast path = (k : ℕ) × (length path ≡ k + 2) × (IsNear adj src k dst → ⊥)

  abbrev FindsLeast : ℕ → Type 0
  FindsLeast fuel =
      (n : ℕ) (this next : List Str) (s : Search) (path : List Str)
      → IsAt n this next s
      → search fuel adj dst s ≡ some path
      → IsLeast path

  step :
      (fuel : ℕ)
      → FindsLeast fuel
      → ((v u : Str) → elem u (neighbours adj v) ≡ true → elem u nodes ≡ true)
      → (n : ℕ) (cur : Str) (this next q : List Str) (prev : Assoc Str Str) (seen path : List Str)
      → q ≡ this ++ next
      → IsAt n (cur ∷ this) next (record { prev = prev; queue = cur ∷ q; seen = seen })
      → search (suc fuel) adj dst (record { prev = prev; queue = cur ∷ q; seen = seen }) ≡ some path
      → IsLeast path
  unfolding search
  step fuel rec k n cur this next q prev seen path eq h e =
      let s : Search = record { prev = prev; queue = q; seen = seen } in
      let (ps, c) = popped adj src dst prev seen cur q h.searched in
      let d = h.level.this_depth cur (ground (arith, list_beq_iff cur cur)) in
      let w =
        visit-EndsAt adj src n dst cur (neighbours adj cur) this next s ps eq
          (popped-IsLevel adj src n cur this next prev seen h.level) d c
          (All-linked (neighbours adj cur) (neighbours adj cur) (λ u i. i)) in
      let x = visited adj src dst prev seen cur q h.searched in
      elim (Visit-cases (visit dst cur (neighbours adj cur) s)) [
        | inl (p, v) ↦
            let (l, b) = subst (EndsAt adj src n dst this) v w in
            let same : p ≡ path = ground arith in (n, rw same at l, b)
        | inr (t, v) ↦
            let (next', l, b) = subst (EndsAt adj src n dst this) v w in
            let r =
              visit-IsVisited adj nodes dst cur (neighbours adj cur) s t (k cur) h.unmet
                (popped-IsSwept adj nodes dst cur q seen h.swept) v in
            rec n this next' t path
              (record {
                line = l;
                searched = subst (EndsWell adj src dst) v x;
                level = b;
                unmet = r.unmet;
                swept = visited-IsSwept adj nodes dst cur s t r;
              })
              (ground arith)
      ]

  with_queue : List Str → Search → Search
  with_queue q s = record { prev = s.prev; queue = q; seen = s.seen }

  IsAt-line :
      (n : ℕ) (this next q : List Str) (s : Search)
      → s.queue ≡ q
      → IsAt n this next s
      → IsAt n this next (with_queue q s)
  unfolding with_queue
  IsAt-line n this next q s e h = subst (λ r. IsAt n this next (with_queue r s)) e h

  next-IsAt : (n : ℕ) (next : List Str) (s : Search) → IsAt n [] next s → IsAt (suc n) next [] s
  next-IsAt n next s h = record {
    line = h.line ∙ sym (append_nil next);
    searched = h.searched;
    level = next-IsLevel adj src nodes dst n next s.prev s.seen h.level (
        subst (λ q. (v : Str) → elem v s.seen ≡ true → IsSwept adj nodes dst q s.seen v) h.line
          h.swept);
    unmet = h.unmet;
    swept = h.swept;
  }

  search-IsLeast :
      (fuel : ℕ)
      → ((v u : Str) → elem u (neighbours adj v) ≡ true → elem u nodes ≡ true)
      → FindsLeast fuel
  unfolding search with_queue
  search-IsLeast zero k n this next s path h e = absurd (ground arith)
  search-IsLeast (suc fuel) k n [] [] s path h e = absurd (ground (arith, h.line))
  search-IsLeast (suc fuel) k n (cur ∷ this) next s path h e =
      step fuel (search-IsLeast fuel k) k n cur this next (this ++ next) s.prev s.seen path refl
        (IsAt-line n (cur ∷ this) next (cur ∷ this ++ next) s h.line h)
        (ap (λ q. search (suc fuel) adj dst (with_queue q s)) (sym h.line) ∙ e)
  search-IsLeast (suc fuel) k n [] (cur ∷ next) s path h e =
      step fuel (search-IsLeast fuel k) k (suc n) cur next [] next s.prev s.seen path
        (sym (append_nil next))
        (IsAt-line (suc n) (cur ∷ next) [] (cur ∷ next) s h.line (next-IsAt n (cur ∷ next) s h))
        (ap (λ q. search (suc fuel) adj dst (with_queue q s)) (sym h.line) ∙ e)

path-IsNear :
    {W : Type 0} (es : Edges W) (src v u : Str) (n : ℕ) (path : List Str)
    → IsNear (adj_from [] es) src n v
    → IsPath es v u path
    → (k : ℕ) × (length path ≡ k + 1) × IsNear (adj_from [] es) src (n + k) u
path-IsNear es src v u n [] b p = absurd p
path-IsNear es src v u n (x ∷ []) b p = (
  0,
  refl,
  subst (λ m. IsNear (adj_from [] es) src m u) (omega arith)
      (subst (IsNear (adj_from [] es) src n) (p.0 ∙ p.1) b),
)
path-IsNear es src v u n (x ∷ y ∷ path) b (e, (w, i), p) =
    let l = neighbours-ends es x y ∙ Edge-ends es x y w i in
    let (k, q, c) =
      path-IsNear es src y u (suc n) (y ∷ path)
        (inr (x, subst (IsNear (adj_from [] es) src n) e b, l)) p in
    let e : n + suc k ≡ suc n + k = omega arith in (suc k, omega arith, rw e c)

start-IsAt :
    (adj : Assoc Str (List Str)) (src : Str) (nodes : List Str) (dst : Str)
    → list_beq src dst ≡ false
    → IsAt adj src nodes dst 0
        (src ∷ [])
        []
        (record { prev = []; queue = src ∷ []; seen = src ∷ [] })
start-IsAt adj src nodes dst f = record {
  line = refl;
  searched = start-IsSearched adj src;
  level = record {
    ball = λ v b. ground (arith, b, list_beq_iff src v);
    outer = λ v i b. absurd (ground arith);
    this_depth = λ v i. ([], (ground (arith, list_beq_iff src v), i, lookup-nil v), refl);
    next_depth = λ v i. absurd (ground arith);
  };
  unmet = ground (arith, list_beq_iff src dst);
  swept = λ v i. inl i;
}

shortest_path-length :
    {W : Type 0} (es : Edges W) (src dst : Str) (q path : List Str)
    → shortest_path es src dst ≡ some q
    → IsPath es src dst path
    → length q ≤ length path
unfolding shortest_path
shortest_path-length es src dst q path e p =
    let (m, l, b) = path-IsNear es src src dst 0 path refl p in
    elim (Bool-cases (list_beq src dst)) [
      | inl t ↦ let one : src ∷ [] ≡ q = ground arith in let len = ap length one in omega arith
      | inr f ↦
          let adj = adj_from [] es in
          let (k, r, far) =
            search-IsLeast adj src (dests es) dst (length es + 2)
              (λ v u i. ends-dests es v u (sym (neighbours-ends es v u) ∙ i)) 0 (src ∷ []) []
              (record { prev = []; queue = src ∷ []; seen = src ∷ [] }) q
              (start-IsAt adj src (dests es) dst f) (ground arith) in
          elim (Bool-cases (leb m k)) [
            | inl t ↦ absurd (far (IsNear-le adj src (0 + m) k dst (ground arith) b))
            | inr g ↦ ground arith
          ]
    ]

-- What `shortest_path` returns is a path from `src` to `dst` along the edges, and no such path has
-- fewer nodes.
pub shortest_path_least :
    {W : Type 0} (es : Edges W) (src dst : Str) (q : List Str)
    → shortest_path es src dst ≡ some q
    → IsPath es src dst q × ((path : List Str) → IsPath es src dst path → length q ≤ length path)
shortest_path_least es src dst q e =
    (shortest_path-IsPath es src dst q e, λ path p. shortest_path-length es src dst q path e p)
