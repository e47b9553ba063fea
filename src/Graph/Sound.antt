-- ===== src/Graph/Sound.antt =====
-- What the search finds is a path.
use mathlib.Core.Path.{subst}
use ecphoria.Prelude.{
  ℕ, zero, suc, ◌+◌, ◌≡◌, refl, ap, sym, ◌∙◌, arith, true, some, List, [], ◌∷◌, ◌++◌, length,
  or_else, All, Bool-cases, inl, inr, ◌⊎◌,
}
use ecphoria.Prelude.Eq.{nat_eq, list_eq, list_beq, list_beq_iff}
use ecphoria.Prelude.Assoc.{Assoc, insert, elem, lookup-nil}
use ecphoria.Prelude.Text.{Str}
use ecphoria.Graph.{
  Edges, Search, neighbours, chain, link, Visit, found, going, visit, reverse, search,
  shortest_path, adj_from,
}
use ecphoria.Graph.Adjacency.{Edge, ends, ends-Edge, neighbours-adj_from}
use ecphoria.Graph.Traces.{IsBack, IsSearched, link-IsSearched, IsTrace-IsBack, chain-IsTrace}

-- how a visit ends well: with a path, or in a search that goes on
abbrev pub EndsWell : Assoc Str (List Str) → Str → Str → Visit → Type 0
EndsWell adj src dst (found path) =
    (ps : List Str) × (path ≡ reverse (dst ∷ ps)) × IsBack adj src dst ps
EndsWell adj src dst (going s) = IsSearched adj src s

module _ (adj : Assoc Str (List Str)) (src dst cur : Str) where
  found-EndsWell :
      (s : Search)
      → IsSearched adj src (link dst cur s)
      → EndsWell adj src dst (
          found
            (reverse (dst ∷ chain (length (insert dst cur s.prev)) (insert dst cur s.prev) dst)))
  found-EndsWell s h =
      let prev = insert dst cur s.prev in
      let (ps, tr, le) = h.traced dst (ground (arith, list_beq_iff dst dst)) in
      (
        ps,
        ap (λ vs. reverse (dst ∷ vs))
            (chain-IsTrace adj src prev (dst ∷ s.seen) (length prev) dst ps le tr),
        IsTrace-IsBack adj src prev (dst ∷ s.seen) dst ps tr,
      )

  visit-EndsWell :
      (nbs : List Str) (s : Search)
      → IsSearched adj src s
      → elem cur s.seen ≡ true
      → All (λ u. elem u (neighbours adj cur) ≡ true) nbs
      → EndsWell adj src dst (visit dst cur nbs s)
  unfolding visit
  visit-EndsWell [] s h c l = h
  visit-EndsWell (nb ∷ nbs) s h c l = elim (Bool-cases (elem nb s.seen)) [
    | inl t ↦ ground (arith, visit-EndsWell nbs s h c l.1)
    | inr f ↦
        let h' = link-IsSearched adj src s nb cur h c l.0 f in
        elim (Bool-cases (list_beq nb dst)) [
          | inl t ↦
              let q : nb ≡ dst = (list_beq_iff nb dst).0 t in
              let k = subst (λ n. IsSearched adj src (link n cur s)) q h' in
              ground (arith, found-EndsWell s k)
          | inr e ↦ ground (arith, visit-EndsWell nbs (link nb cur s) h' (ground arith) l.1)
        ]
  ]

pub All-linked :
    (us vs : List Str)
    → ((u : Str) → elem u vs ≡ true → elem u us ≡ true)
    → All (λ u. elem u us ≡ true) vs
All-linked us [] f = tt
All-linked us (v ∷ vs) f =
    (f v (ground (arith, list_beq_iff v v)), All-linked us vs (λ u i. f u (ground arith)))

pub Visit-cases : (v : Visit) → ((p : List Str) × (v ≡ found p)) ⊎ ((s : Search) × (v ≡ going s))
Visit-cases (found p) = inl (p, refl)
Visit-cases (going s) = inr (s, refl)

module _ (adj : Assoc Str (List Str)) (src dst : Str) where
  pub popped :
      (prev : Assoc Str Str) (seen : List Str) (cur : Str) (q : List Str)
      → IsSearched adj src (record { prev = prev; queue = cur ∷ q; seen = seen })
      → IsSearched adj src (record { prev = prev; queue = q; seen = seen }) × (elem cur seen ≡ true)
  popped prev seen cur q h = (
    record { traced = h.traced; rooted = h.rooted; queued = λ v i. h.queued v (ground arith) },
    h.queued cur (ground (arith, list_beq_iff cur cur)),
  )

  pub visited :
      (prev : Assoc Str Str) (seen : List Str) (cur : Str) (q : List Str)
      → IsSearched adj src (record { prev = prev; queue = cur ∷ q; seen = seen })
      → EndsWell adj src dst
          (visit dst cur (neighbours adj cur) (record { prev = prev; queue = q; seen = seen }))
  visited prev seen cur q h =
      let (k, c) = popped prev seen cur q h in
      visit-EndsWell adj src dst cur (neighbours adj cur)
        (record { prev = prev; queue = q; seen = seen }) k c
        (All-linked (neighbours adj cur) (neighbours adj cur) (λ u i. i))

  search-IsBack :
      (n : ℕ) (prev : Assoc Str Str) (queue seen : List Str) (path : List Str)
      → IsSearched adj src (record { prev = prev; queue = queue; seen = seen })
      → search n adj dst (record { prev = prev; queue = queue; seen = seen }) ≡ some path
      → (ps : List Str) × (path ≡ reverse (dst ∷ ps)) × IsBack adj src dst ps
  unfolding search
  search-IsBack zero prev queue seen path h e = absurd (ground arith)
  search-IsBack (suc n) prev [] seen path h e = absurd (ground arith)
  search-IsBack (suc n) prev (cur ∷ q) seen path h e =
      let s : Search = record { prev = prev; queue = q; seen = seen } in
      let w = visited prev seen cur q h in
      elim (Visit-cases (visit dst cur (neighbours adj cur) s)) [
        | inl (p, v) ↦
            let (ps, r, b) = subst (EndsWell adj src dst) v w in
            let same : p ≡ path = ground arith in (ps, sym same ∙ r, b)
        | inr (s', v) ↦
            search-IsBack n s'.prev s'.queue s'.seen path (subst (EndsWell adj src dst) v w)
              (ground arith)
      ]

-- A way along edges from `v` to `u`, both included.
abbrev pub IsPath : {W : Type 0} → Edges W → Str → Str → List Str → Type 0
IsPath es v u [] = ⊥
IsPath es v u (x ∷ []) = (v ≡ x) × (x ≡ u)
IsPath es v u (x ∷ y ∷ p) = (v ≡ x) × Edge es x y × IsPath es y u (y ∷ p)

IsPath-snoc :
    {W : Type 0} (es : Edges W) (v u c : Str) (p : List Str)
    → IsPath es v u p
    → Edge es u c
    → IsPath es v c (p ++ c ∷ [])
IsPath-snoc es v u c [] h e = absurd h
IsPath-snoc es v u c (x ∷ []) h e = (h.0, subst (λ y. Edge es y c) (sym h.1) e, (refl, refl))
IsPath-snoc es v u c (x ∷ y ∷ p) h e = (h.0, h.1, IsPath-snoc es y u c (y ∷ p) h.2 e)

none_before : {W : Type 0} (es : Edges W) (v : Str) → neighbours [] v ++ ends v es ≡ ends v es
none_before es v = ap (λ o. or_else [] o ++ ends v es) (lookup-nil v)

linked-Edge :
    {W : Type 0} (es : Edges W) (v u : Str)
    → elem u (neighbours (adj_from [] es) v) ≡ true
    → Edge es v u
linked-Edge es v u h =
    ends-Edge es v u (ap (elem u) (sym (neighbours-adj_from [] es v ∙ none_before es v)) ∙ h)

back-IsPath :
    {W : Type 0} (es : Edges W) (src c : Str) (ps : List Str)
    → IsBack (adj_from [] es) src c ps
    → IsPath es src c (reverse (c ∷ ps))
unfolding reverse
back-IsPath es src c [] h = (sym h, refl)
back-IsPath es src c (p ∷ ps) h =
    IsPath-snoc es src p c (reverse (p ∷ ps)) (back-IsPath es src p ps h.1) (linked-Edge es p c h.0)

pub start-IsSearched :
    (adj : Assoc Str (List Str)) (src : Str)
    → IsSearched adj src (record { prev = []; queue = src ∷ []; seen = src ∷ [] })
start-IsSearched adj src = record {
  traced = λ v i. ([], (ground (arith, list_beq_iff src v), i, lookup-nil v), omega arith);
  rooted = λ v i. lookup-nil v;
  queued = λ v i. i;
}

-- What `shortest_path` returns is a path from `src` to `dst` along the edges.
pub shortest_path-IsPath :
    {W : Type 0} (es : Edges W) (src dst : Str) (path : List Str)
    → shortest_path es src dst ≡ some path
    → IsPath es src dst path
unfolding shortest_path
shortest_path-IsPath es src dst path e = elim (Bool-cases (list_beq src dst)) [
  | inl t ↦
      let q : src ∷ [] ≡ path = ground arith in
      subst (IsPath es src dst) q (refl, (list_beq_iff src dst).0 t)
  | inr f ↦
      let (ps, r, b) =
        search-IsBack (adj_from [] es) src dst (length es + 2) [] (src ∷ []) (src ∷ []) path
          (start-IsSearched (adj_from [] es) src) (ground arith) in
      subst (IsPath es src dst) (sym r) (back-IsPath es src dst ps b)
]
