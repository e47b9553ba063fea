-- ===== src/Graph/Levels.antt =====
-- The search goes through the graph level by level.
use mathlib.Core.Path.{subst}
use ecphoria.Prelude.{
  ℕ, zero, suc, ◌+◌, ◌≡◌, refl, ap, sym, ◌∙◌, arith, true, false, List, [], ◌∷◌, ◌++◌, length,
  length-append, All, Bool-cases, inl, inr, ◌⊎◌,
}
use ecphoria.Prelude.Eq.{nat_eq, list_eq, list_beq, list_beq_iff}
use ecphoria.Prelude.Assoc.{Assoc, insert, elem, lookup-insert}
use ecphoria.Prelude.Text.{Str}
use ecphoria.Graph.{Search, neighbours, chain, link, Visit, found, going, visit, reverse}
use ecphoria.Graph.Traces.{
  IsTrace, IsSearched, link-IsSearched, IsTrace-insert, chain-IsTrace, elem-append,
}

pub length-reverse : (vs : List Str) → length (reverse vs) ≡ length vs
unfolding reverse
length-reverse [] = refl
length-reverse (v ∷ vs) = omega (arith, length-reverse vs, length-append (reverse vs) (v ∷ []))

list_assoc : (a b c : List Str) → (a ++ b) ++ c ≡ a ++ (b ++ c)
list_assoc [] b c = refl
list_assoc (x ∷ a) b c = ap (◌∷◌ x) (list_assoc a b c)

module _ (adj : Assoc Str (List Str)) (src : Str) where
  -- the nodes that at most `n` edges reach from `src`
  abbrev pub IsNear : ℕ → Str → Type 0
  IsNear zero v = v ≡ src
  IsNear (suc n) v = IsNear n v ⊎ ((w : Str) × IsNear n w × (elem v (neighbours adj w) ≡ true))

  -- `prev` leads back in `n` steps
  abbrev pub HasDepth : Assoc Str Str → List Str → ℕ → Str → Type 0
  HasDepth prev seen n v = (ps : List Str) × IsTrace adj src prev seen v ps × (length ps ≡ n)

  IsTrace-unique :
      (prev : Assoc Str Str) (seen : List Str) (c : Str) (ps qs : List Str)
      → IsTrace adj src prev seen c ps
      → IsTrace adj src prev seen c qs
      → ps ≡ qs
  IsTrace-unique prev seen c [] [] t u = refl
  IsTrace-unique prev seen c [] (q ∷ qs) t u = absurd (ground arith)
  IsTrace-unique prev seen c (p ∷ ps) [] t u = absurd (ground arith)
  IsTrace-unique prev seen c (p ∷ ps) (q ∷ qs) t u =
      let e : p ≡ q = ground arith in
      cc (
        e,
        IsTrace-unique prev seen p ps qs t.3
            (subst (λ x. IsTrace adj src prev seen x qs) (sym e) u.3),
      )

  -- The queue is `here` and `next`, the rest of level `n` and what the search has of the next one.
  pub record IsLevel (n : ℕ) (this next : List Str) (prev : Assoc Str Str) (seen : List Str)
      : Type 0 where
    pub ball : (v : Str) → IsNear n v → elem v seen ≡ true
    pub outer : (v : Str) → elem v next ≡ true → IsNear n v → ⊥
    pub this_depth : (v : Str) → elem v this ≡ true → HasDepth prev seen n v
    pub next_depth : (v : Str) → elem v next ≡ true → HasDepth prev seen (suc n) v

  insert-HasDepth :
      (prev : Assoc Str Str) (seen : List Str) (n : ℕ) (nb cur v : Str)
      → elem nb seen ≡ false
      → HasDepth prev seen n v
      → HasDepth (insert nb cur prev) (nb ∷ seen) n v
  insert-HasDepth prev seen n nb cur v f (ps, t, l) =
      (ps, IsTrace-insert adj src prev seen nb cur v ps f t, l)

  new-HasDepth :
      (prev : Assoc Str Str) (seen : List Str) (n : ℕ) (nb cur : Str)
      → elem nb seen ≡ false
      → elem nb (neighbours adj cur) ≡ true
      → HasDepth prev seen n cur
      → HasDepth (insert nb cur prev) (nb ∷ seen) (suc n) nb
  new-HasDepth prev seen n nb cur f l (ps, t, e) = (
    cur ∷ ps,
    ground (
      arith,
      list_beq_iff nb nb,
      lookup-insert nb nb cur prev,
      IsTrace-insert adj src prev seen nb cur cur ps f t,
    ),
    omega arith,
  )

  link-IsLevel :
      (n : ℕ) (this next : List Str) (prev : Assoc Str Str) (seen : List Str) (nb cur : Str)
      → elem nb seen ≡ false
      → elem nb (neighbours adj cur) ≡ true
      → HasDepth prev seen n cur
      → IsLevel n this next prev seen
      → IsLevel n this (next ++ nb ∷ []) (insert nb cur prev) (nb ∷ seen)
  link-IsLevel n this next prev seen nb cur f l d h = record {
    ball = λ v b. ground (arith, h.ball v b);
    outer = λ v i b. elim (Bool-cases (elem v next)) [
      | inl t ↦ h.outer v t b
      | inr e ↦ ground (arith, elem-append v next (nb ∷ []), list_beq_iff nb v, h.ball v b)
    ];
    this_depth = λ v i. insert-HasDepth prev seen n nb cur v f (h.this_depth v i);
    next_depth = λ v i. elim (Bool-cases (elem v next)) [
      | inl t ↦ insert-HasDepth prev seen (suc n) nb cur v f (h.next_depth v t)
      | inr e ↦
          let q : nb ≡ v = ground (arith, elem-append v next (nb ∷ []), list_beq_iff nb v) in
          subst (HasDepth (insert nb cur prev) (nb ∷ seen) (suc n)) q
            (new-HasDepth prev seen n nb cur f l d)
    ];
  }

  -- how a visit of a node of level `n` ends
  abbrev pub EndsAt : ℕ → Str → List Str → Visit → Type 0
  EndsAt n dst this (found path) = (length path ≡ n + 2) × (IsNear n dst → ⊥)
  EndsAt n dst this (going t) =
      (next : List Str) × (t.queue ≡ this ++ next) × IsLevel n this next t.prev t.seen

  found-EndsAt :
      (n : ℕ) (dst cur : Str) (this next : List Str) (s : Search)
      → IsSearched adj src (link dst cur s)
      → IsLevel n this next s.prev s.seen
      → HasDepth s.prev s.seen n cur
      → elem dst s.seen ≡ false
      → elem dst (neighbours adj cur) ≡ true
      → EndsAt n dst this (
          found
            (reverse (dst ∷ chain (length (insert dst cur s.prev)) (insert dst cur s.prev) dst)))
  found-EndsAt n dst cur this next s h v d f l =
      let prev = insert dst cur s.prev in
      let (ps, tr, le) = h.traced dst (ground (arith, list_beq_iff dst dst)) in
      let (qs, ur, e) = new-HasDepth s.prev s.seen n dst cur f l d in
      let same = IsTrace-unique prev (dst ∷ s.seen) dst ps qs tr ur in
      let c = chain-IsTrace adj src prev (dst ∷ s.seen) (length prev) dst ps le tr in
      (
        length-reverse (dst ∷ chain (length prev) prev dst)
            ∙ ap (λ vs. suc (length vs)) (c ∙ same)
            ∙ omega arith,
        λ b. ground (arith, v.ball dst b),
      )

  pub visit-EndsAt :
      (n : ℕ) (dst cur : Str) (nbs this next : List Str) (s : Search)
      → IsSearched adj src s
      → s.queue ≡ this ++ next
      → IsLevel n this next s.prev s.seen
      → HasDepth s.prev s.seen n cur
      → elem cur s.seen ≡ true
      → All (λ u. elem u (neighbours adj cur) ≡ true) nbs
      → EndsAt n dst this (visit dst cur nbs s)
  unfolding visit
  visit-EndsAt n dst cur [] this next s h q v d c l = (next, q, v)
  visit-EndsAt n dst cur (nb ∷ nbs) this next s h q v d c l = elim (Bool-cases (elem nb s.seen)) [
    | inl t ↦ ground (arith, visit-EndsAt n dst cur nbs this next s h q v d c l.1)
    | inr f ↦
        let k = link-IsSearched adj src s nb cur h c l.0 f in
        elim (Bool-cases (list_beq nb dst)) [
          | inl t ↦
              let e : nb ≡ dst = (list_beq_iff nb dst).0 t in
              let k' = subst (λ x. IsSearched adj src (link x cur s)) e k in
              ground (
                arith,
                found-EndsAt n dst cur this next s k' v d (ground arith) (ground (arith, l.0)),
              )
          | inr e ↦ ground (
            arith,
            visit-EndsAt n dst cur nbs this (next ++ nb ∷ []) (link nb cur s) k
                (ap (λ x. x ++ nb ∷ []) q ∙ list_assoc this next (nb ∷ []))
                (link-IsLevel n this next s.prev s.seen nb cur f l.0 d v)
                (insert-HasDepth s.prev s.seen n nb cur cur f d) (ground arith) l.1,
          )
        ]
  ]
