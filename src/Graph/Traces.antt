-- ===== src/Graph/Traces.antt =====
-- Every node that the search has seen leads back to the start.
use ecphoria.Prelude.{
  ℕ, zero, suc, ◌≤◌, ◌≡◌, refl, arith, true, false, ◌||◌, none, some, List, [], ◌∷◌, ◌++◌, length,
  Bool-cases, inl, inr,
}
use ecphoria.Prelude.Eq.{nat_eq, list_eq, list_beq, list_beq_iff}
use ecphoria.Prelude.Assoc.{Assoc, lookup, insert, elem, lookup-insert, length-insert-new}
use ecphoria.Prelude.Text.{Str}
use ecphoria.Graph.{Search, neighbours, chain, link}

pub elem-append : (v : Str) (a b : List Str) → elem v (a ++ b) ≡ (elem v a || elem v b)
elem-append v [] b = refl
elem-append v (x ∷ a) b = ground (arith, elem-append v a b)

module _ (adj : Assoc Str (List Str)) (src : Str) where
  -- a way from `src` to `c`, backwards, behind `c`
  abbrev pub IsBack : Str → List Str → Type 0
  IsBack c [] = c ≡ src
  IsBack c (p ∷ ps) = (elem c (neighbours adj p) ≡ true) × IsBack p ps

  -- the same along `prev`, through nodes that are seen
  abbrev pub IsTrace : Assoc Str Str → List Str → Str → List Str → Type 0
  IsTrace prev seen c [] = (c ≡ src) × (elem c seen ≡ true) × (lookup c prev ≡ none)
  IsTrace prev seen c (p ∷ ps) =
      (elem c seen ≡ true)
      × (lookup c prev ≡ some p)
      × (elem c (neighbours adj p) ≡ true)
      × IsTrace prev seen p ps

  pub IsTrace-IsBack :
      (prev : Assoc Str Str) (seen : List Str) (c : Str) (ps : List Str)
      → IsTrace prev seen c ps
      → IsBack c ps
  IsTrace-IsBack prev seen c [] t = t.0
  IsTrace-IsBack prev seen c (p ∷ ps) t = (t.2, IsTrace-IsBack prev seen p ps t.3)

  pub chain-IsTrace :
      (prev : Assoc Str Str) (seen : List Str) (n : ℕ) (c : Str) (ps : List Str)
      → length ps ≤ n
      → IsTrace prev seen c ps
      → chain n prev c ≡ ps
  unfolding chain
  chain-IsTrace prev seen zero c [] l t = refl
  chain-IsTrace prev seen zero c (p ∷ ps) l t = absurd (omega arith)
  chain-IsTrace prev seen (suc n) c [] l t = ground arith
  chain-IsTrace prev seen (suc n) c (p ∷ ps) l t =
      ground (arith, chain-IsTrace prev seen n p ps (omega arith) t.3)

  pub IsTrace-insert :
      (prev : Assoc Str Str) (seen : List Str) (nb cur c : Str) (ps : List Str)
      → elem nb seen ≡ false
      → IsTrace prev seen c ps
      → IsTrace (insert nb cur prev) (nb ∷ seen) c ps
  IsTrace-insert prev seen nb cur c [] f t =
      ground (arith, lookup-insert nb c cur prev, list_beq_iff nb c)
  IsTrace-insert prev seen nb cur c (p ∷ ps) f t = ground (
    arith,
    lookup-insert nb c cur prev,
    list_beq_iff nb c,
    IsTrace-insert prev seen nb cur p ps f t.3,
  )

  pub record IsSearched (s : Search) : Type 0 where
    pub traced :
        (v : Str)
        → elem v s.seen ≡ true
        → (ps : List Str) × IsTrace s.prev s.seen v ps × (length ps ≤ length s.prev)
    pub rooted : (v : Str) → elem v s.seen ≡ false → lookup v s.prev ≡ none
    pub queued : (v : Str) → elem v s.queue ≡ true → elem v s.seen ≡ true

  module _ (s : Search) (nb cur : Str) (h : IsSearched s) where
    link-traced :
        elem cur s.seen ≡ true
        → elem nb (neighbours adj cur) ≡ true
        → elem nb s.seen ≡ false
        → (v : Str) → elem v (nb ∷ s.seen) ≡ true
        → (ps : List Str) × IsTrace (insert nb cur s.prev) (nb ∷ s.seen) v ps
          × (length ps ≤ length (insert nb cur s.prev))
    link-traced c l f v i =
        let grown = length-insert-new nb cur s.prev (h.rooted nb f) in
        elim (Bool-cases (list_beq nb v)) [
          | inl t ↦
              let (ps, tr, le) = h.traced cur c in
              (
                cur ∷ ps,
                ground (
                  arith,
                  list_beq_iff nb v,
                  lookup-insert nb v cur s.prev,
                  IsTrace-insert s.prev s.seen nb cur cur ps f tr,
                ),
                omega arith,
              )
          | inr t ↦
              let (ps, tr, le) = h.traced v (ground arith) in
              (ps, IsTrace-insert s.prev s.seen nb cur v ps f tr, omega arith)
        ]

    pub link-IsSearched :
        elem cur s.seen ≡ true
        → elem nb (neighbours adj cur) ≡ true
        → elem nb s.seen ≡ false
        → IsSearched (link nb cur s)
    link-IsSearched c l f = record {
      traced = link-traced c l f;
      rooted = λ v q. ground (arith, h.rooted v, lookup-insert nb v cur s.prev, list_beq_iff nb v);
      queued = λ v q. ground (arith, h.queued v, elem-append v s.queue (nb ∷ []));
    }
