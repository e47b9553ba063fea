-- ===== src/Lexical/History.antt =====
-- What the index shows after any calls, and what a search finds there.
use mathlib.Core.Path.{subst}
use ecphoria.Prelude.{
  ℕ, ◌≡◌, refl, ap, sym, ◌∙◌, arith, Bool, true, false, ◌&&◌, Option, none, some, List, [], ◌∷◌,
  if◌then◌else◌, keep, In, here, there, Bool-cases, Option-cases, inl, inr, ◌⊎◌,
}
use ecphoria.Prelude.Eq.{nat_eq, list_eq, list_beq, list_beq_iff, option_eq, option_beq_iff, ◌==◌}
use ecphoria.Prelude.Assoc.{Assoc, lookup, lookup-nil, IsUnique}
use ecphoria.Prelude.Result.{Result, ok, err}
use ecphoria.Prelude.Text.{Str}
use ecphoria.Lexical.{
  DocRow, FtsRow, LexicalIndex, LexicalEntry, LexicalError, upsert, upsert_row, upsert_rows,
  upsert_batch, remove_entry, clear, Fts, search_index, joined, hit, with_score, in_project,
}
use ecphoria.Lexical.View.{
  Indexed, IsIndex, view, entry_of, view-upsert_row, upsert_row-IsIndex, remove_row-IsIndex,
  view-remove_row,
}

-- A call, with the statements that fail in it.
pub data Call : Type 0 where
  upserts : Bool → LexicalEntry → Call
  batches : Bool → List LexicalEntry → Call
  removes : Bool → Str → Call
  clears : Bool → Bool → Call

-- the index after a transaction that may have failed
abbrev pub kept_or : LexicalIndex → Result LexicalError LexicalIndex → LexicalIndex
kept_or ix (ok new) = new
kept_or ix (err e) = ix

abbrev pub call : Call → LexicalIndex → LexicalIndex
call (upserts fails e) ix = kept_or ix (upsert fails e ix)
call (batches fails es) ix = kept_or ix (upsert_batch fails es ix)
call (removes fails id) ix = kept_or ix (remove_entry fails id ix)
call (clears fts_fails docs_fails) ix = (clear fts_fails docs_fails ix).1

-- the index after the calls, the last one first
unfoldable pub after : List Call → LexicalIndex
after [] = record { mem_docs = []; mem_fts = []; next_rowid = 1 }
after (c ∷ cs) = call c (after cs)

-- The same on a map from ids, without tables.
abbrev pub put_all : List LexicalEntry → (Str → Option Indexed) → Str → Option Indexed
put_all [] m = m
put_all (e ∷ es) m = put_all es (λ j. if e.id == j then some (entry_of e) else m j)

abbrev pub expect : Call → (Str → Option Indexed) → Str → Option Indexed
expect (upserts true e) m j = m j
expect (upserts false e) m j = if e.id == j then some (entry_of e) else m j
expect (batches true es) m j = m j
expect (batches false es) m j = put_all es m j
expect (removes true id) m j = m j
expect (removes false id) m j = if id == j then none else m j
expect (clears true docs_fails) m j = m j
expect (clears false docs_fails) m j = none

unfoldable pub expected : List Call → Str → Option Indexed
expected [] j = none
expected (c ∷ cs) j = expect c (expected cs) j

upsert_rows-view :
    (es : List LexicalEntry) (ix : LexicalIndex) (m : Str → Option Indexed)
    → IsIndex ix
    → ((j : Str) → view ix j ≡ m j)
    → IsIndex (upsert_rows es ix) × ((j : Str) → view (upsert_rows es ix) j ≡ put_all es m j)
unfolding upsert_rows
upsert_rows-view [] ix m h v = (h, v)
upsert_rows-view (e ∷ es) ix m h v =
    upsert_rows-view es (upsert_row e ix) (λ j. if e.id == j then some (entry_of e) else m j)
      (upsert_row-IsIndex e ix h)
      (λ j. view-upsert_row e ix j h ∙ ap (λ o. if e.id == j then some (entry_of e) else o) (v j))

no_body : (k : ℕ) → lookup {V = FtsRow} k [] ≡ none
no_body k = lookup-nil k

no_doc : (id : Str) → lookup {V = DocRow} id [] ≡ none
no_doc id = lookup-nil id

emptied_view :
    (docs : Assoc Str DocRow) (next : ℕ) (j : Str)
    → view (record { mem_docs = docs; mem_fts = []; next_rowid = next }) j ≡ none
unfolding view
emptied_view docs next j = elim (Option-cases (lookup j docs)) [
  | inr n ↦ ground arith
  | inl (d, q) ↦ ground (arith, no_body d.rowid)
]

nil-IsIndex : (next : ℕ) → IsIndex (record { mem_docs = []; mem_fts = []; next_rowid = next })
nil-IsIndex next = record {
  unique = tt;
  given = λ id d q. absurd (ground (arith, no_doc id));
  unshared = λ i j c d p q s. absurd (ground (arith, no_doc i));
}

-- The index is well formed, and shows what is expected.
abbrev pub IsExpected : LexicalIndex → (Str → Option Indexed) → Type 0
IsExpected ix m = IsIndex ix × ((j : Str) → view ix j ≡ m j)

call-IsExpected :
    (c : Call) (ix : LexicalIndex) (m : Str → Option Indexed)
    → IsExpected ix m
    → IsExpected (call c ix) (expect c m)
unfolding upsert upsert_batch remove_entry clear
call-IsExpected (upserts true e) ix m (h, v) = (h, v)
call-IsExpected (upserts false e) ix m (h, v) = upsert_rows-view (e ∷ []) ix m h v
call-IsExpected (batches true []) ix m (h, v) = (h, v)
call-IsExpected (batches true (e ∷ es)) ix m (h, v) = (h, v)
call-IsExpected (batches false []) ix m (h, v) = (h, v)
call-IsExpected (batches false (e ∷ es)) ix m (h, v) = upsert_rows-view (e ∷ es) ix m h v
call-IsExpected (removes true id) ix m (h, v) = (h, v)
call-IsExpected (removes false id) ix m (h, v) = (
  remove_row-IsIndex id ix h,
  λ j. view-remove_row id ix j h ∙ ap (λ o. if id == j then none else o) (v j),
)
call-IsExpected (clears true b) ix m (h, v) = (h, v)
call-IsExpected (clears false true) ix m (h, v) = (
  record { unique = h.unique; given = h.given; unshared = h.unshared },
  emptied_view ix.mem_docs ix.next_rowid,
)
call-IsExpected (clears false false) ix m (h, v) =
    (nil-IsIndex ix.next_rowid, emptied_view [] ix.next_rowid)

after-IsExpected : (cs : List Call) → IsExpected (after cs) (expected cs)
unfolding after expected
after-IsExpected [] = (nil-IsIndex 1, emptied_view [] 1)
after-IsExpected (c ∷ cs) = call-IsExpected c (after cs) (expected cs) (after-IsExpected cs)

abbrev contents : {A : Type 0} → Result LexicalError (List A) → List A
contents (ok xs) = xs
contents (err e) = []

ok_inj :
    {A : Type 0} {r : Result LexicalError (List A)} {xs ys : List A}
    → r ≡ ok xs
    → r ≡ ok ys
    → xs ≡ ys
ok_inj p q = ap contents (sym p ∙ q)

In-tail :
    {A : Type 0} (b : Bool) (a x : A) (rest xs : List A)
    → (In a rest → In a xs)
    → In a (if b then x ∷ rest else rest)
    → In a (x ∷ xs)
In-tail true a x rest xs f (here e) = here e
In-tail true a x rest xs f (there r) = there (f r)
In-tail false a x rest xs f r = there (f r)

In-keep : {A : Type 0} (test : A → Bool) (a : A) (xs : List A) → In a (keep test xs) → In a xs
In-keep test a [] i = i
In-keep test a (x ∷ xs) i = In-tail (test x) a x (keep test xs) xs (λ r. In-keep test a xs r) i

module _ {Score : Type 0} (fts : Fts Score) where
  -- what a search may find
  abbrev pub IsFound : (Str → Option Indexed) → Str → Option Str → Str → Str → Type 0
  IsFound m scope_key project expr id =
      (e : Indexed) × (m id ≡ some e)
      × (fts.is_match expr e.body ≡ true)
      × (e.scope ≡ scope_key)
      × ((p : Str) → project ≡ some p → e.project ≡ some p)

  in_project-some :
      (project : Option Str) (d : DocRow) (p : Str)
      → in_project project d ≡ true
      → project ≡ some p
      → d.project ≡ some p
  in_project-some none d p h e = absurd (ground arith)
  in_project-some (some q) d p h e = (option_beq_iff d.project (some q)).0 h ∙ e

  with_score-In :
      (o : Option Score) (rest : List (Str × Score)) (j id : Str) (s : Score)
      → In (id, s) (with_score fts j o rest)
      → ((o ≡ some s) × (id ≡ j)) ⊎ In (id, s) rest
  with_score-In none rest j id s i = inr i
  with_score-In (some r) rest j id s (here e) =
      inl (sym (ap (λ (h : Str × Score). some h.1) e), ap (λ (h : Str × Score). h.0) e)
  with_score-In (some r) rest j id s (there i) = inr i

  lookup-behind :
      (j k : Str) (d e : DocRow) (docs : Assoc Str DocRow)
      → lookup j docs ≡ none
      → lookup k docs ≡ some e
      → lookup k ((j, d) ∷ docs) ≡ some e
  unfolding lookup
  lookup-behind j k d e docs n q = elim (Bool-cases (list_beq j k)) [
    | inl t ↦
        let same : j ≡ k = (list_beq_iff j k).0 t in
        absurd (let m = subst (λ x. lookup x docs ≡ none) same n in ground arith)
    | inr f ↦ ground arith
  ]

  lookup-front :
      (j : Str) (d : DocRow) (docs : Assoc Str DocRow) → lookup j ((j, d) ∷ docs) ≡ some d
  unfolding lookup
  lookup-front j d docs = ground (arith, list_beq_iff j j)

  hit-IsFound :
      (ix : LexicalIndex) (scope_key : Str) (project : Option Str) (expr id : Str) (d : DocRow)
      (s : Score)
      → lookup id ix.mem_docs ≡ some d
      → hit fts ix scope_key project expr d (lookup d.rowid ix.mem_fts) ≡ some s
      → IsFound (view ix) scope_key project expr id
  unfolding view
  hit-IsFound ix scope_key project expr id d s q h =
      elim (Option-cases (lookup d.rowid ix.mem_fts)) [
        | inr n ↦ absurd (ground arith)
        | inl (b, e) ↦
            elim (Bool-cases
              (fts.is_match expr b && (list_beq d.scope scope_key && in_project project d))) [
                | inr f ↦ absurd (ground arith)
                | inl t ↦ (
                  record { scope = d.scope; project = d.project; body = b },
                  ground arith,
                  ground arith,
                  (list_beq_iff d.scope scope_key).0 (ground arith),
                  λ p r. in_project-some project d p (ground arith) r,
                )
              ]
      ]

  joined-IsFound :
      (ix : LexicalIndex) (scope_key : Str) (project : Option Str) (expr : Str)
      (docs : Assoc Str DocRow) (id : Str) (s : Score)
      → ((j : Str) (d : DocRow) → lookup j docs ≡ some d → lookup j ix.mem_docs ≡ some d)
      → IsUnique docs
      → In (id, s) (joined fts ix scope_key project expr docs)
      → IsFound (view ix) scope_key project expr id
  unfolding joined
  joined-IsFound ix scope_key project expr [] id s k u i = elim i [ ]
  joined-IsFound ix scope_key project expr ((j, d) ∷ docs) id s k u i =
      let o = hit fts ix scope_key project expr d (lookup d.rowid ix.mem_fts) in
      elim (with_score-In o (joined fts ix scope_key project expr docs) j id s i) [
        | inl (h, e) ↦
            subst (IsFound (view ix) scope_key project expr) (sym e)
              (hit-IsFound ix scope_key project expr j d s (k j d (lookup-front j d docs)) h)
        | inr r ↦
            joined-IsFound ix scope_key project expr docs id s
              (λ x c q. k x c (lookup-behind j x d c docs u.0 q)) u.1 r
      ]

  IsFound-expected :
      (cs : List Call) (scope_key : Str) (project : Option Str) (expr id : Str)
      → IsFound (view (after cs)) scope_key project expr id
      → IsFound (expected cs) scope_key project expr id
  IsFound-expected cs scope_key project expr id (e, q, m, c, p) =
      (e, sym ((after-IsExpected cs).1 id) ∙ q, m, c, p)

  search-IsFound :
      (cs : List Call)
      → ((n : ℕ) (hits : List (Str × Score)) (h : Str × Score)
          → In h (fts.order n hits)
          → In h hits)
      → (fails : Bool) (scope_key : Str) (project query : Option Str) (limit : ℕ)
        (found : List (Str × Score)) (id : Str) (s : Score)
      → search_index fts fails (after cs) scope_key project query limit ≡ ok found
      → In (id, s) found
      → (expr : Str) × (query ≡ some expr) × IsFound (expected cs) scope_key project expr id
  unfolding search_index
  search-IsFound cs ordered fails scope_key project none limit found id s q i =
      elim (subst (In (id, s)) (sym (ok_inj refl q)) i) [ ]
  search-IsFound cs ordered true scope_key project (some expr) limit found id s q i =
      absurd (ground arith)
  search-IsFound cs ordered false scope_key project (some expr) limit found id s q i =
      let hits = joined fts (after cs) scope_key project expr (after cs).mem_docs in
      let j = subst (In (id, s)) (sym (ok_inj refl q)) i in
      let i1 = In-keep (λ (h : Str × Score). fts.is_uuid h.0) (id, s) (fts.order limit hits) j in
      (
        expr,
        refl,
        IsFound-expected cs scope_key project expr id (
            joined-IsFound (after cs) scope_key project expr (after cs).mem_docs id s (λ j d q. q)
              (after-IsExpected cs).0.unique (ordered limit hits (id, s) i1)),
      )

  -- After any calls, whichever of their statements fail, the index shows under each id what the last
  -- call that succeeded for it stored, or nothing where it was removed; and a search gives only ids
  -- of what is shown, with the scope and the project that it asks for, and a text that matches.
  pub search_index-expected :
      (cs : List Call)
      → ((n : ℕ) (hits : List (Str × Score)) (h : Str × Score)
          → In h (fts.order n hits)
          → In h hits)
      → ((j : Str) → view (after cs) j ≡ expected cs j)
        × ((fails : Bool) (scope_key : Str) (project query : Option Str) (limit : ℕ)
              (found : List (Str × Score)) (id : Str) (s : Score)
            → search_index fts fails (after cs) scope_key project query limit ≡ ok found
            → In (id, s) found
            → (expr : Str) × (query ≡ some expr) × IsFound (expected cs) scope_key project expr id)
  search_index-expected cs ordered = ((after-IsExpected cs).1, search-IsFound cs ordered)
