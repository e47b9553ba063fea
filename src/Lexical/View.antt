-- ===== src/Lexical/View.antt =====
-- The two tables are one map from ids to what was indexed last.
use ecphoria.Prelude.{
  ℕ, ◌<◌, ◌≡◌, ap, sym, ◌∙◌, arith, true, false, Option, none, some, [], if◌then◌else◌, or_else,
  eqb, Bool-cases, Option-cases, inl, inr,
}
use ecphoria.Prelude.Eq.{nat_eq, list_eq, list_beq, list_beq_iff, ◌==◌}
use ecphoria.Prelude.Assoc.{
  Assoc, lookup, insert, remove, lookup-insert, lookup-remove, IsUnique, insert-IsUnique,
  remove-IsUnique,
}
use ecphoria.Prelude.Text.{Str}
use ecphoria.Lexical.{
  DocRow, FtsRow, LexicalIndex, LexicalEntry, delete_body, doc_row, upsert_row, remove_row,
}

-- what is indexed under an id
pub record Indexed : Type 0 where
  pub scope : Str
  pub project : Option Str
  pub body : FtsRow

abbrev pub indexed_as : DocRow → Option FtsRow → Option Indexed
indexed_as d none = none
indexed_as d (some b) = some (record { scope = d.scope; project = d.project; body = b })

abbrev pub indexed_at : Assoc ℕ FtsRow → Option DocRow → Option Indexed
indexed_at fts none = none
indexed_at fts (some d) = indexed_as d (lookup d.rowid fts)

unfoldable pub view : LexicalIndex → Str → Option Indexed
view ix id = indexed_at ix.mem_fts (lookup id ix.mem_docs)

abbrev pub entry_of : LexicalEntry → Indexed
entry_of e = record {
  scope = e.scope_key;
  project = e.project;
  body = record { subject = or_else [] e.subject; content = e.content };
}

-- An id has one document, row ids are given out once, and no two documents share one.
pub record IsIndex (ix : LexicalIndex) : Type 0 where
  pub unique : IsUnique ix.mem_docs
  pub given : (id : Str) (d : DocRow) → lookup id ix.mem_docs ≡ some d → d.rowid < ix.next_rowid
  pub unshared :
      (id other : Str) (d e : DocRow)
      → lookup id ix.mem_docs ≡ some d
      → lookup other ix.mem_docs ≡ some e
      → d.rowid ≡ e.rowid
      → id ≡ other

abbrev body_of : LexicalEntry → FtsRow
body_of e = record { subject = or_else [] e.subject; content = e.content }

-- the row id of the entry is not that of another document
fresh_row :
    (e : LexicalEntry) (ix : LexicalIndex) (j : Str) (d : DocRow)
    → IsIndex ix
    → list_beq e.id j ≡ false
    → lookup j ix.mem_docs ≡ some d
    → eqb (doc_row (lookup e.id ix.mem_docs) e ix.next_rowid).rowid d.rowid ≡ false
fresh_row e ix j d h f q = elim (Option-cases (lookup e.id ix.mem_docs)) [
  | inr n ↦ ground (arith, h.given j d q)
  | inl (c, p) ↦ elim (Bool-cases (eqb c.rowid d.rowid)) [
    | inr g ↦ ground arith
    | inl g ↦
        let same = h.unshared e.id j c d p q (ground arith) in
        absurd (ground (arith, list_beq_iff e.id j))
  ]
]

kept_body :
    (old : Option DocRow) (fts : Assoc ℕ FtsRow) (e : LexicalEntry) (next k : ℕ)
    → eqb (doc_row old e next).rowid k ≡ false
    → lookup k (insert (doc_row old e next).rowid (body_of e) (delete_body old fts)) ≡ lookup k fts
kept_body none fts e next k f = ground (arith, lookup-insert next k (body_of e) fts)
kept_body (some d) fts e next k f =
    ground
      (arith, lookup-insert d.rowid k (body_of e) (remove d.rowid fts), lookup-remove d.rowid k fts)

indexed_row :
    (old : Option DocRow) (fts : Assoc ℕ FtsRow) (e : LexicalEntry) (next : ℕ)
    → indexed_at
        (insert (doc_row old e next).rowid (body_of e) (delete_body old fts))
        (some (doc_row old e next))
      ≡ some (entry_of e)
indexed_row none fts e next = ground (arith, lookup-insert next next (body_of e) fts)
indexed_row (some d) fts e next =
    ground (arith, lookup-insert d.rowid d.rowid (body_of e) (remove d.rowid fts))

pub view-upsert_row :
    (e : LexicalEntry) (ix : LexicalIndex) (j : Str)
    → IsIndex ix
    → view (upsert_row e ix) j ≡ (if e.id == j then some (entry_of e) else view ix j)
unfolding view upsert_row
view-upsert_row e ix j h =
    let old = lookup e.id ix.mem_docs in
    let row = doc_row old e ix.next_rowid in
    let l = lookup-insert e.id j row ix.mem_docs in
    elim (Bool-cases (list_beq e.id j)) [
      | inl t ↦ ground (arith, l, indexed_row old ix.mem_fts e ix.next_rowid)
      | inr f ↦ elim (Option-cases (lookup j ix.mem_docs)) [
        | inr n ↦ ground (arith, l)
        | inl (d, q) ↦
            ground (
              arith,
              l,
              kept_body old ix.mem_fts e ix.next_rowid d.rowid (fresh_row e ix j d h f q),
            )
      ]
    ]

upsert_row-given :
    (e : LexicalEntry) (ix : LexicalIndex)
    → IsIndex ix
    → (id : Str) (d : DocRow) → lookup id (upsert_row e ix).mem_docs ≡ some d
    → d.rowid < (upsert_row e ix).next_rowid
unfolding upsert_row
upsert_row-given e ix h id d q =
    let l = lookup-insert e.id id (doc_row (lookup e.id ix.mem_docs) e ix.next_rowid) ix.mem_docs in
    elim (Option-cases (lookup e.id ix.mem_docs)) [
      | inr n ↦ elim (Bool-cases (list_beq e.id id)) [
        | inl t ↦ ground (arith, l)
        | inr f ↦ ground (arith, l, h.given id d)
      ]
      | inl (c, p) ↦ elim (Bool-cases (list_beq e.id id)) [
        | inl t ↦ ground (arith, l, h.given e.id c p)
        | inr f ↦ ground (arith, l, h.given id d)
      ]
    ]

upsert_row-lookup :
    (e : LexicalEntry) (ix : LexicalIndex) (id : Str) (d : DocRow)
    → lookup id (upsert_row e ix).mem_docs ≡ some d
    → (list_beq e.id id ≡ false → lookup id ix.mem_docs ≡ some d)
      × (list_beq e.id id ≡ true → d ≡ doc_row (lookup e.id ix.mem_docs) e ix.next_rowid)
unfolding upsert_row
upsert_row-lookup e ix id d q =
    let row = doc_row (lookup e.id ix.mem_docs) e ix.next_rowid in
    let l = lookup-insert e.id id row ix.mem_docs in
    (λ f. ground (arith, l), λ t. ground (arith, l))

row_ids_differ :
    (e : LexicalEntry) (ix : LexicalIndex) (j : Str) (c d : DocRow)
    → IsIndex ix
    → list_beq e.id j ≡ false
    → lookup j ix.mem_docs ≡ some d
    → c ≡ doc_row (lookup e.id ix.mem_docs) e ix.next_rowid
    → c.rowid ≡ d.rowid
    → ⊥
row_ids_differ e ix j c d h f q r s =
    let g = fresh_row e ix j d h f q in
    let same = ap (λ x. x.rowid) r in ground (arith, sym same ∙ s)

upsert_row-unshared :
    (e : LexicalEntry) (ix : LexicalIndex)
    → IsIndex ix
    → (id other : Str) (c d : DocRow) → lookup id (upsert_row e ix).mem_docs ≡ some c
    → lookup other (upsert_row e ix).mem_docs ≡ some d
    → c.rowid ≡ d.rowid
    → id ≡ other
upsert_row-unshared e ix h id other c d p q s =
    let (p0, p1) = upsert_row-lookup e ix id c p in
    let (q0, q1) = upsert_row-lookup e ix other d q in
    elim (Bool-cases (list_beq e.id id)) [
      | inl t ↦ elim (Bool-cases (list_beq e.id other)) [
        | inl u ↦ sym ((list_beq_iff e.id id).0 t) ∙ (list_beq_iff e.id other).0 u
        | inr g ↦ absurd (row_ids_differ e ix other c d h g (q0 g) (p1 t) s)
      ]
      | inr f ↦ elim (Bool-cases (list_beq e.id other)) [
        | inl u ↦ absurd (row_ids_differ e ix id d c h f (p0 f) (q1 u) (sym s))
        | inr g ↦ h.unshared id other c d (p0 f) (q0 g) s
      ]
    ]

pub upsert_row-IsIndex :
    (e : LexicalEntry) (ix : LexicalIndex) → IsIndex ix → IsIndex (upsert_row e ix)
unfolding upsert_row
upsert_row-IsIndex e ix h = record {
  unique =
      insert-IsUnique e.id (doc_row (lookup e.id ix.mem_docs) e ix.next_rowid) ix.mem_docs h.unique;
  given = upsert_row-given e ix h;
  unshared = upsert_row-unshared e ix h;
}

remove_row-lookup :
    (id j : Str) (ix : LexicalIndex) (d : DocRow)
    → lookup j (remove_row id ix).mem_docs ≡ some d
    → lookup j ix.mem_docs ≡ some d
unfolding remove_row
remove_row-lookup id j ix d q = ground (arith, lookup-remove id j ix.mem_docs)

pub remove_row-IsIndex : (id : Str) (ix : LexicalIndex) → IsIndex ix → IsIndex (remove_row id ix)
unfolding remove_row
remove_row-IsIndex id ix h = record {
  unique = remove-IsUnique id ix.mem_docs h.unique;
  given = λ j d q. h.given j d (remove_row-lookup id j ix d q);
  unshared = λ i j c d p q s.
      h.unshared i j c d (remove_row-lookup id i ix c p) (remove_row-lookup id j ix d q) s;
}

pub view-remove_row :
    (id : Str) (ix : LexicalIndex) (j : Str)
    → IsIndex ix
    → view (remove_row id ix) j ≡ (if id == j then none else view ix j)
unfolding view remove_row
view-remove_row id ix j h =
    let l = lookup-remove id j ix.mem_docs in
    elim (Bool-cases (list_beq id j)) [
      | inl t ↦ ground (arith, l)
      | inr f ↦ elim (Option-cases (lookup j ix.mem_docs)) [
        | inr n ↦ ground (arith, l)
        | inl (d, q) ↦ elim (Option-cases (lookup id ix.mem_docs)) [
          | inr m ↦ ground (arith, l)
          | inl (c, p) ↦ elim (Bool-cases (eqb c.rowid d.rowid)) [
            | inr g ↦ ground (arith, l, lookup-remove c.rowid d.rowid ix.mem_fts)
            | inl g ↦ absurd (ground (arith, h.unshared id j c d p q, list_beq_iff id j))
          ]
        ]
      ]
    ]
