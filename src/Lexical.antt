-- ===== src/Lexical.antt =====
-- The lexical index over memories (crates/ecphoria-core/src/memory/lexical.rs). Each method that
-- writes is one SQLite transaction, which takes effect whole or fails and leaves the tables as they
-- were: its first argument says whether a statement fails. Matching, scoring and ordering are those of
-- FTS5, and the text and the parsing of an id are uuid's: all are parameters.
pub mod View
pub mod History
pub mod Query
pub mod Examples
use ecphoria.Prelude.{
  ℕ, suc, Bool, true, false, not, ◌&&◌, ◌||◌, Option, none, some, List, [], ◌∷◌, ◌++◌,
  if◌then◌else◌, or_else, is_some, length, keep, eqb,
}
use ecphoria.Prelude.Eq.{nat_eq, list_eq, option_eq, ◌==◌}
use ecphoria.Prelude.Assoc.{Assoc, lookup, insert, remove}
use ecphoria.Prelude.Result.{Result, ok, err}
use ecphoria.Prelude.Text.{Str}

-- a row of `mem_docs`, by its id
pub record DocRow : Type 0 where
  pub rowid : ℕ
  pub scope : Str
  pub project : Option Str

-- a row of `mem_fts`, by its row id
pub record FtsRow : Type 0 where
  pub subject : Str
  pub content : Str

pub record LexicalIndex : Type 0 where
  pub mem_docs : Assoc Str DocRow
  pub mem_fts : Assoc ℕ FtsRow
  -- the row id that `AUTOINCREMENT` gives next
  pub next_rowid : ℕ

pub record LexicalEntry : Type 0 where
  pub id : Str
  pub scope_key : Str
  pub project : Option Str
  pub subject : Option Str
  pub content : Str

pub data LexicalError : Type 0 where
  storage query : LexicalError

-- `DELETE FROM mem_fts WHERE rowid = (SELECT rowid FROM mem_docs WHERE id = ?1)`
abbrev pub delete_body : Option DocRow → Assoc ℕ FtsRow → Assoc ℕ FtsRow
delete_body none fts = fts
delete_body (some d) fts = remove d.rowid fts

-- `INSERT INTO mem_docs … ON CONFLICT(id) DO UPDATE …`: the row, and the next row id
abbrev pub doc_row : Option DocRow → LexicalEntry → ℕ → DocRow
doc_row none e next = record { rowid = next; scope = e.scope_key; project = e.project }
doc_row (some d) e next = record d { scope = e.scope_key; project = e.project }

abbrev pub next_after : Option DocRow → ℕ → ℕ
next_after none next = suc next
next_after (some d) next = next

-- the four statements of an upsert
unfoldable pub upsert_row : LexicalEntry → LexicalIndex → LexicalIndex
upsert_row e ix =
    let old = lookup e.id ix.mem_docs in
    let row = doc_row old e ix.next_rowid in
    record {
      mem_docs = insert e.id row ix.mem_docs;
      mem_fts =
          insert row.rowid (record { subject = or_else [] e.subject; content = e.content })
            (delete_body old ix.mem_fts);
      next_rowid = next_after old ix.next_rowid;
    }

-- A transaction: the tables after it, or an error that leaves them.
abbrev pub transaction : Bool → LexicalIndex → Result LexicalError LexicalIndex
transaction fails ix = if fails then err storage else ok ix

unfoldable pub upsert : Bool → LexicalEntry → LexicalIndex → Result LexicalError LexicalIndex
unfolding upsert_row
upsert fails e ix = transaction fails (upsert_row e ix)

unfoldable pub upsert_rows : List LexicalEntry → LexicalIndex → LexicalIndex
unfolding upsert_row
upsert_rows [] ix = ix
upsert_rows (e ∷ es) ix = upsert_rows es (upsert_row e ix)

unfoldable pub upsert_batch :
    Bool → List LexicalEntry → LexicalIndex → Result LexicalError LexicalIndex
unfolding upsert_rows
upsert_batch fails [] ix = ok ix
upsert_batch fails (e ∷ es) ix = transaction fails (upsert_rows (e ∷ es) ix)

unfoldable pub remove_row : Str → LexicalIndex → LexicalIndex
remove_row id ix = record ix {
  mem_fts = delete_body (lookup id ix.mem_docs) ix.mem_fts;
  mem_docs = remove id ix.mem_docs;
}

unfoldable pub remove_entry : Bool → Str → LexicalIndex → Result LexicalError LexicalIndex
unfolding remove_row
remove_entry fails id ix = transaction fails (remove_row id ix)

-- Two statements without a transaction: the second can fail after the first.
unfoldable pub clear : Bool → Bool → LexicalIndex → Result LexicalError LexicalIndex × LexicalIndex
clear fts_fails docs_fails ix =
    let emptied = record ix { mem_fts = [] } in
    let cleared = record emptied { mem_docs = [] } in
    if fts_fails
    then (err storage, ix)
    else if docs_fails
    then (err storage, emptied)
    else (ok cleared, cleared)

unfoldable pub len : LexicalIndex → ℕ
len ix = length ix.mem_docs

-- What `search` leaves to FTS5 and to uuid: `MATCH`, `-bm25(…)` over the table, `ORDER BY score LIMIT`,
-- and `Uuid::parse_str`.
pub record Fts (Score : Type 0) : Type 0 where
  pub is_match : Str → FtsRow → Bool
  pub score : Assoc ℕ FtsRow → Str → FtsRow → Score
  pub order : ℕ → List (Str × Score) → List (Str × Score)
  pub is_uuid : Str → Bool

abbrev pub in_project : Option Str → DocRow → Bool
in_project none d = true
in_project (some p) d = d.project == some p

module _ {Score : Type 0} (fts : Fts Score) where
  abbrev pub hit : LexicalIndex → Str → Option Str → Str → DocRow → Option FtsRow → Option Score
  hit ix scope_key project expr d none = none
  hit ix scope_key project expr d (some body) =
      if fts.is_match expr body && (d.scope == scope_key && in_project project d)
      then some (fts.score ix.mem_fts expr body)
      else none

  abbrev pub with_score : Str → Option Score → List (Str × Score) → List (Str × Score)
  with_score id none rest = rest
  with_score id (some s) rest = (id, s) ∷ rest

  -- the join of the two tables under the conditions of the query
  unfoldable pub joined :
      LexicalIndex → Str → Option Str → Str → Assoc Str DocRow → List (Str × Score)
  joined ix scope_key project expr [] = []
  joined ix scope_key project expr ((id, d) ∷ docs) =
      with_score id (hit ix scope_key project expr d (lookup d.rowid ix.mem_fts))
        (joined ix scope_key project expr docs)

  -- The query without usable terms is answered before the tables are read; `fails` says whether the
  -- statement fails.
  unfoldable pub search_index :
      Bool
      → LexicalIndex
      → Str
      → Option Str
      → Option Str
      → ℕ
      → Result LexicalError (List (Str × Score))
  unfolding joined
  search_index fails ix scope_key project none limit = ok []
  search_index fails ix scope_key project (some expr) limit =
      if fails
      then err query
      else ok (
          keep (λ (h : Str × Score). fts.is_uuid h.0)
            (fts.order limit (joined ix scope_key project expr ix.mem_docs)))
