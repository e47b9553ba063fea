-- ===== src/Lexical/Examples.antt =====
-- One memory in two scopes, a batch, a removal, a transaction that fails, and a query in plain text.
use ecphoria.Prelude.{
  ℕ, ◌&&◌, not, leb, ◌||◌, All, ◌≡◌, refl, Bool, true, false, Option, none, some, List, [], ◌∷◌, In,
}
use ecphoria.Prelude.Eq.{nat_eq, list_eq, ◌==◌}
use ecphoria.Prelude.Assoc.{lookup, insert, remove}
use ecphoria.Prelude.Result.{ok}
use ecphoria.Prelude.Text.{Str, codes, split, split_by, to_lowercase}
use ecphoria.Lexical.{
  LexicalEntry, Fts, upsert_row, upsert_rows, upsert, upsert_batch, remove_row, remove_entry,
  joined, search_index,
}
use ecphoria.Lexical.Query.{Unicode, stop_words, is_stop_word, words, terms, build_match_expr}
use ecphoria.Lexical.Query.Phrases.{IsDisjunction, build_match_expr-IsDisjunction}
use ecphoria.Lexical.View.{view}
use ecphoria.Lexical.History.{
  Call, upserts, batches, removes, after, expected, IsFound, search_index-expected,
}

-- A text matches when it is the expression; the hits keep their order.
abbrev whole_text : Fts ℕ
whole_text = record {
  is_match = λ expr body. body.content == expr;
  score = λ fts expr body. 1;
  order = λ n hits. hits;
  is_uuid = λ id. true;
}

abbrev note : Str → Str → Str → LexicalEntry
note id scope content = record {
  id = id;
  scope_key = scope;
  project = none;
  subject = none;
  content = content;
}

-- the last call first
abbrev calls : List Call
calls =
    removes true (codes "m1")
    ∷ upserts false (note (codes "m1") (codes "s2") (codes "tea"))
    ∷ removes false (codes "m2")
    ∷ batches false (
        note (codes "m1") (codes "s1") (codes "coffee")
        ∷ note (codes "m2") (codes "s2") (codes "tea")
        ∷ [])
    ∷ []

search_index-expected_example :
    ((j : Str) → view (after calls) j ≡ expected calls j)
    × ((fails : Bool) (scope_key : Str) (project query : Option Str) (limit : ℕ)
          (found : List (Str × ℕ)) (id : Str) (s : ℕ)
        → search_index whole_text fails (after calls) scope_key project query limit ≡ ok found
        → In (id, s) found
        → (expr : Str) × (query ≡ some expr)
          × IsFound whole_text (expected calls) scope_key project expr id)
search_index-expected_example = search_index-expected whole_text calls (λ n hits h i. i)

moved :
    search_index whole_text false (after calls) (codes "s2") none (some (codes "tea")) 5
    ≡ ok ((codes "m1", 1) ∷ [])
unfolding after upsert_row upsert_rows upsert upsert_batch remove_row remove_entry joined
    search_index lookup insert remove
moved = refl

abbrev ascii : Unicode
ascii = record {
  is_alphanumeric =
      λ c. (leb b'a' c && leb c b'z') || (leb b'A' c && leb c b'Z') || (leb b'0' c && leb c b'9');
  to_lowercase = to_lowercase;
}

built :
    build_match_expr ascii (codes "What is v1. OR adr-002?") ≡ some (codes "\"v1\" OR \"adr-002\"")
unfolding build_match_expr terms words is_stop_word stop_words split split_by
built = refl

build_match_expr-IsDisjunction_example :
    IsDisjunction (terms ascii (codes "What is v1. OR adr-002?")) (codes "\"v1\" OR \"adr-002\"")
    × All (λ t. not (is_stop_word t) ≡ true) (terms ascii (codes "What is v1. OR adr-002?"))
build_match_expr-IsDisjunction_example =
    build_match_expr-IsDisjunction ascii (codes "What is v1. OR adr-002?")
      (codes "\"v1\" OR \"adr-002\"") built
