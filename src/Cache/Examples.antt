-- ===== src/Cache/Examples.antt =====
-- A cache without a vector index, and one whose index finds everything.
use ecphoria.Prelude.{◌≢◌, ℕ, ◌+◌, ◌≡◌, refl, arith, false, none, some, List, [], ◌∷◌, length}
use ecphoria.Prelude.Eq.{nat_eq, list_eq, option_eq}
use ecphoria.Prelude.Assoc.{lookup, insert}
use ecphoria.Prelude.Text.{Str, codes, split_by}
use ecphoria.Cache.{
  VectorIndex, SemanticCache, normalize_key, cache_key, get, get_by_vector, put_with_vector,
  rag_cache_scope, retain, is_fresh, evict_oldest, make_room, add_vector, answer_of, first_answer,
}
use ecphoria.Cache.History.{Call, asked, stored, swept, after}
use ecphoria.Cache.Bounds.{put_with_vector-grows}
use ecphoria.Cache.Lasting.{get-after-put_with_vector}
use ecphoria.Cache.Reader.{Reader, scope_of}

abbrev unchanged : Str → Str
unchanged s = s

-- every key that was added, with distance 0
abbrev all_near : VectorIndex (List (ℕ × ℕ)) ℕ
all_near = record {
  size = length;
  search = λ ix emb n. some ix;
  add = λ ix k emb. some ((k, 0) ∷ ix);
  is_far = λ d. false;
}

abbrev empty : SemanticCache (List (ℕ × ℕ))
empty = record {
  entries = [];
  index = [];
  key_to_prompt = [];
  next_key = 1;
  ttl = 3600;
  max_entries = 1;
}

abbrev ann : Reader
ann = record { tenant = some (codes "t1"); user = some (codes "ann"); context = none }

abbrev bob : Reader
bob = record ann { user = some (codes "bob") }

abbrev calls : List (ℕ × Call unchanged all_near)
calls =
    (
      20,
      stored (codes "q2") (codes "r2") (some (1 ∷ []))
          (some (scope_of unchanged unchanged all_near bob)),
    )
    ∷ (
      10,
      stored (codes " q 1") (codes "r1") (some (1 ∷ []))
          (some (scope_of unchanged unchanged all_near ann)),
    )
    ∷ []

abbrev cache : SemanticCache (List (ℕ × ℕ))
cache = after unchanged all_near empty calls

-- Both lookups do find the answer, past the nearer one of another user.
exact_hit :
    (get unchanged 30 (codes "q 1") (some (scope_of unchanged unchanged all_near ann)) cache).1
    ≡ some (codes "r1")
unfolding after get put_with_vector cache_key normalize_key split_by make_room add_vector
    evict_oldest retain is_fresh lookup insert rag_cache_scope
exact_hit = refl

vector_hit :
    get_by_vector all_near 30 (1 ∷ []) (some (scope_of unchanged unchanged all_near ann)) cache
    ≡ some (codes "r1")
unfolding after get_by_vector first_answer answer_of put_with_vector cache_key normalize_key
    split_by make_room add_vector evict_oldest retain is_fresh lookup insert rag_cache_scope
vector_hit = refl

-- a cache with as many entries as it may have
abbrev full : SemanticCache (List (ℕ × ℕ))
full = record empty {
  entries =
      (
        codes "q2",
        record { response = codes "r2"; created_at = 20; vector_key = none; scope = none },
      )
      ∷ [];
}

same_key : cache_key unchanged none (codes "q  1 ") ≡ cache_key unchanged none (codes "q 1")
unfolding cache_key normalize_key split_by
same_key = refl

-- Another prompt is asked, one is stored in the full cache, and it is swept.
abbrev between : List (ℕ × Call unchanged all_near)
between =
    (3600, swept)
    ∷ (2000, stored (codes "q3") (codes "r3") none none)
    ∷ (30, asked (codes "q2") none)
    ∷ []

other_key : cache_key unchanged none (codes "q3") ≢ cache_key unchanged none (codes "q 1")
unfolding cache_key normalize_key split_by
other_key = λ e. absurd (ground arith)

get-after-put_with_vector_example :
    (get unchanged 3605 (codes "q  1 ") none (
      after unchanged all_near
        (put_with_vector unchanged all_near 6 (codes "q 1") (codes "r") none none full)
        between)).1
    ≡ some (codes "r")
get-after-put_with_vector_example =
    get-after-put_with_vector unchanged all_near full 6 3605 (codes "q 1") (codes "q  1 ")
      (codes "r") none none between same_key
      (omega arith, ((omega arith, other_key), (omega arith, tt))) (omega arith)

new_key : lookup (cache_key unchanged none (codes "q3")) full.entries ≡ none
unfolding cache_key normalize_key split_by lookup
new_key = refl

put_with_vector-grows_example :
    length (put_with_vector unchanged all_near 30 (codes "q3") (codes "r") none none full).entries
    ≡ length full.entries + 1
put_with_vector-grows_example =
    put_with_vector-grows unchanged all_near full 30 (codes "q3") (codes "r") none none
      (omega arith, tt) new_key
