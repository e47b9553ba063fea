-- ===== src/Cache.antt =====
-- The response cache of the LLM proxy (crates/ecphoria-gateway/src/llm_proxy/cache.rs). Times are
-- numbers of one clock, that of `Instant`. The vector index is usearch's: its state and calls are
-- parameters, and so are the distances and the test `1.0 - dist < similarity_threshold`, and the
-- Unicode tables of `str::to_lowercase`.
pub mod Keys
pub mod History
pub mod Bounds
pub mod Lasting
pub mod Reader
pub mod Examples
use ecphoria.Prelude.{
  ℕ, zero, suc, ◌+◌, ◌-◌, ◌*◌, ◌/◌, Bool, true, false, not, ◌&&◌, ◌||◌, Option, none, some, List,
  [], ◌∷◌, ◌++◌, if◌then◌else◌, ltb, leb, eqb, length, keep, or_else,
}
use ecphoria.Prelude.Eq.{nat_eq, list_eq, option_eq, ◌==◌}
use ecphoria.Prelude.Assoc.{Assoc, lookup, insert, remove}
use ecphoria.Prelude.Text.{Str, codes, split_by, is_whitespace, join}

pub record CachedResponse : Type 0 where
  pub response : Str
  pub created_at : ℕ
  pub vector_key : Option ℕ
  pub scope : Option Str

-- What the cache calls of usearch. `search` gives the keys with their distances, `add` the new
-- index; `none` is an error.
pub record VectorIndex (Index F : Type 0) : Type 0 where
  pub size : Index → ℕ
  pub search : Index → List F → ℕ → Option (List (ℕ × F))
  pub add : Index → ℕ → List F → Option Index
  -- the similarity of the distance is below the threshold
  pub is_far : F → Bool

pub record SemanticCache (Index : Type 0) : Type 0 where
  pub entries : Assoc Str CachedResponse
  pub index : Index
  pub key_to_prompt : Assoc ℕ Str
  pub next_key : ℕ
  pub ttl : ℕ
  pub max_entries : ℕ

module _ (to_lowercase : Str → Str) where
  unfoldable pub normalize_key : Str → Str
  normalize_key query =
      join (b' ' ∷ []) (keep (λ w. not (w == [])) (split_by is_whitespace (to_lowercase query)))

  unfoldable pub cache_key : Option Str → Str → Str
  cache_key none query = normalize_key query
  cache_key (some s) query = s ++ (0x1f ∷ normalize_key query)

unfoldable pub is_fresh : ℕ → ℕ → CachedResponse → Bool
is_fresh now limit e = ltb (now - e.created_at) limit

-- `entries.retain(|_, v| v.created_at.elapsed() < limit)`
unfoldable pub retain : ℕ → ℕ → Assoc Str CachedResponse → Assoc Str CachedResponse
unfolding is_fresh
retain now limit [] = []
retain now limit ((k, e) ∷ m) =
    let rest = retain now limit m in if is_fresh now limit e then (k, e) ∷ rest else rest

abbrev pub forget : Option ℕ → Assoc ℕ Str → Assoc ℕ Str
forget none m = m
forget (some k) m = remove k m

abbrev first_of : Option Str → Option Str → Option Str
first_of none rest = rest
first_of (some r) rest = some r

-- `rag_cache_scope` of crates/ecphoria-gateway/src/llm_proxy/router.rs. The digest of a text, in
-- hexadecimal, is sha2's.
abbrev pub fingerprint : (Str → Str) → Option Str → Str
fingerprint sha256_hex none = codes "-"
fingerprint sha256_hex (some c) = sha256_hex c

unfoldable pub rag_cache_scope : (Str → Str) → Option Str → Option Str → Option Str → Str
rag_cache_scope sha256_hex tenant user context =
    or_else (codes "-") tenant
    ++ (0x1f ∷ (or_else (codes "-") user ++ (0x1f ∷ fingerprint sha256_hex context)))

-- the cache over a new index
unfoldable pub with_config : {Index : Type 0} → Index → ℕ → ℕ → SemanticCache Index
with_config index ttl max_entries = record {
  entries = [];
  index = index;
  key_to_prompt = [];
  next_key = 1;
  ttl = ttl;
  max_entries = max_entries;
}

module _ {Index : Type 0} where
  unfoldable pub evict_expired : ℕ → SemanticCache Index → SemanticCache Index
  unfolding retain
  evict_expired now c = record c { entries = retain now c.ttl c.entries }

  unfoldable pub evict_oldest : ℕ → SemanticCache Index → SemanticCache Index
  unfolding retain
  evict_oldest now c = record c { entries = retain now (c.ttl * 3 / 4) c.entries }

  -- `get` below its key: the cache afterwards and the answer
  abbrev pub found :
      ℕ → SemanticCache Index → Str → Option CachedResponse → SemanticCache Index × Option Str
  found now c key none = (c, none)
  found now c key (some e) = if is_fresh now c.ttl e then (c, some e.response) else (
    record c {
      entries = remove key c.entries;
      key_to_prompt = forget e.vector_key c.key_to_prompt;
    },
    none,
  )

  unfoldable pub get :
      (Str → Str) → ℕ → Str → Option Str → SemanticCache Index → SemanticCache Index × Option Str
  unfolding is_fresh
  get to_lowercase now query scope c =
      let key = cache_key to_lowercase scope query in found now c key (lookup key c.entries)

  -- one candidate of the search: its answer, where the entry behind it is fresh and of the scope
  unfoldable pub answer_of : ℕ → Option Str → SemanticCache Index → ℕ → Option Str
  unfolding is_fresh
  answer_of now scope c vk = elim (lookup vk c.key_to_prompt) [
    | none ↦ none
    | some prompt ↦ elim (lookup prompt c.entries) [
      | none ↦ none
      | some e ↦ if is_fresh now c.ttl e && e.scope == scope then some e.response else none
    ]
  ]

  abbrev pub indexed : SemanticCache Index → Str → Option Index → SemanticCache Index × Option ℕ
  indexed c key none = (record c { next_key = suc c.next_key }, none)
  indexed c key (some index) = (
    record c {
      index = index;
      key_to_prompt = insert c.next_key key c.key_to_prompt;
      next_key = suc c.next_key;
    },
    some c.next_key,
  )

  unfoldable pub make_room : ℕ → SemanticCache Index → SemanticCache Index
  unfolding evict_oldest
  make_room now c = if leb c.max_entries (length c.entries) then evict_oldest now c else c

  module _ {F : Type 0} where
    unfoldable pub first_answer :
        VectorIndex Index F → ℕ → Option Str → SemanticCache Index → List (ℕ × F) → Option Str
    first_answer usearch now scope c [] = none
    first_answer usearch now scope c ((vk, dist) ∷ results) =
        let rest = first_answer usearch now scope c results in
        if usearch.is_far dist then none else first_of (answer_of now scope c vk) rest

    abbrev pub searched :
        VectorIndex Index F
        → ℕ
        → Option Str
        → SemanticCache Index
        → Option (List (ℕ × F))
        → Option Str
    searched usearch now scope c none = none
    searched usearch now scope c (some results) = first_answer usearch now scope c results

    unfoldable pub get_by_vector :
        VectorIndex Index F → ℕ → List F → Option Str → SemanticCache Index → Option Str
    get_by_vector usearch now [] scope c = none
    get_by_vector usearch now (x ∷ embedding) scope c =
        if eqb (usearch.size c.index) 0
        then none
        else searched usearch now scope c (usearch.search c.index (x ∷ embedding) 5)

    -- the vector goes into the index, under the next key
    unfoldable pub add_vector :
        VectorIndex Index F
        → Str
        → Option (List F)
        → SemanticCache Index
        → SemanticCache Index × Option ℕ
    add_vector usearch key none c = (c, none)
    add_vector usearch key (some emb) c = indexed c key (usearch.add c.index c.next_key emb)

    unfoldable pub put_with_vector :
        (Str → Str)
        → VectorIndex Index F
        → ℕ
        → Str
        → Str
        → Option (List F)
        → Option Str
        → SemanticCache Index
        → SemanticCache Index
    unfolding make_room add_vector cache_key
    put_with_vector to_lowercase usearch now query response embedding scope c =
        let key = cache_key to_lowercase scope query in
        let (d, vector_key) = add_vector usearch key embedding (make_room now c) in
        record d {
          entries =
              insert key
                (record {
                  response = response;
                  created_at = now;
                  vector_key = vector_key;
                  scope = scope;
                })
                d.entries;
        }

    unfoldable pub put :
        (Str → Str)
        → VectorIndex Index F
        → ℕ
        → Str
        → Str
        → Option Str
        → SemanticCache Index
        → SemanticCache Index
    unfolding put_with_vector
    put to_lowercase usearch now query response scope c =
        put_with_vector to_lowercase usearch now query response none scope c
