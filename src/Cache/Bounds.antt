-- ===== src/Cache/Bounds.antt =====
-- What a stored answer leaves in the cache.
use ecphoria.Prelude.{
  ℕ, ◌+◌, ◌-◌, ◌*◌, ◌/◌, ◌<◌, ◌≡◌, refl, ap, ◌∙◌, arith, Option, none, List, [], ◌∷◌, length, All,
}
use ecphoria.Prelude.Eq.{nat_eq, list_eq}
use ecphoria.Prelude.Assoc.{Assoc, lookup, length-insert-new}
use ecphoria.Prelude.Text.{Str}
use ecphoria.Cache.{
  CachedResponse, VectorIndex, SemanticCache, cache_key, is_fresh, retain, evict_oldest, make_room,
  add_vector, put_with_vector,
}
use ecphoria.Cache.History.{add_vector-entries}

-- younger than three quarters of the time to live
abbrev pub IsYoung : ℕ → ℕ → Str × CachedResponse → Type 0
IsYoung now ttl p = now - p.1.created_at < ttl * 3 / 4

retain-young :
    (now limit : ℕ) (m : Assoc Str CachedResponse)
    → All (λ (p : Str × CachedResponse). now - p.1.created_at < limit) m
    → retain now limit m ≡ m
unfolding retain is_fresh
retain-young now limit [] h = refl
retain-young now limit ((k, e) ∷ m) h = ground (arith, retain-young now limit m h.1)

module _ {Index F : Type 0} (to_lowercase : Str → Str) (usearch : VectorIndex Index F) where
  -- Where every entry is young, an answer for a new key makes the cache larger by one, however small
  -- `max_entries` is.
  pub put_with_vector-grows :
      (c : SemanticCache Index) (now : ℕ) (q r : Str) (emb : Option (List F)) (s : Option Str)
      → All (IsYoung now c.ttl) c.entries
      → lookup (cache_key to_lowercase s q) c.entries ≡ none
      → length (put_with_vector to_lowercase usearch now q r emb s c).entries ≡ length c.entries + 1
  unfolding put_with_vector make_room evict_oldest
  put_with_vector-grows c now q r emb s y n =
      let key = cache_key to_lowercase s q in
      let room = make_room now c in
      let same : room.entries ≡ c.entries =
        ground (arith, retain-young now (c.ttl * 3 / 4) c.entries y) in
      let e = add_vector-entries to_lowercase usearch key emb room in
      length-insert-new key _ ((add_vector usearch key emb room).0).entries (rw (e, same) n)
      ∙ ap (λ m. length m + 1) (e ∙ same)
