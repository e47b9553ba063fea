-- ===== src/State/Store/Fresh.antt =====
-- The hot cache never shows anything but the row of the table.
use ecphoria.Prelude.{
  ℕ, ◌≡◌, refl, Bool, true, false, Option, none, some, List, [], ◌∷◌, ◌+◌, arith, ◌⊎◌, inl, inr,
  Option-cases, if◌then◌else◌,
}
use ecphoria.Prelude.Assoc.{
  Assoc, lookup, remove, lookup-insert, lookup-remove, lookup-nil, IsUnique, insert-IsUnique,
  remove-IsUnique, elem,
}
use ecphoria.Prelude.Result.{Result-cases, ok}
use ecphoria.Prelude.Text.{Str}
use ecphoria.State.Table.{
  Json, Clock, Key, key_eq, Row, is_expired, new_row, keys_where, delete_rows,
}
use ecphoria.State.Like.{like, prefix_pattern}
use ecphoria.State.Store.{
  StateStore, StateEntry, entry_of, get, set, set_with_ttl, write, cleanup_expired, remove_keys,
  delete, delete_by_prefix, compare_and_swap,
}

-- what a statement `DELETE … WHERE p` leaves of a key
abbrev pub kept_row : (Key → Row → Bool) → Key → Option Row → Option Row
kept_row p k none = none
kept_row p k (some r) = if p k r then none else some r

pub lookup-delete_rows :
    (p : Key → Row → Bool) (k : Key) (m : Assoc Key Row)
    → IsUnique m
    → lookup k (delete_rows p m) ≡ kept_row p k (lookup k m)
unfolding delete_rows lookup
lookup-delete_rows p k [] u = refl
lookup-delete_rows p k ((i, r) ∷ m) u =
    ground (arith, lookup-delete_rows p k m u.1, key_eq.beq_iff i k)

pub delete_rows-IsUnique :
    (p : Key → Row → Bool) (m : Assoc Key Row) → IsUnique m → IsUnique (delete_rows p m)
unfolding delete_rows
delete_rows-IsUnique p [] u = tt
delete_rows-IsUnique p ((i, r) ∷ m) u =
    ground (arith, delete_rows-IsUnique p m u.1, lookup-delete_rows p i m u.1)

abbrev pub holds : (Key → Row → Bool) → Key → Option Row → Bool
holds p k none = false
holds p k (some r) = p k r

pub elem-keys_where :
    (p : Key → Row → Bool) (k : Key) (m : Assoc Key Row)
    → IsUnique m
    → elem k (keys_where p m) ≡ holds p k (lookup k m)
unfolding keys_where lookup
elem-keys_where p k [] u = refl
elem-keys_where p k ((i, r) ∷ m) u = ground (arith, elem-keys_where p k m u.1, key_eq.beq_iff i k)

module _ {j : Json} where
  lookup-remove_keys :
      (k : Key) (ks : List Key) (cache : Assoc Key (StateEntry j))
      → lookup k (remove_keys ks cache) ≡ (if elem k ks then none else lookup k cache)
  unfolding remove_keys
  lookup-remove_keys k [] cache = refl
  lookup-remove_keys k (i ∷ ks) cache =
      ground (arith, lookup-remove_keys k ks (remove i cache), lookup-remove i k cache)

  -- what a reader of the table sees under a key
  abbrev pub shown : Key → Option Row → Option (StateEntry j)
  shown k none = none
  shown k (some r) = some (entry_of k r)

  pub record IsFresh (s : StateStore j) : Type 0 where
    pub unique : IsUnique s.table
    pub cached :
        (k : Key) → (lookup k s.cache ≡ none) ⊎ (lookup k s.cache ≡ shown k (lookup k s.table))

  pub get-IsFresh : (now : Str) (k : Key) (s : StateStore j) → IsFresh s → IsFresh (get now k s).1
  unfolding get
  get-IsFresh now k s h = elim (Option-cases (lookup k s.table)) [
    | inr e ↦ record { unique = ground (arith, h.unique); cached = λ i. ground (arith, h.cached i) }
    | inl (r, e) ↦ record {
      unique = ground (arith, h.unique);
      cached = λ i.
          ground (
            arith,
            h.cached i,
            lookup-insert k i (entry_of {j = j} k r) s.cache,
            key_eq.beq_iff k i,
          );
    }
  ]

  pub delete-IsFresh : (k : Key) (s : StateStore j) → IsFresh s → IsFresh (delete k s).1
  unfolding delete
  delete-IsFresh k s h = record {
    unique = ground (arith, h.unique, remove-IsUnique k s.table h.unique);
    cached = λ i. ground (arith, h.cached i, lookup-remove k i s.table, lookup-remove k i s.cache);
  }

  pub delete_by_prefix-IsFresh :
      (prefix : Str) (s : StateStore j) → IsFresh s → IsFresh (delete_by_prefix prefix s).1
  unfolding delete_by_prefix
  delete_by_prefix-IsFresh prefix s h = record {
    unique = ground (
      arith,
      h.unique,
      delete_rows-IsUnique (λ k _. like (prefix_pattern prefix) k.0) s.table h.unique,
    );
    cached = λ i. ground (arith, h.cached i, lookup-nil {V = StateEntry j} i);
  }

  pub cleanup_expired-IsFresh :
      (now : Str) (s : StateStore j) → IsFresh s → IsFresh (cleanup_expired now s).1
  unfolding cleanup_expired
  cleanup_expired-IsFresh now s h = record {
    unique =
        ground (arith, h.unique, delete_rows-IsUnique (λ _ r. is_expired now r) s.table h.unique);
    cached = λ i. ground (
      arith,
      h.cached i,
      lookup-delete_rows (λ _ r. is_expired now r) i s.table h.unique,
      elem-keys_where (λ _ r. is_expired now r) i s.table h.unique,
      lookup-remove_keys i (keys_where (λ _ r. is_expired now r) s.table) s.cache,
    );
  }

  pub compare_and_swap-IsFresh :
      (k : Key) (expected : ℕ) (v : j.Value) (s : StateStore j)
      → IsFresh s
      → IsFresh (compare_and_swap k expected v s).1
  unfolding compare_and_swap
  compare_and_swap-IsFresh k expected v s h = elim (Option-cases (j.to_string v)) [
    | inr e ↦ record { unique = ground (arith, h.unique); cached = λ i. ground (arith, h.cached i) }
    | inl (text, e) ↦ elim (Option-cases (lookup k s.table)) [
      | inr e' ↦ record {
        unique = ground (arith, h.unique);
        cached = λ i. ground (arith, h.cached i);
      }
      | inl (r, e') ↦
          (let r' : Row = record r { value = text; version = r.version + 1 } in
            record {
              unique = ground (arith, h.unique, insert-IsUnique k r' s.table h.unique);
              cached = λ i.
                  ground
                    (arith, h.cached i, lookup-insert k i r' s.table, lookup-remove k i s.cache);
            })
    ]
  ]

  write-IsFresh :
      (k : Key) (v : j.Value) (expires : Option Str) (names : Bool) (s : StateStore j) (n : ℕ)
      → IsFresh s
      → (write k v expires names (j.to_string v) s).0 ≡ ok n
      → IsFresh (write k v expires names (j.to_string v) s).1
  unfolding write
  write-IsFresh k v expires names s n h w = elim (Option-cases (j.to_string v)) [
    | inr e ↦ absurd (ground arith)
    | inl (text, e) ↦
        (let r = new_row text expires names (lookup k s.table) in
          let x : StateEntry j = record {
            agent_id = k.0;
            key = k.1;
            value = v;
            version = r.version;
          } in
          record {
            unique = ground (arith, h.unique, insert-IsUnique k r s.table h.unique);
            cached = λ i. ground (
              arith,
              h.cached i,
              j.from_str-to_string v text e,
              lookup-insert k i r s.table,
              lookup-insert k k r s.table,
              lookup-insert k i x s.cache,
              key_eq.beq_iff k i,
              key_eq.beq_iff k k,
            );
          })
  ]

  pub set-IsFresh :
      (k : Key) (v : j.Value) (s : StateStore j) (n : ℕ)
      → IsFresh s
      → (set k v s).0 ≡ ok n
      → IsFresh (set k v s).1
  unfolding set
  set-IsFresh k v s n h w = elim (Result-cases (write k v none false (j.to_string v) s).0) [
    | inr (x, e) ↦ absurd (ground arith)
    | inl (m, e) ↦
        (let f = write-IsFresh k v none false s m h e in
          record { unique = ground (arith, f.unique); cached = λ i. ground (arith, f.cached i) })
  ]

  pub set_with_ttl-IsFresh :
      (clock : Clock) (k : Key) (v : j.Value) (at : ℕ) (s : StateStore j) (n : ℕ)
      → IsFresh s
      → (set_with_ttl clock k v at s).0 ≡ ok n
      → IsFresh (set_with_ttl clock k v at s).1
  unfolding set_with_ttl
  set_with_ttl-IsFresh clock k v at s n h w =
      write-IsFresh k v (some (clock.to_rfc3339 at)) true s n h w
