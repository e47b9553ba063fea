-- ===== src/State/Store/Erasure.antt =====
-- The erasure of a tenant by prefix, and any run of the store.
use ecphoria.Prelude.{ℕ, ◌≡◌, none, arith, if◌then◌else◌}
use ecphoria.Prelude.Assoc.{lookup, lookup-nil}
use ecphoria.Prelude.Result.{ok}
use ecphoria.Prelude.Text.{Str, starts_with, to_lowercase}
use ecphoria.State.Table.{Json, Clock, Key, key_eq}
use ecphoria.State.Like.{like, prefix_pattern, like-prefix_pattern}
use ecphoria.State.Store.{
  StateStore, StateEntry, get, set, set_with_ttl, cleanup_expired, delete, delete_by_prefix,
  compare_and_swap,
}
use ecphoria.State.Store.Fresh.{
  IsFresh, lookup-delete_rows, get-IsFresh, set-IsFresh, set_with_ttl-IsFresh, delete-IsFresh,
  delete_by_prefix-IsFresh, cleanup_expired-IsFresh, compare_and_swap-IsFresh,
}

module _ {j : Json} where
  -- An erasure that succeeds removes the rows of every agent id that begins with the prefix when
  -- letters are taken without their case, and no others, and empties the cache.
  pub lookup-delete_by_prefix :
      (prefix : Str) (k : Key) (s : StateStore j) (n : ℕ)
      → IsFresh s
      → (delete_by_prefix prefix s).0 ≡ ok n
      → (lookup k (delete_by_prefix prefix s).1.table ≡ (
          if starts_with (to_lowercase prefix) (to_lowercase k.0) then none else lookup k s.table))
        × (lookup k (delete_by_prefix prefix s).1.cache ≡ none)
  unfolding delete_by_prefix
  lookup-delete_by_prefix prefix k s n h e = ground (
    arith,
    lookup-delete_rows (λ i _. like (prefix_pattern prefix) i.0) k s.table h.unique,
    like-prefix_pattern prefix k.0,
    lookup-nil {V = StateEntry j} k,
  )

  -- A call of the store. A write counts here when it succeeds; one whose version cannot be read back
  -- leaves the cache behind the table.
  pub data Step (s : StateStore j) : StateStore j → Type 0 where
    read : (now : Str) (k : Key) → Step s (get now k s).1
    written : (k : Key) (v : j.Value) (n : ℕ) → (set k v s).0 ≡ ok n → Step s (set k v s).1
    written_with_ttl :
        (clock : Clock) (k : Key) (v : j.Value) (at n : ℕ)
        → (set_with_ttl clock k v at s).0 ≡ ok n
        → Step s (set_with_ttl clock k v at s).1
    swept : (now : Str) → Step s (cleanup_expired now s).1
    erased : (prefix : Str) → Step s (delete_by_prefix prefix s).1
    deleted : (k : Key) → Step s (delete k s).1
    swapped : (k : Key) (expected : ℕ) (v : j.Value) → Step s (compare_and_swap k expected v s).1

  pub data Reach (s : StateStore j) : StateStore j → Type 0 where
    start : Reach s s
    step : {t u : StateStore j} → Reach s t → Step t u → Reach s u

  Step-IsFresh : {s t : StateStore j} → Step s t → IsFresh s → IsFresh t
  Step-IsFresh {s} (read now k) h = get-IsFresh now k s h
  Step-IsFresh {s} (written k v n e) h = set-IsFresh k v s n h e
  Step-IsFresh {s} (written_with_ttl clock k v at n e) h = set_with_ttl-IsFresh clock k v at s n h e
  Step-IsFresh {s} (swept now) h = cleanup_expired-IsFresh now s h
  Step-IsFresh {s} (erased prefix) h = delete_by_prefix-IsFresh prefix s h
  Step-IsFresh {s} (deleted k) h = delete-IsFresh k s h
  Step-IsFresh {s} (swapped k expected v) h = compare_and_swap-IsFresh k expected v s h

  pub Reach-IsFresh : {s t : StateStore j} → Reach s t → IsFresh s → IsFresh t
  Reach-IsFresh start h = h
  Reach-IsFresh (step r st) h = Step-IsFresh st (Reach-IsFresh r h)
