-- ===== src/State/Store/Reads.antt =====
-- What a client reads back: after writes, deletes and swaps, and at expiry.
use ecphoria.Prelude.{
  ℕ, ◌+◌, ◌≡◌, ◌≢◌, refl, Bool, true, false, Option, none, some, [], ◌∷◌, ◌++◌, arith, inl, inr,
  Option-cases, if◌then◌else◌,
}
use ecphoria.Prelude.Assoc.{lookup, lookup-insert, lookup-remove}
use ecphoria.Prelude.Result.{Result-cases, ok}
use ecphoria.Prelude.Text.{Str}
use ecphoria.State.Table.{Json, Clock, Key, key_eq, Row, is_live, is_expired, new_row}
use ecphoria.State.Store.{
  StateStore, StateEntry, get, set, set_with_ttl, write, cleanup_expired, delete, compare_and_swap,
}
use ecphoria.State.Store.Fresh.{IsFresh, kept_row, lookup-delete_rows, elem-keys_where}

-- the version that a write gives a key
abbrev pub next_version : Option Row → ℕ
next_version none = 1
next_version (some r) = r.version + 1

-- the row that a swap writes
abbrev swapped : Row → Str → Row
swapped r text = record r { value = text; version = r.version + 1 }

module _ {j : Json} where
  abbrev pub entry : Key → j.Value → ℕ → StateEntry j
  entry k v n = record { agent_id = k.0; key = k.1; value = v; version = n }

  write-cached :
      (k : Key) (v : j.Value) (expires : Option Str) (names : Bool) (o : Option Str)
      (s : StateStore j) (n : ℕ)
      → (write k v expires names o s).0 ≡ ok n
      → (n ≡ next_version (lookup k s.table))
        × (lookup k (write k v expires names o s).1.cache ≡ some (entry k v n))
  unfolding write
  write-cached k v expires names none s n h = absurd (ground arith)
  write-cached k v expires names (some text) s n h =
      let r = new_row text expires names (lookup k s.table) in
      ground (
        arith,
        lookup-insert k k r s.table,
        lookup-insert k k (entry k v r.version) s.cache,
        key_eq.beq_iff k k,
      )

  -- A write that succeeds gives the key the next version, which starts at 1, and the next read, at
  -- any time, returns the value with that version.
  pub get-set_self :
      (k : Key) (v : j.Value) (now : Str) (s : StateStore j) (n : ℕ)
      → (set k v s).0 ≡ ok n
      → (n ≡ next_version (lookup k s.table)) × ((get now k (set k v s).1).0 ≡ some (entry k v n))
  unfolding set get
  get-set_self k v now s n h = elim (Result-cases (write k v none false (j.to_string v) s).0) [
    | inr (x, e) ↦ absurd (ground arith)
    | inl (m, e) ↦ ground (arith, write-cached k v none false (j.to_string v) s m e)
  ]

  -- A write with a time to live that succeeds is returned by the next read at any time, also after
  -- its expiry: the cache keeps it until the sweep of expired rows.
  pub get-set_with_ttl_self :
      (clock : Clock) (k : Key) (v : j.Value) (at : ℕ) (now : Str) (s : StateStore j) (n : ℕ)
      → (set_with_ttl clock k v at s).0 ≡ ok n
      → (n ≡ next_version (lookup k s.table))
        × ((get now k (set_with_ttl clock k v at s).1).0 ≡ some (entry k v n))
  unfolding set_with_ttl get
  get-set_with_ttl_self clock k v at now s n h =
      ground (arith, write-cached k v (some (clock.to_rfc3339 at)) true (j.to_string v) s n h)

  -- Where no statement fails, a delete leaves nothing to read under the key, and under another key
  -- what was there.
  pub get-delete :
      (k i : Key) (now : Str) (s : StateStore j)
      → s.faults ≡ []
      → (get now i (delete k s).1).0 ≡ (if key_eq.beq k i then none else (get now i s).0)
  unfolding get delete
  get-delete k i now s f = elim (Option-cases (lookup i s.table)) [
    | inr e ↦ ground (arith, lookup-remove k i s.table, lookup-remove k i s.cache)
    | inl (r, e) ↦ ground (arith, lookup-remove k i s.table, lookup-remove k i s.cache)
  ]

  -- Of two swaps from the same version the second fails, whatever else they write.
  pub compare_and_swap_once :
      (k : Key) (expected : ℕ) (v w : j.Value) (s : StateStore j)
      → (compare_and_swap k expected v s).0 ≡ ok true
      → (compare_and_swap k expected w (compare_and_swap k expected v s).1).0 ≢ ok true
  unfolding compare_and_swap
  compare_and_swap_once k expected v w s h = elim (Option-cases (j.to_string v)) [
    | inr e ↦ absurd (ground arith)
    | inl (text, e) ↦ elim (Option-cases (lookup k s.table)) [
      | inr e' ↦ absurd (ground arith)
      | inl (r, e') ↦
          λ q. ground (arith, lookup-insert k k (swapped r text) s.table, key_eq.beq_iff k k)
    ]
  ]

  -- The sweep, where no statement fails, removes the expired rows and no others.
  pub cleanup_expired_lem :
      (now : Str) (i : Key) (s : StateStore j)
      → IsFresh s
      → s.faults ≡ []
      → lookup i (cleanup_expired now s).1.table
        ≡ kept_row (λ _ r. is_expired now r) i (lookup i s.table)
  unfolding cleanup_expired
  cleanup_expired_lem now i s h f = ground (
    arith,
    lookup-delete_rows (λ _ r. is_expired now r) i s.table h.unique,
    elem-keys_where (λ _ r. is_expired now r) i s.table h.unique,
  )

-- Within one day no read of the table sees an expiry: chrono writes a `T` after the date, and
-- SQLite's `datetime` a blank, which is less.
pub is_live_same_day :
    (date t1 t2 value : Str) (version : ℕ)
    → is_live
        (date ++ b' ' ∷ t1)
        (record { value = value; version = version; expires_at = some (date ++ b'T' ∷ t2) })
      ≡ true
is_live_same_day [] t1 t2 value version = refl
is_live_same_day (c ∷ date) t1 t2 value version =
    ground (arith, is_live_same_day date t1 t2 value version)
