-- ===== src/State/Store.antt =====
-- `StateStore` (crates/ecphoria-core/src/memory/state.rs): the table `state`, the hot cache and the
-- notifications. Versions are below 2^63, where SQLite's integers do not overflow.
pub mod Fresh
pub mod Reads
pub mod Erasure
mod Examples
use ecphoria.Prelude.{
  or_else, ℕ, ◌+◌, ◌≡◌, Bool, true, false, not, ◌&&◌, Option, none, some, List, [], ◌∷◌, ◌++◌, eqb,
  if◌then◌else◌, length, is_some,
}
use ecphoria.Prelude.Assoc
use ecphoria.Prelude.Assoc.{Assoc, lookup, insert, remove}
use ecphoria.Prelude.Faults.{fails, later}
use ecphoria.Prelude.Result.{Result, ok, err, Exec}
use ecphoria.Prelude.Text.{Str, str_lt}
use ecphoria.State.Table.{
  Json, Clock, Key, key_eq, Row, is_live, is_expired, live_row, new_row, keys_where, delete_rows,
}
use ecphoria.State.Like.{like, prefix_pattern}

-- `StateError` holds no more than that a call failed.
pub data StateError : Type 0 where
  state_error : StateError

module _ (j : Json) where
  pub record StateEntry : Type 0 where
    pub agent_id : Str
    pub key : Str
    pub value : j.Value
    pub version : ℕ

  pub record StateChange : Type 0 where
    pub agent_id : Str
    pub key : Str
    pub value : j.Value
    pub version : ℕ
    pub deleted : Bool

  pub record StateStore : Type 0 where
    pub table : Assoc Key Row
    pub faults : List Bool
    pub cache : Assoc Key StateEntry
    pub sent : List StateChange

  abbrev pub Op : Type 0 → Type 0
  Op A = Exec StateStore StateError A

module _ {j : Json} where
  -- a statement or a query has been tried
  abbrev pub tried : StateStore j → StateStore j
  tried s = record s { faults = later s.faults }

  abbrev pub notify : StateChange j → StateStore j → StateStore j
  notify change s = record s { sent = change ∷ s.sent }

  -- `from_str(&value_str).unwrap_or(Value::Null)`
  abbrev pub entry_of : Key → Row → StateEntry j
  entry_of (agent_id, key) r = record {
    agent_id = agent_id;
    key = key;
    value = or_else j.null (j.from_str r.value);
    version = r.version;
  }

  -- `cache.entry(key).or_insert_with(…)`
  abbrev or_insert : Key → StateEntry j → Assoc Key (StateEntry j) → Assoc Key (StateEntry j)
  or_insert k e cache = elim (lookup k cache) [ none ↦ insert k e cache | some _ ↦ cache ]

  abbrev read_through : Key → Option Row → StateStore j → Option (StateEntry j) × StateStore j
  read_through k none s = (none, s)
  read_through k (some r) s =
      (some (entry_of k r), record s { cache = or_insert k (entry_of k r) s.cache })

  -- `get`: a failed query reads as a missing row. `now` is the text of `datetime('now')`.
  pub get : Str → Key → StateStore j → Option (StateEntry j) × StateStore j
  get now k s = elim (lookup k s.cache) [
    | some e ↦ (some e, s)
    | none ↦
        (if fails s.faults
          then (none, tried s)
          else read_through k (live_row now (lookup k s.table)) (tried s))
  ]

  abbrev upsert : Key → Str → Option Str → Bool → StateStore j → StateStore j
  upsert k value expires names_expiry s = record s {
    table = insert k (new_row value expires names_expiry (lookup k s.table)) s.table;
  }

  -- SELECT version …, a failure or a missing row being an error; then the cache
  abbrev cache_version :
      Key → j.Value → Option Row → StateStore j → Result StateError ℕ × StateStore j
  cache_version k v none s = (err state_error, s)
  cache_version (agent_id, key) v (some r) s = (
    ok r.version,
    record s {
      cache =
          insert (agent_id, key)
            (record { agent_id = agent_id; key = key; value = v; version = r.version }) s.cache;
    },
  )

  unfoldable pub write : Key → j.Value → Option Str → Bool → Option Str → Op j ℕ
  write k v expires names_expiry none s = (err state_error, s)
  write k v expires names_expiry (some text) s =
      if fails s.faults
      then (err state_error, tried s)
      else (let s1 = upsert k text expires names_expiry (tried s) in
          if fails s1.faults
          then (err state_error, tried s1)
          else cache_version k v (lookup k s1.table) (tried s1))

  abbrev announce :
      Key → j.Value → Result StateError ℕ × StateStore j → Result StateError ℕ × StateStore j
  announce k v (err e, s) = (err e, s)
  announce (agent_id, key) v (ok version, s) = (
    ok version,
    notify
        (record { agent_id = agent_id; key = key; value = v; version = version; deleted = false })
        s,
  )

  pub set : Key → j.Value → Op j ℕ
  unfolding write
  set k v s = announce k v (write k v none false (j.to_string v) s)

  -- `at` is the instant of expiry; nothing is announced.
  pub set_with_ttl : Clock → Key → j.Value → ℕ → Op j ℕ
  unfolding write
  set_with_ttl clock k v at s = write k v (some (clock.to_rfc3339 at)) true (j.to_string v) s

  pub remove_keys : List Key → Assoc Key (StateEntry j) → Assoc Key (StateEntry j)
  remove_keys [] cache = cache
  remove_keys (k ∷ ks) cache = remove_keys ks (remove k cache)

  abbrev sweep : Str → List Key → Op j ℕ
  sweep now [] s = (ok 0, s)
  sweep now (k ∷ ks) s = if fails s.faults then (err state_error, tried s) else (
    ok (length (k ∷ ks)),
    record s {
      table = delete_rows (λ _ r. is_expired now r) s.table;
      faults = later s.faults;
      cache = remove_keys (k ∷ ks) s.cache;
    },
  )

  -- `cleanup_expired`; `now` is the RFC 3339 text of the present
  pub cleanup_expired : Str → Op j ℕ
  cleanup_expired now s =
      if fails s.faults
      then (err state_error, tried s)
      else sweep now (keys_where (λ _ r. is_expired now r) s.table) (tried s)

  pub delete_by_prefix : Str → Op j ℕ
  delete_by_prefix prefix s = if fails s.faults then (err state_error, tried s) else (
    ok (length (keys_where (λ k _. like (prefix_pattern prefix) k.0) s.table)),
    record s {
      table = delete_rows (λ k _. like (prefix_pattern prefix) k.0) s.table;
      faults = later s.faults;
      cache = [];
    },
  )

  pub delete : Key → Op j Unit
  delete (agent_id, key) s = if fails s.faults then (err state_error, tried s) else (
    ok tt,
    notify (record { agent_id = agent_id; key = key; value = j.null; version = 0; deleted = true })
        (record s {
          table = remove (agent_id, key) s.table;
          faults = later s.faults;
          cache = remove (agent_id, key) s.cache;
        }),
  )

  -- UPDATE state SET … WHERE agent_id = ? AND key = ? AND version = ?
  abbrev swap : Key → Str → ℕ → Option Row → StateStore j → Bool × StateStore j
  swap k text expected none s = (false, s)
  swap k text expected (some r) s =
      if eqb r.version expected
      then (
        true,
        record s {
          table = insert k (record r { value = text; version = r.version + 1 }) s.table;
          cache = remove k s.cache;
        },
      )
      else (false, s)

  abbrev swap_text : Key → ℕ → Option Str → Op j Bool
  swap_text k expected none s = (err state_error, s)
  swap_text k expected (some text) s = if fails s.faults then (err state_error, tried s) else (
    ok (swap k text expected (lookup k s.table) s).0,
    (swap k text expected (lookup k s.table) (tried s)).1,
  )

  pub compare_and_swap : Key → ℕ → j.Value → Op j Bool
  compare_and_swap k expected v s = swap_text k expected (j.to_string v) s

module _ (j : Json) where
  -- the rows of a tenant, values read back as JSON
  pub exported : Str → Assoc Key Row → List (Key × j.Value)
  exported pattern [] = []
  exported pattern ((k, r) ∷ rows) =
      let rest = exported pattern rows in
      if like pattern k.0 then (k, or_else j.null (j.from_str r.value)) ∷ rest else rest

  pub export_by_prefix : Str → Op j (List (Key × j.Value))
  export_by_prefix prefix s =
      if fails s.faults
      then (err state_error, tried s)
      else (ok (exported (prefix_pattern prefix) s.table), tried s)
