-- ===== src/Raft/Store.antt =====
-- `StoreInner` and the log half of `MemStore` (crates/ecphoria-cluster/src/raft/store.rs): the
-- cache, what is persisted, and how a restart reads it back. The proofs are in the modules below.
pub mod Coherence
pub mod Recovery
pub mod Restart
mod Examples
use ecphoria.Prelude.{
  or_else, ℕ, Bool, true, false, String, Option, none, some, List, [], ◌∷◌, leb, ◌≡◌,
}
use ecphoria.Prelude.Assoc
use ecphoria.Prelude.Eq.{string_eq}
use ecphoria.Prelude.Result.{Result, ok, err, Exec, ◌>>=◌, ◌>>◌, pure, raise, modify}
use ecphoria.Prelude.Rows.{Rows, put, del_all, keys_where, values_where, last}
use ecphoria.Raft.Types.{
  Types, Codec, OptionCodec, Codecs, LogId, Entry, LogState, SnapshotMeta, StorageError,
  write_error, Bytes,
}
use ecphoria.Raft.Disk
use ecphoria.Raft.Disk.{Disk}

module _ (t : Types) where
  pub record StoredSnapshot : Type 0 where
    pub meta : SnapshotMeta t
    pub bytes : Bytes

  pub record StoreInner : Type 0 where
    pub db : Option (Disk Bytes)
    pub log : Rows (Entry t)
    pub vote : Option t.Vote
    pub last_purged : Option (LogId t)
    pub last_applied : Option (LogId t)
    pub last_membership : t.StoredMembership
    pub snapshot : Option StoredSnapshot
    pub committed : Option (LogId t)

  abbrev pub Op : Type 0 → Type 0
  Op A = Exec StoreInner (StorageError t) A

module _ {t : Types} where
  -- what `new`, and `open` before it hydrates, start from
  abbrev pub fresh : Codecs t → Option (Disk Bytes) → StoreInner t
  fresh c db = record {
    db = db;
    log = [];
    vote = none;
    last_purged = none;
    last_applied = none;
    last_membership = c.default_membership;
    snapshot = none;
    committed = none;
  }

  -- `if let Some(ref db) = self.db { db.execute(…).map_err(sm_write_err)? }`
  unfoldable pub run_sql : (Disk Bytes → Disk Bytes) → Op t Unit
  run_sql effect s = elim s.db [
    | none ↦ (ok tt, s)
    | some d ↦ (
      elim (Disk.execute effect d).0 [ true ↦ ok tt | false ↦ err write_error ],
      record s { db = some (Disk.execute effect d).1 },
    )
  ]

  -- `rmp_serde::to_vec(…).map_err(sm_write_err)?`
  unfoldable pub encoded : Option Bytes → Op t Bytes
  encoded none = raise write_error
  encoded (some b) = pure b

  unfoldable pub persist_meta : String → Bytes → Op t Unit
  unfolding run_sql
  persist_meta key value = run_sql (Disk.replace_meta key value)

  pub delete_entries_from : ℕ → Op t Unit
  delete_entries_from from_idx = run_sql (Disk.delete_from from_idx)

  pub delete_entries_upto : ℕ → Op t Unit
  delete_entries_upto upto_idx = run_sql (Disk.delete_upto upto_idx)

module _ {t : Types} (c : Codecs t) where
  open c use {entry as entry_codec, vote as vote_codec, log_id as id_codec}

  -- Without a database nothing is encoded.
  persist_sql : Entry t → Option Bytes → ℕ → Op t Unit
  persist_sql e none idx = raise write_error
  persist_sql e (some b) idx = run_sql (Disk.replace_entry idx b)

  pub persist_entry : ℕ → Entry t → Op t Unit
  persist_entry idx e s = elim s.db [
    | none ↦ (ok tt, s)
    | some _ ↦ persist_sql e (entry_codec.to_vec e) idx s
  ]

  pub save_vote : t.Vote → Op t Unit
  save_vote v = do
    bytes ← encoded (vote_codec.to_vec v)
    persist_meta "vote" bytes
    modify (λ s. record s { vote = some v })

  pub save_committed : Option (LogId t) → Op t Unit
  save_committed committed = do
    bytes ← encoded (id_codec.to_vec committed)
    persist_meta "committed" bytes
    modify (λ s. record s { committed = committed })

  -- one turn of the loop of `append_to_log`
  pub append_entry : Entry t → Op t Unit
  append_entry e = do
    persist_entry e.log_id.index e
    modify (λ s. record s { log = put e.log_id.index e s.log })

  pub append_to_log : List (Entry t) → Op t Unit
  append_to_log [] = pure tt
  append_to_log (e ∷ es) = append_entry e >> append_to_log es

  pub purge_logs_upto : LogId t → Op t Unit
  purge_logs_upto id = do
    bytes ← encoded (id_codec.to_vec (some id))
    persist_meta "last_purged" bytes
    modify (λ s. record s { last_purged = some id })
    delete_entries_upto id.index
    modify (λ s. record s { log = del_all (keys_where (λ i. leb i id.index) s.log) s.log })

module _ {t : Types} where
  pub delete_conflict_logs_since : LogId t → Op t Unit
  delete_conflict_logs_since id = do
    delete_entries_from id.index
    modify (λ s. record s { log = del_all (keys_where (leb id.index) s.log) s.log })

  pub try_get_log_entries : (ℕ → Bool) → StoreInner t → List (Entry t)
  try_get_log_entries range s = values_where range s.log

  pub read_vote : StoreInner t → Option t.Vote
  read_vote s = s.vote

  pub read_committed : StoreInner t → Option (LogId t)
  read_committed s = s.committed

  -- `last.or(last_purged)`
  abbrev or_purged : Option (Entry t) → Option (LogId t) → Option (LogId t)
  or_purged none purged = purged
  or_purged (some e) purged = some e.log_id

  pub get_log_state : StoreInner t → LogState t
  get_log_state s = record {
    last_purged_log_id = s.last_purged;
    last_log_id = or_purged (last s.log) s.last_purged;
  }

-- whether a read succeeds, and the database after it
abbrev query : Disk Bytes → Bool × Disk Bytes
query = Disk.execute (λ d. d)

-- `if let Some(data) = self.load_meta(key) { self.field = from_slice(&data).ok() }`
abbrev pub decoded : {A : Type 0} → (Bytes → Option A) → Option Bytes → Option A
decoded from_slice none = none
decoded from_slice (some b) = from_slice b

-- Reads, which hide a failure: a statement that fails counts as a row that is not there.
module _ {t : Types} where
  pub load_meta : String → StoreInner t → Option Bytes × StoreInner t
  load_meta key s = elim s.db [
    | none ↦ (none, s)
    | some d ↦ (
      elim (query d).0 [ true ↦ Assoc.lookup key d.raft_meta | false ↦ none ],
      record s { db = some (query d).1 },
    )
  ]

module _ {t : Types} (c : Codecs t) where
  open c use {entry as entry_codec, vote as vote_codec, log_id as id_codec}

  abbrev put_decoded : ℕ → Option (Entry t) → Rows (Entry t) → Rows (Entry t)
  put_decoded idx none log = log
  put_decoded idx (some e) log = put idx e log

  -- the loop over the rows of `SELECT idx, entry FROM raft_log ORDER BY idx`
  unfoldable pub load_rows : Rows Bytes → Rows (Entry t) → Rows (Entry t)
  load_rows [] log = log
  load_rows ((idx, b) ∷ rows) log = load_rows rows (put_decoded idx (entry_codec.from_slice b) log)

  -- `prepare` and `query_map` are two statements
  pub hydrate_log : StoreInner t → StoreInner t
  hydrate_log s = elim s.db [
    | none ↦ s
    | some d ↦ (elim (query d).0 [
      | false ↦ record s { db = some (query d).1 }
      | true ↦ (elim (query (query d).1).0 [
        | false ↦ record s { db = some (query (query d).1).1 }
        | true ↦ record s { db = some (query (query d).1).1; log = load_rows d.raft_log s.log }
      ])
    ])
  ]

  pub hydrate : StoreInner t → StoreInner t
  hydrate s0 =
      let s1 = hydrate_log s0 in
      let (b1, s2) = load_meta "vote" s1 in
      let s3 = record s2 { vote = decoded vote_codec.from_slice b1 } in
      let (b2, s4) = load_meta "committed" s3 in
      let s5 = record s4 { committed = decoded id_codec.from_slice b2 } in
      let (b3, s6) = load_meta "last_purged" s5 in
      let s7 = record s6 { last_purged = decoded id_codec.from_slice b3 } in
      let (b4, s8) = load_meta "last_applied" s7 in
      let s9 = record s8 { last_applied = decoded id_codec.from_slice b4 } in
      let (b5, s10) = load_meta "last_membership" s9 in
      record s10 {
        last_membership = or_else s10.last_membership (decoded c.stored_membership.from_slice b5);
      }

  -- `open`, from the database that SQLite opened
  pub open_db : Disk Bytes → StoreInner t
  open_db d = hydrate (fresh c (some d))
