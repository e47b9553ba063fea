-- ===== src/Raft/Machine.antt =====
-- The state machine half of `MemStore` (crates/ecphoria-cluster/src/raft/store.rs): applying
-- committed entries to the engine, and snapshots. The engine is an interface.
pub mod Progress
pub mod Durable
pub mod Snapshots
mod Examples
use ecphoria.Prelude.{
  ℕ, Bool, true, false, String, Option, none, some, List, [], ◌∷◌, if◌then◌else◌, length, is_some,
  ◌&&◌,
}
use ecphoria.Prelude.Result.{Result, ok, err, Exec, ◌>>=◌, ◌>>◌, pure, raise, modify}
use ecphoria.Raft.Types.{
  Types, Codecs, AppRequest, ingest, state_set, state_delete, semantic_upsert, semantic_delete,
  memory_upsert, memory_delete, graph_add_edge, graph_supersede, memory_expire, run_create,
  run_update, AppResponse, ingested, state_version, deleted, ok_response, memory_count, LogId,
  Entry, EntryPayload, blank, normal, membership, SnapshotMeta, StorageError, write_snapshot_error,
  read_snapshot_error, apply_error, Bytes,
}
use ecphoria.Raft.Disk.{Disk}
use ecphoria.Raft.Store.{StoredSnapshot, StoreInner, Op, encoded, persist_meta, fresh, open_db}

-- The calls of `EcphoriaEngine` and `SnapshotManager` that the store makes. Each may fail, and may
-- have changed the engine when it does.
pub record Engine (t : Types) : Type 1 where
  pub State : Type 0
  pub Error : Type 0
  pub ingest_replicated : List t.Event → Option String → Exec State Error ℕ
  pub set_for_tenant : String → String → String → t.Json → Exec State Error ℕ
  pub set_state : String → String → t.Json → Exec State Error ℕ
  pub delete_for_tenant : String → String → String → Exec State Error Unit
  pub delete_state : String → String → Exec State Error Unit
  pub upsert_semantic : t.Uuid → String → t.Embedding → t.Json → Exec State Error Unit
  pub delete_semantic : t.Uuid → Exec State Error Unit
  pub memory_apply_rows : List t.MemoryRow → Exec State Error ℕ
  pub delete_memory : t.Uuid → Exec State Error Unit
  pub graph_apply_edge : Option String → t.Edge → Exec State Error Unit
  pub graph_supersede_apply :
      Option String → String → String → t.Time → Option t.Uuid → Exec State Error Unit
  pub expire_memories : List t.Uuid → Exec State Error Unit
  pub run_apply_create : t.Run → Exec State Error Unit
  pub run_apply_update : t.Uuid → t.RunPatch → t.Time → Exec State Error Unit
  pub build : Exec State Error Bytes
  pub restore : Bytes → Exec State Error Unit

module _ {t : Types} (e : Engine t) where
  pub record MemStore : Type 0 where
    pub inner : StoreInner t
    pub engine : Option e.State

  abbrev pub Machine : Type 0 → Type 0
  Machine A = Exec MemStore (StorageError t) A

  -- `agentic` is the cargo feature: without it the requests of the run ledger are skipped.
  dispatch : Bool → AppRequest t → Exec e.State e.Error AppResponse
  dispatch agentic (ingest events tenant) = do
    n ← e.ingest_replicated events tenant
    pure (ingested n)
  dispatch agentic (state_set agent_id key value (some tenant)) = do
    v ← e.set_for_tenant tenant agent_id key value
    pure (state_version v)
  dispatch agentic (state_set agent_id key value none) = do
    v ← e.set_state agent_id key value
    pure (state_version v)
  dispatch agentic (state_delete agent_id key (some tenant)) = do
    e.delete_for_tenant tenant agent_id key
    pure deleted
  dispatch agentic (state_delete agent_id key none) = do e.delete_state agent_id key; pure deleted
  dispatch agentic (semantic_upsert id content embedding metadata) = do
    e.upsert_semantic id content embedding metadata
    pure ok_response
  dispatch agentic (semantic_delete id) = do e.delete_semantic id; pure ok_response
  dispatch agentic (memory_upsert rows) = do n ← e.memory_apply_rows rows; pure (memory_count n)
  dispatch agentic (memory_delete id) = do e.delete_memory id; pure (memory_count 1)
  dispatch agentic (graph_add_edge tenant edge) = do
    e.graph_apply_edge tenant edge
    pure ok_response
  dispatch agentic (graph_supersede tenant src relation at by) = do
    e.graph_supersede_apply tenant src relation at by
    pure ok_response
  dispatch agentic (memory_expire ids) = do e.expire_memories ids; pure (memory_count (length ids))
  dispatch true (run_create run) = do e.run_apply_create run; pure ok_response
  dispatch true (run_update id patch updated_at) = do
    e.run_apply_update id patch updated_at
    pure ok_response
  dispatch false (run_create run) = pure ok_response
  dispatch false (run_update id patch updated_at) = pure ok_response

  -- a call of the engine, where the store has one
  pub on_engine : {A : Type 0} → Exec e.State e.Error A → A → (e.Error → StorageError t) → Machine A
  on_engine call absent wrap s = elim s.engine [
    | none ↦ (ok absent, s)
    | some g ↦ (
      elim (call g).0 [ ok a ↦ ok a | err x ↦ err (wrap x) ],
      record s { engine = some (call g).1 },
    )
  ]

  pub on_inner : {A : Type 0} → Op t A → Machine A
  on_inner op s = ((op s.inner).0, record s { inner = (op s.inner).1 })

  pub apply_request : Bool → LogId t → AppRequest t → Machine AppResponse
  unfolding dispatch
  apply_request agentic id req = on_engine (dispatch agentic req) ok_response (λ _. apply_error id)

  -- `inner.last_applied = Some(log_id)`, once it is persisted
  mark_applied : Codecs t → LogId t → Machine Unit
  mark_applied c id = on_inner (do
    bytes ← encoded (c.log_id.to_vec (some id))
    persist_meta "last_applied" bytes
    modify (λ s. record s { last_applied = some id }))

  -- The cache takes the new membership before it is persisted.
  set_membership : Codecs t → LogId t → t.Membership → Machine AppResponse
  set_membership c id m = on_inner (do
    modify (λ s. record s { last_membership = c.new_membership (some id) m })
    bytes ← encoded (c.stored_membership.to_vec (c.new_membership (some id) m))
    persist_meta "last_membership" bytes
    pure ok_response)

  effect : Bool → Codecs t → LogId t → EntryPayload t → Machine AppResponse
  effect agentic c id blank = pure ok_response
  effect agentic c id (normal req) = apply_request agentic id req
  effect agentic c id (membership m) = set_membership c id m

  pub apply_entry : Bool → Codecs t → Entry t → Machine AppResponse
  apply_entry agentic c x = do
    resp ← effect agentic c x.log_id x.payload
    mark_applied c x.log_id
    pure resp

  pub apply_to_state_machine : Bool → Codecs t → List (Entry t) → Machine (List AppResponse)
  apply_to_state_machine agentic c [] = pure []
  apply_to_state_machine agentic c (x ∷ xs) = do
    resp ← apply_entry agentic c x
    rest ← apply_to_state_machine agentic c xs
    pure (resp ∷ rest)

  pub last_applied_state : MemStore → Option (LogId t) × t.StoredMembership
  last_applied_state s = (s.inner.last_applied, s.inner.last_membership)

  -- `new_id` stands for the fresh uuid, joined to the last applied id.
  pub build_snapshot : (Option (LogId t) → t.SnapshotId) → Machine (StoredSnapshot t)
  build_snapshot new_id s =
      let meta : SnapshotMeta t = record {
        last_log_id = s.inner.last_applied;
        last_membership = s.inner.last_membership;
        snapshot_id = new_id s.inner.last_applied;
      } in
      (do
        bytes ← on_engine e.build [] (λ _. write_snapshot_error)
        let snapshot : StoredSnapshot t = record { meta = meta; bytes = bytes }
        on_inner (modify (λ i. record i { snapshot = some snapshot }))
        pure snapshot)
        s

  pub is_empty : Bytes → Bool
  is_empty [] = true
  is_empty (b ∷ bs) = false

  pub restore_engine : Bytes → Machine Unit
  restore_engine [] = pure tt
  restore_engine (b ∷ bs) = on_engine (e.restore (b ∷ bs)) tt (λ _. read_snapshot_error)

  -- from `let mut inner = self.inner.lock()` on
  record_snapshot : Codecs t → SnapshotMeta t → Bytes → Machine Unit
  record_snapshot c meta bytes = on_inner (do
    modify (λ i. record i {
      last_applied = meta.last_log_id;
      last_membership = meta.last_membership;
      snapshot = some (record { meta = meta; bytes = bytes });
    })
    b1 ← encoded (c.log_id.to_vec meta.last_log_id)
    persist_meta "last_applied" b1
    b2 ← encoded (c.stored_membership.to_vec meta.last_membership)
    persist_meta "last_membership" b2)

  pub install_snapshot : Codecs t → SnapshotMeta t → Bytes → Machine Unit
  unfolding is_empty
  install_snapshot c meta bytes =
      if is_empty bytes && is_some meta.last_log_id
      then raise read_snapshot_error
      else do restore_engine bytes; record_snapshot c meta bytes

  pub get_current_snapshot : MemStore → Option (StoredSnapshot t)
  get_current_snapshot s = s.inner.snapshot

  -- `MemStore::new`
  pub in_memory : Codecs t → Option e.State → MemStore
  in_memory c engine = record { inner = fresh c none; engine = engine }

  -- `MemStore::open`, from the database that SQLite opened
  pub persistent : Codecs t → Disk Bytes → Option e.State → MemStore
  persistent c d engine = record { inner = open_db c d; engine = engine }
