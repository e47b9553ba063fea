-- ===== src/Raft/Machine/Snapshots.antt =====
-- Building a snapshot and installing it.
use ecphoria.Prelude.{
  ◌≡◌, refl, ◌∙◌, true, false, Option, none, some, [], ◌∷◌, arith, Option-cases, inl, inr, is_some,
  Bool-cases, ◌&&◌, ◌⊎◌,
}
use ecphoria.Prelude.Assoc
use ecphoria.Prelude.Eq.{string_eq}
use ecphoria.Prelude.Result.{ok, err, bind_ok}
use ecphoria.Raft.Types.{
  Types, Codecs, LogId, StorageError, SnapshotMeta, Bytes, read_snapshot_error,
}
use ecphoria.Raft.Store.{StoredSnapshot, encoded, persist_meta}
use ecphoria.Raft.Store.Coherence.{IsCoherent, meta-insert}
use ecphoria.Raft.Machine.{
  Engine, MemStore, on_inner, on_engine, install_snapshot, is_empty, restore_engine, build_snapshot,
  get_current_snapshot, record_snapshot,
}

module _ {t : Types} (e : Engine t) (c : Codecs t) where
  record_snapshot-ok :
      (meta : SnapshotMeta t) (bytes : Bytes) (s : MemStore e)
      → (record_snapshot e c meta bytes s).0 ≡ ok tt
      → IsCoherent c s.inner
      → IsCoherent c (record_snapshot e c meta bytes s).1.inner
  unfolding record_snapshot on_inner encoded persist_meta
  record_snapshot-ok meta bytes s h k = elim (Option-cases (c.log_id.to_vec meta.last_log_id)) [
    | inr e1 ↦ ground arith
    | inl (b1, e1) ↦ elim (Option-cases (c.stored_membership.to_vec meta.last_membership)) [
      | inr e2 ↦ ground arith
      | inl (b2, e2) ↦ elim (Option-cases s.inner.db) [
        | inr e3 ↦ ground arith
        | inl (d, e3) ↦ ground (
          arith,
          c.log_id.from_slice-to_vec meta.last_log_id b1 e1,
          c.stored_membership.from_slice-to_vec meta.last_membership b2 e2,
          meta-insert "last_applied" b1 d.raft_meta,
          meta-insert "last_membership" b2 (Assoc.insert "last_applied" b1 d.raft_meta),
        )
      ]
    ]
  ]

  -- Once the write has begun, the ids and the snapshot are the new ones, whatever fails after it.
  record_snapshot-shows :
      (meta : SnapshotMeta t) (bytes : Bytes) (s : MemStore e)
      → ((record_snapshot e c meta bytes s).1.inner.last_applied ≡ meta.last_log_id)
        × ((record_snapshot e c meta bytes s).1.inner.last_membership ≡ meta.last_membership)
        × ((record_snapshot e c meta bytes s).1.inner.snapshot
            ≡ some (record { meta = meta; bytes = bytes }))
  unfolding record_snapshot on_inner encoded persist_meta
  record_snapshot-shows meta bytes s = elim (Option-cases (c.log_id.to_vec meta.last_log_id)) [
    | inr e1 ↦ ground arith
    | inl (b1, e1) ↦ elim (Option-cases (c.stored_membership.to_vec meta.last_membership)) [
      | inr e2 ↦ ground arith
      | inl (b2, e2) ↦ ground arith
    ]
  ]

  inner-restore_engine :
      (bytes : Bytes) (s : MemStore e) → (restore_engine e bytes s).1.inner ≡ s.inner
  unfolding restore_engine on_engine
  inner-restore_engine [] s = refl
  inner-restore_engine (b ∷ bs) s = ground arith

  is_empty-nil : (bytes : Bytes) → bytes ≡ [] → is_empty e bytes ≡ true
  unfolding is_empty
  is_empty-nil [] q = refl
  is_empty-nil (b ∷ bs) q = cc

  -- the only error that a restore is reported with
  restore_engine-err :
      (bytes : Bytes) (s : MemStore e) (x : StorageError t)
      → (restore_engine e bytes s).0 ≡ err x
      → (x ≡ read_snapshot_error) × (is_empty e bytes ≡ false)
  unfolding restore_engine on_engine is_empty
  restore_engine-err [] s x h = absurd (ground arith)
  restore_engine-err (b ∷ bs) s x h = ground arith

  -- An installed snapshot carries data unless it names no entry; the store then shows its id, its
  -- membership and itself as the current snapshot, and the database agrees with the cache.
  pub install_snapshot-ok :
      (meta : SnapshotMeta t) (bytes : Bytes) (s : MemStore e)
      → IsCoherent c s.inner
      → (install_snapshot e c meta bytes s).0 ≡ ok tt
      → (bytes ≡ [] → meta.last_log_id ≡ none)
        × ((install_snapshot e c meta bytes s).1.inner.last_applied ≡ meta.last_log_id)
        × ((install_snapshot e c meta bytes s).1.inner.last_membership ≡ meta.last_membership)
        × (get_current_snapshot e (install_snapshot e c meta bytes s).1
            ≡ some (record { meta = meta; bytes = bytes }))
        × IsCoherent c (install_snapshot e c meta bytes s).1.inner
  unfolding install_snapshot get_current_snapshot
  install_snapshot-ok meta bytes s k h =
      elim (Bool-cases (is_empty e bytes && is_some meta.last_log_id)) [
        | inl refused ↦ absurd (ground arith)
        | inr fine ↦
            (let (u, e1, k1, p1) =
                bind_ok (restore_engine e bytes) (λ _. record_snapshot e c meta bytes) s tt
                  (rw fine at h) in
              let s1 = (restore_engine e bytes s).1 in
              let shown = record_snapshot-shows meta bytes s1 in
              rw (fine, p1)
                (
                  λ q. ground (arith, is_empty-nil bytes q),
                  shown.0,
                  shown.1,
                  shown.2,
                  record_snapshot-ok meta bytes s1 k1 (rw (inner-restore_engine bytes s) k),
                ))
      ]

  -- A snapshot whose data never reached the engine changes nothing of the log store: neither one
  -- without data that names an entry, nor one that the engine fails to restore.
  pub install_snapshot_unreceived :
      (meta : SnapshotMeta t) (bytes : Bytes) (s : MemStore e) (x : StorageError t)
      → ((bytes ≡ []) × (is_some meta.last_log_id ≡ true)) ⊎ ((restore_engine e bytes s).0 ≡ err x)
      → ((install_snapshot e c meta bytes s).0 ≡ err read_snapshot_error)
        × ((install_snapshot e c meta bytes s).1.inner ≡ s.inner)
  unfolding install_snapshot
  install_snapshot_unreceived meta bytes s x (inl (p, q)) = ground (arith, is_empty-nil bytes p)
  install_snapshot_unreceived meta bytes s x (inr h) =
      ground (arith, restore_engine-err bytes s x h, inner-restore_engine bytes s)

  build_snapshot-ok :
      (new_id : Option (LogId t) → t.SnapshotId) (s : MemStore e) (x : StoredSnapshot t)
      → (build_snapshot e new_id s).0 ≡ ok x
      → (x.meta.last_log_id ≡ s.inner.last_applied)
        × (x.meta.last_membership ≡ s.inner.last_membership)
        × (get_current_snapshot e (build_snapshot e new_id s).1 ≡ some x)
  unfolding build_snapshot get_current_snapshot on_engine on_inner
  build_snapshot-ok new_id s x h = ground arith

  -- A snapshot is built with the store's own ids, and installing it elsewhere shows those ids there.
  pub install_snapshot-build_snapshot :
      (new_id : Option (LogId t) → t.SnapshotId) (leader follower : MemStore e)
      (x : StoredSnapshot t)
      → (build_snapshot e new_id leader).0 ≡ ok x
      → IsCoherent c follower.inner
      → (install_snapshot e c x.meta x.bytes follower).0 ≡ ok tt
      → ((install_snapshot e c x.meta x.bytes follower).1.inner.last_applied
          ≡ leader.inner.last_applied)
        × ((install_snapshot e c x.meta x.bytes follower).1.inner.last_membership
            ≡ leader.inner.last_membership)
        × (get_current_snapshot e (build_snapshot e new_id leader).1 ≡ some x)
  install_snapshot-build_snapshot new_id leader follower x h k i =
      let built = build_snapshot-ok new_id leader x h in
      let (a, b, d, f, g) = install_snapshot-ok x.meta x.bytes follower k i in
      (b ∙ built.0, d ∙ built.1, built.2)
