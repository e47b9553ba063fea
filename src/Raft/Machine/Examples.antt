-- ===== src/Raft/Machine/Examples.antt =====
-- The state machine on the toy engine.
use ecphoria.Prelude.{ℕ, ◌≡◌, refl, true, Option, none, some, List, [], ◌∷◌, ◌++◌, length}
use ecphoria.Prelude.Result.{ok, err}
use ecphoria.Raft.Types.{
  LogId, Entry, normal, membership, run_create, ok_response, SnapshotMeta, apply_error, Bytes,
}
use ecphoria.Raft.Disk.{blank}
use ecphoria.Raft.Store.{StoredSnapshot, fresh, persist_meta, encoded, run_sql}
use ecphoria.Raft.Store.Coherence.{IsCoherent}
use ecphoria.Raft.Store.Restart.{restart_state, run}
use ecphoria.Raft.Machine.{
  MemStore, apply_to_state_machine, apply_entry, effect, mark_applied, set_membership, on_inner,
  on_engine, apply_request, dispatch, build_snapshot, install_snapshot, record_snapshot,
  restore_engine, is_empty, get_current_snapshot,
}
use ecphoria.Raft.Machine.Progress.{
  applied_upto, after_each, apply_to_state_machine-ok, apply_to_state_machine-err,
}
use ecphoria.Raft.Machine.Durable.{apply_to_state_machine-IsCoherent}
use ecphoria.Raft.Machine.Snapshots.{install_snapshot-ok, install_snapshot-build_snapshot}
use ecphoria.Raft.Toy.{toy, codecs, toy_engine, at, blank_at}

-- a store on a new database, with an engine that holds one byte
abbrev store : MemStore toy_engine
store = record { inner = fresh codecs (some (blank [])); engine = some (5 ∷ []) }

store-IsCoherent : IsCoherent codecs store.inner
unfolding run
store-IsCoherent = restart_state codecs [] []

abbrev joined : Entry toy
joined = record { log_id = at 1 1; payload = membership 3 }

abbrev created : Entry toy
created = record { log_id = at 1 1; payload = normal (run_create tt) }

abbrev good : List (Entry toy)
good = blank_at 1 0 ∷ joined ∷ []

abbrev bad : List (Entry toy)
bad = blank_at 1 0 ∷ created ∷ []

good_applied :
    (apply_to_state_machine toy_engine true codecs good store).0
    ≡ ok (ok_response ∷ ok_response ∷ [])
unfolding apply_to_state_machine apply_entry effect mark_applied set_membership on_inner
    persist_meta encoded run_sql
good_applied = refl

bad_applied :
    (apply_to_state_machine toy_engine true codecs bad store).0 ≡ err (apply_error (at 1 1))
unfolding apply_to_state_machine apply_entry effect mark_applied apply_request dispatch on_engine
    on_inner persist_meta encoded run_sql
bad_applied = refl

apply_to_state_machine-ok_example :
    (length (ok_response ∷ ok_response ∷ []) ≡ length good)
    × ((apply_to_state_machine toy_engine true codecs good store).1.inner.last_applied
        ≡ some (at 1 1))
apply_to_state_machine-ok_example =
    apply_to_state_machine-ok toy_engine true codecs good store (ok_response ∷ ok_response ∷ [])
      good_applied

apply_to_state_machine-err_example :
    (done : List (Entry toy)) × (failed : Entry toy) × (rest : List (Entry toy))
    × (before : MemStore toy_engine) × (bad ≡ done ++ failed ∷ rest)
    × (after_each toy_engine true codecs done store ≡ some before)
    × ((apply_entry toy_engine true codecs failed before).0 ≡ err (apply_error (at 1 1)))
    × ((apply_to_state_machine toy_engine true codecs bad store).1
        ≡ (apply_entry toy_engine true codecs failed before).1)
    × ((apply_to_state_machine toy_engine true codecs bad store).1.inner.last_applied
        ≡ applied_upto done none)
apply_to_state_machine-err_example =
    apply_to_state_machine-err toy_engine true codecs bad store (apply_error (at 1 1)) bad_applied

apply_to_state_machine-IsCoherent_example :
    IsCoherent codecs (apply_to_state_machine toy_engine true codecs good store).1.inner
apply_to_state_machine-IsCoherent_example =
    apply_to_state_machine-IsCoherent toy_engine true codecs good store
      (ok_response ∷ ok_response ∷ []) store-IsCoherent good_applied

abbrev six : Bytes
six = 6 ∷ []

abbrev meta : SnapshotMeta toy
meta = record { last_log_id = some (at 2 9); last_membership = 4; snapshot_id = 1 }

installed : (install_snapshot toy_engine codecs meta six store).0 ≡ ok tt
unfolding install_snapshot is_empty restore_engine record_snapshot on_engine on_inner persist_meta
    encoded run_sql
installed = refl

install_snapshot-ok_example :
    (six ≡ [] → meta.last_log_id ≡ none)
    × ((install_snapshot toy_engine codecs meta six store).1.inner.last_applied ≡ some (at 2 9))
    × ((install_snapshot toy_engine codecs meta six store).1.inner.last_membership ≡ 4)
    × (get_current_snapshot toy_engine (install_snapshot toy_engine codecs meta six store).1
        ≡ some (record { meta = meta; bytes = six }))
    × IsCoherent codecs (install_snapshot toy_engine codecs meta six store).1.inner
install_snapshot-ok_example =
    install_snapshot-ok toy_engine codecs meta six store store-IsCoherent installed

abbrev new_id : Option (LogId toy) → ℕ
new_id o = 1

abbrev built : StoredSnapshot toy
built = record {
  meta = record { last_log_id = none; last_membership = 0; snapshot_id = 1 };
  bytes = 5 ∷ [];
}

first_snapshot : (build_snapshot toy_engine new_id store).0 ≡ ok built
unfolding build_snapshot on_engine on_inner
first_snapshot = refl

built_installed : (install_snapshot toy_engine codecs built.meta built.bytes store).0 ≡ ok tt
unfolding install_snapshot is_empty restore_engine record_snapshot on_engine on_inner persist_meta
    encoded run_sql
built_installed = refl

install_snapshot-build_snapshot_example :
    ((install_snapshot toy_engine codecs built.meta built.bytes store).1.inner.last_applied
      ≡ store.inner.last_applied)
    × ((install_snapshot toy_engine codecs built.meta built.bytes store).1.inner.last_membership
        ≡ store.inner.last_membership)
    × (get_current_snapshot toy_engine (build_snapshot toy_engine new_id store).1 ≡ some built)
install_snapshot-build_snapshot_example =
    install_snapshot-build_snapshot toy_engine codecs new_id store store built first_snapshot
      store-IsCoherent built_installed
