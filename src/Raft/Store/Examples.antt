-- ===== src/Raft/Store/Examples.antt =====
-- A run of the log store on a database whose first statement fails.
use ecphoria.Prelude.{All, ◌≡◌, refl, true, none, some, List, [], ◌∷◌, or_else}
use ecphoria.Prelude.Assoc.{insert}
use ecphoria.Prelude.Rows.{put, delete_where, del_all, keys_where}
use ecphoria.Raft.Types.{Bytes, Entry, normal, membership, graph_add_edge}
use ecphoria.Raft.Store.Recovery.{reread, IsLossless}
use ecphoria.Raft.Disk.{Disk, blank}
use ecphoria.Raft.Store.{
  StoreInner, fresh, open_db, save_vote, save_committed, append_to_log, append_entry, persist_entry,
  persist_sql, persist_meta, run_sql, encoded, delete_conflict_logs_since, delete_entries_from,
  purge_logs_upto, delete_entries_upto,
}
use ecphoria.Raft.Store.Coherence.{IsCoherent}
use ecphoria.Raft.Store.Restart.{
  Call, vote_call, commit_call, append_call, conflict_call, purge_call, call, run, restart_state,
  restart_recovers, restart_rereads,
}
use ecphoria.Raft.Toy.{toy, codecs, at, blank_at}

abbrev members_at_1 : Entry toy
members_at_1 = record { log_id = at 1 1; payload = membership 5 }

abbrev edge_at_1 : Entry toy
edge_at_1 = record { log_id = at 1 1; payload = normal (graph_add_edge none tt) }

-- The first vote is lost.
abbrev calls : List (Call toy)
calls =
    vote_call 7
    ∷ vote_call 8
    ∷ append_call (blank_at 1 0 ∷ members_at_1 ∷ blank_at 1 2 ∷ [])
    ∷ conflict_call (at 1 2)
    ∷ commit_call (some (at 1 1))
    ∷ purge_call (at 1 0)
    ∷ []

abbrev after : StoreInner toy
after = run codecs calls (fresh codecs (some (blank (true ∷ []))))

abbrev disk : Disk Bytes
disk = or_else (blank []) after.db

has_disk : after.db ≡ some disk
unfolding run call save_vote save_committed append_to_log append_entry persist_entry persist_sql
    persist_meta run_sql encoded delete_conflict_logs_since delete_entries_from purge_logs_upto
    delete_entries_upto insert put delete_where
has_disk = refl

disk_works : disk.faults ≡ []
unfolding run call save_vote save_committed append_to_log append_entry persist_entry persist_sql
    persist_meta run_sql encoded delete_conflict_logs_since delete_entries_from purge_logs_upto
    delete_entries_upto insert put delete_where
disk_works = refl

restart_state_example : IsCoherent codecs after
restart_state_example = restart_state codecs (true ∷ []) calls

lossless : All (IsLossless codecs) after.log
unfolding run call save_vote save_committed append_to_log append_entry persist_entry persist_sql
    persist_meta run_sql encoded delete_conflict_logs_since delete_entries_from purge_logs_upto
    delete_entries_upto insert put delete_where del_all keys_where
lossless = (refl, tt)

restart_recovers_example : open_db codecs disk ≡ record after { db = some disk; snapshot = none }
restart_recovers_example =
    restart_recovers codecs (true ∷ []) calls disk has_disk disk_works lossless

-- An edge between two blank entries.
abbrev with_edge : StoreInner toy
with_edge =
    run codecs (append_call (blank_at 1 0 ∷ edge_at_1 ∷ blank_at 1 2 ∷ []) ∷ [])
      (fresh codecs (some (blank [])))

abbrev edge_disk : Disk Bytes
edge_disk = or_else (blank []) with_edge.db

has_edge_disk : with_edge.db ≡ some edge_disk
unfolding run call save_vote save_committed append_to_log append_entry persist_entry persist_sql
    persist_meta run_sql encoded delete_conflict_logs_since delete_entries_from purge_logs_upto
    delete_entries_upto insert put delete_where
has_edge_disk = refl

edge_disk_works : edge_disk.faults ≡ []
unfolding run call save_vote save_committed append_to_log append_entry persist_entry persist_sql
    persist_meta run_sql encoded delete_conflict_logs_since delete_entries_from purge_logs_upto
    delete_entries_upto insert put delete_where
edge_disk_works = refl

restart_rereads_example :
    open_db codecs edge_disk
    ≡ record with_edge { db = some edge_disk; log = reread codecs with_edge.log; snapshot = none }
restart_rereads_example =
    restart_rereads codecs [] (append_call (blank_at 1 0 ∷ edge_at_1 ∷ blank_at 1 2 ∷ []) ∷ [])
      edge_disk has_edge_disk edge_disk_works

-- The edge is gone.
edge_lost : reread codecs with_edge.log ≡ (0, blank_at 1 0) ∷ (2, blank_at 1 2) ∷ []
unfolding run call save_vote save_committed append_to_log append_entry persist_entry persist_sql
    persist_meta run_sql encoded delete_conflict_logs_since delete_entries_from purge_logs_upto
    delete_entries_upto insert put delete_where reread
edge_lost = refl
