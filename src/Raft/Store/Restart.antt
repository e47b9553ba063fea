-- ===== src/Raft/Store/Restart.antt =====
-- Any run of the log half of the store, and the restart after it.
use ecphoria.Prelude.{◌≡◌, arith, String, Option, none, some, List, [], ◌∷◌, Bool, All, ap, ◌∙◌}
use ecphoria.Prelude.Assoc.{lookup-nil}
use ecphoria.Prelude.Eq.{string_eq}
use ecphoria.Raft.Types.{Types, Codecs, LogId, Entry, Bytes}
use ecphoria.Raft.Disk.{Disk, blank}
use ecphoria.Raft.Store.{
  StoreInner, fresh, save_vote, save_committed, append_to_log, purge_logs_upto,
  delete_conflict_logs_since, open_db,
}
use ecphoria.Raft.Store.Coherence.{
  Agrees, IsCoherent, save_vote-IsCoherent, save_committed-IsCoherent, append_to_log-IsCoherent,
  delete_conflict_logs_since-IsCoherent, purge_logs_upto-IsCoherent,
}
use ecphoria.Raft.Store.Recovery.{reread, reread-IsLossless, IsLossless, open_db_rereads}

-- A call of the log half of the store.
pub data Call (t : Types) : Type 0 where
  vote_call : t.Vote → Call t
  commit_call : Option (LogId t) → Call t
  append_call : List (Entry t) → Call t
  conflict_call : LogId t → Call t
  purge_call : LogId t → Call t

module _ {t : Types} (c : Codecs t) where
  unfoldable pub call : Call t → StoreInner t → StoreInner t
  call (vote_call v) s = (save_vote c v s).1
  call (commit_call o) s = (save_committed c o s).1
  call (append_call xs) s = (append_to_log c xs s).1
  call (conflict_call id) s = (delete_conflict_logs_since id s).1
  call (purge_call id) s = (purge_logs_upto c id s).1

  -- The calls in order; one that fails leaves the store as it stands.
  unfoldable pub run : List (Call t) → StoreInner t → StoreInner t
  run [] s = s
  run (x ∷ xs) s = run xs (call x s)

  call-IsCoherent : (x : Call t) (s : StoreInner t) → IsCoherent c s → IsCoherent c (call x s)
  unfolding call
  call-IsCoherent (vote_call v) s h = save_vote-IsCoherent c v s h
  call-IsCoherent (commit_call o) s h = save_committed-IsCoherent c o s h
  call-IsCoherent (append_call xs) s h = append_to_log-IsCoherent c xs s h
  call-IsCoherent (conflict_call id) s h = delete_conflict_logs_since-IsCoherent c id s h
  call-IsCoherent (purge_call id) s h = purge_logs_upto-IsCoherent c id s h

  run-IsCoherent :
      (xs : List (Call t)) (s : StoreInner t) → IsCoherent c s → IsCoherent c (run xs s)
  unfolding run
  run-IsCoherent [] s h = h
  run-IsCoherent (x ∷ xs) s h = run-IsCoherent xs (call x s) (call-IsCoherent x s h)

  fresh-Agrees : (faults : List Bool) → Agrees c (fresh c (some (blank faults))) (blank faults)
  fresh-Agrees faults = ground (
    arith,
    lookup-nil {K = String} {V = Bytes} "vote",
    lookup-nil {K = String} {V = Bytes} "committed",
    lookup-nil {K = String} {V = Bytes} "last_purged",
    lookup-nil {K = String} {V = Bytes} "last_applied",
    lookup-nil {K = String} {V = Bytes} "last_membership",
  )

  -- Whatever calls a store on a new database has had, and whichever of their statements failed,
  -- its cache and its database agree: the rows of the log are the encodings of the cached entries, in
  -- order, and the other rows decode to what the cache shows.
  pub restart_state :
      (faults : List Bool) (xs : List (Call t))
      → IsCoherent c (run xs (fresh c (some (blank faults))))
  restart_state faults xs = run-IsCoherent xs (fresh c (some (blank faults))) (fresh-Agrees faults)

  Agrees-IsCoherent :
      (s : StoreInner t) (d : Disk Bytes) → IsCoherent c s → s.db ≡ some d → Agrees c s d
  Agrees-IsCoherent s d h e = ground arith

  -- After any calls, with any failures, a restart without failures reads back the vote, the
  -- committed, purged and applied ids and the membership as the store showed them, and of the log
  -- each entry as its encoding decodes, without those whose encoding does not decode.
  pub restart_rereads :
      (faults : List Bool) (xs : List (Call t)) (d : Disk Bytes)
      → (run xs (fresh c (some (blank faults)))).db ≡ some d
      → d.faults ≡ []
      → open_db c d ≡ record (run xs (fresh c (some (blank faults)))) {
        db = some d;
        log = reread c (run xs (fresh c (some (blank faults)))).log;
        snapshot = none;
      }
  restart_rereads faults xs d e h =
      open_db_rereads c (run xs (fresh c (some (blank faults)))) d
        (Agrees-IsCoherent (run xs (fresh c (some (blank faults)))) d (restart_state faults xs) e) h

  -- After any calls, with any failures, a restart without failures reads back the log, the vote,
  -- the committed, purged and applied ids and the membership as the store showed them, if the
  -- encoding of each entry of the log decodes to that entry.
  pub restart_recovers :
      (faults : List Bool) (xs : List (Call t)) (d : Disk Bytes)
      → (run xs (fresh c (some (blank faults)))).db ≡ some d
      → d.faults ≡ []
      → All (IsLossless c) (run xs (fresh c (some (blank faults)))).log
      → open_db c d
        ≡ record (run xs (fresh c (some (blank faults)))) { db = some d; snapshot = none }
  restart_recovers faults xs d e h l =
      restart_rereads faults xs d e h
      ∙ ap
          (λ m. record (run xs (fresh c (some (blank faults)))) {
            db = some d;
            log = m;
            snapshot = none;
          })
          (reread-IsLossless c (run xs (fresh c (some (blank faults)))).log l)
