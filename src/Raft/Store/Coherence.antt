-- ===== src/Raft/Store/Coherence.antt =====
-- The cache and the database of the Raft store agree, whatever statements fail.
use ecphoria.Prelude.{
  or_else, ℕ, ◌≡◌, refl, Bool, Option, none, some, List, [], ◌∷◌, arith, leb, Option-cases, String,
  if◌then◌else◌, inl, inr,
}
use ecphoria.Prelude.Assoc
use ecphoria.Prelude.Assoc.{lookup-insert}
use ecphoria.Prelude.Eq.{string_eq, ◌==◌}
use ecphoria.Prelude.Result.{Result-cases}
use ecphoria.Prelude.Rows.{
  Rows, put, delete_where, del_all-keys_where, IsSorted, put-IsSorted, delete_where-IsSorted,
}
use ecphoria.Raft.Types.{Types, Codecs, LogId, Entry, Bytes}
use ecphoria.Raft.Disk.{Disk}
use ecphoria.Raft.Store.{
  StoreInner, run_sql, encoded, persist_meta, persist_entry, delete_entries_from,
  delete_entries_upto, save_vote, save_committed, append_entry, append_to_log, purge_logs_upto,
  delete_conflict_logs_since, decoded, persist_sql,
}

module _ {A : Type 0} (to_vec : A → Option Bytes) where
  -- The rows are, one by one, the encodings of the entries.
  abbrev pub Encodes : Rows Bytes → Rows A → Type 0
  Encodes [] [] = Unit
  Encodes ((i, b) ∷ rows) ((j, a) ∷ m) = (i ≡ j) × (to_vec a ≡ some b) × Encodes rows m
  Encodes _ _ = ⊥

  pub Encodes-put :
      (k : ℕ) (b : Bytes) (a : A) (rows : Rows Bytes) (m : Rows A)
      → to_vec a ≡ some b
      → Encodes rows m
      → Encodes (put k b rows) (put k a m)
  unfolding put
  Encodes-put k b a [] [] h r = (refl, h, tt)
  Encodes-put k b a ((i, x) ∷ rows) [] h r = absurd r
  Encodes-put k b a [] ((j, y) ∷ m) h r = absurd r
  Encodes-put k b a ((i, x) ∷ rows) ((j, y) ∷ m) h r =
      ground (arith, Encodes-put k b a rows m h r.2)

  pub Encodes-delete_where :
      (p : ℕ → Bool) (rows : Rows Bytes) (m : Rows A)
      → Encodes rows m
      → Encodes (delete_where p rows) (delete_where p m)
  unfolding delete_where
  Encodes-delete_where p [] [] r = tt
  Encodes-delete_where p ((i, x) ∷ rows) [] r = absurd r
  Encodes-delete_where p [] ((j, y) ∷ m) r = absurd r
  Encodes-delete_where p ((i, x) ∷ rows) ((j, y) ∷ m) r =
      ground (arith, Encodes-delete_where p rows m r.2)

module _ {t : Types} (c : Codecs t) where
  -- The database holds the encodings of the cached entries, and what else the cache shows.
  pub record Agrees (s : StoreInner t) (d : Disk Bytes) : Type 0 where
    pub entries : Encodes c.entry.to_vec d.raft_log s.log
    pub sorted : IsSorted s.log
    pub vote : decoded c.vote.from_slice (Assoc.lookup "vote" d.raft_meta) ≡ s.vote
    pub committed : decoded c.log_id.from_slice (Assoc.lookup "committed" d.raft_meta) ≡ s.committed
    pub last_purged :
        decoded c.log_id.from_slice (Assoc.lookup "last_purged" d.raft_meta) ≡ s.last_purged
    pub last_applied :
        decoded c.log_id.from_slice (Assoc.lookup "last_applied" d.raft_meta) ≡ s.last_applied
    pub last_membership :
        or_else c.default_membership
          (decoded c.stored_membership.from_slice (Assoc.lookup "last_membership" d.raft_meta))
        ≡ s.last_membership

  -- A store with no database has nothing to agree with.
  abbrev pub IsCoherent : StoreInner t → Type 0
  IsCoherent s = elim s.db [ none ↦ Unit | some d ↦ Agrees s d ]

-- What the five rows of metadata show once one of them is written.
pub meta-insert :
    (k : String) (b : Bytes) (m : Assoc.Assoc String Bytes)
    → (Assoc.lookup "vote" (Assoc.insert k b m)
        ≡ (if k == "vote" then some b else Assoc.lookup "vote" m))
      × (Assoc.lookup "committed" (Assoc.insert k b m)
          ≡ (if k == "committed" then some b else Assoc.lookup "committed" m))
      × (Assoc.lookup "last_purged" (Assoc.insert k b m)
          ≡ (if k == "last_purged" then some b else Assoc.lookup "last_purged" m))
      × (Assoc.lookup "last_applied" (Assoc.insert k b m)
          ≡ (if k == "last_applied" then some b else Assoc.lookup "last_applied" m))
      × (Assoc.lookup "last_membership" (Assoc.insert k b m)
          ≡ (if k == "last_membership" then some b else Assoc.lookup "last_membership" m))
meta-insert k b m = (
  lookup-insert k "vote" b m,
  lookup-insert k "committed" b m,
  lookup-insert k "last_purged" b m,
  lookup-insert k "last_applied" b m,
  lookup-insert k "last_membership" b m,
)

module _ {t : Types} (c : Codecs t) where
  pub save_vote-IsCoherent :
      (v : t.Vote) (s : StoreInner t) → IsCoherent c s → IsCoherent c (save_vote c v s).1
  unfolding save_vote persist_meta run_sql encoded
  save_vote-IsCoherent v s h = elim (Option-cases (c.vote.to_vec v)) [
    | inr e ↦ ground arith
    | inl (b, e) ↦ elim (Option-cases s.db) [
      | inr e' ↦ ground arith
      | inl (d, e') ↦
          ground (arith, c.vote.from_slice-to_vec v b e, meta-insert "vote" b d.raft_meta)
    ]
  ]

  pub save_committed-IsCoherent :
      (o : Option (LogId t)) (s : StoreInner t)
      → IsCoherent c s
      → IsCoherent c (save_committed c o s).1
  unfolding save_committed persist_meta run_sql encoded
  save_committed-IsCoherent o s h = elim (Option-cases (c.log_id.to_vec o)) [
    | inr e ↦ ground arith
    | inl (b, e) ↦ elim (Option-cases s.db) [
      | inr e' ↦ ground arith
      | inl (d, e') ↦
          ground (arith, c.log_id.from_slice-to_vec o b e, meta-insert "committed" b d.raft_meta)
    ]
  ]

  append_entry-IsCoherent :
      (x : Entry t) (s : StoreInner t) → IsCoherent c s → IsCoherent c (append_entry c x s).1
  unfolding append_entry persist_entry persist_sql run_sql
  append_entry-IsCoherent x s h = elim (Option-cases (c.entry.to_vec x)) [
    | inr e ↦ ground arith
    | inl (b, e) ↦ elim (Option-cases s.db) [
      | inr e' ↦ ground arith
      | inl (d, e') ↦ ground (
        arith,
        Encodes-put c.entry.to_vec x.log_id.index b x d.raft_log s.log e,
        put-IsSorted x.log_id.index x s.log,
      )
    ]
  ]

  pub append_to_log-IsCoherent :
      (xs : List (Entry t)) (s : StoreInner t)
      → IsCoherent c s
      → IsCoherent c (append_to_log c xs s).1
  unfolding append_to_log
  append_to_log-IsCoherent [] s h = h
  append_to_log-IsCoherent (x ∷ xs) s h = elim (Result-cases (append_entry c x s).0) [
    | inl (u, e) ↦
        rw e (append_to_log-IsCoherent xs (append_entry c x s).1 (append_entry-IsCoherent x s h))
    | inr (x', e) ↦ rw e (append_entry-IsCoherent x s h)
  ]

  pub delete_conflict_logs_since-IsCoherent :
      (id : LogId t) (s : StoreInner t)
      → IsCoherent c s
      → IsCoherent c (delete_conflict_logs_since id s).1
  unfolding delete_conflict_logs_since delete_entries_from run_sql
  delete_conflict_logs_since-IsCoherent id s h = elim (Option-cases s.db) [
    | inr e' ↦ ground arith
    | inl (d, e') ↦ ground (
      arith,
      del_all-keys_where (leb id.index) s.log,
      Encodes-delete_where c.entry.to_vec (leb id.index) d.raft_log s.log,
      delete_where-IsSorted (leb id.index) s.log,
    )
  ]

  pub purge_logs_upto-IsCoherent :
      (id : LogId t) (s : StoreInner t) → IsCoherent c s → IsCoherent c (purge_logs_upto c id s).1
  unfolding purge_logs_upto delete_entries_upto persist_meta run_sql encoded
  purge_logs_upto-IsCoherent id s h = elim (Option-cases (c.log_id.to_vec (some id))) [
    | inr e ↦ ground arith
    | inl (b, e) ↦ elim (Option-cases s.db) [
      | inr e' ↦ ground arith
      | inl (d, e') ↦ ground (
        arith,
        c.log_id.from_slice-to_vec (some id) b e,
        meta-insert "last_purged" b d.raft_meta,
        del_all-keys_where (λ i. leb i id.index) s.log,
        Encodes-delete_where c.entry.to_vec (λ i. leb i id.index) d.raft_log s.log,
        delete_where-IsSorted (λ i. leb i id.index) s.log,
      )
    ]
  ]
