-- ===== src/Raft/Disk.antt =====
-- The SQLite database of the Raft store (crates/ecphoria-cluster/src/raft/store.rs): the tables
-- `raft_log` and `raft_meta`, and the statements on them. Whether a statement fails is not the
-- program's to say: `faults` holds the outcomes of the coming statements, `true` for a failure,
-- and a statement past its end succeeds. Log indexes are below 2^63, where the cast of an index to
-- SQLite's signed integers keeps the order.
use ecphoria.Prelude.{ℕ, Bool, true, false, String, List, [], ◌∷◌, leb}
use ecphoria.Prelude.Assoc
use ecphoria.Prelude.Assoc.{Assoc}
use ecphoria.Prelude.Eq.{string_eq}
use ecphoria.Prelude.Rows.{Rows, put, delete_where}

pub record Disk (Bytes : Type 0) : Type 0 where
  pub raft_log : Rows Bytes
  pub raft_meta : Assoc String Bytes
  pub faults : List Bool

-- the tables of a new database, with a schedule of failures
abbrev pub blank : {B : Type 0} → List Bool → Disk B
blank faults = record { raft_log = []; raft_meta = []; faults = faults }

module _ {B : Type 0} where
  -- Runs one statement: it succeeds and has its effect, or fails and has none.
  abbrev pub execute : (Disk B → Disk B) → Disk B → Bool × Disk B
  execute effect d = elim d.faults [
    | [] ↦ (true, effect d)
    | true ∷ rest ↦ (false, record d { faults = rest })
    | false ∷ rest ↦ (true, effect (record d { faults = rest }))
  ]

  -- INSERT OR REPLACE INTO raft_log (idx, entry) VALUES (?1, ?2)
  abbrev pub replace_entry : ℕ → B → Disk B → Disk B
  replace_entry idx data' d = record d { raft_log = put idx data' d.raft_log }

  -- DELETE FROM raft_log WHERE idx >= ?1
  abbrev pub delete_from : ℕ → Disk B → Disk B
  delete_from from_idx d = record d { raft_log = delete_where (leb from_idx) d.raft_log }

  -- DELETE FROM raft_log WHERE idx <= ?1
  abbrev pub delete_upto : ℕ → Disk B → Disk B
  delete_upto upto_idx d = record d { raft_log = delete_where (λ i. leb i upto_idx) d.raft_log }

  -- INSERT OR REPLACE INTO raft_meta (key, value) VALUES (?1, ?2)
  abbrev pub replace_meta : String → B → Disk B → Disk B
  replace_meta key value d = record d { raft_meta = Assoc.insert key value d.raft_meta }
