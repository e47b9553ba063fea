-- ===== src/Raft/Types.antt =====
-- crates/ecphoria-cluster/src/raft/types.rs, and the types of openraft, serde and the engine that
-- the store only passes on.
use ecphoria.Prelude.{ℕ, ◌≡◌, String, Option, some, List}

-- Types that the store never looks into: the engine's values, and openraft's vote, leader id,
-- membership, stored membership and snapshot id.
pub record Types : Type 1 where
  pub Event : Type 0
  pub Json : Type 0
  pub Uuid : Type 0
  pub Embedding : Type 0
  pub MemoryRow : Type 0
  pub Edge : Type 0
  pub Time : Type 0
  pub Run : Type 0
  pub RunPatch : Type 0
  pub Vote : Type 0
  pub LeaderId : Type 0
  pub Membership : Type 0
  pub StoredMembership : Type 0
  pub SnapshotId : Type 0

-- `Vec<u8>`
abbrev pub Bytes : Type 0
Bytes = List ℕ

pub data AppRequest (t : Types) : Type 0 where
  ingest : List t.Event → Option String → AppRequest t
  state_set : String → String → t.Json → Option String → AppRequest t
  state_delete : String → String → Option String → AppRequest t
  semantic_upsert : t.Uuid → String → t.Embedding → t.Json → AppRequest t
  semantic_delete : t.Uuid → AppRequest t
  memory_upsert : List t.MemoryRow → AppRequest t
  memory_delete : t.Uuid → AppRequest t
  graph_add_edge : Option String → t.Edge → AppRequest t
  graph_supersede : Option String → String → String → t.Time → Option t.Uuid → AppRequest t
  memory_expire : List t.Uuid → AppRequest t
  run_create : t.Run → AppRequest t
  run_update : t.Uuid → t.RunPatch → t.Time → AppRequest t

pub data AppResponse : Type 0 where
  ingested : ℕ → AppResponse
  state_version : ℕ → AppResponse
  deleted : AppResponse
  ok_response : AppResponse
  memory_count : ℕ → AppResponse

-- openraft's `LogId`, `Entry`, `EntryPayload`, `SnapshotMeta` and `LogState`, whose fields the
-- store reads and builds.
pub record LogId (t : Types) : Type 0 where
  pub leader_id : t.LeaderId
  pub index : ℕ

pub data EntryPayload (t : Types) : Type 0 where
  blank : EntryPayload t
  normal : AppRequest t → EntryPayload t
  membership : t.Membership → EntryPayload t

pub record Entry (t : Types) : Type 0 where
  pub log_id : LogId t
  pub payload : EntryPayload t

pub record SnapshotMeta (t : Types) : Type 0 where
  pub last_log_id : Option (LogId t)
  pub last_membership : t.StoredMembership
  pub snapshot_id : t.SnapshotId

pub record LogState (t : Types) : Type 0 where
  pub last_purged_log_id : Option (LogId t)
  pub last_log_id : Option (LogId t)

-- The kinds of openraft's `StorageError` that the store raises; `apply_error` names its entry.
pub data StorageError (t : Types) : Type 0 where
  write_error : StorageError t
  write_snapshot_error : StorageError t
  read_snapshot_error : StorageError t
  apply_error : LogId t → StorageError t

-- MessagePack through `rmp_serde`: encoding may fail, and what was encoded decodes to itself.
pub record Codec (A : Type 0) : Type 0 where
  pub to_vec : A → Option Bytes
  pub from_slice : Bytes → Option A
  pub from_slice-to_vec : (a : A) (b : Bytes) → to_vec a ≡ some b → from_slice b ≡ some a

-- MessagePack of a log entry, without a law: `to_vec` writes the fields of a struct by position, so that
-- an entry with a skipped field (`Edge` has such fields before its last one) may decode to nothing.
pub record EntryCodec (A : Type 0) : Type 0 where
  pub to_vec : A → Option Bytes
  pub from_slice : Bytes → Option A

-- The store encodes an `Option<LogId>` and decodes a `LogId`: MessagePack writes `Some(x)` as `x`,
-- and `None` as nil, which is no `LogId`.
pub record OptionCodec (A : Type 0) : Type 0 where
  pub to_vec : Option A → Option Bytes
  pub from_slice : Bytes → Option A
  pub from_slice-to_vec : (o : Option A) (b : Bytes) → to_vec o ≡ some b → from_slice b ≡ o

-- The encodings in use, and openraft's `StoredMembership::new` and `::default`.
pub record Codecs (t : Types) : Type 0 where
  pub entry : EntryCodec (Entry t)
  pub vote : Codec t.Vote
  pub log_id : OptionCodec (LogId t)
  pub stored_membership : Codec t.StoredMembership
  pub new_membership : Option (LogId t) → t.Membership → t.StoredMembership
  pub default_membership : t.StoredMembership
