-- ===== src/Raft/Toy.antt =====
-- Small types, encodings and an engine for concrete runs of the Raft store: the types hold numbers
-- or nothing, and creating a run fails. The encoding of a request decodes to nothing, as that of an edge
-- with absent fields.
use ecphoria.Prelude.{ℕ, ◌≡◌, arith, Option, none, some, [], ◌∷◌, length}
use ecphoria.Prelude.Result.{ok, pure, raise}
use ecphoria.Raft.Types.{
  Types, Bytes, LogId, EntryPayload, Entry, blank, normal, membership, Codec, EntryCodec, Codecs,
}
use ecphoria.Raft.Machine.{Engine}

abbrev pub toy : Types
toy = record {
  Event = Unit;
  Json = Unit;
  Uuid = Unit;
  Embedding = Unit;
  MemoryRow = Unit;
  Edge = Unit;
  Time = Unit;
  Run = Unit;
  RunPatch = Unit;
  Vote = ℕ;
  LeaderId = ℕ;
  Membership = ℕ;
  StoredMembership = ℕ;
  SnapshotId = ℕ;
}

abbrev pub at : ℕ → ℕ → LogId toy
at l i = record { leader_id = l; index = i }

abbrev pub blank_at : ℕ → ℕ → Entry toy
blank_at l i = record { log_id = at l i; payload = blank }

abbrev entry_vec : LogId toy → EntryPayload toy → Option Bytes
entry_vec id blank = some (id.leader_id ∷ id.index ∷ [])
entry_vec id (membership m) = some (id.leader_id ∷ id.index ∷ m ∷ [])
entry_vec id (normal r) = some (id.leader_id ∷ [])

abbrev entry_slice : Bytes → Option (Entry toy)
entry_slice (l ∷ i ∷ []) = some (blank_at l i)
entry_slice (l ∷ i ∷ m ∷ []) = some (record { log_id = at l i; payload = membership m })
entry_slice _ = none

abbrev entry_codec : EntryCodec (Entry toy)
entry_codec = record { to_vec = λ x. entry_vec x.log_id x.payload; from_slice = entry_slice }

abbrev number_vec : ℕ → Option Bytes
number_vec n = some (n ∷ [])

abbrev number_slice : Bytes → Option ℕ
number_slice (n ∷ []) = some n
number_slice _ = none

pub number_slice-number_vec : (n : ℕ) (b : Bytes) → number_vec n ≡ some b → number_slice b ≡ some n
number_slice-number_vec n b h = ground arith

abbrev number_codec : Codec ℕ
number_codec = record {
  to_vec = number_vec;
  from_slice = number_slice;
  from_slice-to_vec = number_slice-number_vec;
}

abbrev id_vec : Option (LogId toy) → Option Bytes
id_vec none = some []
id_vec (some id) = some (id.leader_id ∷ id.index ∷ [])

abbrev id_slice : Bytes → Option (LogId toy)
id_slice (l ∷ i ∷ []) = some (at l i)
id_slice _ = none

pub id_slice-id_vec : (o : Option (LogId toy)) (b : Bytes) → id_vec o ≡ some b → id_slice b ≡ o
id_slice-id_vec none b h = ground arith
id_slice-id_vec (some id) b h = ground arith

abbrev pub codecs : Codecs toy
codecs = record {
  entry = entry_codec;
  vote = number_codec;
  log_id = record { to_vec = id_vec; from_slice = id_slice; from_slice-to_vec = id_slice-id_vec };
  stored_membership = number_codec;
  new_membership = λ id m. m;
  default_membership = 0;
}

-- The engine's state is the data of its snapshot.
abbrev pub toy_engine : Engine toy
toy_engine = record {
  State = Bytes;
  Error = Unit;
  ingest_replicated = λ events tenant. pure (length events);
  set_for_tenant = λ tenant agent_id key value. pure 1;
  set_state = λ agent_id key value. pure 1;
  delete_for_tenant = λ tenant agent_id key. pure tt;
  delete_state = λ agent_id key. pure tt;
  upsert_semantic = λ id content embedding metadata. pure tt;
  delete_semantic = λ id. pure tt;
  memory_apply_rows = λ rows. pure (length rows);
  delete_memory = λ id. pure tt;
  graph_apply_edge = λ tenant edge. pure tt;
  graph_supersede_apply = λ tenant src relation at by. pure tt;
  expire_memories = λ ids. pure tt;
  run_apply_create = λ run. raise tt;
  run_apply_update = λ id patch updated_at. pure tt;
  build = λ s. (ok s, s);
  restore = λ b s. (ok tt, b);
}
