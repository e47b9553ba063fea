-- ===== src/Lib.antt =====
-- Ecphoria keeps the memory of agents: a gateway authenticates requests, a cluster orders writes through
-- Raft and spreads tenants over shards, and the core stores what is written. This library models the
-- parts that carry that logic and proves what makes them correct.
--
-- The parts, their files, and the code:
--
-- Raft, from crates/ecphoria-cluster/src/raft/. Raft/Types is types.rs; Raft/Disk is the SQLite database,
--   Raft/Store the log half of `MemStore` in store.rs (cache, persistence, recovery by `open_db`), and
--   Raft/Machine its state machine half (`apply_to_state_machine`, `build_snapshot`,
--   `install_snapshot`). The engine that entries are applied to is the interface `Engine`, and the
--   MessagePack encodings are `Codecs`. Raft/Store/Coherence relates cache and database; Recovery and
--   Restart are about startup; Machine/Progress, Durable and Snapshots about applied entries and
--   snapshots. Raft/Toy and the modules named Examples are concrete instances.
-- Shard, from crates/ecphoria-cluster/src/shard.rs. Shard is the hash ring, the router and the plans;
--   Shard/Ring, Routing and Plans are the proofs.
-- State, from crates/ecphoria-core/src/memory/state.rs. State/Like is the prefix pattern and SQLite's LIKE,
--   State/Table the table and the conditions of its statements, State/Store the methods of
--   `StateStore`; Store/Fresh, Reads and Erasure are the proofs.
-- Auth, from crates/ecphoria-gateway/src/auth/middleware.rs, with the claims of jwt.rs and the record of
--   audit.rs. Auth/Roles, Keys, State, Limiter and Gate follow the file from top to bottom: roles, API
--   keys, `AuthState::authenticate`, `RateLimiter` and `require_auth`. Gate/Access and Gate/Scope are
--   the proofs.
-- Runs, from crates/ecphoria-core/src/runtime/. Runs/Types is types.rs and Runs/Store is store.rs, the
--   ledger of agent runs and the lease on driving one; Runs/Leases and Runs/Records are the proofs.
-- Cluster, from crates/ecphoria-cluster/src/coordinator.rs and crates/ecphoria-gateway/src/cluster/.
--   Cluster/Config is the lists of addresses in `ClusterConfig`, Cluster/Members who forms the cluster
--   and who leads it, Cluster/Proxy the hop to another node, Cluster/Shards the routing of a request to
--   the shard of its tenant and Cluster/Leader that of a write to the leader (shard_route.rs and
--   leader_forward.rs). Config/Lists, Members/Bootstrap, Proxy/Headers, Proxy/Attempts, Shards/Owner and
--   Leader/Once are the proofs.
-- Cache, from crates/ecphoria-gateway/src/llm_proxy/cache.rs, with `rag_cache_scope` of router.rs: the
--   responses that the LLM proxy gives again. Cache/Keys, History, Reader, Bounds and
--   Lasting are the proofs.
-- Chunk, from crates/ecphoria-core/src/ingest/chunk.rs: Markdown documents in pieces. Chunk/Order,
--   Sizes, Solid and Content are the proofs.
-- Graph, from crates/ecphoria-core/src/memory/graph_analytics.rs: `shortest_path`. Graph/Adjacency,
--   Traces, Sound, Complete, Levels and Shortest are the proofs.
-- Lexical, from crates/ecphoria-core/src/memory/lexical.rs: the full-text index over memories, and in
--   Lexical/Query the expression that a search gives to FTS5, with the stop words of cognition.rs.
--   Lexical/View, History and Query/Phrases are the proofs.
-- Scope, from crates/ecphoria-core/src/memory/cognition.rs: `scope_partition_key`,
--   `scope_matches_metadata` and the metadata of `to_semantic_entry`. Scope/Partition is the proof.
-- Schema, from crates/ecphoria-core/src/memory/schema.rs: the JSON Schema validator. Schema is `Node` and
--   `check`, Schema/Compile is `compile_node`; Schema/Kinds, Valid and Compile/Supported are the proofs.
-- Prelude holds what these share.
--
-- How the parts interact: the gate stands before the handlers; a write that a handler proposes becomes
-- an entry of the Raft log, and the state machine applies it through the engine to the state store and
-- the run ledger, which are modelled on their own. The router decides which Raft group a key belongs to; the
-- shard middleware sends a request to it, and the leader middleware sends a write on to the leader of
-- that group, over the same proxy.
--
-- How the code is rendered. A method that changes an object takes and returns the object's record
-- (`Exec` of Prelude/Result), and what was written before an error stays written. Maps are association
-- lists by key (Prelude/Assoc), ordered maps are lists in key order (Prelude/Rows), texts are lists of
-- bytes, or of code points where the code looks at characters (Chunk, Cache, Lexical/Query). A database
-- statement fails or has its effect: each database carries the outcomes of its coming statements, or a
-- call is given them (Lexical), so that a theorem without a condition on them holds for every pattern of
-- failures.
-- Preparing a fixed statement is taken to succeed, and a mutex makes each method one step.
--
-- Bounds and fuel: log indexes and versions are below 2^63, where SQLite's signed integers keep their
-- order; the ring's hash wraps at 2^64 as in the code; `decimal` has as fuel the number plus one, which
-- is more than its digits. The search for a path has as fuel the number of edges plus two, since each
-- node enters the queue once; its reconstruction has as fuel the number of entries of `prev`. The cache
-- counts time in natural numbers, and the age of an entry stops at 0 as `Instant::elapsed` does.
--
-- Parameters: regular expressions, the numbers and the equality of serde_json, the vector index, FTS5,
-- the Unicode tables of `to_lowercase` and `is_alphanumeric`, the network and the handler behind a
-- middleware, the engine's calls, MessagePack, JSON, SHA-256, the JWT and OIDC validators, `f64`, times
-- and their texts, with the laws that the code relies on in the interface's record. The MessagePack of a
-- log entry has no law, since an edge with absent fields may not decode.
--
-- Not modelled: `ShardedCluster`, starting the Raft node and its metrics, the Raft transport, the
-- centrality and the communities of the memory graph, `list_keys`, backup and
-- restore of the state store, the lists of runs, reading the audit log, the ranking and the rules of
-- cognition.rs, and the components whose code is SQL, protocol glue or calls of services:
-- the episodic and semantic memories, the engine's facade, the front ends, the command line and the
-- providers.
mod Prelude
pub mod Raft
pub mod Shard
pub mod State
pub mod Auth
pub mod Runs
pub mod Cluster
pub mod Cache
pub mod Chunk
pub mod Graph
pub mod Lexical
pub mod Scope
pub mod Schema
