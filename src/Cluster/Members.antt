-- ===== src/Cluster/Members.antt =====
-- Who forms the cluster (crates/ecphoria-cluster/src/coordinator.rs, `start_raft_with_network`), and
-- who leads it. The current leader is openraft's to say.
pub mod Bootstrap
use ecphoria.Prelude.{ℕ, Bool, true, false, Option, none, some, List, [], ◌∷◌, if◌then◌else◌, eqb}
use ecphoria.Prelude.Eq.{nat_eq, option_eq, ◌==◌}
use ecphoria.Prelude.Result.{Result, ok, err}
use ecphoria.Prelude.Rows.{Rows}
use ecphoria.Prelude.Text.{Str}
use ecphoria.Cluster.Config.{ClusterConfig, PeerError, parse_members}

-- What a node does with the membership: initialises it as the only node, forms the cluster as the
-- designated node, or waits to be joined.
pub data Formation : Type 0 where
  initialize bootstrap : Rows Str → Formation
  join : Formation

-- `members.keys().next() == Some(node_id)`
abbrev pub is_first : ℕ → Rows Str → Bool
is_first id [] = false
is_first id ((k, addr) ∷ rows) = eqb id k

abbrev pub with_members : ClusterConfig → List Str → Rows Str → Formation
with_members config [] members = initialize members
with_members config (p ∷ ps) members =
    if is_first config.node_id members then bootstrap members else join

abbrev pub formed : ClusterConfig → Result PeerError (Rows Str) → Result PeerError Formation
formed config (err e) = err e
formed config (ok members) = ok (with_members config config.peers members)

unfoldable pub formation : ClusterConfig → Result PeerError Formation
formation config = formed config (parse_members config)

-- The coordinator: its configuration, and the leader that Raft reports once it runs.
pub record Coordinator : Type 0 where
  pub config : ClusterConfig
  pub current_leader : Option (Option ℕ)

unfoldable pub is_leader : Coordinator → Bool
is_leader c = elim c.current_leader [ none ↦ true | some leader ↦ leader == some c.config.node_id ]

unfoldable pub leader_id : Coordinator → Option ℕ
leader_id c = elim c.current_leader [ none ↦ some c.config.node_id | some leader ↦ leader ]
