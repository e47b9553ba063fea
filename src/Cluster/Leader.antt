-- ===== src/Cluster/Leader.antt =====
-- Writes go to the Raft leader (crates/ecphoria-gateway/src/cluster/leader_forward.rs).
pub mod Once
use ecphoria.Prelude.{
  ℕ, ◌≡◌, arith, Bool, true, false, ◌&&◌, ◌||◌, Option, none, some, List, [], ◌∷◌, ◌++◌,
  if◌then◌else◌, Option-cases, inl, inr, ◌⊎◌, any,
}
use ecphoria.Prelude.Eq.{nat_eq, list_eq, ◌==◌}
use ecphoria.Prelude.Rows.{Rows}
use ecphoria.Prelude.Rows
use ecphoria.Prelude.Text.{Str, codes, ends_with}
use ecphoria.Auth.Roles.{Method, get, post}
use ecphoria.Cluster.Members.{Coordinator, is_leader, leader_id}
use ecphoria.Cluster.Proxy.{Request, Response, Network, contains_key, proxy, refusal}

abbrev pub leader_forward_marker : Str
leader_forward_marker = codes "x-ecphoria-leader-forwarded"

pub record ClusterState : Type 0 where
  pub coordinator : Coordinator
  pub peer_http : Rows Str

abbrev read_only : List Str
read_only =
    codes "/query"
    ∷ codes "/search"
    ∷ codes "/embed-and-search"
    ∷ codes "/memories/search"
    ∷ codes "/context-pack"
    ∷ codes "/attachments/search-image"
    ∷ []

abbrev original_is : Str → Option Str → Bool
original_is p none = false
original_is p (some o) = o == p || ends_with (codes "/api/v1" ++ p) o

abbrev is_post : Method → Bool
is_post post = true
is_post _ = false

abbrev is_get : Method → Bool
is_get get = true
is_get _ = false

unfoldable pub is_read_only_post : Request → Bool
is_read_only_post req =
    is_post req.method && any (λ p. req.path == p || original_is p req.original_path) read_only

-- what is served by any node
unfoldable pub is_read : Request → Bool
is_read req = is_get req.method || is_read_only_post req

-- the answer names the leader by its id
abbrev pub not_leader_307 : ℕ → Response
not_leader_307 id = record { status = 307; headers = []; body = codes "not_leader" ++ id ∷ [] }

module _ (is_header_value : Str → Bool) where
  abbrev pub to_leader : Network → Request → ℕ → Option Str → Response
  to_leader net req id none = not_leader_307 id
  to_leader net req id (some base) =
      if contains_key leader_forward_marker req.headers
      then not_leader_307 id
      else proxy is_header_value net base req leader_forward_marker none

  abbrev pub away_from_leader : ClusterState → Network → Request → Option ℕ → Response
  away_from_leader st net req none = refusal 503 (codes "no_leader")
  away_from_leader st net req (some id) = to_leader net req id (Rows.get id st.peer_http)

  unfoldable pub require_leader_for_writes :
      ClusterState → (Request → Response) → Network → Request → Response
  require_leader_for_writes st next net req =
      if is_read req
      then next req
      else if is_leader st.coordinator
      then next req
      else away_from_leader st net req (leader_id st.coordinator)

  -- Reads, and writes on the leader, are handled here. A write on any other node is not: its answer
  -- does not depend on the handler.
  pub write_by_leader :
      (st : ClusterState) (next : Request → Response) (net : Network) (req : Request)
      → ((is_read req ≡ true) ⊎ (is_leader st.coordinator ≡ true)
          → require_leader_for_writes st next net req ≡ next req)
        × (is_read req ≡ false
            → is_leader st.coordinator ≡ false
            → (other : Request → Response)
            → require_leader_for_writes st next net req
              ≡ require_leader_for_writes st other net req)
  unfolding require_leader_for_writes
  write_by_leader st next net req =
      (λ h. elim h [ inl e ↦ ground arith | inr e ↦ ground arith ], λ r l other. ground arith)
