-- ===== src/Cluster/Shards.antt =====
-- Routing a request to the shard of its tenant
-- (crates/ecphoria-gateway/src/cluster/shard_route.rs). The handler behind the layer is a parameter.
pub mod Owner
use ecphoria.Prelude.{
  ℕ, Bool, true, false, not, ◌&&◌, Option, none, some, List, [], ◌∷◌, if◌then◌else◌, or_else, eqb,
  get_elem?,
}
use ecphoria.Prelude.Text.{Str, codes, split, after_first, contains}
use ecphoria.Auth.Roles.{Method, delete}
use ecphoria.Shard.{ShardRouter, shard_for}
use ecphoria.Cluster.Config.{trim_slashes}
use ecphoria.Cluster.Proxy.{Request, Response, Network, contains_key, proxy, refusal}

abbrev pub forward_marker : Str
forward_marker = codes "x-ecphoria-shard-forwarded"

pub data ShardTarget : Type 0 where
  local unroutable : ShardTarget
  forward : Str → ShardTarget

abbrev pub target_of : Option Str → ShardTarget
target_of none = unroutable
target_of (some url) = forward (trim_slashes url)

unfoldable pub route_decision : Str → ShardRouter → ℕ → List Str → ShardTarget
route_decision tenant router my_shard base_urls =
    if eqb (shard_for router tenant) my_shard
    then local
    else target_of (get_elem? base_urls (shard_for router tenant))

abbrev pub is_delete : Method → Bool
is_delete delete = true
is_delete _ = false

abbrev first_segment : List Str → Option Str
first_segment [] = none
first_segment ([] ∷ ss) = none
first_segment ((c ∷ s) ∷ ss) = some (c ∷ s)

-- the tenant that the path of a deletion names
abbrev pub path_tenant : Request → Option Str
path_tenant req =
    if is_delete req.method
    then (elim (after_first (codes "/admin/tenants/") req.path) [
      | none ↦ none
      | some rest ↦ first_segment (split b'/' rest)
    ])
    else none

unfoldable pub routing_key : Request → Str
routing_key req = or_else (or_else (codes "default") req.tenant) (path_tenant req)

pub record ShardRoutingState : Type 0 where
  pub router : ShardRouter
  pub my_shard : ℕ
  pub base_urls : List Str
  pub forward_secret : Option Str

-- an administration request that stays where it came
unfoldable pub is_admin_request : Request → Bool
is_admin_request req =
    contains (codes "/admin/") req.path
    && not (is_delete req.method && contains (codes "/admin/tenants/") req.path)

module _ (is_header_value : Str → Bool) where
  abbrev pub routed :
      ShardRoutingState → (Request → Response) → Network → Request → ShardTarget → Response
  routed st next net req local = next req
  routed st next net req unroutable = refusal 503 (codes "shard_unroutable")
  routed st next net req (forward base) =
      if contains_key forward_marker req.headers
      then refusal 502 (codes "shard_proxy_loop")
      else proxy is_header_value net base req forward_marker st.forward_secret

  unfoldable pub route_to_owning_shard :
      ShardRoutingState → (Request → Response) → Network → Request → Response
  route_to_owning_shard st next net req =
      if is_admin_request req
      then next req
      else routed st next net req
          (route_decision (routing_key req) st.router st.my_shard st.base_urls)
