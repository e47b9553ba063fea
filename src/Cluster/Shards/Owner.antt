-- ===== src/Cluster/Shards/Owner.antt =====
-- A request is handled by the shard that owns its tenant, after one hop at most.
use ecphoria.Prelude.{◌≡◌, ◌≢◌, arith, Bool, true, false, get_elem?, Option-cases, inl, inr}
use ecphoria.Prelude.Eq.{nat_eq, list_eq}
use ecphoria.Prelude.Text.{Str}
use ecphoria.Shard.{shard_for}
use ecphoria.Cluster.Proxy.{Request, Response, Network, contains_key}
use ecphoria.Cluster.Shards.{
  route_decision, routing_key, ShardRoutingState, is_admin_request, route_to_owning_shard,
  forward_marker,
}

module _ (is_header_value : Str → Bool) where
  -- The handler of a shard sees a tenant's request only where the shard owns the tenant: on any
  -- other shard the answer is the same whatever the handler does.
  pub handled_by_owner :
      (st : ShardRoutingState) (net : Network) (req : Request)
      → is_admin_request req ≡ false
      → shard_for st.router (routing_key req) ≢ st.my_shard
      → (next other : Request → Response)
      → route_to_owning_shard is_header_value st next net req
        ≡ route_to_owning_shard is_header_value st other net req
  unfolding route_to_owning_shard route_decision
  handled_by_owner st net req a ne next other =
      elim (Option-cases (get_elem? st.base_urls (shard_for st.router (routing_key req)))) [
        | inl (url, e) ↦ ground arith
        | inr e ↦ ground arith
      ]

  -- A request that carries the marker is never sent on: the answer is the same whatever the network
  -- does.
  pub marked_stays :
      (st : ShardRoutingState) (next : Request → Response) (req : Request)
      → contains_key forward_marker req.headers ≡ true
      → (net other : Network)
      → route_to_owning_shard is_header_value st next net req
        ≡ route_to_owning_shard is_header_value st next other req
  unfolding route_to_owning_shard route_decision
  marked_stays st next req m net other =
      elim (Option-cases (get_elem? st.base_urls (shard_for st.router (routing_key req)))) [
        | inl (url, e) ↦ ground arith
        | inr e ↦ ground arith
      ]
