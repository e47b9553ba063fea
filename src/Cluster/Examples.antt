-- ===== src/Cluster/Examples.antt =====
-- A cluster of two nodes and two shards.
use mathlib.Core.Path.{subst}
use ecphoria.Prelude.{
  or_else, if◌then◌else◌, List, eqb, ℕ, ◌≤◌, ◌<◌, ◌≡◌, refl, ap, sym, arith, Bool, true, false,
  none, some, [], ◌∷◌, if◌then◌else◌, ltb, is_some,
}
use ecphoria.Prelude.Eq.{nat_eq, list_eq}
use ecphoria.Prelude.Result.{ok}
use ecphoria.Prelude.Rows.{Rows, put, get, values_where}
use ecphoria.Prelude.Rows
use ecphoria.Prelude.Text.{starts_with, Str, codes, split_once}
use ecphoria.Auth.Roles.{post}
use ecphoria.Shard.{new}
use ecphoria.Shard.Examples.{acme}
use ecphoria.Cluster.Config.{ClusterConfig, parse_members, members_from, parse_u64, normalize_addr}
use ecphoria.Cluster.Config.Lists.{IsUrl}
use ecphoria.Cluster.Members.{formation, bootstrap, join as waits, is_leader, leader_id}
use ecphoria.Cluster.Members.Bootstrap.{formation_once, formation_least}
use ecphoria.Cluster.Proxy.{
  reqwest_to_axum, Request, Response, Outgoing, Network, values_of, contains_key, outgoing, proxy,
}
use ecphoria.Cluster.Proxy.Headers.{last_of}
use ecphoria.Cluster.Proxy.Attempts.{proxy_lem, IsRedirect, delivered}
use ecphoria.Cluster.Shards.{ShardRoutingState, forward_marker}
use ecphoria.Cluster.Leader.{
  ClusterState, require_leader_for_writes, is_read, leader_forward_marker,
}
use ecphoria.Cluster.Leader.Once.{sent_once}

abbrev urls : Str
urls = codes "http://a,http://b"

abbrev one : ClusterConfig
one = record {
  node_id = 1;
  listen = codes "a:1";
  peers = codes "2@b:1" ∷ codes "1@a:1" ∷ [];
  shards = 2;
  shard_index = 0;
  shard_base_urls = urls;
  peer_http = [];
}

-- the same node, restarted with another address to listen on
abbrev again : ClusterConfig
again = record one { listen = codes "0.0.0.0:1" }

abbrev members : Rows Str
members = (1, codes "http://a:1") ∷ (2, codes "http://b:1") ∷ []

parsed : parse_members one ≡ ok members
unfolding parse_members members_from parse_u64 normalize_addr split_once put get
parsed = refl

one_forms : formation one ≡ ok (bootstrap members)
unfolding formation parse_members members_from parse_u64 normalize_addr split_once put get
one_forms = refl

again_forms : formation again ≡ ok (bootstrap members)
unfolding formation parse_members members_from parse_u64 normalize_addr split_once put get
again_forms = refl

two_waits : formation (record one { node_id = 2 }) ≡ ok waits
unfolding formation parse_members members_from parse_u64 normalize_addr split_once put get
two_waits = refl

formation_once_example :
    (one.node_id ≡ again.node_id)
    × (members ≡ members)
    × (is_some (get one.node_id members) ≡ true)
    × ((k : ℕ) → is_some (get k members) ≡ true → one.node_id ≤ k)
formation_once_example =
    formation_once one again (codes "2@b:1") (codes "1@a:1" ∷ []) members members refl refl
      one_forms again_forms

lowest : (k : ℕ) → is_some (get k members) ≡ true → 1 ≤ k
unfolding get
lowest k h = ground arith

formation_least_example : formation one ≡ ok (bootstrap members)
formation_least_example =
    formation_least one (codes "2@b:1") (codes "1@a:1" ∷ []) members refl parsed lowest

plain_a : IsUrl (codes "http://a")
plain_a = (refl, refl, ground arith)

plain_b : IsUrl (codes "http://b")
plain_b = (refl, refl, ground arith)

abbrev any_value : Str → Bool
any_value s = true

abbrev write : Request
write = record {
  method = post;
  path = codes "/memories";
  path_and_query = some (codes "/memories?a=1");
  original_path = some (codes "/api/v1/memories");
  original_path_and_query = some (codes "/api/v1/memories?a=1");
  headers = (codes "host", codes "a") ∷ (codes "x-id", codes "1") ∷ (codes "x-id", codes "2") ∷ [];
  body = some (codes "{}");
  tenant = some acme;
}

abbrev pub sent : Outgoing
sent = outgoing any_value (codes "http://b") write (codes "{}") forward_marker (some (codes "s"))

-- the first value is lost
only_last : last_of [] (values_of (codes "x-id") write.headers) ≡ codes "2" ∷ []
unfolding values_of
only_last = refl

-- a node that redirects twice, and then answers
abbrev settling : Network
settling i out =
    some (record { status = if ltb i 2 then 307 else 200; headers = []; body = codes "ok" })

proxy_lem_example :
    ((m : ℕ)
      → m < 4
      → ((j : ℕ) → j < m → IsRedirect (settling j sent))
      → (IsRedirect (settling m sent) → ⊥)
      → proxy any_value settling (codes "http://b") write forward_marker (some (codes "s"))
        ≡ delivered (settling m sent))
    × (((j : ℕ) → j < 4 → IsRedirect (settling j sent))
        → proxy any_value settling (codes "http://b") write forward_marker (some (codes "s"))
          ≡ delivered (settling 3 sent))
proxy_lem_example =
    proxy_lem any_value settling (codes "http://b") write forward_marker (some (codes "s"))
      (codes "{}") refl

settled :
    proxy any_value settling (codes "http://b") write forward_marker (some (codes "s"))
    ≡ delivered (settling 2 sent)
settled =
    (proxy_lem any_value settling (codes "http://b") write forward_marker (some (codes "s"))
        (codes "{}") refl).0
      2 (omega arith) (λ j l. ground arith) (λ r. ground arith)

abbrev node_0 : ShardRoutingState
node_0 = record {
  router = new 2 2;
  my_shard = 0;
  base_urls = codes "http://a" ∷ codes "http://b" ∷ [];
  forward_secret = some (codes "s");
}

abbrev node_1 : ShardRoutingState
node_1 = record node_0 { my_shard = 1 }

abbrev handled : Request → Response
handled req = record { status = 201; headers = []; body = req.path }

-- node 2 of the cluster, which follows node 1
abbrev follower : ClusterState
follower = record {
  coordinator = record { config = record one { node_id = 2 }; current_leader = some (some 1) };
  peer_http = (1, codes "http://a") ∷ [];
}

abbrev sent_on : Request
sent_on = record write {
  headers = (outgoing any_value (codes "http://a") write [] leader_forward_marker none).headers;
}

abbrev silent : Network
silent i out = none

-- It answers at the address of the leader alone.
abbrev only_leader : Network
only_leader i out = if starts_with (codes "http://a") out.url then settling i out else none

agree_at :
    (base : Str) (bytes : List ℕ) (i : ℕ)
    → base ≡ codes "http://a"
    → settling i (outgoing any_value base write bytes leader_forward_marker none)
      ≡ only_leader i (outgoing any_value base write bytes leader_forward_marker none)
unfolding outgoing
agree_at base bytes i e =
    subst
      (λ x.
        settling i (outgoing any_value x write bytes leader_forward_marker none)
        ≡ only_leader i (outgoing any_value x write bytes leader_forward_marker none))
      (sym e) refl

leader_address :
    (id : ℕ) (base : Str)
    → leader_id follower.coordinator ≡ some id
    → Rows.get id follower.peer_http ≡ some base
    → base ≡ codes "http://a"
unfolding leader_id Rows.get
leader_address id base l e =
    let one_is : 1 ≡ id = ap (or_else 0) l in
    let found = subst (λ k. Rows.get k follower.peer_http ≡ some base) (sym one_is) e in
    sym (ap (or_else []) found)

sent_once_example :
    (require_leader_for_writes any_value follower handled settling write
      ≡ require_leader_for_writes any_value follower handled only_leader write)
    × (require_leader_for_writes any_value follower handled settling sent_on
        ≡ require_leader_for_writes any_value follower handled silent sent_on)
    × ((id : ℕ) (address : Str) (content : List ℕ) (r : Response)
        → is_read write ≡ false
        → is_leader follower.coordinator ≡ false
        → leader_id follower.coordinator ≡ some id
        → Rows.get id follower.peer_http ≡ some address
        → contains_key leader_forward_marker write.headers ≡ false
        → write.body ≡ some content
        → settling 0 (outgoing any_value address write content leader_forward_marker none) ≡ some r
        → eqb r.status 307 ≡ false
        → require_leader_for_writes any_value follower handled settling write ≡ reqwest_to_axum r)
sent_once_example =
    sent_once any_value follower follower handled handled settling only_leader silent write sent_on
      (codes "http://a") []
      (λ id base bytes i l e b. agree_at base bytes i (leader_address id base l e)) refl
