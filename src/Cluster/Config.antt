-- ===== src/Cluster/Config.antt =====
-- The lists of addresses in `ClusterConfig`, as `ClusterCoordinator` reads them
-- (crates/ecphoria-cluster/src/coordinator.rs). Maps are in the order of their keys; nothing reads
-- the order of `peer_http`.
pub mod Lists
use ecphoria.Prelude.{
  ℕ, zero, suc, ◌+◌, ◌-◌, ◌*◌, ◌^◌, Bool, true, false, not, ◌&&◌, ◌||◌, String, Option, none, some,
  List, [], ◌∷◌, ◌++◌, if◌then◌else◌, map, keep, ltb, leb, eqb, is_some,
}
use ecphoria.Prelude.Result.{Result, ok, err}
use ecphoria.Prelude.Rows.{Rows, put, get}
use ecphoria.Prelude.Text.{Str, codes, split, split_once, trim, trim_end_by, starts_with}

-- the fields of `ClusterConfig` that are read here
pub record ClusterConfig : Type 0 where
  pub node_id : ℕ
  pub listen : Str
  pub peers : List Str
  pub shards : ℕ
  pub shard_index : ℕ
  pub shard_base_urls : Str
  pub peer_http : Str

abbrev pub is_blank : Str → Bool
is_blank [] = true
is_blank (c ∷ s) = false

-- `split(',').map(str::trim)`
abbrev pub entries : Str → List Str
entries s = map trim (split b',' s)

-- the URLs of the shards, in order, without empty entries
unfoldable pub shard_base_urls : ClusterConfig → List Str
shard_base_urls config = keep (λ u. not (is_blank u)) (entries config.shard_base_urls)

digits_from : ℕ → Str → Option ℕ
digits_from n [] = some n
digits_from n (c ∷ s) =
    let rest = digits_from (n * 10 + (c - b'0')) s in
    if leb b'0' c && leb c b'9' then rest else none

digits : Str → Option ℕ
unfolding digits_from
digits [] = none
digits (c ∷ s) = digits_from 0 (c ∷ s)

abbrev below : ℕ → Option ℕ → Option ℕ
below bound none = none
below bound (some n) = if ltb n bound then some n else none

abbrev without_plus : Str → Str
without_plus [] = []
without_plus (c ∷ s) = if eqb c b'+' then s else c ∷ s

-- `s.parse::<u64>()`
unfoldable pub parse_u64 : Str → Option ℕ
unfolding digits
parse_u64 s = below (2 ^ 64) (digits (without_plus s))

abbrev is_slash : ℕ → Bool
is_slash c = eqb c b'/'

abbrev pub trim_slashes : Str → Str
trim_slashes = trim_end_by is_slash

abbrev insert_peer : Option (Str × Str) → Rows Str → Rows Str
insert_peer none out = out
insert_peer (some (id, url)) out = elim (parse_u64 (trim id)) [
  | none ↦ out
  | some n ↦ put n (trim_slashes (trim url)) out
]

peer_http_from : Rows Str → List Str → Rows Str
peer_http_from out [] = out
peer_http_from out (e ∷ es) =
    peer_http_from (if is_blank e then out else insert_peer (split_once b'@' e) out) es

-- the HTTP base of each peer; an entry that is malformed is skipped
unfoldable pub peer_http : ClusterConfig → Rows Str
unfolding peer_http_from
peer_http config = peer_http_from [] (entries config.peer_http)

unfoldable pub normalize_addr : Str → Str
normalize_addr addr =
    if starts_with (codes "http://") addr || starts_with (codes "https://") addr
    then addr
    else codes "http://" ++ addr

pub data PeerError : Type 0 where
  not_id_at_addr invalid_node_id node_missing : PeerError

abbrev pub member_of : Str → Result PeerError (ℕ × Str)
member_of entry = elim (split_once b'@' entry) [
  | none ↦ err not_id_at_addr
  | some (id, addr) ↦ elim (parse_u64 (trim id)) [
    | none ↦ err invalid_node_id
    | some n ↦ ok (n, normalize_addr (trim addr))
  ]
]

abbrev pub add_member : Result PeerError (ℕ × Str) → Rows Str → Result PeerError (Rows Str)
add_member (err e) members = err e
add_member (ok (n, addr)) members = ok (put n addr members)

abbrev pub then_from :
    (Rows Str → Result PeerError (Rows Str))
    → Result PeerError (Rows Str)
    → Result PeerError (Rows Str)
then_from f (err e) = err e
then_from f (ok members) = f members

-- the loop of `parse_members`
unfoldable pub members_from : Rows Str → List Str → Result PeerError (Rows Str)
members_from members [] = ok members
members_from members (e ∷ es) =
    then_from (λ ms. members_from ms es) (add_member (member_of e) members)

abbrev pub with_node : ℕ → Rows Str → Result PeerError (Rows Str)
with_node id members = if is_some (get id members) then ok members else err node_missing

abbrev pub no_peers : ClusterConfig → List Str → Result PeerError (Rows Str)
no_peers config [] = ok (put config.node_id (normalize_addr config.listen) [])
no_peers config (e ∷ es) = then_from (with_node config.node_id) (members_from [] (e ∷ es))

unfoldable pub parse_members : ClusterConfig → Result PeerError (Rows Str)
parse_members config = no_peers config config.peers
