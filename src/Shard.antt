-- ===== src/Shard.antt =====
-- Consistent-hash shard routing: crates/ecphoria-cluster/src/shard.rs. A key is the list of its
-- bytes. The router and the plans are here; the proofs are in the modules below.
pub mod Ring
pub mod Routing
pub mod Plans
pub mod Examples
use Prim.Native.Nat.{bit_xor}
use ecphoria.Prelude.{
  ℕ, zero, suc, ◌+◌, ◌-◌, ◌*◌, ◌%◌, ◌^◌, max, Bool, true, false, Option, none, some, List, [], ◌∷◌,
  ◌++◌, ltb, leb, eqb, if◌then◌else◌,
}
use ecphoria.Prelude.Text.{Str, codes, decimal}
use ecphoria.Prelude.Rows.{Rows, put, values_where}

-- one byte into the hash: xor, then a wrapping product of 64-bit words
unfoldable pub mix : ℕ → ℕ → ℕ
mix h b = (bit_xor h b * 0x100000001b3) % 2 ^ 64

hash_from : ℕ → Str → ℕ
hash_from h [] = h
hash_from h (b ∷ bs) = hash_from (mix h b) bs

-- FNV-1a, 64 bits
unfoldable pub hash : Str → ℕ
unfolding mix hash_from
hash = hash_from 0xcbf29ce484222325

-- format!("shard-{s}-vnode-{v}")
vnode_key : ℕ → ℕ → Str
vnode_key s v = codes "shard-" ++ (decimal s ++ (codes "-vnode-" ++ decimal v))

pub record ShardRouter : Type 0 where
  pub ring : Rows ℕ
  pub shards : ℕ

-- `for v in v..v + n { ring.insert(hash(…), s) }`
insert_vnodes : ℕ → ℕ → ℕ → Rows ℕ → Rows ℕ
insert_vnodes zero s v ring = ring
insert_vnodes (suc n) s v ring = insert_vnodes n s (v + 1) (put (hash (vnode_key s v)) s ring)

-- `for s in s..s + n { … }`
insert_shards : ℕ → ℕ → ℕ → Rows ℕ → Rows ℕ
insert_shards vnodes zero s ring = ring
insert_shards vnodes (suc n) s ring = insert_shards vnodes n (s + 1) (insert_vnodes vnodes s 0 ring)

-- `ShardRouter::new`
pub new : ℕ → ℕ → ShardRouter
new shards vnodes = record {
  ring = insert_shards (max vnodes 1) (max shards 1) 0 [];
  shards = max shards 1;
}

abbrev pub first : List ℕ → Option ℕ
first [] = none
first (x ∷ xs) = some x

-- `ring.range(h..).next().or_else(|| ring.iter().next())`
pub clockwise : ℕ → Rows ℕ → Option ℕ
clockwise h ring = elim (first (values_where (leb h) ring)) [
  | some s ↦ some s
  | none ↦ first (values_where (λ _. true) ring)
]

abbrev pub unwrap_or : ℕ → Option ℕ → ℕ
unwrap_or d none = d
unwrap_or d (some x) = x

pub shard_for : ShardRouter → Str → ℕ
shard_for r key = if eqb r.shards 1 then 0 else unwrap_or 0 (clockwise (hash key) r.ring)

pub record ShardMove : Type 0 where
  pub key : Str
  pub from_shard : ℕ
  pub to_shard : ℕ

pub reshard_moves : ShardRouter → ShardRouter → List Str → List ShardMove
reshard_moves old new' [] = []
reshard_moves old new' (k ∷ keys) =
    let rest = reshard_moves old new' keys in
    let src = shard_for old k in
    let dst = shard_for new' k in
    if eqb src dst then rest else record { key = k; from_shard = src; to_shard = dst } ∷ rest

pub record ReconcilePlan : Type 0 where
  pub scale_to : ℕ
  pub moves : List ShardMove

pub reconcile_plan : ℕ → ℕ → List Str → ReconcilePlan
reconcile_plan desired actual tenants = record {
  scale_to = max desired 1;
  moves = reshard_moves (new (max actual 1) 128) (new (max desired 1) 128) tenants;
}

pub data ScaleDirection : Type 0 where
  up down stay : ScaleDirection

pub record ScalePlan : Type 0 where
  pub direction : ScaleDirection
  pub scale_to : ℕ
  pub add_shards : List ℕ
  pub remove_shards : List ℕ
  pub moves : List ShardMove

-- `(from..from + n).collect()`
unfoldable pub range : ℕ → ℕ → List ℕ
range zero from = []
range (suc n) from = from ∷ range n (from + 1)

pub scale_plan : ℕ → ℕ → List Str → ScalePlan
scale_plan desired actual tenants =
    let d = max desired 1 in
    let a = max actual 1 in
    record {
      direction = if ltb a d then up else if ltb d a then down else stay;
      scale_to = d;
      add_shards = if ltb a d then range (d - a) a else [];
      remove_shards = if ltb d a then range (a - d) d else [];
      moves = (reconcile_plan d a tenants).moves;
    }
