-- ===== src/Shard/Examples.antt =====
-- The routing and the plans at concrete rings and tenants.
use ecphoria.Prelude.{
  ℕ, ◌≡◌, ◌≢◌, refl, arith, List, [], ◌∷◌, ◌<◌, ◌≤◌, ◌⊎◌, In, here, there, All, some,
}
use ecphoria.Prelude.Rows.{get, put, values_where}
use ecphoria.Prelude.Text.{Str, codes, decimal, decimal_fuel}
use ecphoria.Shard.{
  new, shard_for, ShardMove, reshard_moves, scale_plan, hash, hash_from, mix, vnode_key,
  insert_vnodes, insert_shards, clockwise, range,
}
use ecphoria.Shard.Routing.{IsNext, shard_for-IsNext, shard_for_add}
use ecphoria.Shard.Plans.{move_of, reshard_moves_lem, scale_plan_lem}

abbrev pub acme : Str
acme = codes "acme"

abbrev tenants : List Str
tenants = codes "beta" ∷ acme ∷ []

acme_from : shard_for (new 1 2) acme ≡ 0
unfolding shard_for new
acme_from = refl

pub acme_to : shard_for (new 2 2) acme ≡ 1
unfolding shard_for new hash hash_from mix vnode_key insert_vnodes insert_shards clockwise put
    values_where decimal decimal_fuel
acme_to = refl

acme_128 : shard_for (new 2 128) acme ≡ 1
unfolding shard_for new hash hash_from mix vnode_key insert_vnodes insert_shards clockwise put
    values_where decimal decimal_fuel
acme_128 = refl

shard_for-IsNext_example :
    (p : ℕ) × (get p (new 2 2).ring ≡ some (shard_for (new 2 2) acme))
    × IsNext (hash acme) p (new 2 2).ring
shard_for-IsNext_example = shard_for-IsNext 2 2 acme

shard_for_add_example :
    (shard_for (new 5 128) acme ≡ shard_for (new 3 128) acme)
    ⊎ ((3 ≤ shard_for (new 5 128) acme) × (shard_for (new 5 128) acme < 5))
shard_for_add_example = shard_for_add 3 5 128 acme (omega arith)

acme_moves : shard_for (new 1 2) acme ≢ shard_for (new 2 2) acme
acme_moves = λ e. ground (arith, acme_from, acme_to, e)

acme_removed : In (shard_for (new 2 128) acme) (scale_plan 1 2 tenants).remove_shards
unfolding scale_plan range
acme_removed = here acme_128

acme_planned : In (move_of (new 1 2) (new 2 2) acme) (reshard_moves (new 1 2) (new 2 2) tenants)
acme_planned = (reshard_moves_lem (new 1 2) (new 2 2) tenants).0 acme (there (here refl)) acme_moves

scale_plan_lem_example :
    ((k : Str)
      → In k tenants
      → In (shard_for (new 2 128) k) (scale_plan 1 2 tenants).remove_shards
      → (m : ShardMove) × In m (scale_plan 1 2 tenants).moves
        × (m.key ≡ k)
        × (m.from_shard ≡ shard_for (new 2 128) k)
        × (m.to_shard < (scale_plan 1 2 tenants).scale_to))
    × (2 < 1
        → All
            (λ (m : ShardMove). In m.to_shard (scale_plan 1 2 tenants).add_shards)
            (scale_plan 1 2 tenants).moves)
scale_plan_lem_example = scale_plan_lem 1 2 tenants
