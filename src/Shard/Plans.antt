-- ===== src/Shard/Plans.antt =====
-- What the reshard moves and the scale plans promise.
use ecphoria.Prelude.{
  ℕ, zero, suc, ◌+◌, ◌-◌, ◌≤◌, ◌<◌, max, ◌≡◌, ◌≢◌, refl, inl, inr, false, List, [], ◌∷◌, arith, All,
  In, here, there, ltb, eqb, ltb→lt, lt→ltb, if◌then◌else◌, Bool-cases,
}
use ecphoria.Prelude.Text.{Str}
use ecphoria.Shard.{
  ShardRouter, ShardMove, new, shard_for, reshard_moves, reconcile_plan, scale_plan, range,
}
use ecphoria.Shard.Routing.{shard_for-lt, shard_for_add}

abbrev pub move_of : ShardRouter → ShardRouter → Str → ShardMove
move_of old new' k = record { key = k; from_shard = shard_for old k; to_shard = shard_for new' k }

moved : (a b : ℕ) → a ≢ b → eqb a b ≡ false
moved a b h = ground arith

-- Every key whose shard changes is in the list, with its two shards.
pub reshard_moves_complete :
    (old new' : ShardRouter) (keys : List Str) (k : Str)
    → In k keys
    → shard_for old k ≢ shard_for new' k
    → In (move_of old new' k) (reshard_moves old new' keys)
unfolding reshard_moves
reshard_moves_complete old new' [] k m h = elim m [ ]
reshard_moves_complete old new' (x ∷ keys) k (here e) h =
    rw (← e, moved (shard_for old k) (shard_for new' k) h) (here refl)
reshard_moves_complete old new' (x ∷ keys) k (there m) h =
    elim (Bool-cases (eqb (shard_for old x) (shard_for new' x))) [
      | inl e ↦ rw e (reshard_moves_complete old new' keys k m h)
      | inr e ↦ rw e (there (reshard_moves_complete old new' keys k m h))
    ]

-- a move of one of the keys, between its two shards, which differ
abbrev pub IsMove : ShardRouter → ShardRouter → List Str → ShardMove → Type 0
IsMove old new' keys m =
    In m.key keys
    × (m.from_shard ≡ shard_for old m.key)
    × (m.to_shard ≡ shard_for new' m.key)
    × (m.from_shard ≢ m.to_shard)

IsMove-there :
    (old new' : ShardRouter) (k : Str) (keys : List Str) (ms : List ShardMove)
    → All (IsMove old new' keys) ms
    → All (IsMove old new' (k ∷ keys)) ms
IsMove-there old new' k keys [] a = tt
IsMove-there old new' k keys (m ∷ ms) a =
    ((there a.0.0, a.0.1, a.0.2, a.0.3), IsMove-there old new' k keys ms a.1)

-- Every move in the list is of one of the keys, between its two shards, which differ.
pub reshard_moves_sound :
    (old new' : ShardRouter) (keys : List Str)
    → All (IsMove old new' keys) (reshard_moves old new' keys)
unfolding reshard_moves
reshard_moves_sound old new' [] = tt
reshard_moves_sound old new' (k ∷ keys) =
    elim (Bool-cases (eqb (shard_for old k) (shard_for new' k))) [
      | inl e ↦ rw e (IsMove-there old new' k keys _ (reshard_moves_sound old new' keys))
      | inr e ↦ rw e (
        (here refl, refl, refl, ground arith),
        IsMove-there old new' k keys _ (reshard_moves_sound old new' keys),
      )
    ]

-- The list has a move for every key whose shard changes, with its two shards; and each of its moves
-- is of one of the keys, between its two shards, which differ.
pub reshard_moves_lem :
    (old new' : ShardRouter) (keys : List Str)
    → ((k : Str)
        → In k keys
        → shard_for old k ≢ shard_for new' k
        → In (move_of old new' k) (reshard_moves old new' keys))
      × All (IsMove old new' keys) (reshard_moves old new' keys)
reshard_moves_lem old new' keys =
    (reshard_moves_complete old new' keys, reshard_moves_sound old new' keys)

not-In-nil : (i : ℕ) → In i [] → ⊥
not-In-nil i h = elim h [ ]

In-range-bounds : (n a i : ℕ) → In i (range n a) → (a ≤ i) × (i < a + n)
unfolding range
In-range-bounds zero a i h = elim h [ ]
In-range-bounds (suc n) a i (here e) = ground arith
In-range-bounds (suc n) a i (there m) = ground (arith, In-range-bounds n (a + 1) i m)

In-range : (n a i : ℕ) → a ≤ i → i < a + n → In i (range n a)
unfolding range
In-range zero a i h k = absurd (omega arith)
In-range (suc n) a i h k = elim (Bool-cases (eqb i a)) [
  | inl e ↦ here (ground arith)
  | inr e ↦ there (In-range n (a + 1) i (ground arith) (omega arith))
]

abbrev gap : ℕ → ℕ → List ℕ
gap a d = if ltb a d then range (d - a) a else []

gap_bounds : (a d i : ℕ) → In i (gap a d) → (a ≤ i) × (i < d)
gap_bounds a d i h = elim (Bool-cases (ltb a d)) [
  | inl e ↦
      (let b = In-range-bounds (d - a) a i (rw e at h) in
        let l = ltb→lt a d e in (b.0, omega arith))
  | inr e ↦ absurd (not-In-nil i (rw e at h))
]

In-gap : (a d i : ℕ) → a ≤ i → i < d → In i (gap a d)
In-gap a d i h k = rw (lt→ltb a d (omega arith)) (In-range (d - a) a i h (omega arith))

-- The plan of a change from `actual` to `desired` shards goes to `desired`, at least one. It adds
-- the indexes from the old count up to the new one, and removes those from the new count up to the
-- old one.
pub scale_plan_shards :
    (desired actual : ℕ) (tenants : List Str) (i : ℕ)
    → (In i (scale_plan desired actual tenants).add_shards
        → (max actual 1 ≤ i) × (i < max desired 1))
      × ((max actual 1 ≤ i)
          → (i < max desired 1)
          → In i (scale_plan desired actual tenants).add_shards)
      × (In i (scale_plan desired actual tenants).remove_shards
          → (max desired 1 ≤ i) × (i < max actual 1))
      × ((max desired 1 ≤ i)
          → (i < max actual 1)
          → In i (scale_plan desired actual tenants).remove_shards)
unfolding scale_plan
scale_plan_shards desired actual tenants i =
    let d = max desired 1 in
    let a = max actual 1 in (gap_bounds a d i, In-gap a d i, gap_bounds d a i, In-gap d a i)

moves-scale_plan :
    (desired actual : ℕ) (tenants : List Str)
    → (scale_plan desired actual tenants).moves
      ≡ reshard_moves (new (max actual 1) 128) (new (max desired 1) 128) tenants
unfolding scale_plan reconcile_plan
moves-scale_plan desired actual tenants =
    let e : max (max actual 1) 1 ≡ max actual 1 = omega arith in
    let f : max (max desired 1) 1 ≡ max desired 1 = omega arith in rw (e, f)

scale_to-scale_plan :
    (desired actual : ℕ) (tenants : List Str)
    → (scale_plan desired actual tenants).scale_to ≡ max desired 1
unfolding scale_plan
scale_to-scale_plan desired actual tenants = refl

-- A router of `max n 1` shards stays below `max n 1`.
shard_for-lt_max : (n v : ℕ) (k : Str) → shard_for (new (max n 1) v) k < max n 1
shard_for-lt_max n v k = let h = shard_for-lt (max n 1) v k in omega arith

-- A tenant on a shard that a plan removes is moved off it, to a shard that stays.
pub scale_plan_drains :
    (desired actual : ℕ) (tenants : List Str) (k : Str)
    → In k tenants
    → In (shard_for (new (max actual 1) 128) k) (scale_plan desired actual tenants).remove_shards
    → (m : ShardMove) × In m (scale_plan desired actual tenants).moves
      × (m.key ≡ k)
      × (m.from_shard ≡ shard_for (new (max actual 1) 128) k)
      × (m.to_shard < (scale_plan desired actual tenants).scale_to)
scale_plan_drains desired actual tenants k t r =
    let old = new (max actual 1) 128 in
    let new' = new (max desired 1) 128 in
    let off = (scale_plan_shards desired actual tenants (shard_for old k)).2 r in
    let on = shard_for-lt_max desired 128 k in
    (
      move_of old new' k,
      rw (moves-scale_plan desired actual tenants)
          (reshard_moves_complete old new' tenants k t (omega arith)),
      refl,
      refl,
      rw (scale_to-scale_plan desired actual tenants) on,
    )

fills :
    (desired actual : ℕ) (tenants : List Str) (ms : List ShardMove) (keys : List Str)
    → max actual 1 < max desired 1
    → All (IsMove (new (max actual 1) 128) (new (max desired 1) 128) keys) ms
    → All (λ (m : ShardMove). In m.to_shard (scale_plan desired actual tenants).add_shards) ms
fills desired actual tenants [] keys h a = tt
fills desired actual tenants (m ∷ ms) keys h a =
    let far = shard_for_add (max actual 1) (max desired 1) 128 m.key (omega arith) in
    let on = shard_for-lt_max desired 128 m.key in
    (
      (scale_plan_shards desired actual tenants m.to_shard).1 (ground arith) (ground arith),
      fills desired actual tenants ms keys h a.1,
    )

-- When a plan adds shards, each of its moves goes to an added shard.
pub scale_plan_fills :
    (desired actual : ℕ) (tenants : List Str)
    → max actual 1 < max desired 1
    → All
        (λ (m : ShardMove). In m.to_shard (scale_plan desired actual tenants).add_shards)
        (scale_plan desired actual tenants).moves
scale_plan_fills desired actual tenants h = rw (moves-scale_plan desired actual tenants) (
    fills desired actual tenants
      (reshard_moves (new (max actual 1) 128) (new (max desired 1) 128) tenants) tenants h
      (reshard_moves_sound (new (max actual 1) 128) (new (max desired 1) 128) tenants))

-- A tenant on a shard that a plan removes is moved off it, to a shard that stays; and when a plan
-- adds shards, each of its moves goes to an added shard.
pub scale_plan_lem :
    (desired actual : ℕ) (tenants : List Str)
    → ((k : Str)
        → In k tenants
        → In
            (shard_for (new (max actual 1) 128) k)
            (scale_plan desired actual tenants).remove_shards
        → (m : ShardMove) × In m (scale_plan desired actual tenants).moves
          × (m.key ≡ k)
          × (m.from_shard ≡ shard_for (new (max actual 1) 128) k)
          × (m.to_shard < (scale_plan desired actual tenants).scale_to))
      × (max actual 1 < max desired 1
          → All
              (λ (m : ShardMove). In m.to_shard (scale_plan desired actual tenants).add_shards)
              (scale_plan desired actual tenants).moves)
scale_plan_lem desired actual tenants =
    (scale_plan_drains desired actual tenants, scale_plan_fills desired actual tenants)
