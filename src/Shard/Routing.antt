-- ===== src/Shard/Routing.antt =====
-- Where a key is routed: in range, to the next point of the ring, and stably as shards are added.
use ecphoria.Prelude.{
  ℕ, zero, suc, ◌+◌, ◌-◌, ◌≤◌, ◌<◌, max, ◌≡◌, ◌≢◌, refl, ◌∙◌, ◌⊎◌, inl, inr, Bool, true, Option,
  none, some, [], ◌∷◌, arith, All, leb, Bool-cases, Option-cases,
}
use ecphoria.Prelude.Text.{Str}
use ecphoria.Prelude.Rows.{Rows, put, get, values_where, IsSorted, Above}
use ecphoria.Shard.{insert_vnodes, insert_shards, new, hash, vnode_key, first, clockwise, shard_for}
use ecphoria.Shard.Ring.{OwnedBelow, new-OwnedBelow, new-ne-nil, new-IsSorted}

first-values_where-lt :
    (n : ℕ) (p : ℕ → Bool) (ring : Rows ℕ) (s : ℕ)
    → OwnedBelow n ring
    → first (values_where p ring) ≡ some s
    → s < n
unfolding values_where
first-values_where-lt n p [] s o h = absurd (ground arith)
first-values_where-lt n p ((q, w) ∷ ring) s o h = ground (arith, first-values_where-lt n p ring s)

clockwise-lt :
    (n h : ℕ) (ring : Rows ℕ) (s : ℕ) → OwnedBelow n ring → clockwise h ring ≡ some s → s < n
unfolding clockwise
clockwise-lt n h ring s o e =
    ground (
      arith,
      first-values_where-lt n (leb h) ring s o,
      first-values_where-lt n (λ _. true) ring s o,
    )

clockwise-some : (h : ℕ) (ring : Rows ℕ) → ring ≢ [] → (s : ℕ) × (clockwise h ring ≡ some s)
unfolding clockwise values_where
clockwise-some h [] k = absurd (k refl)
clockwise-some h ((p, w) ∷ ring) k =
    elim (Option-cases (first (values_where (leb h) ((p, w) ∷ ring)))) [
      | inl (s, e) ↦ (s, ground arith)
      | inr e ↦ (w, ground arith)
    ]

shards-new : (n v : ℕ) → (new n v).shards ≡ max n 1
unfolding new
shards-new n v = refl

-- A router's answer is the owner of the next point, for one shard too; the fallback is never taken.
shard_for-clockwise :
    (n v : ℕ) (key : Str) → clockwise (hash key) (new n v).ring ≡ some (shard_for (new n v) key)
shard_for-clockwise n v key =
    let (s, e) = clockwise-some (hash key) (new n v).ring (new-ne-nil n v) in
    let lt = clockwise-lt (max n 1) (hash key) (new n v).ring s (new-OwnedBelow n v) e in
    unfold shard_for in ground (arith, shards-new n v)

-- A key is routed to one of the router's shards.
pub shard_for-lt : (n v : ℕ) (key : Str) → shard_for (new n v) key < max n 1
shard_for-lt n v key =
    clockwise-lt (max n 1) (hash key) (new n v).ring (shard_for (new n v) key) (new-OwnedBelow n v)
      (shard_for-clockwise n v key)

-- The first point at or after `h`, or the first of all where none is.
abbrev pub IsNext : ℕ → ℕ → Rows ℕ → Type 0
IsNext h p ring =
    ((h ≤ p) × All (λ (q : ℕ × ℕ). (q.0 < h) ⊎ (p ≤ q.0)) ring)
    ⊎ All (λ (q : ℕ × ℕ). (q.0 < h) × (p ≤ q.0)) ring

Above-next :
    (h p : ℕ) (ring : Rows ℕ) → Above p ring → All (λ (q : ℕ × ℕ). (q.0 < h) ⊎ (p ≤ q.0)) ring
Above-next h p [] a = tt
Above-next h p (q ∷ ring) a = (inr (omega arith), Above-next h p ring a.1)

Above-least :
    (h p : ℕ) (ring : Rows ℕ)
    → Above p ring
    → All (λ (q : ℕ × ℕ). q.0 < h) ring
    → All (λ (q : ℕ × ℕ). (q.0 < h) × (p ≤ q.0)) ring
Above-least h p [] a b = tt
Above-least h p (q ∷ ring) a b = ((b.0, omega arith), Above-least h p ring a.1 b.1)

first-from :
    (h : ℕ) (ring : Rows ℕ) (s : ℕ)
    → IsSorted ring
    → first (values_where (leb h) ring) ≡ some s
    → (p : ℕ) × (get p ring ≡ some s) × (h ≤ p) × All (λ (q : ℕ × ℕ). (q.0 < h) ⊎ (p ≤ q.0)) ring
unfolding values_where get
first-from h [] s o e = absurd (ground arith)
first-from h ((q, w) ∷ ring) s o e = elim (Bool-cases (leb h q)) [
  | inl le ↦ (q, ground arith, ground arith, (inr (omega arith), Above-next h q ring o.0))
  | inr gt ↦
      (let (p, g, l, a) = first-from h ring s o.1 (ground arith) in
        (p, ground arith, l, (inl (ground arith), a)))
]

none-from :
    (h : ℕ) (ring : Rows ℕ)
    → first (values_where (leb h) ring) ≡ none
    → All (λ (q : ℕ × ℕ). q.0 < h) ring
unfolding values_where
none-from h [] e = tt
none-from h ((p, w) ∷ ring) e = ground (arith, none-from h ring)

-- the first point is the least
first-least :
    (h : ℕ) (ring : Rows ℕ) (s : ℕ)
    → IsSorted ring
    → All (λ (q : ℕ × ℕ). q.0 < h) ring
    → first (values_where (λ _. true) ring) ≡ some s
    → (p : ℕ) × (get p ring ≡ some s) × All (λ (q : ℕ × ℕ). (q.0 < h) × (p ≤ q.0)) ring
unfolding values_where get
first-least h [] s o b e = absurd (ground arith)
first-least h ((q, w) ∷ ring) s o b e =
    (q, ground arith, ((b.0, omega arith), Above-least h q ring o.0 b.1))

clockwise-IsNext :
    (h : ℕ) (ring : Rows ℕ) (s : ℕ)
    → IsSorted ring
    → clockwise h ring ≡ some s
    → (p : ℕ) × (get p ring ≡ some s) × IsNext h p ring
unfolding clockwise
clockwise-IsNext h ring s o e = elim (Option-cases (first (values_where (leb h) ring))) [
  | inl (x, e1) ↦ (let (p, g, l, a) = first-from h ring s o (ground arith) in (p, g, inl (l, a)))
  | inr e1 ↦
      (let (p, g, a) = first-least h ring s o (none-from h ring e1) (ground arith) in (p, g, inr a))
]

-- A key goes to the owner of the next point of the ring at or after its hash, or of the first point
-- of all where no point follows the hash.
pub shard_for-IsNext :
    (n v : ℕ) (key : Str)
    → (p : ℕ) × (get p (new n v).ring ≡ some (shard_for (new n v) key))
      × IsNext (hash key) p (new n v).ring
shard_for-IsNext n v key =
    clockwise-IsNext (hash key) (new n v).ring (shard_for (new n v) key) (new-IsSorted n v)
      (shard_for-clockwise n v key)

-- What a changed ring answers: as before, or a shard from `n` on.
abbrev Kept : ℕ → Option ℕ → Option ℕ → Type 0
Kept n before after = (after ≡ before) ⊎ ((s : ℕ) × (n ≤ s) × (after ≡ some s))

first-put :
    (p : ℕ → Bool) (k s : ℕ) (ring : Rows ℕ)
    → (first (values_where p (put k s ring)) ≡ first (values_where p ring))
      ⊎ (first (values_where p (put k s ring)) ≡ some s)
unfolding values_where put
first-put p k s [] = ground arith
first-put p k s ((q, w) ∷ ring) = ground (arith, first-put p k s ring)

clockwise-put :
    (n h k s : ℕ) (ring : Rows ℕ) → n ≤ s → Kept n (clockwise h ring) (clockwise h (put k s ring))
unfolding clockwise
clockwise-put n h k s ring l = elim (first-put (leb h) k s ring) [
  | inr e ↦ inr (s, l, ground arith)
  | inl e ↦ elim (Option-cases (first (values_where (leb h) ring))) [
    | inl (x, e1) ↦ inl (ground arith)
    | inr e1 ↦ elim (first-put (λ _. true) k s ring) [
      | inl e2 ↦ inl (ground arith)
      | inr e2 ↦ inr (s, l, ground arith)
    ]
  ]
]

Kept-trans : (n : ℕ) (a b c : Option ℕ) → Kept n a b → Kept n b c → Kept n a c
Kept-trans n a b c k (inr x) = inr x
Kept-trans n a b c (inl e) (inl f) = inl (f ∙ e)
Kept-trans n a b c (inr (s, l, e)) (inl f) = inr (s, l, f ∙ e)

clockwise-insert_vnodes :
    (n h c s v : ℕ) (ring : Rows ℕ)
    → n ≤ s
    → Kept n (clockwise h ring) (clockwise h (insert_vnodes c s v ring))
unfolding insert_vnodes
clockwise-insert_vnodes n h zero s v ring l = inl refl
clockwise-insert_vnodes n h (suc c) s v ring l =
    Kept-trans n _ _ _ (clockwise-put n h (hash (vnode_key s v)) s ring l)
      (clockwise-insert_vnodes n h c s (v + 1) (put (hash (vnode_key s v)) s ring) l)

clockwise-insert_shards :
    (n h vnodes c s : ℕ) (ring : Rows ℕ)
    → n ≤ s
    → Kept n (clockwise h ring) (clockwise h (insert_shards vnodes c s ring))
unfolding insert_shards
clockwise-insert_shards n h vnodes zero s ring l = inl refl
clockwise-insert_shards n h vnodes (suc c) s ring l =
    Kept-trans n _ _ _ (clockwise-insert_vnodes n h vnodes s 0 ring l)
      (clockwise-insert_shards n h vnodes c (s + 1) (insert_vnodes vnodes s 0 ring) (omega arith))

insert_shards-add :
    (vnodes a b s : ℕ) (ring : Rows ℕ)
    → insert_shards vnodes (a + b) s ring
      ≡ insert_shards vnodes b (s + a) (insert_shards vnodes a s ring)
unfolding insert_shards
insert_shards-add vnodes zero b s ring =
    let e : zero + b ≡ b = omega arith in let f : s + zero ≡ s = omega arith in rw (e, f)
insert_shards-add vnodes (suc a) b s ring =
    let e : suc a + b ≡ suc (a + b) = omega arith in
    let f : s + suc a ≡ s + 1 + a = omega arith in
    rw (e, f) (insert_shards-add vnodes a b (s + 1) (insert_vnodes vnodes s 0 ring))

clockwise-new :
    (n m v h : ℕ) → n ≤ m → Kept (max n 1) (clockwise h (new n v).ring) (clockwise h (new m v).ring)
unfolding new
clockwise-new n m v h l =
    let e : max m 1 ≡ max n 1 + (max m 1 - max n 1) = omega arith in
    let f : 0 + max n 1 ≡ max n 1 = omega arith in
    rw (e, insert_shards-add, f)
      (clockwise-insert_shards (max n 1) h (max v 1) (max m 1 - max n 1) (max n 1)
        (insert_shards (max v 1) (max n 1) 0 []) (omega arith))

-- Adding shards moves a key to one of the added shards or not at all.
pub shard_for_add :
    (n m v : ℕ) (key : Str)
    → n ≤ m
    → (shard_for (new m v) key ≡ shard_for (new n v) key)
      ⊎ ((max n 1 ≤ shard_for (new m v) key) × (shard_for (new m v) key < max m 1))
shard_for_add n m v key l =
    let grown = clockwise-new n m v (hash key) l in
    let before = shard_for-clockwise n v key in
    let after = shard_for-clockwise m v key in
    elim grown [
      | inl e ↦ inl (ground arith)
      | inr (s, k, e) ↦ inr (ground arith, shard_for-lt m v key)
    ]
