-- ===== src/Shard/Ring.antt =====
-- The points of a ring: in order, owned by the router's shards, and never none.
use ecphoria.Prelude.{ℕ, zero, suc, ◌+◌, ◌≤◌, ◌<◌, max, ◌≢◌, [], ◌∷◌, arith, All}
use ecphoria.Prelude.Rows.{Rows, put, IsSorted, put-IsSorted}
use ecphoria.Shard.{insert_vnodes, insert_shards, new, hash, vnode_key}

abbrev pub OwnedBelow : ℕ → Rows ℕ → Type 0
OwnedBelow n ring = All (λ (p : ℕ × ℕ). p.1 < n) ring

put-OwnedBelow :
    (n k s : ℕ) (ring : Rows ℕ) → s < n → OwnedBelow n ring → OwnedBelow n (put k s ring)
unfolding put
put-OwnedBelow n k s [] h o = (h, tt)
put-OwnedBelow n k s ((p, w) ∷ ring) h o = ground (arith, put-OwnedBelow n k s ring)

insert_vnodes-OwnedBelow :
    (n c s v : ℕ) (ring : Rows ℕ)
    → s < n
    → OwnedBelow n ring
    → OwnedBelow n (insert_vnodes c s v ring)
unfolding insert_vnodes
insert_vnodes-OwnedBelow n zero s v ring h o = o
insert_vnodes-OwnedBelow n (suc c) s v ring h o =
    insert_vnodes-OwnedBelow n c s (v + 1) (put (hash (vnode_key s v)) s ring) h
      (put-OwnedBelow n (hash (vnode_key s v)) s ring h o)

insert_shards-OwnedBelow :
    (n vnodes c s : ℕ) (ring : Rows ℕ)
    → s + c ≤ n
    → OwnedBelow n ring
    → OwnedBelow n (insert_shards vnodes c s ring)
unfolding insert_shards
insert_shards-OwnedBelow n vnodes zero s ring h o = o
insert_shards-OwnedBelow n vnodes (suc c) s ring h o =
    insert_shards-OwnedBelow n vnodes c (s + 1) (insert_vnodes vnodes s 0 ring) (omega arith)
      (insert_vnodes-OwnedBelow n vnodes s 0 ring (omega arith) o)

pub new-OwnedBelow : (shards vnodes : ℕ) → OwnedBelow (max shards 1) (new shards vnodes).ring
unfolding new
new-OwnedBelow shards vnodes =
    insert_shards-OwnedBelow (max shards 1) (max vnodes 1) (max shards 1) 0 [] (omega arith) tt

put-ne-nil : (k s : ℕ) (ring : Rows ℕ) → put k s ring ≢ []
unfolding put
put-ne-nil k s [] = ground arith
put-ne-nil k s ((p, w) ∷ ring) = ground arith

insert_vnodes-ne-nil : (c s v : ℕ) (ring : Rows ℕ) → ring ≢ [] → insert_vnodes c s v ring ≢ []
unfolding insert_vnodes
insert_vnodes-ne-nil zero s v ring h = h
insert_vnodes-ne-nil (suc c) s v ring h =
    insert_vnodes-ne-nil c s (v + 1) (put (hash (vnode_key s v)) s ring) (put-ne-nil _ s ring)

insert_shards-ne-nil :
    (vnodes c s : ℕ) (ring : Rows ℕ) → ring ≢ [] → insert_shards vnodes c s ring ≢ []
unfolding insert_shards
insert_shards-ne-nil vnodes zero s ring h = h
insert_shards-ne-nil vnodes (suc c) s ring h =
    insert_shards-ne-nil vnodes c (s + 1) (insert_vnodes vnodes s 0 ring)
      (insert_vnodes-ne-nil vnodes s 0 ring h)

-- with a shard and a virtual node the loops insert something
loops-ne-nil : (v c : ℕ) → 0 < v → 0 < c → insert_shards v c 0 [] ≢ []
unfolding insert_shards insert_vnodes
loops-ne-nil zero c h k = absurd (omega arith)
loops-ne-nil (suc v) zero h k = absurd (omega arith)
loops-ne-nil (suc v) (suc c) h k =
    insert_shards-ne-nil (suc v) c (0 + 1) _
      (insert_vnodes-ne-nil v 0 (0 + 1) _ (put-ne-nil (hash (vnode_key 0 0)) 0 []))

pub new-ne-nil : (shards vnodes : ℕ) → (new shards vnodes).ring ≢ []
unfolding new
new-ne-nil shards vnodes = loops-ne-nil (max vnodes 1) (max shards 1) (omega arith) (omega arith)

insert_vnodes-IsSorted :
    (c s v : ℕ) (ring : Rows ℕ) → IsSorted ring → IsSorted (insert_vnodes c s v ring)
unfolding insert_vnodes
insert_vnodes-IsSorted zero s v ring h = h
insert_vnodes-IsSorted (suc c) s v ring h =
    insert_vnodes-IsSorted c s (v + 1) (put (hash (vnode_key s v)) s ring)
      (put-IsSorted (hash (vnode_key s v)) s ring h)

insert_shards-IsSorted :
    (vnodes c s : ℕ) (ring : Rows ℕ) → IsSorted ring → IsSorted (insert_shards vnodes c s ring)
unfolding insert_shards
insert_shards-IsSorted vnodes zero s ring h = h
insert_shards-IsSorted vnodes (suc c) s ring h =
    insert_shards-IsSorted vnodes c (s + 1) (insert_vnodes vnodes s 0 ring)
      (insert_vnodes-IsSorted vnodes s 0 ring h)

pub new-IsSorted : (shards vnodes : ℕ) → IsSorted (new shards vnodes).ring
unfolding new
new-IsSorted shards vnodes = insert_shards-IsSorted (max vnodes 1) (max shards 1) 0 [] tt
