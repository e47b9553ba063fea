-- ===== src/Cache/Lasting.antt =====
-- How long a stored answer stays, whatever else the cache is asked to do.
use mathlib.Core.Path.{subst}
use ecphoria.Prelude.{
  ℕ, ◌-◌, ◌*◌, ◌/◌, ◌<◌, ◌≡◌, ◌≢◌, refl, ap, sym, ◌∙◌, arith, true, false, Option, none, some, List,
  [], ◌∷◌, All, Bool-cases, inl, inr, or_else,
}
use ecphoria.Prelude.Eq.{nat_eq, list_eq, list_beq, list_beq_iff}
use ecphoria.Prelude.Assoc.{Assoc, lookup, lookup-insert, lookup-remove}
use ecphoria.Prelude.Text.{Str}
use ecphoria.Cache.{
  CachedResponse, VectorIndex, SemanticCache, cache_key, is_fresh, retain, evict_oldest,
  evict_expired, get, found, make_room, add_vector, put_with_vector,
}
use ecphoria.Cache.History.{
  Call, asked, stored, swept, call, after, add_vector-entries, add_vector-ttl, make_room-ttl,
}

front_stale :
    (now limit : ℕ) (m : Assoc Str CachedResponse) (x e : CachedResponse) (k j : Str)
    → list_beq j k ≡ true
    → lookup k ((j, x) ∷ m) ≡ some e
    → is_fresh now limit e ≡ true
    → is_fresh now limit x ≡ false
    → ⊥
unfolding lookup
front_stale now limit m x e k j s h f n =
    let q : some x ≡ some e = ground arith in
    let same : x ≡ e = ap (or_else e) q in
    let g = subst (λ y. is_fresh now limit y ≡ false) same n in ground arith

lookup-retain :
    (now limit : ℕ) (k : Str) (e : CachedResponse) (m : Assoc Str CachedResponse)
    → is_fresh now limit e ≡ true
    → lookup k m ≡ some e
    → lookup k (retain now limit m) ≡ some e
unfolding lookup retain
lookup-retain now limit k e [] f h = h
lookup-retain now limit k e ((j, x) ∷ m) f h = elim (Bool-cases (list_beq j k)) [
  | inl s ↦ elim (Bool-cases (is_fresh now limit x)) [
    | inl y ↦ ground arith
    | inr n ↦ absurd (front_stale now limit m x e k j s h f n)
  ]
  | inr s ↦ elim (Bool-cases (is_fresh now limit x)) [
    | inl y ↦ ground (arith, lookup-retain now limit k e m f)
    | inr n ↦ ground (arith, lookup-retain now limit k e m f)
  ]
]

module _ {Index F : Type 0} (to_lowercase : Str → Str) (usearch : VectorIndex Index F) where
  -- The answer `r` of time `t` is in the cache.
  abbrev IsHeld : ℕ → ℕ → Str → Str → SemanticCache Index → Type 0
  IsHeld ttl t key r c =
      (e : CachedResponse) × (c.ttl ≡ ttl)
      × (lookup key c.entries ≡ some e)
      × (e.created_at ≡ t)
      × (e.response ≡ r)

  -- A call at a time when the answer of time `t` is not old enough to be dropped; an answer is stored
  -- under other keys only.
  abbrev pub Spares : ℕ → ℕ → Str → ℕ × Call to_lowercase usearch → Type 0
  Spares ttl t key (now, asked q s) = now - t < ttl
  Spares ttl t key (now, stored q r emb s) =
      (now - t < ttl * 3 / 4) × (cache_key to_lowercase s q ≢ key)
  Spares ttl t key (now, swept) = now - t < ttl

  -- The entry is not the stale one.
  stale_other :
      (now : ℕ) (c : SemanticCache Index) (key other : Str) (e x : CachedResponse)
      → is_fresh now c.ttl e ≡ true
      → lookup key c.entries ≡ some e
      → lookup other c.entries ≡ some x
      → is_fresh now c.ttl x ≡ false
      → list_beq other key ≡ false
  stale_other now c key other e x g b q n = elim (Bool-cases (list_beq other key)) [
    | inr d ↦ d
    | inl d ↦
        let o : lookup key c.entries ≡ some x =
          subst (λ k. lookup k c.entries ≡ some x) ((list_beq_iff other key).0 d) q in
        let same : x ≡ e = ap (or_else e) (sym o ∙ b) in
        absurd (let w = subst (λ y. is_fresh now c.ttl y ≡ false) same n in ground arith)
  ]

  IsHeld-found :
      (ttl t now : ℕ) (key other r : Str) (c : SemanticCache Index) (o : Option CachedResponse)
      → now - t < ttl
      → lookup other c.entries ≡ o
      → IsHeld ttl t key r c
      → IsHeld ttl t key r (found now c other o).0
  unfolding is_fresh
  IsHeld-found ttl t now key other r c none l q h = h
  IsHeld-found ttl t now key other r c (some x) l q (e, a, b, d, f) =
      elim (Bool-cases (is_fresh now c.ttl x)) [
        | inl y ↦ (e, ground arith, ground arith, d, f)
        | inr n ↦
            let w = stale_other now c key other e x (ground arith) b q n in
            (e, ground arith, ground (arith, lookup-remove other key c.entries), d, f)
      ]

  make_room-lookup :
      (now : ℕ) (c : SemanticCache Index) (key : Str) (e : CachedResponse)
      → is_fresh now (c.ttl * 3 / 4) e ≡ true
      → lookup key c.entries ≡ some e
      → lookup key (make_room now c).entries ≡ some e
  unfolding make_room evict_oldest
  make_room-lookup now c key e g b =
      ground (arith, lookup-retain now (c.ttl * 3 / 4) key e c.entries g b)

  call-IsHeld :
      (ttl t : ℕ) (key r : Str) (now : ℕ) (x : Call to_lowercase usearch) (c : SemanticCache Index)
      → Spares ttl t key (now, x)
      → IsHeld ttl t key r c
      → IsHeld ttl t key r (call to_lowercase usearch now x c)
  unfolding get evict_expired put_with_vector is_fresh
  call-IsHeld ttl t key r now (asked q s) c l h =
      IsHeld-found ttl t now key (cache_key to_lowercase s q) r c
        (lookup (cache_key to_lowercase s q) c.entries) l refl h
  call-IsHeld ttl t key r now (stored q w emb s) c (l, n) (e, a, b, d, f) =
      let k = cache_key to_lowercase s q in
      let (room, vector_key) = add_vector usearch k emb (make_room now c) in
      (
        e,
        add_vector-ttl to_lowercase usearch k emb (make_room now c)
            ∙ make_room-ttl to_lowercase usearch now c
            ∙ a,
        ground (
          arith,
          make_room-lookup now c key e (ground arith) b,
          add_vector-entries to_lowercase usearch k emb (make_room now c),
          lookup-insert k key
              (record { response = w; created_at = now; vector_key = vector_key; scope = s })
              room.entries,
          list_beq_iff k key,
        ),
        d,
        f,
      )
  call-IsHeld ttl t key r now swept c l (e, a, b, d, f) =
      (e, a, lookup-retain now c.ttl key e c.entries (ground arith) b, d, f)

  after-IsHeld :
      (ttl t : ℕ) (key r : Str) (c : SemanticCache Index)
      (calls : List (ℕ × Call to_lowercase usearch))
      → All (Spares ttl t key) calls
      → IsHeld ttl t key r c
      → IsHeld ttl t key r (after to_lowercase usearch c calls)
  unfolding after
  after-IsHeld ttl t key r c [] h k = k
  after-IsHeld ttl t key r c ((now, x) ∷ calls) h k =
      call-IsHeld ttl t key r now x (after to_lowercase usearch c calls) h.0
        (after-IsHeld ttl t key r c calls h.1 k)

  -- An answer that is stored at `t` comes back, for every prompt with the same key, until `ttl` has
  -- passed, whatever calls come between, if none stores under this key and none that stores another
  -- answer comes when three quarters of `ttl` have passed.
  pub get-after-put_with_vector :
      (c : SemanticCache Index) (t now : ℕ) (q q' r : Str) (emb : Option (List F)) (s : Option Str)
      (calls : List (ℕ × Call to_lowercase usearch))
      → cache_key to_lowercase s q' ≡ cache_key to_lowercase s q
      → All (Spares c.ttl t (cache_key to_lowercase s q)) calls
      → now - t < c.ttl
      → (get to_lowercase now q' s
          (after to_lowercase usearch (put_with_vector to_lowercase usearch t q r emb s c) calls)).1
        ≡ some r
  unfolding get put_with_vector is_fresh
  get-after-put_with_vector c t now q q' r emb s calls k h l =
      let key = cache_key to_lowercase s q in
      let room = (add_vector usearch key emb (make_room t c)).0 in
      let entry : CachedResponse = record {
        response = r;
        created_at = t;
        vector_key = (add_vector usearch key emb (make_room t c)).1;
        scope = s;
      } in
      let (e, a, b, d, f) =
        after-IsHeld c.ttl t key r (put_with_vector to_lowercase usearch t q r emb s c) calls h (
          entry,
          add_vector-ttl to_lowercase usearch key emb (make_room t c)
              ∙ make_room-ttl to_lowercase usearch t c,
          ground (arith, lookup-insert key key entry room.entries, list_beq_iff key key),
          refl,
          refl,
        ) in
      ground (arith, k)
