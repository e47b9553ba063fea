-- ===== src/Cache/History.antt =====
-- Where the answers of the cache come from, over every history of calls.
use ecphoria.Prelude.{
  ℕ, ◌-◌, ◌*◌, ◌/◌, ◌<◌, ◌≡◌, refl, ◌∙◌, arith, Bool, true, false, ◌&&◌, Option, none, some, List,
  [], ◌∷◌, All, In, here, there, Bool-cases, Option-cases, inl, inr,
}
use ecphoria.Prelude.Eq.{nat_eq, list_eq, option_eq, option_beq_iff, ◌==◌}
use ecphoria.Prelude.Assoc.{Assoc, lookup, All-lookup, All-insert, All-remove}
use ecphoria.Prelude.Text.{Str}
use ecphoria.Cache.{
  CachedResponse, VectorIndex, SemanticCache, cache_key, is_fresh, retain, evict_expired,
  evict_oldest, get, answer_of, first_answer, get_by_vector, make_room, add_vector, put_with_vector,
  found,
}

both_true : (b : Bool) (s t : Option Str) → b && s == t ≡ true → (b ≡ true) × (s ≡ t)
both_true true s t h = (refl, (option_beq_iff s t).0 h)
both_true false s t h = absurd (ground arith)

module _ (P : Str × CachedResponse → Type 0) where
  All-retain : (now limit : ℕ) (m : Assoc Str CachedResponse) → All P m → All P (retain now limit m)
  unfolding retain
  All-retain now limit [] h = tt
  All-retain now limit ((k, e) ∷ m) h = ground (arith, All-retain now limit m h.1)

  All-found :
      {Index : Type 0} (now : ℕ) (c : SemanticCache Index) (key : Str) (o : Option CachedResponse)
      → All P c.entries
      → All P ((found now c key o).0).entries
  All-found now c key none h = h
  All-found now c key (some e) h = elim (Bool-cases (is_fresh now c.ttl e)) [
    | inl f ↦ ground arith
    | inr f ↦ ground (arith, All-remove P key c.entries h)
  ]

  All-make_room :
      {Index : Type 0} (now : ℕ) (c : SemanticCache Index)
      → All P c.entries
      → All P (make_room now c).entries
  unfolding make_room evict_oldest
  All-make_room now c h = ground (arith, All-retain now (c.ttl * 3 / 4) c.entries h)

module _ {Index F : Type 0} (to_lowercase : Str → Str) (usearch : VectorIndex Index F) where
  -- a call of the cache
  pub data Call : Type 0 where
    asked : Str → Option Str → Call
    stored : Str → Str → Option (List F) → Option Str → Call
    swept : Call

  abbrev pub call : ℕ → Call → SemanticCache Index → SemanticCache Index
  call now (asked q s) c = (get to_lowercase now q s c).0
  call now (stored q r emb s) c = put_with_vector to_lowercase usearch now q r emb s c
  call now swept c = evict_expired now c

  -- The calls with their times, the last one first, on a cache that starts empty.
  unfoldable pub after : SemanticCache Index → List (ℕ × Call) → SemanticCache Index
  after new [] = new
  after new ((now, x) ∷ calls) = call now x (after new calls)

  -- the answer `r` was stored at time `t` for the key, from a reader of the scope
  abbrev pub WasStored : List (ℕ × Call) → Str → ℕ → Str → Option Str → Type 0
  WasStored calls key t r s =
      (q : Str) × (emb : Option (List F)) × In (t, stored q r emb s) calls
      × (cache_key to_lowercase s q ≡ key)

  abbrev pub IsBacked : List (ℕ × Call) → Str × CachedResponse → Type 0
  IsBacked calls (k, e) = WasStored calls k e.created_at e.response e.scope

  later :
      (x : ℕ × Call) (calls : List (ℕ × Call)) (p : Str × CachedResponse)
      → IsBacked calls p
      → IsBacked (x ∷ calls) p
  later x calls (k, e) (q, emb, i, h) = (q, emb, there i, h)

  All-later :
      (x : ℕ × Call) (calls : List (ℕ × Call)) (m : Assoc Str CachedResponse)
      → All (IsBacked calls) m
      → All (IsBacked (x ∷ calls)) m
  All-later x calls [] h = tt
  All-later x calls (p ∷ m) h = (later x calls p h.0, All-later x calls m h.1)

  pub add_vector-entries :
      (key : Str) (emb : Option (List F)) (c : SemanticCache Index)
      → ((add_vector usearch key emb c).0).entries ≡ c.entries
  unfolding add_vector
  add_vector-entries key none c = refl
  add_vector-entries key (some emb) c = elim (Option-cases (usearch.add c.index c.next_key emb)) [
    | inl (ix, e) ↦ ground arith
    | inr e ↦ ground arith
  ]

  call-backed :
      (calls : List (ℕ × Call)) (now : ℕ) (x : Call) (c : SemanticCache Index)
      → All (IsBacked calls) c.entries
      → All (IsBacked ((now, x) ∷ calls)) (call now x c).entries
  unfolding get evict_expired put_with_vector
  call-backed calls now (asked q s) c h =
      All-found (IsBacked ((now, asked q s) ∷ calls)) now c (cache_key to_lowercase s q)
        (lookup (cache_key to_lowercase s q) c.entries)
        (All-later (now, asked q s) calls c.entries h)
  call-backed calls now (stored q r emb s) c h =
      let P = IsBacked ((now, stored q r emb s) ∷ calls) in
      let key = cache_key to_lowercase s q in
      let (d, vk) = add_vector usearch key emb (make_room now c) in
      let old : All P d.entries =
        rw (add_vector-entries key emb (make_room now c))
          (All-make_room P now c (All-later (now, stored q r emb s) calls c.entries h)) in
      All-insert P key _ d.entries old (q, emb, here refl, refl)
  call-backed calls now swept c h =
      All-retain (IsBacked ((now, swept) ∷ calls)) now c.ttl c.entries
        (All-later (now, swept) calls c.entries h)

  after-backed :
      (new : SemanticCache Index) (calls : List (ℕ × Call))
      → new.entries ≡ []
      → All (IsBacked calls) (after new calls).entries
  unfolding after
  after-backed new [] e = rw e tt
  after-backed new ((now, x) ∷ calls) e =
      call-backed calls now x (after new calls) (after-backed new calls e)

  found-lookup :
      (now : ℕ) (c : SemanticCache Index) (key r : Str) (o : Option CachedResponse)
      → (found now c key o).1 ≡ some r
      → (e : CachedResponse) × (o ≡ some e) × (is_fresh now c.ttl e ≡ true) × (e.response ≡ r)
  found-lookup now c key r none h = absurd (ground arith)
  found-lookup now c key r (some e) h = elim (Bool-cases (is_fresh now c.ttl e)) [
    | inl f ↦ (e, refl, f, ground arith)
    | inr f ↦ absurd (ground arith)
  ]

  found-ttl :
      (now : ℕ) (c : SemanticCache Index) (key : Str) (o : Option CachedResponse)
      → ((found now c key o).0).ttl ≡ c.ttl
  found-ttl now c key none = refl
  found-ttl now c key (some e) = elim (Bool-cases (is_fresh now c.ttl e)) [
    | inl f ↦ ground arith
    | inr f ↦ ground arith
  ]

  pub add_vector-ttl :
      (key : Str) (emb : Option (List F)) (c : SemanticCache Index)
      → ((add_vector usearch key emb c).0).ttl ≡ c.ttl
  unfolding add_vector
  add_vector-ttl key none c = refl
  add_vector-ttl key (some emb) c = elim (Option-cases (usearch.add c.index c.next_key emb)) [
    | inl (ix, e) ↦ ground arith
    | inr e ↦ ground arith
  ]

  pub make_room-ttl : (now : ℕ) (c : SemanticCache Index) → (make_room now c).ttl ≡ c.ttl
  unfolding make_room evict_oldest
  make_room-ttl now c = ground arith

  call-ttl : (now : ℕ) (x : Call) (c : SemanticCache Index) → (call now x c).ttl ≡ c.ttl
  unfolding get evict_expired put_with_vector
  call-ttl now (asked q s) c =
      found-ttl now c (cache_key to_lowercase s q) (lookup (cache_key to_lowercase s q) c.entries)
  call-ttl now (stored q r emb s) c =
      add_vector-ttl (cache_key to_lowercase s q) emb (make_room now c) ∙ make_room-ttl now c
  call-ttl now swept c = refl

  after-ttl :
      (new : SemanticCache Index) (calls : List (ℕ × Call)) → (after new calls).ttl ≡ new.ttl
  unfolding after
  after-ttl new [] = refl
  after-ttl new ((now, x) ∷ calls) = call-ttl now x (after new calls) ∙ after-ttl new calls

  -- An answer of `get` was stored less than `ttl` before, for the same key.
  pub get-stored :
      (new : SemanticCache Index) (calls : List (ℕ × Call)) (now : ℕ) (q : Str) (s : Option Str)
      (r : Str)
      → new.entries ≡ []
      → (get to_lowercase now q s (after new calls)).1 ≡ some r
      → (t : ℕ) × (o : Option Str) × WasStored calls (cache_key to_lowercase s q) t r o
        × (now - t < new.ttl)
  unfolding get is_fresh
  get-stored new calls now q s r n h =
      let c = after new calls in
      let key = cache_key to_lowercase s q in
      let (e, l, f, a) = found-lookup now c key r (lookup key c.entries) h in
      let b = All-lookup (IsBacked calls) key e c.entries (after-backed new calls n) l in
      (e.created_at, e.scope, rw a at b, ground (arith, after-ttl new calls))

  answer-entry :
      (now : ℕ) (s : Option Str) (c : SemanticCache Index) (vk : ℕ) (r : Str)
      → answer_of now s c vk ≡ some r
      → (k : Str) × (e : CachedResponse) × (lookup k c.entries ≡ some e)
        × (is_fresh now c.ttl e ≡ true)
        × (e.scope ≡ s)
        × (e.response ≡ r)
  unfolding answer_of
  answer-entry now s c vk r h = elim (Option-cases (lookup vk c.key_to_prompt)) [
    | inr n ↦ absurd (ground arith)
    | inl (k, p) ↦ elim (Option-cases (lookup k c.entries)) [
      | inr n ↦ absurd (ground arith)
      | inl (e, l) ↦ elim (Bool-cases (is_fresh now c.ttl e && e.scope == s)) [
        | inr f ↦ absurd (ground arith)
        | inl t ↦
            let (f, o) = both_true (is_fresh now c.ttl e) e.scope s t in
            (k, e, l, f, o, ground arith)
      ]
    ]
  ]

  first-answer :
      (now : ℕ) (s : Option Str) (c : SemanticCache Index) (results : List (ℕ × F)) (r : Str)
      → first_answer usearch now s c results ≡ some r
      → (vk : ℕ) × (answer_of now s c vk ≡ some r)
  unfolding first_answer
  first-answer now s c [] r h = absurd (ground arith)
  first-answer now s c ((vk, dist) ∷ results) r h = elim (Bool-cases (usearch.is_far dist)) [
    | inl t ↦ absurd (ground arith)
    | inr f ↦ elim (Option-cases (answer_of now s c vk)) [
      | inl (a, e) ↦ (vk, ground arith)
      | inr n ↦ first-answer now s c results r (ground arith)
    ]
  ]

  vector-answer :
      (now : ℕ) (emb : List F) (s : Option Str) (c : SemanticCache Index) (r : Str)
      → get_by_vector usearch now emb s c ≡ some r
      → (vk : ℕ) × (answer_of now s c vk ≡ some r)
  unfolding get_by_vector
  vector-answer now [] s c r h = absurd (ground arith)
  vector-answer now (x ∷ emb) s c r h = elim (Option-cases (usearch.search c.index (x ∷ emb) 5)) [
    | inr n ↦ absurd (ground arith)
    | inl (results, e) ↦ first-answer now s c results r (ground arith)
  ]

  -- An answer of `get_by_vector` was stored less than `ttl` before, under the scope that asks,
  -- whatever the vector index finds.
  pub get_by_vector-stored :
      (new : SemanticCache Index) (calls : List (ℕ × Call)) (now : ℕ) (emb : List F)
      (s : Option Str) (r : Str)
      → new.entries ≡ []
      → get_by_vector usearch now emb s (after new calls) ≡ some r
      → (t : ℕ) × (key : Str) × WasStored calls key t r s × (now - t < new.ttl)
  unfolding is_fresh
  get_by_vector-stored new calls now emb s r n h =
      let c = after new calls in
      let (vk, a) = vector-answer now emb s c r h in
      let (k, e, l, f, o, w) = answer-entry now s c vk r a in
      let b = All-lookup (IsBacked calls) k e c.entries (after-backed new calls n) l in
      (e.created_at, k, rw (o, w) at b, ground (arith, after-ttl new calls))
