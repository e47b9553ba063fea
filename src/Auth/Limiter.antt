-- ===== src/Auth/Limiter.antt =====
-- The token bucket (crates/ecphoria-gateway/src/auth/middleware.rs, `RateLimiter`). Floating-point
-- arithmetic is a parameter; an instant is a number of nanoseconds.
use ecphoria.Prelude.{
  ℕ, ◌≡◌, ◌≢◌, ap, Bool, true, false, Option, if◌then◌else◌, arith, or_else, ◌↔◌,
}
use ecphoria.Prelude.Eq.{nat_eq, list_eq, list_beq, list_beq_iff}
use ecphoria.Prelude.Assoc.{Assoc, lookup, insert, lookup-insert}
use ecphoria.Prelude.Text.{Str}

-- the operations of `f64` and of `Duration` in use
pub record Float : Type 1 where
  pub F64 : Type 0
  pub of_u32 : ℕ → F64
  pub elapsed_secs : ℕ → ℕ → F64
  pub add : F64 → F64 → F64
  pub sub : F64 → F64 → F64
  pub mul : F64 → F64 → F64
  pub minimum : F64 → F64 → F64
  pub at_least : F64 → F64 → Bool
  pub to_u32 : F64 → ℕ

key_iff : (a b : Str) → (list_beq a b ≡ true) ↔ (a ≡ b)
key_iff = list_beq_iff

module _ (f : Float) where
  pub record TokenBucket : Type 0 where
    pub tokens : f.F64
    pub last_refill : ℕ

  pub record RateLimiter : Type 0 where
    pub tokens_per_sec : ℕ
    pub buckets : Assoc Str TokenBucket

  -- the entry of the key, or a full bucket
  bucket_of : ℕ → Str → RateLimiter → TokenBucket
  bucket_of now key l =
      or_else (record { tokens = f.of_u32 l.tokens_per_sec; last_refill = now })
        (lookup key l.buckets)

  abbrev refilled : ℕ → f.F64 → TokenBucket → f.F64
  refilled now cap b = f.minimum (f.add b.tokens (f.mul (f.elapsed_secs b.last_refill now) cap)) cap

  abbrev settle : ℕ → Str → f.F64 → RateLimiter → (Bool × ℕ) × RateLimiter
  settle now key tokens l =
      let kept = f.sub tokens (f.of_u32 1) in
      if f.at_least tokens (f.of_u32 1)
      then (
        (true, f.to_u32 kept),
        record l { buckets = insert key (record { tokens = kept; last_refill = now }) l.buckets },
      )
      else (
        (false, 0),
        record l { buckets = insert key (record { tokens = tokens; last_refill = now }) l.buckets },
      )

  -- whether a token was there, and how many remain
  unfoldable pub try_acquire : ℕ → Str → RateLimiter → (Bool × ℕ) × RateLimiter
  unfolding bucket_of
  try_acquire now key l =
      settle now key (refilled now (f.of_u32 l.tokens_per_sec) (bucket_of now key l)) l

  settle-lookup :
      (now : ℕ) (key other : Str) (tokens : f.F64) (l : RateLimiter)
      → key ≢ other
      → (lookup other (settle now key tokens l).1.buckets ≡ lookup other l.buckets)
        × ((settle now key tokens l).1.tokens_per_sec ≡ l.tokens_per_sec)
  settle-lookup now key other tokens l ne = ground (
    arith,
    lookup-insert key other (record { tokens = tokens; last_refill = now }) l.buckets,
    lookup-insert key other (record { tokens = f.sub tokens (f.of_u32 1); last_refill = now })
        l.buckets,
    key_iff key other,
  )

  -- the answer, from the rate and the key's own bucket
  abbrev answer : ℕ → ℕ → Option TokenBucket → Bool × ℕ
  answer now rate o =
      let cap = f.of_u32 rate in
      let b = or_else (record { tokens = cap; last_refill = now }) o in
      let tokens = refilled now cap b in
      if f.at_least tokens (f.of_u32 1)
      then (true, f.to_u32 (f.sub tokens (f.of_u32 1)))
      else (false, 0)

  try_acquire-answer :
      (now : ℕ) (key : Str) (l : RateLimiter)
      → (try_acquire now key l).0 ≡ answer now l.tokens_per_sec (lookup key l.buckets)
  unfolding try_acquire bucket_of
  try_acquire-answer now key l = ground arith

  try_acquire-lookup :
      (now : ℕ) (key other : Str) (l : RateLimiter)
      → key ≢ other
      → (lookup other (try_acquire now key l).1.buckets ≡ lookup other l.buckets)
        × ((try_acquire now key l).1.tokens_per_sec ≡ l.tokens_per_sec)
  unfolding try_acquire
  try_acquire-lookup now key other l ne =
      settle-lookup now key other (refilled now (f.of_u32 l.tokens_per_sec) (bucket_of now key l)) l
        ne

  -- A request under one key leaves the answer to a request under another key as it was, whenever
  -- the two are made.
  pub try_acquire_other :
      (before now : ℕ) (key other : Str) (l : RateLimiter)
      → key ≢ other
      → (try_acquire now other (try_acquire before key l).1).0 ≡ (try_acquire now other l).0
  try_acquire_other before now key other l ne =
      let (same, rate) = try_acquire-lookup before key other l ne in
      cc (
        try_acquire-answer now other (try_acquire before key l).1,
        try_acquire-answer now other l,
        ap (λ r. answer now r (lookup other (try_acquire before key l).1.buckets)) rate,
        ap (answer now l.tokens_per_sec) same,
      )
