-- ===== src/Cluster/Proxy/Attempts.antt =====
-- How often a proxied request is sent, and which answer the client gets.
use ecphoria.Prelude.{
  ℕ, zero, suc, ◌+◌, ◌<◌, ◌≡◌, refl, ap, ◌∙◌, arith, Bool, Option, none, some, List, eqb,
  Bool-cases, Option-cases, inl, inr,
}
use ecphoria.Prelude.Text.{Str, codes}
use ecphoria.Cluster.Proxy.{
  Request, Response, Outgoing, Network, attempts, refusal, reqwest_to_axum, proxy, outgoing,
  after_attempts,
}

-- a redirect of a node that does not lead
abbrev pub IsRedirect : Option Response → Type 0
IsRedirect none = ⊥
IsRedirect (some r) = r.status ≡ 307

-- what the client gets from an answer that ends the attempts
abbrev pub delivered : Option Response → Response
delivered none = refusal 502 (codes "shard_proxy_failed")
delivered (some r) = reqwest_to_axum r

attempts-step :
    (net : Network) (n i : ℕ) (last : Option Response) (out : Outgoing)
    → IsRedirect (net i out)
    → attempts net (suc n) i last out ≡ attempts net n (i + 1) (net i out) out
unfolding attempts
attempts-step net n i last out h = elim (Option-cases (net i out)) [
  | inr e ↦ absurd (ground arith)
  | inl (r, e) ↦ ground arith
]

attempts-stop :
    (net : Network) (n i : ℕ) (last : Option Response) (out : Outgoing)
    → (IsRedirect (net i out) → ⊥)
    → attempts net (suc n) i last out ≡ delivered (net i out)
unfolding attempts
attempts-stop net n i last out h = elim (Option-cases (net i out)) [
  | inr e ↦ ground arith
  | inl (r, e) ↦ elim (Bool-cases (eqb r.status 307)) [
    | inl t ↦ absurd (h (rw e (ground arith)))
    | inr t ↦ ground arith
  ]
]

moved :
    (net : Network) (out : Outgoing) (i k j : ℕ)
    → IsRedirect (net (i + (j + k)) out)
    → IsRedirect (net (i + k + j) out)
moved net out i k j h = let e : i + k + j ≡ i + (j + k) = omega arith in rw e h

back :
    (net : Network) (out : Outgoing) (i m : ℕ)
    → IsRedirect (net (i + 1 + m) out)
    → IsRedirect (net (i + suc m) out)
back net out i m h = let e : i + suc m ≡ i + 1 + m = omega arith in rw e h

attempts-first :
    (net : Network) (m n i : ℕ) (last : Option Response) (out : Outgoing)
    → m < n
    → ((j : ℕ) → j < m → IsRedirect (net (i + j) out))
    → (IsRedirect (net (i + m) out) → ⊥)
    → attempts net n i last out ≡ delivered (net (i + m) out)
attempts-first net m zero i last out l h k = absurd (omega arith)
attempts-first net zero (suc n) i last out l h k =
    let e : i + 0 ≡ i = omega arith in
    attempts-stop net n i last out (λ r. k (rw e r)) ∙ ap (λ j. delivered (net j out)) (omega arith)
attempts-first net (suc m) (suc n) i last out l h k =
    let e : i + 0 ≡ i = omega arith in
    attempts-step net n i last out (rw e at (h 0 (omega arith)))
    ∙ attempts-first net m n (i + 1) (net i out) out (omega arith)
        (λ j b. moved net out i 1 j (h (j + 1) (omega arith))) (λ r. k (back net out i m r))
    ∙ ap (λ j. delivered (net j out)) (omega arith)

after_attempts-redirect : (o : Option Response) → IsRedirect o → after_attempts o ≡ delivered o
after_attempts-redirect none h = absurd h
after_attempts-redirect (some r) h = refl

attempts-none :
    (net : Network) (n i : ℕ) (last : Option Response) (out : Outgoing)
    → ((j : ℕ) → j < suc n → IsRedirect (net (i + j) out))
    → attempts net (suc n) i last out ≡ delivered (net (i + n) out)
attempts-none net zero i last out h =
    let e : i + 0 ≡ i = omega arith in
    let r = rw e at (h 0 (omega arith)) in
    attempts-step net 0 i last out r
    ∙ unfold attempts in
      after_attempts-redirect (net i out) r ∙ ap (λ j. delivered (net j out)) (omega arith)
attempts-none net (suc n) i last out h =
    let e : i + 0 ≡ i = omega arith in
    attempts-step net (suc n) i last out (rw e at (h 0 (omega arith)))
    ∙ attempts-none net n (i + 1) (net i out) out
        (λ j b. moved net out i 1 j (h (j + 1) (omega arith)))
    ∙ ap (λ j. delivered (net j out)) (omega arith)

opened :
    (is_header_value : Str → Bool) (net : Network) (base : Str) (req : Request)
    (marker_header : Str) (marker : Option Str) (bytes : List ℕ)
    → req.body ≡ some bytes
    → proxy is_header_value net base req marker_header marker
      ≡ attempts net 4 0 none (outgoing is_header_value base req bytes marker_header marker)
unfolding proxy
opened is_header_value net base req marker_header marker bytes b = ground arith

zeroth :
    (net : Network) (out : Outgoing) (j : ℕ) → IsRedirect (net j out) → IsRedirect (net (0 + j) out)
zeroth net out j h = let e : 0 + j ≡ j = omega arith in rw e h

zeroth_back :
    (net : Network) (out : Outgoing) (j : ℕ) → IsRedirect (net (0 + j) out) → IsRedirect (net j out)
zeroth_back net out j h = let e : j ≡ 0 + j = omega arith in rw e h

-- A request with a readable body is sent at most four times. The client gets the answer to the
-- first attempt that is no 307 (a 502 where the connection failed), and where all four are 307, the
-- last of them.
pub proxy_lem :
    (is_header_value : Str → Bool) (net : Network) (base : Str) (req : Request)
    (marker_header : Str) (marker : Option Str) (bytes : List ℕ)
    → req.body ≡ some bytes
    → let out = outgoing is_header_value base req bytes marker_header marker in
      ((m : ℕ)
        → m < 4
        → ((j : ℕ) → j < m → IsRedirect (net j out))
        → (IsRedirect (net m out) → ⊥)
        → proxy is_header_value net base req marker_header marker ≡ delivered (net m out))
      × (((j : ℕ) → j < 4 → IsRedirect (net j out))
          → proxy is_header_value net base req marker_header marker ≡ delivered (net 3 out))
proxy_lem is_header_value net base req marker_header marker bytes b =
    let out = outgoing is_header_value base req bytes marker_header marker in
    let o = opened is_header_value net base req marker_header marker bytes b in
    (
      λ m l h k.
          o
          ∙ attempts-first net m 4 0 none out l (λ j q. zeroth net out j (h j q))
              (λ r. k (zeroth_back net out m r))
          ∙ ap (λ j. delivered (net j out)) (omega arith),
      λ h. o ∙ attempts-none net 3 0 none out (λ j q. zeroth net out j (h j q)),
    )
