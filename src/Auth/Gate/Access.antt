-- ===== src/Auth/Gate/Access.antt =====
-- What the middleware lets through to the handler, and what it writes to the audit log.
use ecphoria.Prelude.{
  ℕ, ◌≡◌, refl, Bool, true, false, not, Option, none, some, List, [], ◌∷◌, if◌then◌else◌, if_ind,
  arith, ◌⊎◌, inl, inr, Bool-cases, Option-cases,
}
use ecphoria.Prelude.Faults.{fails}
use ecphoria.Prelude.Text.{Str, codes}
use ecphoria.Auth.Roles.{allows_method}
use ecphoria.Auth.Keys.{KeyDigest}
use ecphoria.Auth.State.{AuthState, AuthContext, authenticate}
use ecphoria.Auth.Limiter.{Float, RateLimiter, try_acquire}
use ecphoria.Auth.Gate.{
  Request, Response, AuditEntry, AuditLog, record_entry, Gateway, Handler, bearer, request_path,
  client_ip, forbidden_path, out_of_scope, is_shard_forwarded, rl_key, deny, deny_as, serve,
  rate_limit, authorize, require_auth, entry_for, with_rate_header, after_acquire, limited, gated,
  authenticated,
}

module _ (sha256 : Str → KeyDigest) where
  -- The bearer token of the request authenticates as `ctx`, whose role and scope allow the request.
  abbrev pub IsPermitted : AuthState → Request → AuthContext → Type 0
  IsPermitted st req ctx =
      (token : Str) × (bearer req ≡ some token)
      × (authenticate sha256 st token ≡ some ctx)
      × (allows_method ctx.role req.method ≡ true)
      × (forbidden_path ctx req.path ≡ false)
      × (out_of_scope ctx req.path ≡ false)

-- The entry of one request was recorded, with the given status.
abbrev IsRecorded : Request → ℕ → Option AuditLog → Option AuditLog → Type 0
IsRecorded req status before after =
    (e : AuditEntry) × (e.status ≡ status)
    × (e.method ≡ req.method)
    × (e.path ≡ request_path req)
    × (e.ip ≡ client_ip req)
    × (after ≡ elim before [ none ↦ none | some log ↦ some (record_entry e log) ])

-- The rows after an insert: one more, unless the insert fails.
abbrev pub rows_after : List Bool → AuditEntry → List AuditEntry → List AuditEntry
rows_after (true ∷ outcomes) e rows = rows
rows_after (false ∷ outcomes) e rows = e ∷ rows
rows_after [] e rows = e ∷ rows

-- The rows are as they were and one more, of the request and the given status, unless the insert
-- failed; and there is still no log if there was none.
abbrev pub IsLogged : Request → ℕ → Option AuditLog → Option AuditLog → Type 0
IsLogged req status none after = after ≡ none
IsLogged req status (some log) after =
    (e : AuditEntry) × (new : AuditLog) × (after ≡ some new)
    × (new.rows ≡ rows_after log.outcomes e log.rows)
    × (e.status ≡ status)
    × (e.method ≡ req.method)
    × (e.path ≡ request_path req)
    × (e.ip ≡ client_ip req)

record_entry-rows :
    (e : AuditEntry) (log : AuditLog)
    → (record_entry e log).rows ≡ rows_after log.outcomes e log.rows
unfolding record_entry
record_entry-rows e log = by_outcomes log.outcomes
  where
    by_outcomes :
        (outcomes : List Bool)
        → (if fails outcomes then log.rows else e ∷ log.rows) ≡ rows_after outcomes e log.rows
    by_outcomes [] = refl
    by_outcomes (true ∷ outcomes) = refl
    by_outcomes (false ∷ outcomes) = refl

IsLogged-IsRecorded :
    (req : Request) (status : ℕ) (before after : Option AuditLog)
    → IsRecorded req status before after
    → IsLogged req status before after
IsLogged-IsRecorded req status none after (e, s, m, p, i, q) = q
IsLogged-IsRecorded req status (some log) after (e, s, m, p, i, q) =
    (e, record_entry e log, q, record_entry-rows e log, s, m, p, i)

module _ (f : Float) (st : AuthState) (next : Handler f) (now : ℕ) (req : Request) where
  abbrev LoggedAs : Gateway f → Response × Gateway f → Type 0
  LoggedAs g (r, h) = IsRecorded req r.status g.audit h.audit

  deny-LoggedAs :
      (status : ℕ) (identity : Str) (tenant : Option Str) (g : Gateway f)
      → LoggedAs g (deny f req status identity tenant g)
  unfolding deny
  deny-LoggedAs status identity tenant g =
      (entry_for f req identity tenant status, refl, refl, refl, refl, refl)

  with_rate_header-status :
      (l : Option (RateLimiter f)) (n : Option ℕ) (r : Response)
      → r.status ≡ (with_rate_header f l n r).status
  with_rate_header-status none n r = refl
  with_rate_header-status (some l) none r = refl
  with_rate_header-status (some l) (some n) r = refl

  serve-LoggedAs :
      (ctx : AuthContext) (remaining : Option ℕ) (g : Gateway f)
      → LoggedAs g (serve f next req ctx remaining g)
  unfolding serve
  serve-LoggedAs ctx remaining g =
      let r = next ctx remaining req in
      (
        entry_for f req ctx.identity ctx.tenant_id r.status,
        with_rate_header-status g.limiter r.rate_info r,
        refl,
        refl,
        refl,
        refl,
      )

  after_acquire-LoggedAs :
      (ctx : AuthContext) (g : Gateway f) (a : (Bool × ℕ) × RateLimiter f)
      → LoggedAs g (after_acquire f next req ctx g a)
  unfolding deny_as
  after_acquire-LoggedAs ctx g ((true, n), l) =
      serve-LoggedAs ctx (some n) (record g { limiter = some l })
  after_acquire-LoggedAs ctx g ((false, n), l) =
      deny-LoggedAs 429 ctx.identity ctx.tenant_id (record g { limiter = some l })

  limited-LoggedAs :
      (ctx : AuthContext) (g : Gateway f) (l : Option (RateLimiter f))
      → LoggedAs g (limited f st next now req ctx g l)
  limited-LoggedAs ctx g none = serve-LoggedAs ctx none g
  limited-LoggedAs ctx g (some l) =
      if_ind (LoggedAs g) (is_shard_forwarded st req) (serve f next req ctx none g)
        (after_acquire f next req ctx g (try_acquire f now (rl_key ctx) l))
        (λ _. serve-LoggedAs ctx none g)
        (λ _. after_acquire-LoggedAs ctx g (try_acquire f now (rl_key ctx) l))

  authorize-LoggedAs :
      (ctx : AuthContext) (g : Gateway f) → LoggedAs g (authorize f st next now req ctx g)
  unfolding authorize rate_limit deny_as
  authorize-LoggedAs ctx g =
      let refused = deny-LoggedAs 403 ctx.identity ctx.tenant_id g in
      if_ind (LoggedAs g) (not (allows_method ctx.role req.method)) _ _ (λ _. refused)
        (λ _.
          if_ind (LoggedAs g) (forbidden_path ctx req.path) _ _ (λ _. refused)
            (λ _.
              if_ind (LoggedAs g) (out_of_scope ctx req.path) _ _ (λ _. refused)
                (λ _. limited-LoggedAs ctx g g.limiter)))

module _ (f : Float) (sha256 : Str → KeyDigest) (st : AuthState) where
  authenticated-LoggedAs :
      (next : Handler f) (now : ℕ) (req : Request) (o : Option AuthContext) (g : Gateway f)
      → LoggedAs f st next now req g (authenticated f sha256 st next now req o g)
  authenticated-LoggedAs next now req none g =
      deny-LoggedAs f st next now req 401 (codes "invalid-token") none g
  authenticated-LoggedAs next now req (some ctx) g = authorize-LoggedAs f st next now req ctx g

  gated-LoggedAs :
      (next : Handler f) (now : ℕ) (req : Request) (g : Gateway f) (o : Option Str)
      → LoggedAs f st next now req g (gated f sha256 st next now req g o)
  gated-LoggedAs next now req g none =
      deny-LoggedAs f st next now req 401 (codes "anonymous") none g
  gated-LoggedAs next now req g (some token) =
      authenticated-LoggedAs next now req (authenticate sha256 st token) g

  -- Every request, whether it is refused or handled, adds one entry to the audit log, if there is a
  -- log and its insert does not fail: with the request's method, path and address, and the status that
  -- the client sees. Otherwise the log stays as it is.
  pub require_auth_audited :
      (next : Handler f) (now : ℕ) (req : Request) (g : Gateway f)
      → IsLogged req
          (require_auth f sha256 st next now req g).0.status
          g.audit
          (require_auth f sha256 st next now req g).1.audit
  unfolding require_auth
  require_auth_audited next now req g =
      IsLogged-IsRecorded req _ g.audit _ (gated-LoggedAs next now req g (bearer req))

  authorize_guarded :
      (now : ℕ) (req : Request) (g : Gateway f) (token : Str) (ctx : AuthContext)
      → bearer req ≡ some token
      → authenticate sha256 st token ≡ some ctx
      → ((c : AuthContext) × IsPermitted sha256 st req c)
        ⊎ ((next other : Handler f)
            → authorize f st next now req ctx g ≡ authorize f st other now req ctx g)
  unfolding authorize
  authorize_guarded now req g token ctx b a =
      elim (Bool-cases (allows_method ctx.role req.method)) [
        | inr m ↦ inr (λ next other. ground arith)
        | inl m ↦ elim (Bool-cases (forbidden_path ctx req.path)) [
          | inl p ↦ inr (λ next other. ground arith)
          | inr p ↦ elim (Bool-cases (out_of_scope ctx req.path)) [
            | inl o ↦ inr (λ next other. ground arith)
            | inr o ↦ inl (ctx, (token, b, a, m, p, o))
          ]
        ]
      ]

  -- The handler is consulted only for a request that carries a valid token whose role may use the
  -- method and the path and whose scope the path is in. Any other request has the same answer and
  -- the same effect whatever the handler is.
  pub require_auth_guarded :
      (now : ℕ) (req : Request) (g : Gateway f)
      → ((ctx : AuthContext) × IsPermitted sha256 st req ctx)
        ⊎ ((next other : Handler f)
            → require_auth f sha256 st next now req g ≡ require_auth f sha256 st other now req g)
  unfolding require_auth
  require_auth_guarded now req g = elim (Option-cases (bearer req)) [
    | inr n ↦ inr (λ next other. ground arith)
    | inl (token, b) ↦ elim (Option-cases (authenticate sha256 st token)) [
      | inr n ↦ inr (λ next other. ground arith)
      | inl (ctx, a) ↦ elim (authorize_guarded now req g token ctx b a) [
        | inl p ↦ inl p
        | inr same ↦ inr (λ next other. ground (arith, same next other))
      ]
    ]
  ]
