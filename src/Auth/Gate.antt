-- ===== src/Auth/Gate.antt =====
-- The middleware (crates/ecphoria-gateway/src/auth/middleware.rs, `require_auth`, `client_ip`; the
-- entries are those of auth/audit.rs). The handler behind it is a parameter. A log entry is without
-- its time and duration; `outcomes` of the log says which of its coming inserts fail.
pub mod Access
pub mod Scope
mod Examples
use ecphoria.Prelude.{
  ℕ, suc, ◌+◌, ◌≡◌, ◌≢◌, refl, Bool, true, false, not, ◌&&◌, ◌||◌, Option, none, some, List, [],
  ◌∷◌, ◌++◌, if◌then◌else◌, arith, or_else, is_some, ◌⊎◌, inl, inr, Bool-cases, Option-cases, eqb,
  get_elem?,
}
use ecphoria.Prelude.Eq.{nat_eq, list_eq, ◌==◌}
use ecphoria.Prelude.Text.{Str, codes, split, starts_with, contains, strip_prefix}
use ecphoria.Prelude.Faults.{fails, later}
use ecphoria.Auth.Roles.{Role, agent, Method, allows_method, allows_admin_path, is_agent}
use ecphoria.Auth.Keys.{KeyDigest, ct_eq}
use ecphoria.Auth.State.{AuthState, AuthContext, authenticate}
use ecphoria.Auth.Limiter.{Float, RateLimiter, try_acquire}

-- `path` is `req.uri().path()`. `authorization` and the headers of the address are present when
-- their value is a readable text.
pub record Request : Type 0 where
  pub method : Method
  pub path : Str
  pub original_path : Option Str
  pub authorization : Option Str
  pub shard_forwarded : Option Str
  pub x_forwarded_for : Option Str
  pub x_real_ip : Option Str

-- `rate_info` is the extension `RateLimitInfo`, `rate_header` is `X-RateLimit-Remaining`.
pub record Response : Type 0 where
  pub status : ℕ
  pub rate_info : Option ℕ
  pub rate_header : Option ℕ

pub record AuditEntry : Type 0 where
  pub identity : Str
  pub method : Method
  pub path : Str
  pub status : ℕ
  pub tenant : Option Str
  pub ip : Option Str

pub record AuditLog : Type 0 where
  pub rows : List AuditEntry
  pub outcomes : List Bool

-- `AuditLog::record`: a failed insert is a warning
unfoldable pub record_entry : AuditEntry → AuditLog → AuditLog
record_entry e log = record {
  rows = if fails log.outcomes then log.rows else e ∷ log.rows;
  outcomes = later log.outcomes;
}

abbrev is_blank : ℕ → Bool
is_blank c = eqb c 32 || eqb c 9

abbrev trim_start : Str → Str
trim_start [] = []
trim_start (c ∷ s) = if is_blank c then trim_start s else c ∷ s

abbrev keep_unless_blank : ℕ → Str → Str
keep_unless_blank c [] = if is_blank c then [] else c ∷ []
keep_unless_blank c (d ∷ s) = c ∷ d ∷ s

abbrev trim_end : Str → Str
trim_end [] = []
trim_end (c ∷ s) = keep_unless_blank c (trim_end s)

abbrev first_part : List Str → Str
first_part [] = []
first_part (p ∷ ps) = p

abbrev or_real : Str → Option Str → Option Str
or_real [] real = real
or_real (c ∷ s) real = some (c ∷ s)

-- A readable header has no blanks but the space and the tab.
unfoldable pub client_ip : Request → Option Str
client_ip req = elim req.x_forwarded_for [
  | none ↦ req.x_real_ip
  | some v ↦ or_real (trim_end (trim_start (first_part (split b',' v)))) req.x_real_ip
]

-- `position(|s| s == "state")`, then the segment behind it
abbrev after_state : List Str → Option Str
after_state [] = none
after_state (s ∷ ss) = if s == codes "state" then get_elem? ss 0 else after_state ss

-- whether the path names the state of an agent other than `scope`
unfoldable pub other_agent : Str → Str → Bool
other_agent path scope =
    if starts_with (codes "/state/") path || contains (codes "/state/") path
    then elim (after_state (split b'/' path)) [ none ↦ false | some a ↦ not (a == scope) ]
    else false

unfoldable pub out_of_scope : AuthContext → Str → Bool
out_of_scope ctx path = elim ctx.agent_id [
  | none ↦ false
  | some scope ↦ is_agent ctx.role && other_agent path scope
]

unfoldable pub forbidden_path : AuthContext → Str → Bool
forbidden_path ctx path =
    (contains (codes "/admin/") path || contains (codes "/cluster/") path)
    && not (allows_admin_path ctx.role)

unfoldable pub is_shard_forwarded : AuthState → Request → Bool
is_shard_forwarded st req = elim st.shard_forward_secret [
  | none ↦ false
  | some secret ↦ elim req.shard_forwarded [ none ↦ false | some v ↦ ct_eq v secret ]
]

unfoldable pub rl_key : AuthContext → Str
rl_key ctx = elim ctx.tenant_id [ none ↦ ctx.identity | some t ↦ ctx.identity ++ 31 ∷ t ]

unfoldable pub request_path : Request → Str
request_path req = or_else req.path req.original_path

-- the text behind `Bearer `
unfoldable pub bearer : Request → Option Str
bearer req = elim req.authorization [ none ↦ none | some h ↦ strip_prefix (codes "Bearer ") h ]

module _ (f : Float) where
  -- what requests share and change
  pub record Gateway : Type 0 where
    pub limiter : Option (RateLimiter f)
    pub audit : Option AuditLog

  abbrev pub entry_for : Request → Str → Option Str → ℕ → AuditEntry
  entry_for req identity tenant status = record {
    identity = identity;
    method = req.method;
    path = request_path req;
    status = status;
    tenant = tenant;
    ip = client_ip req;
  }

  abbrev pub audited : AuditEntry → Gateway → Gateway
  audited e g = record g {
    audit = elim g.audit [ none ↦ none | some log ↦ some (record_entry e log) ];
  }

  unfoldable pub deny : Request → ℕ → Str → Option Str → Gateway → Response × Gateway
  deny req status identity tenant g = (
    record { status = status; rate_info = none; rate_header = none },
    audited (entry_for req identity tenant status) g,
  )

  unfoldable pub deny_as : Request → ℕ → AuthContext → Gateway → Response × Gateway
  unfolding deny
  deny_as req status ctx = deny req status ctx.identity ctx.tenant_id

  -- the handler behind the middleware, with the extensions that it is given
  abbrev pub Handler : Type 0
  Handler = AuthContext → Option ℕ → Request → Response

  abbrev pub with_rate_header : Option (RateLimiter f) → Option ℕ → Response → Response
  with_rate_header (some l) (some n) r = record r { rate_header = some n }
  with_rate_header _ _ r = r

  unfoldable pub serve : Handler → Request → AuthContext → Option ℕ → Gateway → Response × Gateway
  serve next req ctx remaining g =
      let response = next ctx remaining req in
      (
        with_rate_header g.limiter response.rate_info response,
        audited (entry_for req ctx.identity ctx.tenant_id response.status) g,
      )

  abbrev pub after_acquire :
      Handler → Request → AuthContext → Gateway → (Bool × ℕ) × RateLimiter f → Response × Gateway
  after_acquire next req ctx g ((true, remaining), l) =
      serve next req ctx (some remaining) (record g { limiter = some l })
  after_acquire next req ctx g ((false, remaining), l) =
      let (r, h) = deny_as req 429 ctx (record g { limiter = some l }) in
      (record r { rate_header = some 0 }, h)

  abbrev pub limited :
      AuthState
      → Handler
      → ℕ
      → Request
      → AuthContext
      → Gateway
      → Option (RateLimiter f)
      → Response × Gateway
  limited st next now req ctx g none = serve next req ctx none g
  limited st next now req ctx g (some l) =
      if is_shard_forwarded st req
      then serve next req ctx none g
      else after_acquire next req ctx g (try_acquire f now (rl_key ctx) l)

  unfoldable pub rate_limit :
      AuthState → Handler → ℕ → Request → AuthContext → Gateway → Response × Gateway
  rate_limit st next now req ctx g = limited st next now req ctx g g.limiter

  -- the checks of the role and of the scope, in the source's order
  unfoldable pub authorize :
      AuthState → Handler → ℕ → Request → AuthContext → Gateway → Response × Gateway
  unfolding rate_limit
  authorize st next now req ctx g =
      if not (allows_method ctx.role req.method)
      then deny_as req 403 ctx g
      else if forbidden_path ctx req.path
      then deny_as req 403 ctx g
      else if out_of_scope ctx req.path
      then deny_as req 403 ctx g
      else rate_limit st next now req ctx g

  module _ (sha256 : Str → KeyDigest) where
    abbrev pub authenticated :
        AuthState → Handler → ℕ → Request → Option AuthContext → Gateway → Response × Gateway
    authenticated st next now req none g = deny req 401 (codes "invalid-token") none g
    authenticated st next now req (some ctx) g = authorize st next now req ctx g

    abbrev pub gated : AuthState → Handler → ℕ → Request → Gateway → Option Str → Response × Gateway
    gated st next now req g none = deny req 401 (codes "anonymous") none g
    gated st next now req g (some token) =
        authenticated st next now req (authenticate sha256 st token) g

    unfoldable pub require_auth : AuthState → Handler → ℕ → Request → Gateway → Response × Gateway
    require_auth st next now req g = gated st next now req g (bearer req)
