-- ===== src/Auth/Gate/Examples.antt =====
-- The gate with a JWT validator that knows one token, a limiter over whole tokens, and handlers
-- that answer with one status.
use ecphoria.Prelude.{
  ℕ, ◌+◌, ◌-◌, ◌*◌, ◌≡◌, refl, min, true, Option, none, some, [], is_some, leb, if◌then◌else◌, ◌⊎◌,
}
use ecphoria.Prelude.Eq.{nat_eq, list_eq, ◌==◌}
use ecphoria.Prelude.Text.{Str, codes}
use ecphoria.Auth.Roles.{Method, agent, get, post, from_str_loose, is_admin}
use ecphoria.Auth.Keys.{KeyDigest, ApiKeyInfo}
use ecphoria.Auth.State.{
  AuthState, AuthContext, Claims, context_of, authenticate, authenticate_tenant, enforce_tenant,
  resolve,
}
use ecphoria.Auth.Limiter.{Float, RateLimiter}
use ecphoria.Auth.Gate.{Request, Gateway, Handler, require_auth}
use ecphoria.Auth.Gate.Access.{IsPermitted, IsLogged, require_auth_audited, require_auth_guarded}

abbrev no_hash : Str → KeyDigest
no_hash s = []

abbrev ana : Claims
ana = record {
  sub = codes "ana";
  role = codes "agent";
  agent_id = none;
  tenant_id = some (codes "acme");
}

abbrev validate : Str → Option Claims
validate token = if token == codes "t" then some ana else none

abbrev auth : AuthState
auth = record {
  keys = [];
  jwt = some validate;
  oidc = none;
  require_tenant = true;
  shard_forward_secret = none;
}

-- whole tokens and seconds
abbrev whole : Float
whole = record {
  F64 = ℕ;
  of_u32 = λ n. n;
  elapsed_secs = λ a b. b - a;
  add = ◌+◌;
  sub = ◌-◌;
  mul = ◌*◌;
  minimum = min;
  at_least = λ a b. leb b a;
  to_u32 = λ n. n;
}

abbrev limiter : RateLimiter whole
limiter = record { tokens_per_sec = 1; buckets = [] }

abbrev gateway : Gateway whole
gateway = record { limiter = some limiter; audit = some (record { rows = []; outcomes = [] }) }

abbrev answer_with : ℕ → Handler whole
answer_with status ctx remaining req = record {
  status = status;
  rate_info = none;
  rate_header = none;
}

abbrev request : Method → Str → Request
request m path = record {
  method = m;
  path = path;
  original_path = none;
  authorization = some (codes "Bearer t");
  shard_forwarded = none;
  x_forwarded_for = none;
  x_real_ip = none;
}

ana_accepted : authenticate no_hash auth (codes "t") ≡ some (context_of ana)
unfolding authenticate resolve enforce_tenant context_of from_str_loose is_admin
ana_accepted = refl

authenticate_tenant_example :
    (is_admin (context_of ana).role ≡ true) ⊎ (is_some (context_of ana).tenant_id ≡ true)
authenticate_tenant_example =
    authenticate_tenant no_hash auth (codes "t") (context_of ana) refl ana_accepted

require_auth_audited_example :
    IsLogged
      (request post (codes "/memories"))
      (require_auth whole no_hash auth
        (answer_with 201)
        9
        (request post (codes "/memories"))
        gateway).0.status
      gateway.audit
      (require_auth whole no_hash auth
        (answer_with 201)
        9
        (request post (codes "/memories"))
        gateway).1.audit
require_auth_audited_example =
    require_auth_audited whole no_hash auth (answer_with 201) 9 (request post (codes "/memories"))
      gateway

require_auth_guarded_example :
    ((ctx : AuthContext) × IsPermitted no_hash auth (request get (codes "/admin/audit")) ctx)
    ⊎ ((next other : Handler whole)
        → require_auth whole no_hash auth next 9 (request get (codes "/admin/audit")) gateway
          ≡ require_auth whole no_hash auth other 9 (request get (codes "/admin/audit")) gateway)
require_auth_guarded_example =
    require_auth_guarded whole no_hash auth 9 (request get (codes "/admin/audit")) gateway

abbrev ana_context : AuthContext
ana_context = record {
  identity = codes "ana";
  role = agent;
  agent_id = some (codes "ana");
  tenant_id = none;
}

abbrev agent_key : ApiKeyInfo
agent_key = record { tenant = some (codes "acme"); role = agent }
