-- ===== src/Auth/State.antt =====
-- Authentication of a bearer token (crates/ecphoria-gateway/src/auth/middleware.rs, `AuthState`;
-- the claims are those of auth/jwt.rs). The validators of OIDC and JWT tokens are parameters: the
-- state holds the function that a configured validator is.
use ecphoria.Prelude.{
  ◌≡◌, Bool, true, not, ◌&&◌, Option, none, some, List, if◌then◌else◌, arith, or_else, is_some, ◌⊎◌,
  inl, inr, Bool-cases,
}
use ecphoria.Prelude.Eq.{nat_eq, list_eq, ◌==◌}
use ecphoria.Prelude.Text.{Str, codes}
use ecphoria.Auth.Roles.{Role, reader, from_str_loose, is_admin}
use ecphoria.Auth.Keys.{KeyDigest, ApiKeyInfo, find_key}

-- `exp` is read by the validators only.
pub record Claims : Type 0 where
  pub sub : Str
  pub role : Str
  pub agent_id : Option Str
  pub tenant_id : Option Str

pub record AuthContext : Type 0 where
  pub identity : Str
  pub role : Role
  pub agent_id : Option Str
  pub tenant_id : Option Str

-- The limiter and the audit log, which requests change, are in `Gate.Gateway`.
pub record AuthState : Type 0 where
  pub keys : List (KeyDigest × ApiKeyInfo)
  pub jwt : Option (Str → Option Claims)
  pub oidc : Option (Str → Option Claims)
  pub require_tenant : Bool
  pub shard_forward_secret : Option Str

unfoldable pub enforce_tenant : AuthState → AuthContext → Option AuthContext
enforce_tenant st ctx =
    if st.require_tenant && not (is_some ctx.tenant_id) && not (is_admin ctx.role)
    then none
    else some ctx

-- `a.or(b)`
abbrev or_option : Option Str → Option Str → Option Str
or_option none b = b
or_option (some a) b = some a

unfoldable pub context_of : Claims → AuthContext
context_of c = record {
  identity = c.sub;
  role = or_else reader (from_str_loose c.role);
  agent_id = or_option c.agent_id (if c.role == codes "agent" then some c.sub else none);
  tenant_id = c.tenant_id;
}

unfoldable pub key_context : ApiKeyInfo → AuthContext
key_context info = record {
  identity = codes "api-key-user";
  role = info.role;
  agent_id = none;
  tenant_id = info.tenant;
}

-- the claims of a validator that is configured and accepts
abbrev pub claims_by : Option (Str → Option Claims) → Str → Option Claims
claims_by none token = none
claims_by (some validate) token = validate token

module _ (sha256 : Str → KeyDigest) where
  -- the credential that the chain OIDC, JWT, API key resolves
  unfoldable pub resolve : AuthState → Str → Option AuthContext
  unfolding context_of key_context
  resolve st token = elim (claims_by st.oidc token) [
    | some c ↦ some (context_of c)
    | none ↦ elim (claims_by st.jwt token) [
      | some c ↦ some (context_of c)
      | none ↦ elim (find_key sha256 st.keys token) [
        | some info ↦ some (key_context info)
        | none ↦ none
      ]
    ]
  ]

  abbrev enforced : AuthState → Option AuthContext → Option AuthContext
  enforced st none = none
  enforced st (some ctx) = enforce_tenant st ctx

  unfoldable pub authenticate : AuthState → Str → Option AuthContext
  unfolding resolve
  authenticate st token = enforced st (resolve st token)

  enforced-tenant :
      (st : AuthState) (o : Option AuthContext) (ctx : AuthContext)
      → st.require_tenant ≡ true
      → enforced st o ≡ some ctx
      → (is_admin ctx.role ≡ true) ⊎ (is_some ctx.tenant_id ≡ true)
  unfolding enforce_tenant
  enforced-tenant st none ctx r h = ground arith
  enforced-tenant st (some x) ctx r h = elim (Bool-cases (is_admin x.role)) [
    | inl a ↦ ground arith
    | inr a ↦ elim (Bool-cases (is_some x.tenant_id)) [
      | inl t ↦ ground arith
      | inr t ↦ ground arith
    ]
  ]

  -- Where tenants are required, a token is admitted only as an administrator or with a tenant,
  -- whichever of the three credentials it is.
  pub authenticate_tenant :
      (st : AuthState) (token : Str) (ctx : AuthContext)
      → st.require_tenant ≡ true
      → authenticate st token ≡ some ctx
      → (is_admin ctx.role ≡ true) ⊎ (is_some ctx.tenant_id ≡ true)
  unfolding authenticate
  authenticate_tenant st token ctx r h = enforced-tenant st (resolve st token) ctx r h
