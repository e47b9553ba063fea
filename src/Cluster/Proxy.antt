-- ===== src/Cluster/Proxy.antt =====
-- The reverse proxy hop (crates/ecphoria-gateway/src/cluster/shard_route.rs, `proxy` and
-- `reqwest_to_axum`). Header names are in lower case, as `HeaderMap` keeps them. What the network
-- answers to each attempt is a parameter.
pub mod Headers
pub mod Attempts
use ecphoria.Prelude.{
  ℕ, zero, suc, ◌+◌, Bool, true, false, not, ◌&&◌, ◌||◌, Option, none, some, List, [], ◌∷◌, ◌++◌,
  if◌then◌else◌, or_else, eqb, map,
}
use ecphoria.Prelude.Eq.{nat_eq, list_eq, ◌==◌}
use ecphoria.Prelude.Text.{Str, codes, to_lowercase}
use ecphoria.Auth.Roles.{Method}

-- one element for each value of each header, in the order of iteration
abbrev pub HeaderMap : Type 0
HeaderMap = List (Str × Str)

abbrev pub remove_header : Str → HeaderMap → HeaderMap
remove_header n [] = []
remove_header n ((k, v) ∷ h) =
    let rest = remove_header n h in if k == n then rest else (k, v) ∷ rest

-- `HeaderMap::insert`, which replaces every value of the name
unfoldable pub insert_header : Str → Str → HeaderMap → HeaderMap
insert_header n v h = (n, v) ∷ remove_header n h

-- `HeaderMap::get_all`
unfoldable pub values_of : Str → HeaderMap → List Str
values_of n [] = []
values_of n ((k, v) ∷ h) = let rest = values_of n h in if k == n then v ∷ rest else rest

unfoldable pub contains_key : Str → HeaderMap → Bool
contains_key n [] = false
contains_key n ((k, v) ∷ h) = k == n || contains_key n h

abbrev pub one_of : Str → List Str → Bool
one_of n [] = false
one_of n (k ∷ ks) = n == k || one_of n ks

unfoldable pub is_hop_by_hop : Str → Bool
is_hop_by_hop name = one_of (to_lowercase name) (
    codes "connection"
    ∷ codes "keep-alive"
    ∷ codes "proxy-authenticate"
    ∷ codes "proxy-authorization"
    ∷ codes "te"
    ∷ codes "trailer"
    ∷ codes "trailers"
    ∷ codes "transfer-encoding"
    ∷ codes "upgrade"
    ∷ [])

unfoldable pub is_kept_back : Str → Bool
is_kept_back n =
    is_hop_by_hop n || to_lowercase n == codes "host" || to_lowercase n == codes "content-length"

-- The copying loops, on the headers that come and the headers copied before. `drops` says which
-- names are passed over.
unfoldable pub copy_headers : (Str → Bool) → HeaderMap → HeaderMap → HeaderMap
copy_headers drops [] out = out
copy_headers drops ((n, v) ∷ h) out =
    copy_headers drops h (if drops n then out else insert_header n v out)

pub record Request : Type 0 where
  pub method : Method
  -- `uri().path()` and `uri().path_and_query()` as the layer sees them
  pub path : Str
  pub path_and_query : Option Str
  -- the same of `OriginalUri`, where the extension is there
  pub original_path : Option Str
  pub original_path_and_query : Option Str
  pub headers : HeaderMap
  -- `none`: reading the body fails, or it is larger than 16 MB
  pub body : Option (List ℕ)
  -- `tenant_id` of `AuthContext`, where the extension is there
  pub tenant : Option Str

pub record Response : Type 0 where
  pub status : ℕ
  pub headers : HeaderMap
  pub body : List ℕ

-- what is sent to the other node
pub record Outgoing : Type 0 where
  pub method : Method
  pub url : Str
  pub headers : HeaderMap
  pub body : List ℕ

-- The answer to each attempt, counted from 0, or a failure of the connection.
abbrev pub Network : Type 0
Network = ℕ → Outgoing → Option Response

-- The body of a refusal is JSON, of which only the kind of error is told apart.
abbrev pub refusal : ℕ → Str → Response
refusal status kind = record { status = status; headers = []; body = kind }

unfoldable pub reqwest_to_axum : Response → Response
unfolding copy_headers is_hop_by_hop
reqwest_to_axum r = record r {
  headers =
      copy_headers (λ n. is_hop_by_hop n || to_lowercase n == codes "content-length") r.headers [];
}

abbrev pub after_attempts : Option Response → Response
after_attempts none = refusal 502 []
after_attempts (some r) = reqwest_to_axum r

-- `for _ in 0..4`, from attempt `i` on, with the last answer of status 307
unfoldable pub attempts : Network → ℕ → ℕ → Option Response → Outgoing → Response
attempts net zero i last out = after_attempts last
attempts net (suc n) i last out = elim (net i out) [
  | none ↦ refusal 502 (codes "shard_proxy_failed")
  | some r ↦ elim (eqb r.status 307) [
    | true ↦ attempts net n (i + 1) (some r) out
    | false ↦ reqwest_to_axum r
  ]
]

abbrev or_option : Option Str → Option Str → Option Str
or_option none o = o
or_option (some s) o = some s

-- `is_header_value` is `HeaderValue::from_str(…).is_ok()`.
module _ (is_header_value : Str → Bool) where
  abbrev pub marker_value : Option Str → Str
  marker_value marker =
      if is_header_value (or_else (codes "1") marker) then or_else (codes "1") marker else codes "1"

  unfoldable pub outgoing : Str → Request → List ℕ → Str → Option Str → Outgoing
  unfolding insert_header copy_headers is_kept_back
  outgoing base req bytes marker_header marker = record {
    method = req.method;
    url = base ++ or_else (codes "/") (or_option req.original_path_and_query req.path_and_query);
    headers =
        insert_header marker_header (marker_value marker)
          (copy_headers is_kept_back req.headers []);
    body = bytes;
  }

  -- The method is one for `reqwest` too, since both are `http::Method`.
  unfoldable pub proxy : Network → Str → Request → Str → Option Str → Response
  proxy net base req marker_header marker = elim req.body [
    | none ↦ refusal 400 []
    | some bytes ↦ attempts net 4 0 none (outgoing base req bytes marker_header marker)
  ]
