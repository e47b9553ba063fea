-- ===== src/Auth/Roles.antt =====
-- Roles and what they allow (crates/ecphoria-gateway/src/auth/middleware.rs, `Role`).
use ecphoria.Prelude.{◌≡◌, Bool, true, false, Option, none, some, if◌then◌else◌, arith}
use ecphoria.Prelude.Eq.{nat_eq, list_eq, ◌==◌}
use ecphoria.Prelude.Text.{Str, codes, to_lowercase}

pub data Role : Type 0 where
  admin writer reader agent : Role

-- axum's `Method`; `other` stands for TRACE, CONNECT and extensions.
pub data Method : Type 0 where
  get head options post put patch delete other : Method

-- The only letter outside ASCII that folds into ASCII is the Kelvin sign, and no role has a `k`.
unfoldable pub from_str_loose : Str → Option Role
from_str_loose s =
    let l = to_lowercase s in
    if l == codes "admin"
    then some admin
    else if l == codes "writer"
    then some writer
    else if l == codes "reader"
    then some reader
    else if l == codes "agent"
    then some agent
    else none

unfoldable pub allows_method : Role → Method → Bool
allows_method admin m = true
allows_method reader get = true
allows_method reader head = true
allows_method reader options = true
allows_method reader _ = false
allows_method writer get = true
allows_method writer head = true
allows_method writer options = true
allows_method writer post = true
allows_method writer put = true
allows_method writer _ = false
allows_method agent get = true
allows_method agent head = true
allows_method agent options = true
allows_method agent post = true
allows_method agent put = true
allows_method agent _ = false

unfoldable pub allows_admin_path : Role → Bool
allows_admin_path admin = true
allows_admin_path _ = false

unfoldable pub is_agent : Role → Bool
is_agent agent = true
is_agent _ = false

unfoldable pub is_admin : Role → Bool
is_admin admin = true
is_admin _ = false

-- Whatever a reader may do a writer may, an agent may exactly what a writer may, and an
-- administrator may do everything.
pub allows_method_mono :
    (m : Method)
    → (allows_method reader m ≡ true → allows_method writer m ≡ true)
      × (allows_method writer m ≡ allows_method agent m)
      × (allows_method admin m ≡ true)
unfolding allows_method
allows_method_mono get = ground arith
allows_method_mono _ = ground arith
