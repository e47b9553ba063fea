-- ===== src/Cluster/Proxy/Headers.antt =====
-- Which headers a proxied request carries.
use ecphoria.Prelude.{List, [], ◌∷◌}
use ecphoria.Prelude.Eq.{nat_eq, list_eq}
use ecphoria.Prelude.Text.{Str}

-- the last of the values, after `before`
abbrev pub last_of : List Str → List Str → List Str
last_of before [] = before
last_of before (v ∷ vs) = last_of (v ∷ []) vs
