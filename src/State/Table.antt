-- ===== src/State/Table.antt =====
-- The table `state` (crates/ecphoria-core/src/memory/state.rs) and the conditions of its statements.
use ecphoria.Prelude.{
  ℕ, ◌+◌, ◌≡◌, Bool, true, false, Option, none, some, List, [], ◌∷◌, if◌then◌else◌,
}
use ecphoria.Prelude.Assoc.{Assoc}
use ecphoria.Prelude.Eq.{Eq, nat_eq, list_eq, pair_eq}
use ecphoria.Prelude.Text.{Str, str_lt}

-- `serde_json::Value` and its text: printing may fail, and what was printed parses back.
pub record Json : Type 1 where
  pub Value : Type 0
  pub null : Value
  pub to_string : Value → Option Str
  pub from_str : Str → Option Value
  pub from_str-to_string : (v : Value) (s : Str) → to_string v ≡ some s → from_str s ≡ some v

-- The two texts that an instant has: chrono's RFC 3339 form, and SQLite's `datetime('now')`.
pub record Clock : Type 0 where
  pub to_rfc3339 : ℕ → Str
  pub datetime : ℕ → Str

-- (agent_id, key)
abbrev pub Key : Type 0
Key = Str × Str

-- Shut, so that proofs use its law.
instance unfoldable pub key_eq : Eq Key
key_eq = pair_eq

pub record Row : Type 0 where
  pub value : Str
  pub version : ℕ
  pub expires_at : Option Str

-- expires_at IS NULL OR expires_at > ?
abbrev pub is_live : Str → Row → Bool
is_live now r = elim r.expires_at [ none ↦ true | some t ↦ str_lt now t ]

-- expires_at IS NOT NULL AND expires_at < ?
abbrev pub is_expired : Str → Row → Bool
is_expired now r = elim r.expires_at [ none ↦ false | some t ↦ str_lt t now ]

abbrev pub live_row : Str → Option Row → Option Row
live_row now none = none
live_row now (some r) = if is_live now r then some r else none

-- INSERT … ON CONFLICT(agent_id, key) DO UPDATE SET value, version = version + 1, …; the column
-- `expires_at` is set only where the statement names it.
abbrev pub new_row : Str → Option Str → Bool → Option Row → Row
new_row value expires names_expiry none = record {
  value = value;
  version = 1;
  expires_at = expires;
}
new_row value expires names_expiry (some r) = record {
  value = value;
  version = r.version + 1;
  expires_at = if names_expiry then expires else r.expires_at;
}

-- SELECT agent_id, key FROM state WHERE …
unfoldable pub keys_where : (Key → Row → Bool) → Assoc Key Row → List Key
keys_where p [] = []
keys_where p ((k, r) ∷ rows) = let rest = keys_where p rows in if p k r then k ∷ rest else rest

-- DELETE FROM state WHERE …
unfoldable pub delete_rows : (Key → Row → Bool) → Assoc Key Row → Assoc Key Row
delete_rows p [] = []
delete_rows p ((k, r) ∷ rows) =
    let rest = delete_rows p rows in if p k r then rest else (k, r) ∷ rest
