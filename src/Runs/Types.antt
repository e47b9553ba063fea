-- ===== src/Runs/Types.antt =====
-- Runs and their states (crates/ecphoria-core/src/runtime/types.rs).
use ecphoria.Prelude.{◌≡◌, refl, Option, some, if◌then◌else◌}
use ecphoria.Prelude.Eq.{nat_eq, list_eq, ◌==◌}
use ecphoria.Prelude.Text.{Str, codes}

-- Identifiers, JSON values and times with their texts, which parse back to them.
pub record Formats : Type 1 where
  pub Uuid : Type 0
  pub nil : Uuid
  pub uuid_text : Uuid → Str
  pub parse_uuid : Str → Option Uuid
  pub parse_uuid-uuid_text : (u : Uuid) → parse_uuid (uuid_text u) ≡ some u
  pub Json : Type 0
  pub null : Json
  pub json_text : Json → Str
  pub parse_json : Str → Option Json
  pub parse_json-json_text : (v : Json) → parse_json (json_text v) ≡ some v
  pub Time : Type 0
  pub to_rfc3339 : Time → Str
  pub parse_ts : Str → Option Time
  pub parse_ts-to_rfc3339 : (t : Time) → parse_ts (to_rfc3339 t) ≡ some t

pub data RunStatus : Type 0 where
  pending running waiting_approval succeeded failed cancelled : RunStatus

unfoldable pub as_str : RunStatus → Str
as_str pending = codes "pending"
as_str running = codes "running"
as_str waiting_approval = codes "waiting_approval"
as_str succeeded = codes "succeeded"
as_str failed = codes "failed"
as_str cancelled = codes "cancelled"

unfoldable pub from_str : Str → RunStatus
from_str s =
    if s == codes "running"
    then running
    else if s == codes "waiting_approval"
    then waiting_approval
    else if s == codes "succeeded"
    then succeeded
    else if s == codes "failed"
    then failed
    else if s == codes "cancelled"
    then cancelled
    else pending

pub from_str-as_str : (s : RunStatus) → from_str (as_str s) ≡ s
unfolding from_str as_str
from_str-as_str pending = refl
from_str-as_str running = refl
from_str-as_str waiting_approval = refl
from_str-as_str succeeded = refl
from_str-as_str failed = refl
from_str-as_str cancelled = refl

module _ (f : Formats) where
  pub record Run : Type 0 where
    pub id : f.Uuid
    pub tenant_id : Str
    pub agent_id : Option Str
    pub parent_run_id : Option f.Uuid
    pub status : RunStatus
    pub input : f.Json
    pub result : f.Json
    pub error : Option Str
    pub cursor : f.Json
    pub created_at : f.Time
    pub updated_at : f.Time
    pub started_at : Option f.Time
    pub ended_at : Option f.Time

  pub record RunPatch : Type 0 where
    pub status : Option RunStatus
    pub result : Option f.Json
    pub error : Option Str
    pub cursor : Option f.Json
    pub started_at : Option f.Time
    pub ended_at : Option f.Time
