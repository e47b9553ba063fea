-- ===== src/Runs/Store.antt =====
-- `RunStore` (crates/ecphoria-core/src/runtime/store.rs): the table `runs` by the text of its id.
-- `faults` holds the outcomes of the coming statements.
use ecphoria.Prelude.{
  Bool, true, false, not, ◌||◌, Option, none, some, List, if◌then◌else◌, or_else,
}
use ecphoria.Prelude.Assoc.{Assoc, lookup, insert}
use ecphoria.Prelude.Eq.{nat_eq, list_eq, ◌==◌}
use ecphoria.Prelude.Faults.{fails, later}
use ecphoria.Prelude.Result.{ok, err, Exec}
use ecphoria.Prelude.Text.{Str, str_lt}
use ecphoria.Runs.Types.{Formats, Run, RunPatch, as_str, from_str}

pub record RunRow : Type 0 where
  pub tenant_id : Str
  pub agent_id : Option Str
  pub parent_run_id : Option Str
  pub status : Str
  pub input : Str
  pub result : Str
  pub error : Option Str
  pub cursor : Str
  pub created_at : Str
  pub updated_at : Str
  pub started_at : Option Str
  pub ended_at : Option Str
  pub lease_owner : Option Str
  pub lease_expires_at : Option Str

pub record RunStore : Type 0 where
  pub runs : Assoc Str RunRow
  pub faults : List Bool

pub data RunError : Type 0 where
  run_error : RunError

abbrev pub Op : Type 0 → Type 0
Op A = Exec RunStore RunError A

-- One statement, which fails without effect or has the effect and the answer of `run`.
abbrev pub statement : {A : Type 0} → (Assoc Str RunRow → A × Assoc Str RunRow) → Op A
statement run s =
    if fails s.faults
    then (err run_error, record s { faults = later s.faults })
    else (ok (run s.runs).0, record { runs = (run s.runs).1; faults = later s.faults })

abbrev pub some_or : {A B : Type 0} → (A → B) → Option A → Option B
some_or g none = none
some_or g (some a) = some (g a)

-- COALESCE(?, col)
abbrev pub coalesce : {A : Type 0} → (A → Str) → Option A → Str → Str
coalesce text none col = col
coalesce text (some a) col = text a

abbrev pub coalesce_null : {A : Type 0} → (A → Str) → Option A → Option Str → Option Str
coalesce_null text none col = col
coalesce_null text (some a) col = some (text a)

-- the condition of the claim: no owner, the same owner, or no expiry after `now`
abbrev pub is_claimable : Str → Str → RunRow → Bool
is_claimable owner now r =
    elim r.lease_owner [ none ↦ true | some o ↦ o == owner ]
    || elim r.lease_expires_at [ none ↦ true | some t ↦ not (str_lt now t) ]

abbrev pub leased : Str → Str → RunRow → RunRow
leased owner expires r = record r { lease_owner = some owner; lease_expires_at = some expires }

abbrev claim_row :
    Str → Str → Str → Str → Option RunRow → Assoc Str RunRow → Bool × Assoc Str RunRow
claim_row id owner now expires none runs = (false, runs)
claim_row id owner now expires (some r) runs =
    if is_claimable owner now r
    then (true, insert id (leased owner expires r) runs)
    else (false, runs)

abbrev release_row : Str → Str → Option RunRow → Assoc Str RunRow → Unit {0} × Assoc Str RunRow
release_row id owner none runs = (tt, runs)
release_row id owner (some r) runs =
    if elim r.lease_owner [ none ↦ false | some o ↦ o == owner ]
    then (tt, insert id (record r { lease_owner = none; lease_expires_at = none }) runs)
    else (tt, runs)

abbrev pub create_row :
    Str → RunRow → Option RunRow → Assoc Str RunRow → Unit {0} × Assoc Str RunRow
create_row id row none runs = (tt, insert id row runs)
create_row id row (some r) runs = (tt, runs)

module _ (f : Formats) where
  unfoldable pub try_claim_lease : f.Uuid → Str → f.Time → f.Time → Op Bool
  try_claim_lease id owner now expires_at = statement (λ runs.
      let key = f.uuid_text id in
      claim_row key owner (f.to_rfc3339 now) (f.to_rfc3339 expires_at) (lookup key runs) runs)

  unfoldable pub release_lease : f.Uuid → Str → Op Unit
  release_lease id owner =
      statement (λ runs. let key = f.uuid_text id in release_row key owner (lookup key runs) runs)

  abbrev pub new_run : Run f → RunRow
  new_run run = record {
    tenant_id = run.tenant_id;
    agent_id = run.agent_id;
    parent_run_id = some_or f.uuid_text run.parent_run_id;
    status = as_str run.status;
    input = f.json_text run.input;
    result = f.json_text run.result;
    error = run.error;
    cursor = f.json_text run.cursor;
    created_at = f.to_rfc3339 run.created_at;
    updated_at = f.to_rfc3339 run.updated_at;
    started_at = some_or f.to_rfc3339 run.started_at;
    ended_at = some_or f.to_rfc3339 run.ended_at;
    lease_owner = none;
    lease_expires_at = none;
  }

  -- ON CONFLICT(id) DO NOTHING
  unfoldable pub create : Run f → Op Unit
  create run =
      statement (λ runs.
        let key = f.uuid_text run.id in create_row key (new_run run) (lookup key runs) runs)

  abbrev pub patched : RunPatch f → f.Time → RunRow → RunRow
  patched p updated_at r = record r {
    status = coalesce as_str p.status r.status;
    result = coalesce f.json_text p.result r.result;
    error = coalesce_null (λ e. e) p.error r.error;
    cursor = coalesce f.json_text p.cursor r.cursor;
    started_at = coalesce_null f.to_rfc3339 p.started_at r.started_at;
    ended_at = coalesce_null f.to_rfc3339 p.ended_at r.ended_at;
    updated_at = f.to_rfc3339 updated_at;
  }

  abbrev pub update_row :
      Str → RunPatch f → f.Time → Option RunRow → Assoc Str RunRow → Bool × Assoc Str RunRow
  update_row id p updated_at none runs = (false, runs)
  update_row id p updated_at (some r) runs = (true, insert id (patched p updated_at r) runs)

  unfoldable pub update : f.Uuid → RunPatch f → f.Time → Op Bool
  update id p updated_at =
      statement
        (λ runs. let key = f.uuid_text id in update_row key p updated_at (lookup key runs) runs)

  abbrev pub and_then : {A B : Type 0} → (A → Option B) → Option A → Option B
  and_then g none = none
  and_then g (some a) = g a

  -- `fallback` is the time at which a time that does not parse is read
  unfoldable pub row_to_run : f.Time → Str → RunRow → Run f
  row_to_run fallback id r =
      let time : Str → f.Time = λ t. or_else fallback (f.parse_ts t) in
      record {
        id = or_else f.nil (f.parse_uuid id);
        tenant_id = r.tenant_id;
        agent_id = r.agent_id;
        parent_run_id = and_then f.parse_uuid r.parent_run_id;
        status = from_str r.status;
        input = or_else f.null (f.parse_json r.input);
        result = or_else f.null (f.parse_json r.result);
        error = r.error;
        cursor = or_else f.null (f.parse_json r.cursor);
        created_at = time r.created_at;
        updated_at = time r.updated_at;
        started_at = some_or time r.started_at;
        ended_at = some_or time r.ended_at;
      }

  abbrev pub read_row : f.Time → Str → Option RunRow → Option (Run f)
  read_row fallback id none = none
  read_row fallback id (some r) = some (row_to_run fallback id r)

  unfoldable pub get : f.Time → f.Uuid → Op (Option (Run f))
  unfolding row_to_run
  get fallback id =
      statement
        (λ runs. let key = f.uuid_text id in (read_row fallback key (lookup key runs), runs))
