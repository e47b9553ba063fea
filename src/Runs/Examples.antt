-- ===== src/Runs/Examples.antt =====
-- The ledger on numbers whose text is one character.
use ecphoria.Prelude.{ℕ, ◌≡◌, ◌≢◌, refl, arith, true, Option, none, some, [], ◌∷◌}
use ecphoria.Prelude.Assoc.{lookup}
use ecphoria.Prelude.Eq.{nat_eq, list_eq}
use ecphoria.Prelude.Result.{ok}
use ecphoria.Prelude.Text.{Str, codes}
use ecphoria.Runs.Types.{Formats, Run, RunPatch, running, succeeded}
use ecphoria.Runs.Store.{RunStore, new_run, try_claim_lease, create}
use ecphoria.Runs.Leases.{lease_exclusive}

abbrev text : ℕ → Str
text n = n ∷ []

abbrev parse : Str → Option ℕ
parse (n ∷ []) = some n
parse _ = none

abbrev numbers : Formats
numbers = record {
  Uuid = ℕ;
  nil = 0;
  uuid_text = text;
  parse_uuid = parse;
  parse_uuid-uuid_text = λ u. refl;
  Json = ℕ;
  null = 0;
  json_text = text;
  parse_json = parse;
  parse_json-json_text = λ v. refl;
  Time = ℕ;
  to_rfc3339 = text;
  parse_ts = parse;
  parse_ts-to_rfc3339 = λ t. refl;
}

abbrev first_run : Run numbers
first_run = record {
  id = 7;
  tenant_id = codes "acme";
  agent_id = none;
  parent_run_id = some 3;
  status = running;
  input = 1;
  result = 0;
  error = none;
  cursor = 0;
  created_at = 10;
  updated_at = 10;
  started_at = some 10;
  ended_at = none;
}

abbrev empty : RunStore
empty = record { runs = []; faults = [] }

abbrev one : RunStore
one = record { runs = (text 7, new_run numbers first_run) ∷ []; faults = [] }

abbrev finish : RunPatch numbers
finish = record {
  status = some succeeded;
  result = some 5;
  error = none;
  cursor = none;
  started_at = none;
  ended_at = some 20;
}

ana_claims : (try_claim_lease numbers 7 (codes "ana") 10 20 one).0 ≡ ok true
unfolding try_claim_lease lookup
ana_claims = refl

abbrev held : RunStore
held = (try_claim_lease numbers 7 (codes "ana") 10 20 one).1

ana_ne_bo : codes "ana" ≢ codes "bo"
ana_ne_bo = λ e. ground (arith, e)

lease_exclusive_example :
    ((try_claim_lease numbers 7 (codes "bo") 15 30 held).0 ≢ ok true)
    × ((try_claim_lease numbers 7 (codes "bo") 15 30 held).1.runs ≡ held.runs)
lease_exclusive_example =
    lease_exclusive numbers 7 (codes "ana") (codes "bo") 10 20 15 30 one ana_ne_bo ana_claims refl

created : (create numbers first_run empty).0 ≡ ok tt
unfolding create lookup
created = refl
