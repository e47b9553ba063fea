-- ===== src/Runs/Records.antt =====
-- What the ledger reads back of a run.
use ecphoria.Prelude.{
  ◌≡◌, ◌≢◌, refl, arith, true, false, Option, none, some, [], or_else, Option-cases, inl, inr,
}
use ecphoria.Prelude.Assoc.{lookup, lookup-insert}
use ecphoria.Prelude.Eq.{nat_eq, list_eq, list_beq_iff}
use ecphoria.Prelude.Result.{ok}
use ecphoria.Prelude.Text.{Str}
use ecphoria.Runs.Types.{Formats, Run, RunPatch, RunStatus, as_str, from_str, from_str-as_str}
use ecphoria.Runs.Store.{
  RunStore, RunRow, row_to_run, new_run, some_or, and_then, coalesce, coalesce_null, create, update,
  get, patched,
}

module _ (f : Formats) where
  some_or-time :
      (fallback : f.Time) (o : Option f.Time)
      → some_or (λ t. or_else fallback (f.parse_ts t)) (some_or f.to_rfc3339 o) ≡ o
  some_or-time fallback none = refl
  some_or-time fallback (some t) = simp (f.parse_ts-to_rfc3339 t)

  and_then-uuid : (o : Option f.Uuid) → and_then f f.parse_uuid (some_or f.uuid_text o) ≡ o
  and_then-uuid none = refl
  and_then-uuid (some u) = f.parse_uuid-uuid_text u

  row_to_run-new_run :
      (fallback : f.Time) (run : Run f)
      → row_to_run f fallback (f.uuid_text run.id) (new_run f run) ≡ run
  unfolding row_to_run
  row_to_run-new_run fallback run = simp (
    f.parse_uuid-uuid_text,
    f.parse_json-json_text,
    f.parse_ts-to_rfc3339,
    from_str-as_str,
    and_then-uuid run.parent_run_id,
    some_or-time fallback run.started_at,
    some_or-time fallback run.ended_at,
  )

  -- A run that the ledger did not know reads back as it was created; a create under an id that the
  -- ledger knows changes no row.
  pub get-create :
      (fallback : f.Time) (run : Run f) (s : RunStore)
      → s.faults ≡ []
      → (lookup (f.uuid_text run.id) s.runs ≡ none
          → (get f fallback run.id (create f run s).1).0 ≡ ok (some run))
        × (lookup (f.uuid_text run.id) s.runs ≢ none → (create f run s).1.runs ≡ s.runs)
  unfolding create get
  get-create fallback run s g = (
    λ n. ground (
      arith,
      row_to_run-new_run fallback run,
      lookup-insert (f.uuid_text run.id) (f.uuid_text run.id) (new_run f run) s.runs,
      list_beq_iff (f.uuid_text run.id) (f.uuid_text run.id),
    ),
    λ k. elim (Option-cases (lookup (f.uuid_text run.id) s.runs)) [
      | inr e ↦ absurd (k e)
      | inl (r, e) ↦ ground arith
    ],
  )

  -- Creating a run twice is creating it once.
  pub create-create :
      (run : Run f) (s : RunStore)
      → (create f run s).0 ≡ ok tt
      → (create f run (create f run s).1).1.runs ≡ (create f run s).1.runs
  unfolding create
  create-create run s h = elim (Option-cases (lookup (f.uuid_text run.id) s.runs)) [
    | inl (r, e) ↦ ground arith
    | inr e ↦ ground (
      arith,
      lookup-insert (f.uuid_text run.id) (f.uuid_text run.id) (new_run f run) s.runs,
      list_beq_iff (f.uuid_text run.id) (f.uuid_text run.id),
    )
  ]

  abbrev or_before : {A : Type 0} → Option A → Option A → Option A
  or_before none b = b
  or_before (some a) b = some a

  -- what a patch makes of a run
  abbrev pub apply_patch : RunPatch f → f.Time → Run f → Run f
  apply_patch p at run = record run {
    status = or_else run.status p.status;
    result = or_else run.result p.result;
    error = or_before p.error run.error;
    cursor = or_else run.cursor p.cursor;
    started_at = or_before p.started_at run.started_at;
    ended_at = or_before p.ended_at run.ended_at;
    updated_at = at;
  }

  status-coalesce :
      (o : Option RunStatus) (col : Str)
      → from_str (coalesce as_str o col) ≡ or_else (from_str col) o
  status-coalesce none col = refl
  status-coalesce (some a) col = from_str-as_str a

  json-coalesce :
      (o : Option f.Json) (col : Str)
      → or_else f.null (f.parse_json (coalesce f.json_text o col))
        ≡ or_else (or_else f.null (f.parse_json col)) o
  json-coalesce none col = refl
  json-coalesce (some a) col = simp (f.parse_json-json_text a)

  time-coalesce :
      (fallback : f.Time) (o : Option f.Time) (col : Option Str)
      → some_or (λ t. or_else fallback (f.parse_ts t)) (coalesce_null f.to_rfc3339 o col)
        ≡ or_before o (some_or (λ t. or_else fallback (f.parse_ts t)) col)
  time-coalesce fallback none col = refl
  time-coalesce fallback (some a) col = simp (f.parse_ts-to_rfc3339 a)

  error-coalesce : (o col : Option Str) → coalesce_null (λ e. e) o col ≡ or_before o col
  error-coalesce none col = refl
  error-coalesce (some a) col = refl

  row_to_run-patched :
      (fallback : f.Time) (id : Str) (p : RunPatch f) (at : f.Time) (r : RunRow)
      → row_to_run f fallback id (patched f p at r) ≡ apply_patch p at (row_to_run f fallback id r)
  unfolding row_to_run
  row_to_run-patched fallback id p at r = simp (
    f.parse_ts-to_rfc3339 at,
    status-coalesce p.status r.status,
    json-coalesce p.result r.result,
    json-coalesce p.cursor r.cursor,
    error-coalesce p.error r.error,
    time-coalesce fallback p.started_at r.started_at,
    time-coalesce fallback p.ended_at r.ended_at,
  )

  -- Where no statement fails, an update of a run that the ledger knows says so, and the run then
  -- reads back with the fields that the patch names changed, the time of the update, and all else as
  -- before; an update of an unknown run says so and changes no row.
  pub get-update :
      (fallback : f.Time) (id : f.Uuid) (p : RunPatch f) (at : f.Time) (s : RunStore)
      → s.faults ≡ []
      → (lookup (f.uuid_text id) s.runs ≡ none
          → ((update f id p at s).0 ≡ ok false) × ((update f id p at s).1.runs ≡ s.runs))
        × ((run : Run f)
            → (get f fallback id s).0 ≡ ok (some run)
            → ((update f id p at s).0 ≡ ok true)
              × ((get f fallback id (update f id p at s).1).0 ≡ ok (some (apply_patch p at run))))
  unfolding update get
  get-update fallback id p at s g = elim (Option-cases (lookup (f.uuid_text id) s.runs)) [
    | inr e ↦ (λ n. ground arith, λ run h. absurd (ground arith))
    | inl (r, e) ↦ (
      λ n. absurd (ground arith),
      λ run h. ground (
        arith,
        row_to_run-patched fallback (f.uuid_text id) p at r,
        lookup-insert (f.uuid_text id) (f.uuid_text id) (patched f p at r) s.runs,
        list_beq_iff (f.uuid_text id) (f.uuid_text id),
      ),
    )
  ]
