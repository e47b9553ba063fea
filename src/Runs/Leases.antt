-- ===== src/Runs/Leases.antt =====
-- Who may drive a run.
use ecphoria.Prelude.{◌≡◌, ◌≢◌, refl, arith, true, Option, none, some, [], Option-cases, inl, inr}
use ecphoria.Prelude.Assoc.{lookup, lookup-insert}
use ecphoria.Prelude.Eq.{nat_eq, list_eq, list_beq_iff}
use ecphoria.Prelude.Result.{ok}
use ecphoria.Prelude.Text.{Str, str_lt}
use ecphoria.Runs.Types.{Formats, RunPatch}
use ecphoria.Runs.Store.{RunStore, RunRow, try_claim_lease, release_lease, update, leased, patched}

module _ (f : Formats) where
  claimed :
      (id : f.Uuid) (owner : Str) (now expires : f.Time) (s : RunStore)
      → (try_claim_lease f id owner now expires s).0 ≡ ok true
      → (r : RunRow) × (lookup (f.uuid_text id) s.runs ≡ some r)
        × (lookup (f.uuid_text id) (try_claim_lease f id owner now expires s).1.runs
            ≡ some (leased owner (f.to_rfc3339 expires) r))
  unfolding try_claim_lease
  claimed id owner now expires s h = elim (Option-cases (lookup (f.uuid_text id) s.runs)) [
    | inr e ↦ absurd (ground arith)
    | inl (r, e) ↦ (
      r,
      e,
      ground (
        arith,
        lookup-insert (f.uuid_text id) (f.uuid_text id) (leased owner (f.to_rfc3339 expires) r)
            s.runs,
        list_beq_iff (f.uuid_text id) (f.uuid_text id),
      ),
    )
  ]

  refused :
      (id : f.Uuid) (owner other : Str) (now expires : f.Time) (until : Str) (r : RunRow)
      (s : RunStore)
      → owner ≢ other
      → lookup (f.uuid_text id) s.runs ≡ some (leased owner until r)
      → str_lt (f.to_rfc3339 now) until ≡ true
      → ((try_claim_lease f id other now expires s).0 ≢ ok true)
        × ((try_claim_lease f id other now expires s).1.runs ≡ s.runs)
  unfolding try_claim_lease
  refused id owner other now expires until r s ne e l =
      (λ q. ground (arith, list_beq_iff owner other), ground (arith, list_beq_iff owner other))

  -- While a lease that was claimed has not expired, no other owner can claim the run, and the
  -- attempt changes no row.
  pub lease_exclusive :
      (id : f.Uuid) (owner other : Str) (now until later_now later_until : f.Time) (s : RunStore)
      → owner ≢ other
      → (try_claim_lease f id owner now until s).0 ≡ ok true
      → str_lt (f.to_rfc3339 later_now) (f.to_rfc3339 until) ≡ true
      → ((try_claim_lease f id other later_now later_until
            (try_claim_lease f id owner now until s).1).0
          ≢ ok true)
        × ((try_claim_lease f id other later_now later_until
              (try_claim_lease f id owner now until s).1).1.runs
            ≡ (try_claim_lease f id owner now until s).1.runs)
  lease_exclusive id owner other now until later_now later_until s ne h l =
      let (r, e, q) = claimed id owner now until s h in
      refused id owner other later_now later_until (f.to_rfc3339 until) r
        (try_claim_lease f id owner now until s).1 ne q l

  free_claim :
      (id : f.Uuid) (owner : Str) (now until : f.Time) (r : RunRow) (s : RunStore)
      → s.faults ≡ []
      → lookup (f.uuid_text id) s.runs ≡ some r
      → r.lease_owner ≡ none
      → (try_claim_lease f id owner now until s).0 ≡ ok true
  unfolding try_claim_lease
  free_claim id owner now until r s g e n = ground arith

  abbrev unleased : RunRow → RunRow
  unleased r = record r { lease_owner = none; lease_expires_at = none }

  released :
      (id : f.Uuid) (owner until : Str) (r : RunRow) (s : RunStore)
      → s.faults ≡ []
      → lookup (f.uuid_text id) s.runs ≡ some (leased owner until r)
      → ((release_lease f id owner s).1.faults ≡ [])
        × (lookup (f.uuid_text id) (release_lease f id owner s).1.runs ≡ some (unleased r))
  unfolding release_lease
  released id owner until r s g e = ground (
    arith,
    lookup-insert (f.uuid_text id) (f.uuid_text id) (unleased r) s.runs,
    list_beq_iff (f.uuid_text id) (f.uuid_text id),
    list_beq_iff owner owner,
  )

  claim_faults :
      (id : f.Uuid) (owner : Str) (now until : f.Time) (s : RunStore)
      → s.faults ≡ []
      → (try_claim_lease f id owner now until s).1.faults ≡ []
  unfolding try_claim_lease
  claim_faults id owner now until s g = ground arith

  -- An owner that releases its lease leaves the run to any other, at any time, where no statement
  -- fails.
  pub try_claim_lease-release_lease :
      (id : f.Uuid) (owner other : Str) (now until later_now later_until : f.Time) (s : RunStore)
      → s.faults ≡ []
      → (try_claim_lease f id owner now until s).0 ≡ ok true
      → (try_claim_lease f id other later_now later_until
          (release_lease f id owner (try_claim_lease f id owner now until s).1).1).0
        ≡ ok true
  try_claim_lease-release_lease id owner other now until later_now later_until s g h =
      let s1 = (try_claim_lease f id owner now until s).1 in
      let (r, e, q) = claimed id owner now until s h in
      let (g2, e2) =
        released id owner (f.to_rfc3339 until) r s1 (claim_faults id owner now until s g) q in
      free_claim id other later_now later_until (unleased r) (release_lease f id owner s1).1 g2 e2
        refl

  abbrev pub lease_of : Option RunRow → Option (Option Str × Option Str)
  lease_of none = none
  lease_of (some r) = some (r.lease_owner, r.lease_expires_at)

  -- A patch leaves the lease of every run as it is.
  pub update_lease :
      (id key : f.Uuid) (p : RunPatch f) (at : f.Time) (s : RunStore)
      → lease_of (lookup (f.uuid_text key) (update f id p at s).1.runs)
        ≡ lease_of (lookup (f.uuid_text key) s.runs)
  unfolding update
  update_lease id key p at s = elim (Option-cases (lookup (f.uuid_text id) s.runs)) [
    | inr e ↦ ground arith
    | inl (r, e) ↦ ground (
      arith,
      lookup-insert (f.uuid_text id) (f.uuid_text key) (patched f p at r) s.runs,
      list_beq_iff (f.uuid_text id) (f.uuid_text key),
    )
  ]
