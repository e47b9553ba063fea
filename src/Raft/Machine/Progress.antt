-- ===== src/Raft/Machine/Progress.antt =====
-- How far the state machine gets: `last_applied` names the last entry that was applied in full.
use ecphoria.Prelude.{
  ◌≡◌, refl, ap, Bool, Option, none, some, List, [], ◌∷◌, ◌++◌, arith, length, Option-cases, inl,
  inr,
}
use ecphoria.Prelude.Result.{Result, Result-cases, ok, err}
use ecphoria.Raft.Types.{
  Types, Codecs, LogId, Entry, EntryPayload, blank, normal, membership, AppResponse, StorageError,
}
use ecphoria.Raft.Store.{encoded, persist_meta}
use ecphoria.Raft.Machine.{
  Engine, MemStore, apply_entry, apply_to_state_machine, effect, mark_applied, set_membership,
  on_inner, on_engine, apply_request,
}

module _ {t : Types} where
  -- the id of the last of `done`, or what was there before
  abbrev pub applied_upto : List (Entry t) → Option (LogId t) → Option (LogId t)
  applied_upto [] before = before
  applied_upto (x ∷ xs) before = applied_upto xs (some x.log_id)

module _ {t : Types} {e : Engine t} where
  abbrev pub after_one :
      Result (StorageError t) AppResponse × MemStore e
      → (MemStore e → Option (MemStore e))
      → Option (MemStore e)
  after_one (ok r, s) next = next s
  after_one (err y, s) next = none

module _ {t : Types} (e : Engine t) (agentic : Bool) (c : Codecs t) where
  effect-last_applied :
      (id : LogId t) (p : EntryPayload t) (s : MemStore e)
      → (effect e agentic c id p s).1.inner.last_applied ≡ s.inner.last_applied
  unfolding effect set_membership on_inner apply_request on_engine encoded persist_meta
  effect-last_applied id blank s = refl
  effect-last_applied id (normal req) s = ground arith
  effect-last_applied id (membership m) s =
      elim (Option-cases (c.stored_membership.to_vec (c.new_membership (some id) m))) [
        | inl (b, e1) ↦ ground arith
        | inr e1 ↦ ground arith
      ]

  mark_applied-ok :
      (id : LogId t) (s : MemStore e)
      → (mark_applied e c id s).0 ≡ ok tt
      → (mark_applied e c id s).1.inner.last_applied ≡ some id
  unfolding mark_applied on_inner encoded persist_meta
  mark_applied-ok id s h = elim (Option-cases (c.log_id.to_vec (some id))) [
    | inl (b, e1) ↦ ground arith
    | inr e1 ↦ ground arith
  ]

  mark_applied-err :
      (id : LogId t) (s : MemStore e) (x : StorageError t)
      → (mark_applied e c id s).0 ≡ err x
      → (mark_applied e c id s).1.inner.last_applied ≡ s.inner.last_applied
  unfolding mark_applied on_inner encoded persist_meta
  mark_applied-err id s x h = elim (Option-cases (c.log_id.to_vec (some id))) [
    | inl (b, e1) ↦ ground arith
    | inr e1 ↦ ground arith
  ]

  -- `last_applied` moves exactly when the whole entry was applied.
  apply_entry-ok :
      (x : Entry t) (s : MemStore e) (r : AppResponse)
      → (apply_entry e agentic c x s).0 ≡ ok r
      → (apply_entry e agentic c x s).1.inner.last_applied ≡ some x.log_id
  unfolding apply_entry
  apply_entry-ok x s r h =
      ground (arith, mark_applied-ok x.log_id (effect e agentic c x.log_id x.payload s).1)

  apply_entry-err :
      (x : Entry t) (s : MemStore e) (y : StorageError t)
      → (apply_entry e agentic c x s).0 ≡ err y
      → (apply_entry e agentic c x s).1.inner.last_applied ≡ s.inner.last_applied
  unfolding apply_entry
  apply_entry-err x s y h = ground (
    arith,
    effect-last_applied x.log_id x.payload s,
    mark_applied-err x.log_id (effect e agentic c x.log_id x.payload s).1 y,
  )

  -- When every entry is applied there is one response for each, and `last_applied` is the id of the
  -- last entry, or as before if there is none.
  pub apply_to_state_machine-ok :
      (xs : List (Entry t)) (s : MemStore e) (rs : List AppResponse)
      → (apply_to_state_machine e agentic c xs s).0 ≡ ok rs
      → (length rs ≡ length xs)
        × ((apply_to_state_machine e agentic c xs s).1.inner.last_applied
            ≡ applied_upto xs s.inner.last_applied)
  unfolding apply_to_state_machine
  apply_to_state_machine-ok [] s rs h = ground arith
  apply_to_state_machine-ok (x ∷ xs) s rs h = elim (Result-cases (apply_entry e agentic c x s).0) [
    | inr (y, e1) ↦ ground arith
    | inl (r, e1) ↦
        (let s1 = (apply_entry e agentic c x s).1 in
          elim (Result-cases (apply_to_state_machine e agentic c xs s1).0) [
            | inr (y, e2) ↦ ground arith
            | inl (rest, e2) ↦
                ground (arith, apply_to_state_machine-ok xs s1 rest e2, apply_entry-ok x s r e1)
          ])
  ]

  -- the store after entries that were all applied, or `none`
  unfoldable pub after_each : List (Entry t) → MemStore e → Option (MemStore e)
  after_each [] s = some s
  after_each (x ∷ xs) s = after_one (apply_entry e agentic c x s) (after_each xs)

  -- When applying fails, the entries are some that were all applied one by one, then one that failed
  -- in the store after them with the error that is returned, then others that were not tried: the
  -- store is that after the failed one, and `last_applied` is the id of the last entry before it, or
  -- as before if it is the first.
  pub apply_to_state_machine-err :
      (xs : List (Entry t)) (s : MemStore e) (y : StorageError t)
      → (apply_to_state_machine e agentic c xs s).0 ≡ err y
      → (done : List (Entry t)) × (failed : Entry t) × (rest : List (Entry t)) × (before : MemStore
          e)
        × (xs ≡ done ++ failed ∷ rest)
        × (after_each done s ≡ some before)
        × ((apply_entry e agentic c failed before).0 ≡ err y)
        × ((apply_to_state_machine e agentic c xs s).1 ≡ (apply_entry e agentic c failed before).1)
        × ((apply_to_state_machine e agentic c xs s).1.inner.last_applied
            ≡ applied_upto done s.inner.last_applied)
  unfolding apply_to_state_machine after_each
  apply_to_state_machine-err [] s y h = cc
  apply_to_state_machine-err (x ∷ xs) s y h = elim (Result-cases (apply_entry e agentic c x s).0) [
    | inr (z, e1) ↦ (
      [],
      x,
      xs,
      s,
      refl,
      refl,
      ground arith,
      ground arith,
      ground (arith, apply_entry-err x s z e1),
    )
    | inl (r, e1) ↦
        (let s1 = (apply_entry e agentic c x s).1 in
          elim (Result-cases (apply_to_state_machine e agentic c xs s1).0) [
            | inl (rs, e2) ↦ absurd (ground arith)
            | inr (z, e2) ↦
                (let (done, failed, rest, before, q, d, f, a, p) =
                    apply_to_state_machine-err xs s1 z e2 in
                  (
                    x ∷ done,
                    failed,
                    rest,
                    before,
                    ap (◌∷◌ x) q,
                    ground (arith, d),
                    ground (arith, f),
                    ground (arith, a),
                    ground (arith, p, apply_entry-ok x s r e1),
                  ))
          ])
  ]
