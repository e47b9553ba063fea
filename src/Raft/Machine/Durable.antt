-- ===== src/Raft/Machine/Durable.antt =====
-- What the state machine and snapshots leave in the database.
use ecphoria.Prelude.{◌≡◌, Bool, some, List, [], ◌∷◌, arith, Option-cases, inl, inr}
use ecphoria.Prelude.Result.{ok, ◌>>=◌, ◌>>◌, pure, bind_ok}
use ecphoria.Raft.Types.{
  Types, Codecs, LogId, Entry, EntryPayload, blank, normal, membership, AppResponse,
}
use ecphoria.Raft.Store.{encoded, persist_meta}
use ecphoria.Raft.Store.Coherence.{IsCoherent, meta-insert}
use ecphoria.Raft.Machine.{
  Engine, MemStore, apply_entry, apply_to_state_machine, effect, mark_applied, set_membership,
  on_inner, on_engine, apply_request,
}

module _ {t : Types} (e : Engine t) (agentic : Bool) (c : Codecs t) where
  mark_applied-IsCoherent :
      (id : LogId t) (s : MemStore e)
      → IsCoherent c s.inner
      → IsCoherent c (mark_applied e c id s).1.inner
  unfolding mark_applied on_inner encoded persist_meta
  mark_applied-IsCoherent id s h = elim (Option-cases (c.log_id.to_vec (some id))) [
    | inr e1 ↦ ground arith
    | inl (b, e1) ↦ elim (Option-cases s.inner.db) [
      | inr e2 ↦ ground arith
      | inl (d, e2) ↦ ground (
        arith,
        c.log_id.from_slice-to_vec (some id) b e1,
        meta-insert "last_applied" b d.raft_meta,
      )
    ]
  ]

  set_membership-IsCoherent :
      (id : LogId t) (m : t.Membership) (s : MemStore e) (r : AppResponse)
      → IsCoherent c s.inner
      → (set_membership e c id m s).0 ≡ ok r
      → IsCoherent c (set_membership e c id m s).1.inner
  unfolding set_membership on_inner encoded persist_meta
  set_membership-IsCoherent id m s r h k =
      elim (Option-cases (c.stored_membership.to_vec (c.new_membership (some id) m))) [
        | inr e1 ↦ ground arith
        | inl (b, e1) ↦ elim (Option-cases s.inner.db) [
          | inr e2 ↦ ground arith
          | inl (d, e2) ↦ ground (
            arith,
            c.stored_membership.from_slice-to_vec (c.new_membership (some id) m) b e1,
            meta-insert "last_membership" b d.raft_meta,
          )
        ]
      ]

  inner-apply_request :
      (id : LogId t) (req : _) (s : MemStore e)
      → (apply_request e agentic id req s).1.inner ≡ s.inner
  unfolding apply_request on_engine
  inner-apply_request id req s = ground arith

  effect-IsCoherent :
      (id : LogId t) (p : EntryPayload t) (s : MemStore e) (r : AppResponse)
      → IsCoherent c s.inner
      → (effect e agentic c id p s).0 ≡ ok r
      → IsCoherent c (effect e agentic c id p s).1.inner
  unfolding effect
  effect-IsCoherent id blank s r h k = h
  effect-IsCoherent id (normal req) s r h k = rw (inner-apply_request id req s) h
  effect-IsCoherent id (membership m) s r h k = set_membership-IsCoherent id m s r h k

  apply_entry-IsCoherent :
      (x : Entry t) (s : MemStore e) (r : AppResponse)
      → IsCoherent c s.inner
      → (apply_entry e agentic c x s).0 ≡ ok r
      → IsCoherent c (apply_entry e agentic c x s).1.inner
  unfolding apply_entry
  apply_entry-IsCoherent x s r h k =
      let (q, e1, k1, p1) =
        bind_ok (effect e agentic c x.log_id x.payload)
          (λ resp. mark_applied e c x.log_id >> pure resp) s r k in
      let s1 = (effect e agentic c x.log_id x.payload s).1 in
      let (u, e2, k2, p2) = bind_ok (mark_applied e c x.log_id) (λ _. pure q) s1 r k1 in
      rw (p1, p2)
        (mark_applied-IsCoherent x.log_id s1 (effect-IsCoherent x.log_id x.payload s q h e1))

  -- Applying entries with success keeps the cache and the database in agreement.
  pub apply_to_state_machine-IsCoherent :
      (xs : List (Entry t)) (s : MemStore e) (rs : List AppResponse)
      → IsCoherent c s.inner
      → (apply_to_state_machine e agentic c xs s).0 ≡ ok rs
      → IsCoherent c (apply_to_state_machine e agentic c xs s).1.inner
  unfolding apply_to_state_machine
  apply_to_state_machine-IsCoherent [] s rs h k = h
  apply_to_state_machine-IsCoherent (x ∷ xs) s rs h k =
      let (r, e1, k1, p1) =
        bind_ok (apply_entry e agentic c x)
          (λ resp. apply_to_state_machine e agentic c xs >>= λ rest. pure (resp ∷ rest)) s rs k in
      let s1 = (apply_entry e agentic c x s).1 in
      let (qs, e2, k2, p2) =
        bind_ok (apply_to_state_machine e agentic c xs) (λ rest. pure (r ∷ rest)) s1 rs k1 in
      rw (p1, p2)
        (apply_to_state_machine-IsCoherent xs s1 qs (apply_entry-IsCoherent x s r h e1) e2)
