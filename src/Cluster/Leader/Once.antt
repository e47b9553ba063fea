-- ===== src/Cluster/Leader/Once.antt =====
-- What `require_leader_for_writes` sends over the network, and that it is sent on no second time.
use ecphoria.Prelude.{
  ℕ, zero, suc, ◌+◌, ◌≡◌, refl, ap, ◌∙◌, arith, Bool, true, false, Option, none, some, List,
  Bool-cases, Option-cases, inl, inr, eqb,
}
use ecphoria.Prelude.Eq.{nat_eq, list_eq}
use ecphoria.Prelude.Rows
use ecphoria.Prelude.Text.{Str}
use ecphoria.Cluster.Members.{is_leader, leader_id}
use ecphoria.Cluster.Proxy.{
  Request, Response, Network, Outgoing, contains_key, insert_header, attempts, outgoing, proxy,
  reqwest_to_axum,
}
use ecphoria.Cluster.Leader.{
  ClusterState, leader_forward_marker, is_read, require_leader_for_writes, away_from_leader,
}

-- The attempts depend on what the network answers to this request alone.
attempts_agree :
    (net other : Network) (out : Outgoing)
    → ((i : ℕ) → net i out ≡ other i out)
    → (n i : ℕ) (last : Option Response) → attempts net n i last out ≡ attempts other n i last out
unfolding attempts
attempts_agree net other out h zero i last = refl
attempts_agree net other out h (suc n) i last = elim (Option-cases (other i out)) [
  | inr e ↦ let f = h i ∙ e in ground arith
  | inl (r, e) ↦ elim (Bool-cases (eqb r.status 307)) [
    | inr d ↦ let f = h i ∙ e in ground arith
    | inl d ↦ let f = h i ∙ e in ground (arith, attempts_agree net other out h n (i + 1) (some r))
  ]
]

module _ (is_header_value : Str → Bool) where
  -- The networks answer alike to the request as it is sent to the leader's address.
  abbrev pub AgreeOnLeader : ClusterState → Request → Network → Network → Type 0
  AgreeOnLeader st req net other =
      (id : ℕ) (base : Str) (bytes : List ℕ) (i : ℕ)
      → leader_id st.coordinator ≡ some id
      → Rows.get id st.peer_http ≡ some base
      → req.body ≡ some bytes
      → net i (outgoing is_header_value base req bytes leader_forward_marker none)
        ≡ other i (outgoing is_header_value base req bytes leader_forward_marker none)

  proxy_agree :
      (net other : Network) (base : Str) (req : Request)
      → ((bytes : List ℕ) (i : ℕ)
          → req.body ≡ some bytes
          → net i (outgoing is_header_value base req bytes leader_forward_marker none)
            ≡ other i (outgoing is_header_value base req bytes leader_forward_marker none))
      → proxy is_header_value net base req leader_forward_marker none
        ≡ proxy is_header_value other base req leader_forward_marker none
  unfolding proxy outgoing
  proxy_agree net other base req h = elim (Option-cases req.body) [
    | inr e ↦ rw e
    | inl (bytes, e) ↦ rw e (
        attempts_agree net other
          (outgoing is_header_value base req bytes leader_forward_marker none) (λ i. h bytes i e) 4
          0 none)
  ]

  to_leader_agree :
      (st : ClusterState) (req : Request) (net other : Network) (o : Option ℕ)
      → leader_id st.coordinator ≡ o
      → AgreeOnLeader st req net other
      → away_from_leader is_header_value st net req o
        ≡ away_from_leader is_header_value st other req o
  to_leader_agree st req net other none l h = refl
  to_leader_agree st req net other (some id) l h = elim (Option-cases (Rows.get id st.peer_http)) [
    | inr e ↦ rw e
    | inl (base, e) ↦ elim (Bool-cases (contains_key leader_forward_marker req.headers)) [
      | inl m ↦ rw (e, m)
      | inr m ↦ rw (e, m) (proxy_agree net other base req (λ bytes i b. h id base bytes i l e b))
    ]
  ]

  outgoing-marked :
      (base : Str) (req : Request) (bytes : List ℕ)
      → contains_key leader_forward_marker
          (outgoing is_header_value base req bytes leader_forward_marker none).headers
        ≡ true
  unfolding outgoing contains_key insert_header
  outgoing-marked base req bytes = refl

  marked-no_network :
      (st : ClusterState) (req : Request) (net other : Network) (o : Option ℕ)
      → contains_key leader_forward_marker req.headers ≡ true
      → away_from_leader is_header_value st net req o
        ≡ away_from_leader is_header_value st other req o
  marked-no_network st req net other none m = refl
  marked-no_network st req net other (some id) m = elim (Option-cases (Rows.get id st.peer_http)) [
    | inr e ↦ rw e
    | inl (base, e) ↦ rw (e, m)
  ]

  required :
      (st : ClusterState) (next : Request → Response) (net other : Network) (req : Request)
      → away_from_leader is_header_value st net req (leader_id st.coordinator)
        ≡ away_from_leader is_header_value st other req (leader_id st.coordinator)
      → require_leader_for_writes is_header_value st next net req
        ≡ require_leader_for_writes is_header_value st next other req
  unfolding require_leader_for_writes
  required st next net other req h = elim (Bool-cases (is_read req)) [
    | inl r ↦ rw r
    | inr r ↦ elim (Bool-cases (is_leader st.coordinator)) [
      | inl l ↦ rw (r, l)
      | inr l ↦ rw (r, l) h
    ]
  ]

  leader_answers :
      (st : ClusterState) (next : Request → Response) (net : Network) (req : Request) (id : ℕ)
      (address : Str) (content : List ℕ) (r : Response)
      → is_read req ≡ false
      → is_leader st.coordinator ≡ false
      → leader_id st.coordinator ≡ some id
      → Rows.get id st.peer_http ≡ some address
      → contains_key leader_forward_marker req.headers ≡ false
      → req.body ≡ some content
      → net 0 (outgoing is_header_value address req content leader_forward_marker none) ≡ some r
      → eqb r.status 307 ≡ false
      → require_leader_for_writes is_header_value st next net req ≡ reqwest_to_axum r
  unfolding require_leader_for_writes proxy attempts outgoing
  leader_answers st next net req id address content r p l i a m b q d = ground arith

  -- A node sends nothing over the network but the request to the address of the leader that it knows:
  -- two networks that answer alike to that give the same response. And a node that gets a request with
  -- the headers of one that was sent in this way, whatever the node knows of the leader, sends nothing
  -- on: its response is the same over any two networks. A write without the marker on a node that
  -- does not lead but knows the leader's address gets what the leader answers first, if that is no 307.
  pub sent_once :
      (st far : ClusterState) (next there : Request → Response) (net other beyond : Network)
      (req arrived : Request) (base : Str) (bytes : List ℕ)
      → AgreeOnLeader st req net other
      → arrived.headers
        ≡ (outgoing is_header_value base req bytes leader_forward_marker none).headers
      → (require_leader_for_writes is_header_value st next net req
          ≡ require_leader_for_writes is_header_value st next other req)
        × (require_leader_for_writes is_header_value far there net arrived
            ≡ require_leader_for_writes is_header_value far there beyond arrived)
        × ((id : ℕ) (address : Str) (content : List ℕ) (r : Response)
            → is_read req ≡ false
            → is_leader st.coordinator ≡ false
            → leader_id st.coordinator ≡ some id
            → Rows.get id st.peer_http ≡ some address
            → contains_key leader_forward_marker req.headers ≡ false
            → req.body ≡ some content
            → net 0 (outgoing is_header_value address req content leader_forward_marker none)
              ≡ some r
            → eqb r.status 307 ≡ false
            → require_leader_for_writes is_header_value st next net req ≡ reqwest_to_axum r)
  sent_once st far next there net other beyond req arrived base bytes h e = (
    required st next net other req
        (to_leader_agree st req net other (leader_id st.coordinator) refl h),
    required far there net beyond arrived (
        marked-no_network far arrived net beyond (leader_id far.coordinator)
          (ap (contains_key leader_forward_marker) e ∙ outgoing-marked base req bytes)),
    λ id address content r p l i a m b q d.
        leader_answers st next net req id address content r p l i a m b q d,
  )
