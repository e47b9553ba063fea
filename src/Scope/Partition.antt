-- ===== src/Scope/Partition.antt =====
-- One partition for each scope.
use ecphoria.Prelude.{
  ◌≡◌, ◌≢◌, ◌↔◌, refl, ap, sym, ◌∙◌, arith, true, false, ◌&&◌, Option, none, some, List, [], ◌∷◌,
  if◌then◌else◌, or_else, not, eqb, All,
}
use ecphoria.Prelude.Eq.{nat_eq, list_eq, list_beq, list_beq_iff}
use ecphoria.Prelude.Text.{Str, split, split_one, split-append}
use ecphoria.Scope.{
  MemoryScope, tenant_or_default, same_field, scope_matches_metadata, semantic_metadata,
  scope_partition_key,
}

-- without a unit separator
abbrev pub IsPlain : Str → Type 0
IsPlain s = All (λ c. eqb c 0x1f ≡ false) s

-- a field that is absent, or plain and not empty
abbrev pub IsField : Option Str → Type 0
IsField none = Unit
IsField (some s) = IsPlain s × (s ≢ [])

pub record IsScope (scope : MemoryScope) : Type 0 where
  pub tenant : IsPlain scope.tenant_id
  pub user : IsField scope.user_id
  pub agent : IsField scope.agent_id
  pub session : IsField scope.session_id

same_field_iff : (a b : Option Str) → (same_field a b ≡ true) ↔ (a ≡ b)
same_field_iff (some a) (some b) =
    (λ h. ap some ((list_beq_iff a b).0 h), λ e. (list_beq_iff a b).1 (ap (or_else []) e))
same_field_iff none none = (λ h. refl, λ e. refl)
same_field_iff (some a) none = (λ h. absurd (ground arith), λ e. absurd (ground arith))
same_field_iff none (some b) = (λ h. absurd (ground arith), λ e. absurd (ground arith))

field_text : (a : Option Str) → IsField a → IsPlain (or_else [] a)
field_text none h = tt
field_text (some s) h = h.0

-- An empty text stands for no field.
field_inj : (a b : Option Str) → IsField a → IsField b → or_else [] a ≡ or_else [] b → a ≡ b
field_inj none none p q e = refl
field_inj (some a) (some b) p q e = ap some e
field_inj (some a) none p q e = absurd (p.1 e)
field_inj none (some b) p q e = absurd (q.1 (sym e))

tenant-IsPlain : (s : Str) → IsPlain s → IsPlain (tenant_or_default s)
tenant-IsPlain [] h = (refl, (refl, (refl, (refl, (refl, (refl, (refl, tt)))))))
tenant-IsPlain (c ∷ s) h = h

matches_iff :
    (got want : Str) (a b c x y z : Option Str)
    → ((if not (list_beq got want)
          then false
          else same_field a x && (same_field b y && same_field c z))
        ≡ true)
      ↔ ((got ≡ want) × (a ≡ x) × (b ≡ y) × (c ≡ z))
matches_iff got want a b c x y z = (
  λ h. (
    (list_beq_iff got want).0 (ground arith),
    (same_field_iff a x).0 (ground arith),
    (same_field_iff b y).0 (ground arith),
    (same_field_iff c z).0 (ground arith),
  ),
  λ (e, f, g, i).
      let l = (list_beq_iff got want).1 e in
      let j = (same_field_iff a x).1 f in
      let k = (same_field_iff b y).1 g in let m = (same_field_iff c z).1 i in ground arith,
)

-- The parts of the key are the fields.
key_parts :
    (s : MemoryScope)
    → IsScope s
    → split 0x1f (scope_partition_key s)
      ≡ tenant_or_default s.tenant_id
        ∷ or_else [] s.user_id
        ∷ or_else [] s.agent_id
        ∷ or_else [] s.session_id
        ∷ []
unfolding scope_partition_key
key_parts s h =
    split-append 0x1f (tenant_or_default s.tenant_id) _ (tenant-IsPlain s.tenant_id h.tenant)
    ∙ ap (◌∷◌ (tenant_or_default s.tenant_id)) (
        split-append 0x1f (or_else [] s.user_id) _ (field_text s.user_id h.user)
        ∙ ap (◌∷◌ (or_else [] s.user_id)) (
            split-append 0x1f (or_else [] s.agent_id) _ (field_text s.agent_id h.agent)
            ∙ ap (◌∷◌ (or_else [] s.agent_id))
                (split_one 0x1f (or_else [] s.session_id) (field_text s.session_id h.session))))

abbrev first : List Str → Str
first [] = []
first (p ∷ ps) = p

abbrev behind : List Str → List Str
behind [] = []
behind (p ∷ ps) = ps

-- the same scope, up to the tenant that an empty one stands for
abbrev IsSame : MemoryScope → MemoryScope → Type 0
IsSame s t =
    (tenant_or_default s.tenant_id ≡ tenant_or_default t.tenant_id)
    × (s.user_id ≡ t.user_id)
    × (s.agent_id ≡ t.agent_id)
    × (s.session_id ≡ t.session_id)

key_inj :
    (s t : MemoryScope)
    → IsScope s
    → IsScope t
    → scope_partition_key s ≡ scope_partition_key t
    → IsSame s t
key_inj s t p q e =
    let parts = sym (key_parts s p) ∙ ap (split 0x1f) e ∙ key_parts t q in
    (
      ap first parts,
      field_inj s.user_id t.user_id p.user q.user (ap (λ l. first (behind l)) parts),
      field_inj s.agent_id t.agent_id p.agent q.agent (ap (λ l. first (behind (behind l))) parts),
      field_inj s.session_id t.session_id p.session q.session
          (ap (λ l. first (behind (behind (behind l)))) parts),
    )

key_same : (s t : MemoryScope) → IsSame s t → scope_partition_key s ≡ scope_partition_key t
unfolding scope_partition_key
key_same s t (a, b, c, d) = cc

-- A stored tenant is the one that is asked for.
stored_tenant_iff :
    (a b : Str)
    → (a ≡ tenant_or_default b) ↔ ((tenant_or_default b ≡ tenant_or_default a) × (a ≢ []))
stored_tenant_iff [] [] = (λ e. absurd (ground arith), λ (e, n). absurd (n refl))
stored_tenant_iff [] (d ∷ b) = (λ e. absurd (ground arith), λ (e, n). absurd (n refl))
stored_tenant_iff (c ∷ a) b = (λ e. (sym e, λ n. absurd (ground arith)), λ (e, n). sym e)

-- For scopes whose fields are absent or else neither empty nor with a unit separator, and whose tenants
-- have no unit separator: the metadata stored with a memory of a scope matches a scope exactly when
-- both have one partition and the memory's tenant is not empty.
pub scope_matches_metadata_iff :
    (s t : MemoryScope) (subject : Option Str)
    → IsScope s
    → IsScope t
    → (scope_matches_metadata s (semantic_metadata t subject) ≡ true)
      ↔ ((scope_partition_key s ≡ scope_partition_key t) × (t.tenant_id ≢ []))
unfolding scope_matches_metadata semantic_metadata
scope_matches_metadata_iff s t subject p q =
    let fields =
      matches_iff t.tenant_id (tenant_or_default s.tenant_id) s.user_id s.agent_id s.session_id
        t.user_id t.agent_id t.session_id in
    let stored = stored_tenant_iff t.tenant_id s.tenant_id in
    (
      λ h. let f = fields.0 h in let g = stored.0 f.0 in (key_same s t (g.0, f.1, f.2, f.3), g.1),
      λ (e, n). let f = key_inj s t p q e in fields.1 (stored.1 (f.0, n), f.1, f.2, f.3),
    )
