-- ===== src/Scope/Examples.antt =====
-- A scope of a user in the default tenant, and an empty field.
use ecphoria.Prelude.{arith, ◌≡◌, ◌≢◌, ◌↔◌, refl, true, false, Option, none, some, []}
use ecphoria.Prelude.Eq.{nat_eq, list_eq}
use ecphoria.Prelude.Text.{Str, codes}
use ecphoria.Scope.{MemoryScope, semantic_metadata, scope_matches_metadata, scope_partition_key}
use ecphoria.Scope.Partition.{IsScope, scope_matches_metadata_iff}

abbrev of_user : Str → Option Str → MemoryScope
of_user tenant user = record {
  tenant_id = tenant;
  user_id = user;
  agent_id = none;
  session_id = none;
}

u1_IsScope : IsScope (of_user [] (some (codes "u")))
u1_IsScope = record {
  tenant = tt;
  user = ((refl, tt), λ e. absurd (ground arith));
  agent = tt;
  session = tt;
}

u2_IsScope : IsScope (of_user (codes "default") (some (codes "u")))
u2_IsScope = record {
  tenant = (refl, (refl, (refl, (refl, (refl, (refl, (refl, tt)))))));
  user = ((refl, tt), λ e. absurd (ground arith));
  agent = tt;
  session = tt;
}

scope_matches_metadata_iff_example :
    (scope_matches_metadata
        (of_user [] (some (codes "u")))
        (semantic_metadata (of_user (codes "default") (some (codes "u"))) none)
      ≡ true)
    ↔ ((scope_partition_key (of_user [] (some (codes "u")))
          ≡ scope_partition_key (of_user (codes "default") (some (codes "u"))))
        × (codes "default" ≢ []))
scope_matches_metadata_iff_example =
    scope_matches_metadata_iff (of_user [] (some (codes "u")))
      (of_user (codes "default") (some (codes "u"))) none u1_IsScope u2_IsScope

-- A memory of the empty tenant does not match its own scope.
own_scope :
    scope_matches_metadata
      (of_user [] (some (codes "u")))
      (semantic_metadata (of_user [] (some (codes "u"))) none)
    ≡ false
unfolding scope_matches_metadata semantic_metadata
own_scope = refl

-- An empty user shares the partition of no user, and does not match its metadata.
shared : scope_partition_key (of_user [] (some [])) ≡ scope_partition_key (of_user [] none)
unfolding scope_partition_key
shared = refl

unmatched :
    scope_matches_metadata
      (of_user (codes "a") (some []))
      (semantic_metadata (of_user (codes "a") none) none)
    ≡ false
unfolding scope_matches_metadata semantic_metadata
unmatched = refl
