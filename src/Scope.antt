-- ===== src/Scope.antt =====
-- Memory scopes (crates/ecphoria-core/src/memory/cognition.rs): the key of a scope's partition, the
-- metadata that is stored with a memory, and the test whether stored metadata is of a scope. Metadata is given
-- by the texts under its names.
pub mod Partition
pub mod Examples
use ecphoria.Prelude.{
  ℕ, Bool, true, false, ◌&&◌, Option, none, some, List, [], ◌∷◌, ◌++◌, if◌then◌else◌, or_else, not,
}
use ecphoria.Prelude.Eq.{nat_eq, list_eq, ◌==◌}
use ecphoria.Prelude.Text.{Str, codes}

pub record MemoryScope : Type 0 where
  pub tenant_id : Str
  pub user_id : Option Str
  pub agent_id : Option Str
  pub session_id : Option Str

abbrev pub tenant_or_default : Str → Str
tenant_or_default [] = codes "default"
tenant_or_default (c ∷ s) = c ∷ s

abbrev pub same_field : Option Str → Option Str → Bool
same_field (some want) (some got) = want == got
same_field none none = true
same_field (some want) none = false
same_field none (some got) = false

unfoldable pub scope_matches_metadata : MemoryScope → (Str → Option Str) → Bool
scope_matches_metadata scope metadata =
    let want_tenant = tenant_or_default scope.tenant_id in
    if not (or_else (codes "default") (metadata (codes "tenant_id")) == want_tenant)
    then false
    else same_field scope.user_id (metadata (codes "user_id"))
      && (same_field scope.agent_id (metadata (codes "agent_id"))
          && same_field scope.session_id (metadata (codes "session_id")))

-- The texts in the metadata that `to_semantic_entry` writes; an absent field is null, which is no text.
unfoldable pub semantic_metadata : MemoryScope → Option Str → Str → Option Str
semantic_metadata scope subject name =
    if name == codes "kind"
    then some (codes "memory")
    else if name == codes "tenant_id"
    then some scope.tenant_id
    else if name == codes "user_id"
    then scope.user_id
    else if name == codes "agent_id"
    then scope.agent_id
    else if name == codes "session_id"
    then scope.session_id
    else if name == codes "subject"
    then subject
    else none

unfoldable pub scope_partition_key : MemoryScope → Str
scope_partition_key scope =
    tenant_or_default scope.tenant_id
    ++ 0x1f
      ∷ (or_else [] scope.user_id
          ++ 0x1f ∷ (or_else [] scope.agent_id ++ 0x1f ∷ or_else [] scope.session_id))
