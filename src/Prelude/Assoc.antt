-- ===== src/Prelude/Assoc.antt =====
-- Finite maps as association lists: the source's `DashMap` and `HashMap`, and SQL tables by their
-- primary key. The program reads no order from the maps that are modelled so.
use Prim.Native.Nat.{◌+◌, ◌≤◌}
use mathlib.Core.Path.{◌≡◌, refl}
use mathlib.Core.Logic.{inl, inr}
use mathlib.Core.Bool.{Bool, false, ◌||◌}
use mathlib.Core.Option.{Option, none, some}
use mathlib.Core.List.{List, [], ◌∷◌}
use native.Mathlib.Omega.{arith}
use ecphoria.Prelude.Tests.{if◌then◌else◌, Bool-cases}
use ecphoria.Prelude.Lists.{length, All}
use ecphoria.Prelude.Eq.{Eq}

abbrev pub Assoc {ℓ κ} : Type ℓ → Type κ → Type (ℓ ⊔ κ)
Assoc K V = List (K × V)

module _ {ℓ κ} {K : Type ℓ} {V : Type κ} ⦃e : Eq K⦄ where
  unfoldable pub lookup : K → Assoc K V → Option V
  lookup k [] = none
  lookup k ((j, v) ∷ m) = if e.beq j k then some v else lookup k m

  unfoldable pub insert : K → V → Assoc K V → Assoc K V
  insert k v [] = (k, v) ∷ []
  insert k v ((j, w) ∷ m) = if e.beq j k then (k, v) ∷ m else (j, w) ∷ insert k v m

  unfoldable pub remove : K → Assoc K V → Assoc K V
  remove k [] = []
  remove k ((j, v) ∷ m) = let rest = remove k m in if e.beq j k then rest else (j, v) ∷ rest

  pub lookup-insert :
      (k j : K) (v : V) (m : Assoc K V)
      → lookup j (insert k v m) ≡ (if e.beq k j then some v else lookup j m)
  unfolding lookup insert
  lookup-insert k j v [] = refl
  lookup-insert k j v ((i, w) ∷ m) =
      ground (arith, e.beq_iff k j, e.beq_iff i k, e.beq_iff i j, lookup-insert k j v m)

  pub lookup-remove :
      (k j : K) (m : Assoc K V) → lookup j (remove k m) ≡ (if e.beq k j then none else lookup j m)
  unfolding lookup remove
  lookup-remove k j [] = ground arith
  lookup-remove k j ((i, w) ∷ m) =
      ground (arith, e.beq_iff k j, e.beq_iff i k, e.beq_iff i j, lookup-remove k j m)

  pub lookup-nil : (k : K) → lookup k [] ≡ none
  unfolding lookup
  lookup-nil k = refl

  pub length-insert-le : (k : K) (v : V) (m : Assoc K V) → length (insert k v m) ≤ length m + 1
  unfolding insert
  length-insert-le k v [] = omega arith
  length-insert-le k v ((i, w) ∷ m) = ground (arith, length-insert-le k v m)

  pub length-insert-new :
      (k : K) (v : V) (m : Assoc K V) → lookup k m ≡ none → length (insert k v m) ≡ length m + 1
  unfolding lookup insert
  length-insert-new k v [] h = omega arith
  length-insert-new k v ((j, w) ∷ m) h = elim (Bool-cases (e.beq j k)) [
    | inl t ↦ absurd (ground arith)
    | inr f ↦ ground (arith, length-insert-new k v m)
  ]

module _ {ℓ κ} {K : Type ℓ} {V : Type κ} ⦃e : Eq K⦄ where
  -- Each key has one row, as a primary key has.
  abbrev pub IsUnique : Assoc K V → Type κ
  IsUnique [] = Unit
  IsUnique ((k, v) ∷ m) = (lookup k m ≡ none) × IsUnique m

  pub insert-IsUnique : (k : K) (v : V) (m : Assoc K V) → IsUnique m → IsUnique (insert k v m)
  unfolding insert
  insert-IsUnique k v [] u = (lookup-nil k, tt)
  insert-IsUnique k v ((j, w) ∷ m) u =
      ground (arith, insert-IsUnique k v m u.1, lookup-insert k j v m, e.beq_iff j k, e.beq_iff k j)

  pub remove-IsUnique : (k : K) (m : Assoc K V) → IsUnique m → IsUnique (remove k m)
  unfolding remove
  remove-IsUnique k [] u = tt
  remove-IsUnique k ((j, w) ∷ m) u = ground (arith, remove-IsUnique k m u.1, lookup-remove k j m)

-- A predicate of every row.
module _ {ℓ κ ν} {K : Type ℓ} {V : Type κ} ⦃e : Eq K⦄ (P : K × V → Type ν) where
  pub All-lookup : (k : K) (v : V) (m : Assoc K V) → All P m → lookup k m ≡ some v → P (k, v)
  unfolding lookup
  All-lookup k v [] h q = absurd (ground arith)
  All-lookup k v ((j, w) ∷ m) h q = elim (Bool-cases (e.beq j k)) [
    | inl t ↦
        let a : j ≡ k = ground (arith, e.beq_iff j k) in
        let b : w ≡ v = ground arith in rw (← a, ← b) h.0
    | inr f ↦ All-lookup k v m h.1 (ground arith)
  ]

  pub All-insert : (k : K) (v : V) (m : Assoc K V) → All P m → P (k, v) → All P (insert k v m)
  unfolding insert
  All-insert k v [] h p = (p, tt)
  All-insert k v ((j, w) ∷ m) h p = ground (arith, All-insert k v m h.1 p)

  pub All-remove : (k : K) (m : Assoc K V) → All P m → All P (remove k m)
  unfolding remove
  All-remove k [] h = tt
  All-remove k ((j, w) ∷ m) h = ground (arith, All-remove k m h.1)

module _ {ℓ} {K : Type ℓ} ⦃e : Eq K⦄ where
  abbrev pub elem : K → List K → Bool
  elem k [] = false
  elem k (j ∷ ks) = e.beq j k || elem k ks

pub ruleset assoc_laws = (lookup-nil, lookup-insert, lookup-remove)
