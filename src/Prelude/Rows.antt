-- ===== src/Prelude/Rows.antt =====
-- Maps ordered by a number: the source's `BTreeMap`s, and a table by its integer primary key.
use Prim.Native.Nat.{ℕ, ◌<◌}
use mathlib.Core.Path.{◌≡◌, refl}
use mathlib.Core.Logic.{inl, inr}
use mathlib.Core.Bool.{Bool, true, false}
use mathlib.Core.Option.{Option, none, some}
use mathlib.Core.List.{List, [], ◌∷◌, ◌++◌}
use native.Mathlib.Omega.{arith}
use ecphoria.Prelude.Tests.{ltb, eqb, if◌then◌else◌, Bool-cases}
use ecphoria.Prelude.Lists.{All}

abbrev pub Rows {ℓ} : Type ℓ → Type ℓ
Rows V = List (ℕ × V)

module _ {ℓ} {V : Type ℓ} where
  -- `insert`, and `INSERT OR REPLACE`
  unfoldable pub put : ℕ → V → Rows V → Rows V
  put k v [] = (k, v) ∷ []
  put k v ((j, w) ∷ m) =
      if ltb k j then (k, v) ∷ (j, w) ∷ m else if eqb k j then (k, v) ∷ m else (j, w) ∷ put k v m

  unfoldable pub get : ℕ → Rows V → Option V
  get k [] = none
  get k ((j, v) ∷ m) = if eqb j k then some v else get k m

  -- `remove`
  unfoldable pub del : ℕ → Rows V → Rows V
  del k [] = []
  del k ((j, v) ∷ m) = if eqb j k then m else (j, v) ∷ del k m

  -- `for key in keys { remove(&key) }`
  unfoldable pub del_all : List ℕ → Rows V → Rows V
  unfolding del
  del_all [] m = m
  del_all (k ∷ ks) m = del_all ks (del k m)

  -- `range(…).map(|(k, _)| *k).collect()`, the range given by its test
  unfoldable pub keys_where : (ℕ → Bool) → Rows V → List ℕ
  keys_where p [] = []
  keys_where p ((j, v) ∷ m) = let rest = keys_where p m in if p j then j ∷ rest else rest

  -- `range(…).map(|(_, v)| v.clone()).collect()`
  unfoldable pub values_where : (ℕ → Bool) → Rows V → List V
  values_where p [] = []
  values_where p ((j, v) ∷ m) = let rest = values_where p m in if p j then v ∷ rest else rest

  -- `DELETE FROM raft_log WHERE …`: the rows for which the test fails stay
  unfoldable pub delete_where : (ℕ → Bool) → Rows V → Rows V
  delete_where p [] = []
  delete_where p ((j, v) ∷ m) = let rest = delete_where p m in if p j then rest else (j, v) ∷ rest

  -- `iter().next_back()`
  unfoldable pub last : Rows V → Option V
  last [] = none
  last ((j, v) ∷ []) = some v
  last ((j, v) ∷ e ∷ m) = last (e ∷ m)

  abbrev pub Above : ℕ → Rows V → Type 0
  Above k m = All (λ (e : ℕ × V). k < e.0) m

  abbrev pub IsSorted : Rows V → Type 0
  IsSorted [] = Unit
  IsSorted ((k, v) ∷ m) = Above k m × IsSorted m

  Above-put : (i k : ℕ) (v : V) (m : Rows V) → i < k → Above i m → Above i (put k v m)
  unfolding put
  Above-put i k v [] h a = (h, tt)
  Above-put i k v ((j, w) ∷ m) h a = ground (arith, Above-put i k v m)

  Above-lower : (i k : ℕ) (m : Rows V) → i < k → Above k m → Above i m
  Above-lower i k [] h a = tt
  Above-lower i k ((j, w) ∷ m) h a = (omega arith, Above-lower i k m h a.1)

  pub put-IsSorted : (k : ℕ) (v : V) (m : Rows V) → IsSorted m → IsSorted (put k v m)
  unfolding put
  put-IsSorted k v [] s = (tt, tt)
  put-IsSorted k v ((j, w) ∷ m) s =
      ground (arith, put-IsSorted k v m, Above-put j k v m, Above-lower k j m)

  Above-delete_where : (i : ℕ) (p : ℕ → Bool) (m : Rows V) → Above i m → Above i (delete_where p m)
  unfolding delete_where
  Above-delete_where i p [] a = tt
  Above-delete_where i p ((j, w) ∷ m) a = ground (arith, Above-delete_where i p m)

  pub delete_where-IsSorted : (p : ℕ → Bool) (m : Rows V) → IsSorted m → IsSorted (delete_where p m)
  unfolding delete_where
  delete_where-IsSorted p [] s = tt
  delete_where-IsSorted p ((j, w) ∷ m) s =
      ground (arith, delete_where-IsSorted p m, Above-delete_where j p m)

  pub get-put :
      (k j : ℕ) (v : V) (m : Rows V) → get j (put k v m) ≡ (if eqb k j then some v else get j m)
  unfolding put get
  get-put k j v [] = refl
  get-put k j v ((i, w) ∷ m) = ground (arith, get-put k j v m)

  pub get-delete_where :
      (p : ℕ → Bool) (j : ℕ) (m : Rows V)
      → get j (delete_where p m) ≡ (if p j then none else get j m)
  unfolding get delete_where
  get-delete_where p j [] = ground arith
  get-delete_where p j ((i, w) ∷ m) = ground (arith, get-delete_where p j m)

  -- Removing the keys of a range one by one is deleting the range.
  del_all-skip :
      (p : ℕ → Bool) (ks : List ℕ) (j : ℕ) (w : V) (m : Rows V)
      → All (λ k. p k ≡ true) ks
      → p j ≡ false
      → del_all ks ((j, w) ∷ m) ≡ (j, w) ∷ del_all ks m
  unfolding del_all
  del_all-skip p [] j w m a h = refl
  del_all-skip p (k ∷ ks) j w m a h = ground (arith, del_all-skip p ks j w (del k m), a.0)

  keys_where_hold : (p : ℕ → Bool) (m : Rows V) → All (λ k. p k ≡ true) (keys_where p m)
  unfolding keys_where
  keys_where_hold p [] = tt
  keys_where_hold p ((j, w) ∷ m) = ground (arith, keys_where_hold p m)

  del_all-head :
      (j : ℕ) (w : V) (ks : List ℕ) (m : Rows V) → del_all (j ∷ ks) ((j, w) ∷ m) ≡ del_all ks m
  unfolding del_all
  del_all-head j w ks m = ground arith

  pub del_all-keys_where :
      (p : ℕ → Bool) (m : Rows V) → del_all (keys_where p m) m ≡ delete_where p m
  unfolding keys_where delete_where
  del_all-keys_where p [] = unfold del_all in refl
  del_all-keys_where p ((j, w) ∷ m) = elim (Bool-cases (p j)) [
    | inl h ↦ ground (arith, del_all-keys_where p m, del_all-head j w (keys_where p m) m)
    | inr h ↦ ground (
      arith,
      del_all-keys_where p m,
      del_all-skip p (keys_where p m) j w m (keys_where_hold p m) h,
    )
  ]

  -- A key above all others goes to the end.
  pub put_end :
      (k : ℕ) (v : V) (m : Rows V) → All (λ (e : ℕ × V). e.0 < k) m → put k v m ≡ m ++ (k, v) ∷ []
  unfolding put
  put_end k v [] a = refl
  put_end k v ((j, w) ∷ m) a = ground (arith, put_end k v m)
