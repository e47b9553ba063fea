-- ===== src/Schema/Valid.antt =====
-- The validator reports nothing exactly for the values that the schema describes.
use ecphoria.Prelude.{
  ℕ, suc, ◌≤◌, ◌≡◌, ◌↔◌, refl, arith, Bool, true, false, not, ◌&&◌, ◌||◌, Option, none, some, List,
  [], ◌∷◌, ◌++◌, if◌then◌else◌, ltb, length, any, is_some, All,
}
use ecphoria.Prelude.Eq.{nat_eq, list_eq}
use ecphoria.Prelude.Assoc.{elem}
use ecphoria.Prelude.Text.{Str, decimal}
use ecphoria.Schema.{
  Json, null, boolean, number, text, array, object, Fields, no_fields, field, to_list, get_field,
  field_names, Rules, Node, node, Properties, no_properties, property, ItemSchema, any_item,
  each_item, Libraries, Violation, Problem, report, exceeds, has_duplicate, check_string,
  check_number, check_required, check_known, property_names, check_array, check_each, check_value,
  check_inside, check, check_items, check_properties, validate, is_type_ok, format_ok, on_child,
}
use ecphoria.Schema.Kinds.{HasType, IsFormat, is_type_ok_iff, format_ok_iff}

-- the limit, where there is one
abbrev pub Meets : {A : Type 0} → (A → Type 0) → Option A → Type 0
Meets P none = Unit
Meets P (some a) = P a

iff_trans : {P Q R : Type 0} → P ↔ Q → Q ↔ R → P ↔ R
iff_trans h k = (λ p. k.0 (h.0 p), λ r. h.1 (k.1 r))

reported :
    {P : Type 0} (b : Bool) (path : Str) (p : Problem)
    → (b ≡ false) ↔ P
    → (report b path p ≡ []) ↔ P
reported true path p h = (λ e. absurd (ground arith), λ q. absurd (let f = h.1 q in ground arith))
reported false path p h = (λ e. h.0 refl, λ q. refl)

both : {P Q : Type 0} (a b : List Violation) → (a ≡ []) ↔ P → (b ≡ []) ↔ Q → (a ++ b ≡ []) ↔ (P × Q)
both [] b h k = (λ e. (h.0 refl, k.0 e), λ (p, q). k.1 q)
both (x ∷ a) b h k = (λ e. absurd (ground arith), λ (p, q). absurd (let f = h.1 p in ground arith))

exceeds-Meets :
    {A : Type 0} (P : A → Type 0) (test : A → Bool) (o : Option A)
    → ((a : A) → (test a ≡ false) ↔ P a)
    → (exceeds test o ≡ false) ↔ Meets P o
exceeds-Meets P test none h = (λ e. tt, λ e. refl)
exceeds-Meets P test (some a) h = h a

elem-field_names :
    {N : Type 0} (name : Str) (fs : Fields N)
    → is_some (get_field name fs) ≡ elem name (field_names fs)
elem-field_names name no_fields = refl
elem-field_names name (field n v fs) = ground (arith, elem-field_names name fs)

module _ {N F Re : Type 0} (lib : Libraries N F Re) where
  -- no two items are equal
  abbrev pub IsDistinct : List (Json N) → Type 0
  IsDistinct [] = Unit
  IsDistinct (v ∷ vs) = All (λ w. lib.same_value v w ≡ false) vs × IsDistinct vs

  abbrev pub IsString : Rules N F Re → Str → Type 0
  IsString r s =
      Meets (λ n. n ≤ length s) r.min_length
      × (Meets (λ n. length s ≤ n) r.max_length
          × (Meets (λ re. lib.is_match re s ≡ true) r.pattern
              × Meets (λ f. IsFormat lib f s) r.format))

  abbrev pub IsNumber : Rules N F Re → N → Type 0
  IsNumber r n =
      Meets (λ m. lib.below (lib.as_f64 n) m ≡ false) r.minimum
      × Meets (λ m. lib.below m (lib.as_f64 n) ≡ false) r.maximum

  abbrev pub IsArray : Rules N F Re → List (Json N) → Type 0
  IsArray r vs =
      Meets (λ n. n ≤ length vs) r.min_items
      × (Meets (λ n. length vs ≤ n) r.max_items × (r.unique_items ≡ true → IsDistinct vs))

  abbrev pub IsAllowed : Rules N F Re → Json N → Type 0
  IsAllowed r v =
      Meets (λ allowed. any (λ a. lib.same_value a v) allowed ≡ true) r.enumeration
      × Meets (λ c. lib.same_value v c ≡ true) r.constant

  -- what the kind of the value asks for, with what the items and the properties ask for
  abbrev pub IsInside :
      Rules N F Re → (List (Json N) → Type 0) → (Fields N → Type 0) → List Str → Json N → Type 0
  IsInside r items properties known (text s) = IsString r s
  IsInside r items properties known (number n) = IsNumber r n
  IsInside r items properties known (array vs) = IsArray r (to_list vs) × items (to_list vs)
  IsInside r items properties known (object fs) =
      All (λ name. elem name (field_names fs) ≡ true) r.required
      × (properties fs
          × (r.additional_properties ≡ false
              → All (λ name. elem name known ≡ true) (field_names fs)))
  IsInside r items properties known null = Unit
  IsInside r items properties known (boolean b) = Unit

  unfoldable mutual
    -- The schema describes the value.
    pub IsValid : Node N F Re → Json N → Type 0
    IsValid (node r ps is) v =
        HasType lib r.types v
        × (IsAllowed r v × IsInside r (AreValid is) (HasValid ps) (property_names lib ps) v)

    pub AreValid : ItemSchema N F Re → List (Json N) → Type 0
    AreValid any_item vs = Unit
    AreValid (each_item sub) vs = All (IsValid sub) vs

    pub HasValid : Properties N F Re → Fields N → Type 0
    HasValid no_properties fs = Unit
    HasValid (property name sub ps) fs = Meets (IsValid sub) (get_field name fs) × HasValid ps fs

  le_iff : (a b : ℕ) → (ltb a b ≡ false) ↔ (b ≤ a)
  le_iff a b = (λ h. ground arith, λ h. ground arith)

  not_iff : (b : Bool) → (not b ≡ false) ↔ (b ≡ true)
  not_iff b = (λ h. ground arith, λ h. ground arith)

  same_iff : (b : Bool) → (b ≡ false) ↔ (b ≡ false)
  same_iff b = (λ h. h, λ h. h)

  present_iff :
      (name : Str) (fs : Fields N)
      → (not (is_some (get_field name fs)) ≡ false) ↔ (elem name (field_names fs) ≡ true)
  present_iff name fs = let e = elem-field_names name fs in (λ h. ground arith, λ h. ground arith)

  any-append :
      (test : Json N → Bool) (a b : List (Json N)) → any test (a ++ b) ≡ (any test a || any test b)
  any-append test [] b = refl
  any-append test (x ∷ a) b = ground (arith, any-append test a b)

  -- no item equals one of `before`
  abbrev IsNew : List (Json N) → List (Json N) → Type 0
  IsNew before vs = All (λ w. any (λ u. lib.same_value u w) before ≡ false) vs

  IsNew-split :
      (before : List (Json N)) (v : Json N) (vs : List (Json N))
      → IsNew (before ++ v ∷ []) vs
      → IsNew before vs × All (λ w. lib.same_value v w ≡ false) vs
  IsNew-split before v [] h = (tt, tt)
  IsNew-split before v (w ∷ vs) h =
      ground
        (arith, IsNew-split before v vs h.1, any-append (λ u. lib.same_value u w) before (v ∷ []))

  IsNew-join :
      (before : List (Json N)) (v : Json N) (vs : List (Json N))
      → IsNew before vs
      → All (λ w. lib.same_value v w ≡ false) vs
      → IsNew (before ++ v ∷ []) vs
  IsNew-join before v [] h k = tt
  IsNew-join before v (w ∷ vs) h k =
      ground (
        arith,
        IsNew-join before v vs h.1 k.1,
        any-append (λ u. lib.same_value u w) before (v ∷ []),
      )

  -- `has_duplicate` from the middle of the list
  IsDistinct-has_duplicate :
      (before vs : List (Json N))
      → has_duplicate lib before vs ≡ false
      → IsNew before vs × IsDistinct vs
  unfolding has_duplicate
  IsDistinct-has_duplicate before [] h = (tt, tt)
  IsDistinct-has_duplicate before (v ∷ vs) h =
      let (n, d) = IsDistinct-has_duplicate (before ++ v ∷ []) vs (ground arith) in
      let (a, b) = IsNew-split before v vs n in ((ground arith, a), (b, d))

  has_duplicate-IsDistinct :
      (before vs : List (Json N))
      → IsNew before vs
      → IsDistinct vs
      → has_duplicate lib before vs ≡ false
  unfolding has_duplicate
  has_duplicate-IsDistinct before [] n d = refl
  has_duplicate-IsDistinct before (v ∷ vs) n d = ground (
    arith,
    n.0,
    has_duplicate-IsDistinct (before ++ v ∷ []) vs (IsNew-join before v vs n.1 d.0) d.1,
  )

  IsNew-nil : (vs : List (Json N)) → IsNew [] vs
  IsNew-nil [] = tt
  IsNew-nil (v ∷ vs) = (refl, IsNew-nil vs)

  check_string_iff :
      (r : Rules N F Re) (s path : Str) → (check_string lib r s path ≡ []) ↔ IsString r s
  unfolding check_string
  check_string_iff r s path =
      both _ _ (reported _ path _ (exceeds-Meets _ _ r.min_length (λ n. le_iff (length s) n))) (
        both _ _ (reported _ path _ (exceeds-Meets _ _ r.max_length (λ n. le_iff n (length s)))) (
          both _ _
            (reported _ path _ (exceeds-Meets _ _ r.pattern (λ re. not_iff (lib.is_match re s))))
            (reported _ path _ (
              exceeds-Meets _ _ r.format
                (λ f. iff_trans (not_iff (format_ok lib f s)) (format_ok_iff lib f s))))))

  check_number_iff :
      (r : Rules N F Re) (n : N) (path : Str) → (check_number lib r n path ≡ []) ↔ IsNumber r n
  unfolding check_number
  check_number_iff r n path =
      both _ _
        (reported _ path _
          (exceeds-Meets _ _ r.minimum (λ m. same_iff (lib.below (lib.as_f64 n) m))))
        (reported _ path _
          (exceeds-Meets _ _ r.maximum (λ m. same_iff (lib.below m (lib.as_f64 n)))))

  unique_iff :
      (unique : Bool) (vs : List (Json N))
      → (unique && has_duplicate lib [] vs ≡ false) ↔ (unique ≡ true → IsDistinct vs)
  unique_iff false vs = (λ e q. absurd (ground arith), λ d. refl)
  unique_iff true vs = (
    λ e q. (IsDistinct-has_duplicate [] vs e).1,
    λ d. has_duplicate-IsDistinct [] vs (IsNew-nil vs) (d refl),
  )

  check_array_iff :
      (r : Rules N F Re) (vs : List (Json N)) (path : Str)
      → (check_array lib r vs path ≡ []) ↔ IsArray r vs
  unfolding check_array
  check_array_iff r vs path =
      both _ _ (reported _ path _ (exceeds-Meets _ _ r.min_items (λ n. le_iff (length vs) n))) (
        both _ _ (reported _ path _ (exceeds-Meets _ _ r.max_items (λ n. le_iff n (length vs))))
          (reported _ path _ (unique_iff r.unique_items vs)))

  check_required_iff :
      (names : List Str) (fs : Fields N) (path : Str)
      → (check_required lib names fs path ≡ [])
        ↔ All (λ name. elem name (field_names fs) ≡ true) names
  unfolding check_required
  check_required_iff [] fs path = (λ e. tt, λ e. refl)
  check_required_iff (name ∷ names) fs path =
      both _ _ (reported _ path _ (present_iff name fs)) (check_required_iff names fs path)

  check_known_iff :
      (known names : List Str) (path : Str)
      → (check_known lib known names path ≡ []) ↔ All (λ name. elem name known ≡ true) names
  unfolding check_known
  check_known_iff known [] path = (λ e. tt, λ e. refl)
  check_known_iff known (name ∷ names) path =
      both _ _ (reported _ path _ (not_iff (elem name known))) (check_known_iff known names path)

  check_value_iff :
      (r : Rules N F Re) (v : Json N) (path : Str) → (check_value lib r v path ≡ []) ↔ IsAllowed r v
  unfolding check_value
  check_value_iff r v path =
      both _ _
        (reported _ path _ (
          exceeds-Meets _ _ r.enumeration
            (λ allowed. not_iff (any (λ a. lib.same_value a v) allowed))))
        (reported _ path _ (exceeds-Meets _ _ r.constant (λ c. not_iff (lib.same_value v c))))

  closed_iff :
      (additional : Bool) (known names : List Str) (path : Str)
      → ((if additional then [] else check_known lib known names path) ≡ [])
        ↔ (additional ≡ false → All (λ name. elem name known ≡ true) names)
  closed_iff true known names path = (λ e q. absurd (ground arith), λ q. refl)
  closed_iff false known names path = (
    λ e q. (check_known_iff known names path).0 e,
    λ q. (check_known_iff known names path).1 (q refl),
  )

  check_each_iff :
      (test : Json N → Str → List Violation) (P : Json N → Type 0)
      → ((v : Json N) (path : Str) → (test v path ≡ []) ↔ P v)
      → (i : ℕ) (vs : List (Json N)) (path : Str) → (check_each lib test i vs path ≡ []) ↔ All P vs
  unfolding check_each
  check_each_iff test P h i [] path = (λ e. tt, λ e. refl)
  check_each_iff test P h i (v ∷ vs) path =
      both _ _ (h v (path ++ (b'[' ∷ decimal i) ++ b']' ∷ []))
        (check_each_iff test P h (suc i) vs path)

  on_child_iff :
      (test : Json N → Str → List Violation) (P : Json N → Type 0)
      → ((v : Json N) (path : Str) → (test v path ≡ []) ↔ P v)
      → (o : Option (Json N)) (path : Str) → (on_child lib test o path ≡ []) ↔ Meets P o
  on_child_iff test P h none path = (λ e. tt, λ e. refl)
  on_child_iff test P h (some v) path = h v path

  check_inside_iff :
      (r : Rules N F Re) (items : List (Json N) → Str → List Violation)
      (properties : Fields N → Str → List Violation) (known : List Str) (P : List (Json N) → Type 0)
      (Q : Fields N → Type 0)
      → ((vs : List (Json N)) (path : Str) → (items vs path ≡ []) ↔ P vs)
      → ((fs : Fields N) (path : Str) → (properties fs path ≡ []) ↔ Q fs)
      → (v : Json N) (path : Str)
      → (check_inside lib r items properties known v path ≡ []) ↔ IsInside r P Q known v
  check_inside_iff r items properties known P Q p q (text s) path = check_string_iff r s path
  check_inside_iff r items properties known P Q p q (number n) path = check_number_iff r n path
  check_inside_iff r items properties known P Q p q (array vs) path =
      both _ _ (check_array_iff r (to_list vs) path) (p (to_list vs) path)
  check_inside_iff r items properties known P Q p q (object fs) path =
      both _ _ (check_required_iff r.required fs path)
        (both _ _ (q fs path) (closed_iff r.additional_properties known (field_names fs) path))
  check_inside_iff r items properties known P Q p q null path = (λ e. tt, λ e. refl)
  check_inside_iff r items properties known P Q p q (boolean b) path = (λ e. tt, λ e. refl)

  typed_iff :
      {T P : Type 0} (ok : Bool) (rest : List Violation) (path : Str) (p : Problem)
      → (ok ≡ true) ↔ T
      → (rest ≡ []) ↔ P
      → ((if ok then rest else report true path p) ≡ []) ↔ (T × P)
  typed_iff true rest path p t h = (λ e. (t.0 refl, h.0 e), λ (_, q). h.1 q)
  typed_iff false rest path p t h =
      (λ e. absurd (ground arith), λ (d, q). absurd (let f = t.1 d in ground arith))

  mutual
    unfolding check IsValid

    check_iff :
        (n : Node N F Re) (v : Json N) (path : Str) → (check lib n v path ≡ []) ↔ IsValid n v
    check_iff (node r ps is) v path =
        typed_iff (is_type_ok lib r v) _ path _ (is_type_ok_iff lib r v) (
          both _ _ (check_value_iff r v path) (
            check_inside_iff r (check_items lib is) (check_properties lib ps)
              (property_names lib ps) (AreValid is) (HasValid ps) (check_items_iff is)
              (check_properties_iff ps) v path))

    check_items_iff :
        (is : ItemSchema N F Re) (vs : List (Json N)) (path : Str)
        → (check_items lib is vs path ≡ []) ↔ AreValid is vs
    check_items_iff any_item vs path = (λ e. tt, λ e. refl)
    check_items_iff (each_item sub) vs path =
        check_each_iff (check lib sub) (IsValid sub) (check_iff sub) 0 vs path

    check_properties_iff :
        (ps : Properties N F Re) (fs : Fields N) (path : Str)
        → (check_properties lib ps fs path ≡ []) ↔ HasValid ps fs
    check_properties_iff no_properties fs path = (λ e. tt, λ e. refl)
    check_properties_iff (property name sub ps) fs path =
        both _ _
          (on_child_iff (check lib sub) (IsValid sub) (check_iff sub) (get_field name fs)
            (path ++ b'.' ∷ name))
          (check_properties_iff ps fs path)

  -- The validator has no violation to report exactly when the schema describes the value: a value
  -- of one of the types, one of the enumeration, equal to the constant, within the limits of its
  -- kind and of its format, with the required fields, no unknown ones where these are forbidden, no
  -- equal items where items are to be unique, and with fields and items that their schemas describe.
  pub validate_iff : (n : Node N F Re) (v : Json N) → (validate lib n v ≡ []) ↔ IsValid n v
  unfolding validate
  validate_iff n v = check_iff n v []
