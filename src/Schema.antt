-- ===== src/Schema.antt =====
-- The JSON Schema validator of the fact schemas (crates/ecphoria-core/src/memory/schema.rs). `compile` is in
-- Schema/Compile. JSON values are serde_json's: its numbers and its equality are parameters, and so are
-- the regular expressions and the parsers of chrono and uuid.
pub mod Kinds
pub mod Valid
pub mod Compile
pub mod Examples
use ecphoria.Prelude.{
  ℕ, zero, suc, ◌+◌, Bool, true, false, not, ◌&&◌, ◌||◌, Option, none, some, List, [], ◌∷◌, ◌++◌,
  if◌then◌else◌, ltb, length, any, is_some, or_else,
}
use ecphoria.Prelude.Eq.{nat_eq, list_eq, ◌==◌}
use ecphoria.Prelude.Assoc.{elem}
use ecphoria.Prelude.Text.{Str, codes, contains, is_whitespace, decimal, trim_start_by}

mutual
  pub data Json (N : Type 0) : Type 0 where
    null : Json N
    boolean : Bool → Json N
    number : N → Json N
    text : Str → Json N
    array : Elements N → Json N
    object : Fields N → Json N

  pub data Elements (N : Type 0) : Type 0 where
    no_elements : Elements N
    element : Json N → Elements N → Elements N

  pub data Fields (N : Type 0) : Type 0 where
    no_fields : Fields N
    field : Str → Json N → Fields N → Fields N

abbrev pub to_list : {N : Type 0} → Elements N → List (Json N)
to_list no_elements = []
to_list (element v vs) = v ∷ to_list vs

-- `map.get(name)`
abbrev pub get_field : {N : Type 0} → Str → Fields N → Option (Json N)
get_field name no_fields = none
get_field name (field n v fs) = let rest = get_field name fs in if n == name then some v else rest

abbrev pub field_names : {N : Type 0} → Fields N → List Str
field_names no_fields = []
field_names (field n v fs) = n ∷ field_names fs

-- The fields of `Node` that hold no other node.
pub record Rules (N F Re : Type 0) : Type 0 where
  pub types : List Str
  pub required : List Str
  pub additional_properties : Bool
  pub enumeration : Option (List (Json N))
  pub constant : Option (Json N)
  pub pattern : Option Re
  pub min_length : Option ℕ
  pub max_length : Option ℕ
  pub minimum : Option F
  pub maximum : Option F
  pub min_items : Option ℕ
  pub max_items : Option ℕ
  pub unique_items : Bool
  pub format : Option Str

mutual
  pub data Node (N F Re : Type 0) : Type 0 where
    node : Rules N F Re → Properties N F Re → ItemSchema N F Re → Node N F Re

  pub data Properties (N F Re : Type 0) : Type 0 where
    no_properties : Properties N F Re
    property : Str → Node N F Re → Properties N F Re → Properties N F Re

  pub data ItemSchema (N F Re : Type 0) : Type 0 where
    any_item : ItemSchema N F Re
    each_item : Node N F Re → ItemSchema N F Re

-- What the validator calls of serde_json, regex, chrono and uuid.
pub record Libraries (N F Re : Type 0) : Type 0 where
  -- `is_i64() || is_u64()`
  pub is_integer : N → Bool
  -- `as_f64().unwrap_or_default()`, and `<` of `f64`
  pub as_f64 : N → F
  pub below : F → F → Bool
  pub same_value : Json N → Json N → Bool
  pub is_match : Re → Str → Bool
  pub is_date_time : Str → Bool
  pub is_date : Str → Bool
  pub is_uuid : Str → Bool
  -- `as_u64` of a number, and `Regex::new`
  pub as_u64 : N → Option ℕ
  pub new_regex : Str → Option Re

-- what a message says, behind its place
pub data Problem : Type 0 where
  expected : List Str → Str → Problem
  not_allowed not_constant too_small too_large too_short too_long no_match : Problem
  too_few too_many duplicate : Problem
  bad_format missing unknown : Str → Problem

pub record Violation : Type 0 where
  pub place : Str
  pub problem : Problem

unfoldable pub at : Str → Str
at [] = codes "<root>"
at (c ∷ s) = trim_start_by (λ d. d == b'.') (c ∷ s)

abbrev pub type_name : {N F Re : Type 0} → Libraries N F Re → Json N → Str
type_name lib null = codes "null"
type_name lib (boolean b) = codes "boolean"
type_name lib (number n) = if lib.is_integer n then codes "integer" else codes "number"
type_name lib (text s) = codes "string"
type_name lib (array vs) = codes "array"
type_name lib (object fs) = codes "object"

abbrev pub is_number : {N : Type 0} → Json N → Bool
is_number (number n) = true
is_number _ = false

abbrev pub is_integer_value : {N F Re : Type 0} → Libraries N F Re → Json N → Bool
is_integer_value lib (number n) = lib.is_integer n
is_integer_value lib _ = false

unfoldable pub type_matches : {N F Re : Type 0} → Libraries N F Re → Json N → Str → Bool
type_matches lib v t =
    if t == codes "number"
    then is_number v
    else if t == codes "integer"
    then is_integer_value lib v
    else t == type_name lib v

unfoldable pub format_ok : {N F Re : Type 0} → Libraries N F Re → Str → Str → Bool
format_ok lib format s =
    if format == codes "date-time"
    then lib.is_date_time s
    else if format == codes "date"
    then lib.is_date s
    else if format == codes "uuid"
    then lib.is_uuid s
    else if format == codes "uri"
    then contains (codes "://") s && not (any is_whitespace s)
    else true

-- one `errors.push(…)`
abbrev pub report : Bool → Str → Problem → List Violation
report broken path problem =
    if broken then record { place = at path; problem = problem } ∷ [] else []

abbrev pub is_nil : {A : Type 0} → List A → Bool
is_nil [] = true
is_nil (a ∷ rest) = false

abbrev pub exceeds : {A : Type 0} → (A → Bool) → Option A → Bool
exceeds test none = false
exceeds test (some a) = test a

module _ {N F Re : Type 0} (lib : Libraries N F Re) where
  -- an earlier item equals a later one
  unfoldable pub has_duplicate : List (Json N) → List (Json N) → Bool
  has_duplicate before [] = false
  has_duplicate before (v ∷ vs) =
      let rest = has_duplicate (before ++ v ∷ []) vs in any (λ w. lib.same_value w v) before || rest

  unfoldable pub check_string : Rules N F Re → Str → Str → List Violation
  unfolding format_ok at
  check_string r s path =
      report (exceeds (λ n. ltb (length s) n) r.min_length) path too_short
      ++ (report (exceeds (λ n. ltb n (length s)) r.max_length) path too_long
          ++ (report (exceeds (λ re. not (lib.is_match re s)) r.pattern) path no_match
              ++ report (exceeds (λ f. not (format_ok lib f s)) r.format) path
                  (bad_format (or_else [] r.format))))

  unfoldable pub check_number : Rules N F Re → N → Str → List Violation
  unfolding at
  check_number r n path =
      report (exceeds (λ m. lib.below (lib.as_f64 n) m) r.minimum) path too_small
      ++ report (exceeds (λ m. lib.below m (lib.as_f64 n)) r.maximum) path too_large

  unfoldable pub check_required : List Str → Fields N → Str → List Violation
  unfolding at
  check_required [] fs path = []
  check_required (name ∷ names) fs path =
      report (not (is_some (get_field name fs))) path (missing name) ++ check_required names fs path

  unfoldable pub check_known : List Str → List Str → Str → List Violation
  unfolding at
  check_known known [] path = []
  check_known known (name ∷ names) path =
      report (not (elem name known)) path (unknown name) ++ check_known known names path

  abbrev pub property_names : Properties N F Re → List Str
  property_names no_properties = []
  property_names (property name sub ps) = name ∷ property_names ps

  unfoldable pub check_array : Rules N F Re → List (Json N) → Str → List Violation
  unfolding has_duplicate at
  check_array r vs path =
      report (exceeds (λ n. ltb (length vs) n) r.min_items) path too_few
      ++ (report (exceeds (λ n. ltb n (length vs)) r.max_items) path too_many
          ++ report (r.unique_items && has_duplicate [] vs) path duplicate)

  -- the items from number `i` on
  unfoldable pub check_each :
      (Json N → Str → List Violation) → ℕ → List (Json N) → Str → List Violation
  check_each check i [] path = []
  check_each check i (v ∷ vs) path =
      check v (path ++ (b'[' ∷ decimal i) ++ b']' ∷ []) ++ check_each check (suc i) vs path

  abbrev pub is_type_ok : Rules N F Re → Json N → Bool
  is_type_ok r v = is_nil r.types || any (type_matches lib v) r.types

  -- The assertions that no type is needed for.
  unfoldable pub check_value : Rules N F Re → Json N → Str → List Violation
  unfolding at
  check_value r v path =
      report (exceeds (λ allowed. not (any (λ a. lib.same_value a v) allowed)) r.enumeration) path
        not_allowed
      ++ report (exceeds (λ c. not (lib.same_value v c)) r.constant) path not_constant

  abbrev pub on_child : (Json N → Str → List Violation) → Option (Json N) → Str → List Violation
  on_child check none path = []
  on_child check (some v) path = check v path

  -- The assertions on a text, a number, an array or an object, with the checks of the items and of the
  -- properties.
  abbrev pub check_inside :
      Rules N F Re
      → (List (Json N) → Str → List Violation)
      → (Fields N → Str → List Violation)
      → List Str
      → Json N
      → Str
      → List Violation
  check_inside r items properties known (text s) path = check_string r s path
  check_inside r items properties known (number n) path = check_number r n path
  check_inside r items properties known (array vs) path =
      check_array r (to_list vs) path ++ items (to_list vs) path
  check_inside r items properties known (object fs) path =
      check_required r.required fs path
      ++ (properties fs path
          ++ (if r.additional_properties then [] else check_known known (field_names fs) path))
  check_inside r items properties known null path = []
  check_inside r items properties known (boolean b) path = []

  unfoldable mutual
    pub check : Node N F Re → Json N → Str → List Violation
    check (node r ps is) v path =
        let inside =
          check_inside r (check_items is) (check_properties ps) (property_names ps) v path in
        if is_type_ok r v
        then check_value r v path ++ inside
        else report true path (expected r.types (type_name lib v))

    pub check_items : ItemSchema N F Re → List (Json N) → Str → List Violation
    check_items any_item vs path = []
    check_items (each_item sub) vs path = check_each (check sub) 0 vs path

    pub check_properties : Properties N F Re → Fields N → Str → List Violation
    check_properties no_properties fs path = []
    check_properties (property name sub ps) fs path =
        on_child (check sub) (get_field name fs) (path ++ b'.' ∷ name)
        ++ check_properties ps fs path

  unfoldable pub validate : Node N F Re → Json N → List Violation
  unfolding check
  validate n v = check n v []
