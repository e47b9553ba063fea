-- ===== src/Schema/Examples.antt =====
-- A schema of one text field.
use ecphoria.Prelude.{ℕ, ◌≡◌, ◌↔◌, refl, Bool, true, false, none, some, [], ◌∷◌, ltb, eqb}
use ecphoria.Prelude.Eq.{nat_eq, list_eq, ◌==◌}
use ecphoria.Prelude.Result.{ok}
use ecphoria.Prelude.Text.{codes}
use ecphoria.Schema.{
  Json, boolean, number, text, array, object, no_elements, element, no_fields, field, Rules, Node,
  node, no_properties, property, any_item, Libraries, too_short, unknown, validate, check,
  check_string, check_required, check_known, check_value, at, type_matches,
}
use ecphoria.Schema.Valid.{IsValid, validate_iff}
use ecphoria.Schema.Compile.{compile, compile_node, assemble, keys_supported, strings, format_of}
use ecphoria.Schema.Compile.Supported.{IsSupported, compile-IsSupported}

abbrev same_scalar : Json ℕ → Json ℕ → Bool
same_scalar (text s) (text t) = s == t
same_scalar (number m) (number n) = eqb m n
same_scalar _ _ = false

abbrev naturals : Libraries ℕ ℕ ℕ
naturals = record {
  is_integer = λ n. true;
  as_f64 = λ n. n;
  below = ltb;
  same_value = same_scalar;
  is_match = λ re s. true;
  is_date_time = λ s. false;
  is_date = λ s. false;
  is_uuid = λ s. false;
  as_u64 = λ n. some n;
  new_regex = λ s. none;
}

abbrev name_schema : Json ℕ
name_schema =
    object (
      field (codes "type") (text (codes "string")) (field (codes "minLength") (number 2) no_fields))

abbrev schema : Json ℕ
schema = object (
    field (codes "type") (text (codes "object")) (
      field (codes "required") (array (element (text (codes "name")) no_elements)) (
        field (codes "properties") (object (field (codes "name") name_schema no_fields))
          (field (codes "additionalProperties") (boolean false) no_fields))))

abbrev name_rules : Rules ℕ ℕ ℕ
name_rules = record {
  types = codes "string" ∷ [];
  required = [];
  additional_properties = true;
  enumeration = none;
  constant = none;
  pattern = none;
  min_length = some 2;
  max_length = none;
  minimum = none;
  maximum = none;
  min_items = none;
  max_items = none;
  unique_items = false;
  format = none;
}

abbrev compiled : Node ℕ ℕ ℕ
compiled =
    node
      (record name_rules {
        types = codes "object" ∷ [];
        required = codes "name" ∷ [];
        additional_properties = false;
        min_length = none;
      })
      (property (codes "name") (node name_rules no_properties any_item) no_properties) any_item

compiles : compile naturals schema ≡ ok compiled
unfolding compile compile_node assemble keys_supported strings format_of
compiles = refl

compile-IsSupported_example : IsSupported schema
compile-IsSupported_example = compile-IsSupported naturals schema compiled compiles

-- a short name and a field that the schema does not know
abbrev person : Json ℕ
person = object (field (codes "name") (text (codes "x")) (field (codes "age") (number 3) no_fields))

two_problems :
    validate naturals compiled person
    ≡ record { place = codes "name"; problem = too_short }
      ∷ record { place = codes "<root>"; problem = unknown (codes "age") }
      ∷ []
unfolding validate check check_string check_required check_known check_value at type_matches
two_problems = refl

validate_iff_example : (validate naturals compiled person ≡ []) ↔ IsValid naturals compiled person
validate_iff_example = validate_iff naturals compiled person
