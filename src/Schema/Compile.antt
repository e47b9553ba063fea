-- ===== src/Schema/Compile.antt =====
-- `compile_node` of crates/ecphoria-core/src/memory/schema.rs. Where the source gets a keyword of the
-- schema and compiles what it finds, a function here goes through the fields up to the keyword.
pub mod Supported
use ecphoria.Prelude.{
  ℕ, Bool, true, false, not, ◌&&◌, ◌||◌, Option, none, some, List, [], ◌∷◌, ◌++◌, if◌then◌else◌,
  or_else,
}
use ecphoria.Prelude.Eq.{nat_eq, list_eq, ◌==◌}
use ecphoria.Prelude.Assoc.{elem}
use ecphoria.Prelude.Result.{Result, ok, err}
use ecphoria.Prelude.Text.{Str, codes}
use ecphoria.Schema.{
  Json, null, boolean, number, text, array, object, Fields, no_fields, field, to_list, get_field,
  field_names, Rules, Node, node, Properties, no_properties, property, ItemSchema, any_item,
  each_item, Libraries,
}

abbrev pub supported : List Str
supported =
    codes "$schema"
    ∷ codes "$id"
    ∷ codes "title"
    ∷ codes "description"
    ∷ codes "examples"
    ∷ codes "default"
    ∷ codes "type"
    ∷ codes "properties"
    ∷ codes "required"
    ∷ codes "additionalProperties"
    ∷ codes "enum"
    ∷ codes "const"
    ∷ codes "pattern"
    ∷ codes "minLength"
    ∷ codes "maxLength"
    ∷ codes "minimum"
    ∷ codes "maximum"
    ∷ codes "minItems"
    ∷ codes "maxItems"
    ∷ codes "uniqueItems"
    ∷ codes "items"
    ∷ codes "format"
    ∷ []

abbrev pub supported_formats : List Str
supported_formats = codes "date-time" ∷ codes "date" ∷ codes "uri" ∷ codes "uuid" ∷ []

-- what an error says
pub data Fault : Type 0 where
  no_object bad_type bad_properties bad_required bad_pattern bad_format : Fault
  unsupported : Str → Fault

pub record CompileError : Type 0 where
  pub path : Str
  pub fault : Fault

abbrev pub Compiled : Type 0 → Type 0
Compiled A = Result CompileError A

abbrev pub fail : {A : Type 0} → Str → Fault → Compiled A
fail path fault = err (record { path = path; fault = fault })

abbrev pub and_then : {A B : Type 0} → Compiled A → (A → Compiled B) → Compiled B
and_then (err e) f = err e
and_then (ok a) f = f a

unfoldable pub keys_supported : List Str → Str → Compiled Bool
keys_supported [] path = ok true
keys_supported (key ∷ keys) path =
    let rest = keys_supported keys path in
    if elem key supported then rest else fail path (unsupported key)

module _ {N : Type 0} where
  -- entries that have to be texts
  unfoldable pub strings : List (Json N) → Str → Fault → Compiled (List Str)
  strings [] path fault = ok []
  strings (text s ∷ vs) path fault = and_then (strings vs path fault) (λ ss. ok (s ∷ ss))
  strings (_ ∷ vs) path fault = fail path fault

  abbrev pub types_of : Option (Json N) → Str → Compiled (List Str)
  types_of none path = ok []
  types_of (some (text t)) path = ok (t ∷ [])
  types_of (some (array vs)) path = strings (to_list vs) path bad_type
  types_of (some _) path = fail path bad_type

  abbrev pub required_of : Option (Json N) → Str → Compiled (List Str)
  required_of none path = ok []
  required_of (some (array vs)) path = strings (to_list vs) path bad_required
  required_of (some _) path = fail path bad_required

  unfoldable pub format_of : Option (Json N) → Str → Compiled (Option Str)
  format_of none path = ok none
  format_of (some (text f)) path =
      if elem f supported_formats then ok (some f) else fail path bad_format
  format_of (some _) path = fail path bad_format

  abbrev pub as_bool : Option (Json N) → Option Bool
  as_bool (some (boolean b)) = some b
  as_bool _ = none

  abbrev pub as_array : Option (Json N) → Option (List (Json N))
  as_array (some (array vs)) = some (to_list vs)
  as_array _ = none

  abbrev pub as_number : {A : Type 0} → (N → Option A) → Option (Json N) → Option A
  as_number f (some (number n)) = f n
  as_number f _ = none

  module _ {F Re : Type 0} (lib : Libraries N F Re) where
    abbrev pub regex_of : Option Re → Str → Compiled (Option Re)
    regex_of none path = fail path bad_pattern
    regex_of (some re) path = ok (some re)

    abbrev pub pattern_of : Option (Json N) → Str → Compiled (Option Re)
    pattern_of none path = ok none
    pattern_of (some (text p)) path = regex_of (lib.new_regex p) path
    pattern_of (some _) path = fail path bad_pattern

    abbrev pub rules_of : Fields N → List Str → List Str → Option Re → Option Str → Rules N F Re
    rules_of obj types required pattern format = record {
      types = types;
      required = required;
      additional_properties = or_else true (as_bool (get_field (codes "additionalProperties") obj));
      enumeration = as_array (get_field (codes "enum") obj);
      constant = get_field (codes "const") obj;
      pattern = pattern;
      min_length = as_number lib.as_u64 (get_field (codes "minLength") obj);
      max_length = as_number lib.as_u64 (get_field (codes "maxLength") obj);
      minimum = as_number (λ n. some (lib.as_f64 n)) (get_field (codes "minimum") obj);
      maximum = as_number (λ n. some (lib.as_f64 n)) (get_field (codes "maximum") obj);
      min_items = as_number lib.as_u64 (get_field (codes "minItems") obj);
      max_items = as_number lib.as_u64 (get_field (codes "maxItems") obj);
      unique_items = or_else false (as_bool (get_field (codes "uniqueItems") obj));
      format = format;
    }

    -- The order of the errors: keywords, `type`, `properties`, `required`, `pattern`, `format`, `items`.
    unfoldable pub assemble :
        Fields N
        → Str
        → Compiled (Properties N F Re)
        → Compiled (ItemSchema N F Re)
        → Compiled (Node N F Re)
    unfolding keys_supported format_of
    assemble obj path properties items = and_then (keys_supported (field_names obj) path) (λ _.
        and_then (types_of (get_field (codes "type") obj) path) (λ types. and_then properties (λ ps.
          and_then (required_of (get_field (codes "required") obj) path) (λ required.
            and_then (pattern_of (get_field (codes "pattern") obj) path) (λ pattern.
              and_then (format_of (get_field (codes "format") obj) path) (λ format.
                and_then items
                  (λ is. ok (node (rules_of obj types required pattern format) ps is))))))))

    unfoldable mutual
      unfolding assemble

      pub compile_node : Json N → Str → Compiled (Node N F Re)
      compile_node (object obj) path =
          assemble obj path (properties_of obj path) (items_of obj path)
      compile_node null path = fail path no_object
      compile_node (boolean b) path = fail path no_object
      compile_node (number n) path = fail path no_object
      compile_node (text s) path = fail path no_object
      compile_node (array vs) path = fail path no_object

      -- `obj.get("items")`, compiled
      pub items_of : Fields N → Str → Compiled (ItemSchema N F Re)
      items_of no_fields path = ok any_item
      items_of (field n v fs) path =
          let sub = compile_node v (path ++ codes "/items") in
          let rest = items_of fs path in
          if n == codes "items" then and_then sub (λ s. ok (each_item s)) else rest

      -- `obj.get("properties")`, compiled
      pub properties_of : Fields N → Str → Compiled (Properties N F Re)
      properties_of no_fields path = ok no_properties
      properties_of (field n v fs) path =
          let sub = object_of v path in
          let rest = properties_of fs path in if n == codes "properties" then sub else rest

      pub object_of : Json N → Str → Compiled (Properties N F Re)
      object_of (object ps) path = each_of ps path
      object_of null path = fail path bad_properties
      object_of (boolean b) path = fail path bad_properties
      object_of (number n) path = fail path bad_properties
      object_of (text s) path = fail path bad_properties
      object_of (array vs) path = fail path bad_properties

      pub each_of : Fields N → Str → Compiled (Properties N F Re)
      each_of no_fields path = ok no_properties
      each_of (field n v fs) path =
          let rest = each_of fs path in
          and_then (compile_node v (path ++ b'/' ∷ n))
            (λ s. and_then rest (λ ps. ok (property n s ps)))

    unfoldable pub compile : Json N → Compiled (Node N F Re)
    unfolding compile_node
    compile schema = compile_node schema (codes "#")
