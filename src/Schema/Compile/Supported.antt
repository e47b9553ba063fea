-- ===== src/Schema/Compile/Supported.antt =====
-- A schema that compiles has no keyword and no format that the validator does not know, at any depth.
use mathlib.Core.Path.{subst}
use ecphoria.Prelude.{
  ◌≡◌, refl, ap, ◌∙◌, arith, Bool, true, Option, none, some, List, [], ◌∷◌, ◌++◌, All, Bool-cases,
  inl, inr,
}
use ecphoria.Prelude.Eq.{nat_eq, list_eq, list_beq}
use ecphoria.Prelude.Assoc.{elem}
use ecphoria.Prelude.Result.{ok, err}
use ecphoria.Prelude.Text.{Str, codes}
use ecphoria.Schema.{
  Json, null, boolean, number, text, array, object, Fields, no_fields, field, get_field,
  field_names, Node, Properties, ItemSchema, each_item, Libraries,
}
use ecphoria.Schema.Compile.{
  Compiled, supported, supported_formats, and_then, keys_supported, types_of, required_of,
  format_of, pattern_of, assemble, compile_node, items_of, properties_of, object_of, each_of,
  compile,
}

module _ {N : Type 0} where
  pub data IsSupported : Json N → Type 0 where
    is_schema :
        {fs : Fields N}
        → All (λ key. elem key supported ≡ true) (field_names fs)
        → ((v : Json N)
            → get_field (codes "format") fs ≡ some v
            → (f : Str) × (v ≡ text f) × (elem f supported_formats ≡ true))
        → ((v : Json N) → get_field (codes "items") fs ≡ some v → IsSupported v)
        → ((ps : Fields N) (n : Str) (v : Json N)
            → get_field (codes "properties") fs ≡ some (object ps)
            → get_field n ps ≡ some v
            → IsSupported v)
        → IsSupported (object fs)

and_then-ok :
    {A B : Type 0} (r : Compiled A) (f : A → Compiled B) (b : B)
    → and_then r f ≡ ok b
    → (a : A) × (r ≡ ok a) × (f a ≡ ok b)
and_then-ok (err e) f b h = absurd (ground arith)
and_then-ok (ok a) f b h = (a, refl, h)

keys_supported-ok :
    (keys : List Str) (path : Str) (b : Bool)
    → keys_supported keys path ≡ ok b
    → All (λ key. elem key supported ≡ true) keys
unfolding keys_supported
keys_supported-ok [] path b h = tt
keys_supported-ok (key ∷ keys) path b h = elim (Bool-cases (elem key supported)) [
  | inl t ↦ (t, keys_supported-ok keys path b (ground arith))
  | inr f ↦ absurd (ground arith)
]

module _ {N : Type 0} where
  format_of-ok :
      (o : Option (Json N)) (path : Str) (r : Option Str) (v : Json N)
      → format_of o path ≡ ok r
      → o ≡ some v
      → (f : Str) × (v ≡ text f) × (elem f supported_formats ≡ true)
  unfolding format_of
  format_of-ok none path r v h e = absurd (ground arith)
  format_of-ok (some (text f)) path r v h e = elim (Bool-cases (elem f supported_formats)) [
    | inl t ↦ (f, ground arith, t)
    | inr b ↦ absurd (ground arith)
  ]
  format_of-ok (some null) path r v h e = absurd (ground arith)
  format_of-ok (some (boolean b)) path r v h e = absurd (ground arith)
  format_of-ok (some (number n)) path r v h e = absurd (ground arith)
  format_of-ok (some (array vs)) path r v h e = absurd (ground arith)
  format_of-ok (some (object fs)) path r v h e = absurd (ground arith)

  module _ {F Re : Type 0} (lib : Libraries N F Re) where
    assemble-ok :
        (fs : Fields N) (path : Str) (properties : Compiled (Properties N F Re))
        (items : Compiled (ItemSchema N F Re)) (n : Node N F Re)
        → assemble lib fs path properties items ≡ ok n
        → All (λ key. elem key supported ≡ true) (field_names fs)
          × ((ps : Properties N F Re) × (properties ≡ ok ps))
          × ((v : Json N)
              → get_field (codes "format") fs ≡ some v
              → (f : Str) × (v ≡ text f) × (elem f supported_formats ≡ true))
          × ((is : ItemSchema N F Re) × (items ≡ ok is))
    unfolding assemble
    assemble-ok fs path properties items n h =
        let (b, k, h1) = and_then-ok (keys_supported (field_names fs) path) _ n h in
        let (ts, t, h2) = and_then-ok (types_of (get_field (codes "type") fs) path) _ n h1 in
        let (ps, p, h3) = and_then-ok properties _ n h2 in
        let (rs, r, h4) = and_then-ok (required_of (get_field (codes "required") fs) path) _ n h3 in
        let (re, q, h5) =
          and_then-ok (pattern_of lib (get_field (codes "pattern") fs) path) _ n h4 in
        let (o, f, h6) = and_then-ok (format_of (get_field (codes "format") fs) path) _ n h5 in
        let (is, i, h7) = and_then-ok items _ n h6 in
        (
          keys_supported-ok (field_names fs) path b k,
          (ps, p),
          λ v e. format_of-ok (get_field (codes "format") fs) path o v f e,
          (is, i),
        )

    mutual
      unfolding compile_node

      compile_node-IsSupported :
          (v : Json N) (path : Str) (n : Node N F Re)
          → compile_node lib v path ≡ ok n
          → IsSupported v
      compile_node-IsSupported null path n h = absurd (ground arith)
      compile_node-IsSupported (boolean b) path n h = absurd (ground arith)
      compile_node-IsSupported (number x) path n h = absurd (ground arith)
      compile_node-IsSupported (text s) path n h = absurd (ground arith)
      compile_node-IsSupported (array vs) path n h = absurd (ground arith)
      compile_node-IsSupported (object fs) path n h =
          let (k, (ps, p), f, (is, i)) =
            assemble-ok fs path (properties_of lib fs path) (items_of lib fs path) n h in
          is_schema k f (λ v e. items-IsSupported fs path is v i e)
            (λ qs m v e g. properties-IsSupported fs path ps qs m v p e g)

      items-IsSupported :
          (fs : Fields N) (path : Str) (is : ItemSchema N F Re) (v : Json N)
          → items_of lib fs path ≡ ok is
          → get_field (codes "items") fs ≡ some v
          → IsSupported v
      items-IsSupported no_fields path is v h e = absurd (ground arith)
      items-IsSupported (field n w fs) path is v h e =
          elim (Bool-cases (list_beq n (codes "items"))) [
            | inl t ↦
                let (s, c, h1) =
                  and_then-ok (compile_node lib w (path ++ codes "/items")) (λ s. ok (each_item s))
                    is (ground arith) in
                let same : w ≡ v = ground arith in
                subst IsSupported same (compile_node-IsSupported w (path ++ codes "/items") s c)
            | inr f ↦ items-IsSupported fs path is v (ground arith) (ground arith)
          ]

      properties-IsSupported :
          (fs : Fields N) (path : Str) (ps : Properties N F Re) (qs : Fields N) (m : Str)
          (v : Json N)
          → properties_of lib fs path ≡ ok ps
          → get_field (codes "properties") fs ≡ some (object qs)
          → get_field m qs ≡ some v
          → IsSupported v
      properties-IsSupported no_fields path ps qs m v h e g = absurd (ground arith)
      properties-IsSupported (field n w fs) path ps qs m v h e g =
          elim (Bool-cases (list_beq n (codes "properties"))) [
            | inl t ↦
                object-IsSupported w path ps qs m v (ground arith) (ground arith) (ground arith)
            | inr f ↦ properties-IsSupported fs path ps qs m v (ground arith) (ground arith) g
          ]

      object-IsSupported :
          (w : Json N) (path : Str) (ps : Properties N F Re) (qs : Fields N) (m : Str) (v : Json N)
          → object_of lib w path ≡ ok ps
          → w ≡ object qs
          → get_field m qs ≡ some v
          → IsSupported v
      object-IsSupported null path ps qs m v h e g = absurd (ground arith)
      object-IsSupported (boolean b) path ps qs m v h e g = absurd (ground arith)
      object-IsSupported (number x) path ps qs m v h e g = absurd (ground arith)
      object-IsSupported (text s) path ps qs m v h e g = absurd (ground arith)
      object-IsSupported (array vs) path ps qs m v h e g = absurd (ground arith)
      object-IsSupported (object rs) path ps qs m v h e g =
          each-IsSupported rs path ps m v h
            (let same : rs ≡ qs = ground arith in ap (get_field m) same ∙ g)

      each-IsSupported :
          (fs : Fields N) (path : Str) (ps : Properties N F Re) (m : Str) (v : Json N)
          → each_of lib fs path ≡ ok ps
          → get_field m fs ≡ some v
          → IsSupported v
      each-IsSupported no_fields path ps m v h g = absurd (ground arith)
      each-IsSupported (field n w fs) path ps m v h g =
          let (s, c, h1) = and_then-ok (compile_node lib w (path ++ b'/' ∷ n)) _ ps h in
          let (qs, q, h2) = and_then-ok (each_of lib fs path) _ ps h1 in
          elim (Bool-cases (list_beq n m)) [
            | inl t ↦
                let same : w ≡ v = ground arith in
                subst IsSupported same (compile_node-IsSupported w (path ++ b'/' ∷ n) s c)
            | inr f ↦ each-IsSupported fs path qs m v q (ground arith)
          ]

    -- A schema that compiles is an object whose keywords are all supported, whose `format` is a
    -- supported one, and so are the schemas of its items and of its properties.
    pub compile-IsSupported :
        (schema : Json N) (n : Node N F Re) → compile lib schema ≡ ok n → IsSupported schema
    unfolding compile
    compile-IsSupported schema n h = compile_node-IsSupported schema (codes "#") n h
