-- ===== src/Schema/Kinds.antt =====
-- What the names of types and formats in a schema stand for.
use mathlib.Core.Path.{subst}
use ecphoria.Prelude.{
  ◌≡◌, ◌↔◌, ◌⊎◌, inl, inr, refl, sym, arith, true, false, not, ◌&&◌, ◌||◌, List, [], ◌∷◌,
  if◌then◌else◌, any, All, In, here, there, Bool-cases,
}
use ecphoria.Prelude.Eq.{nat_eq, list_eq, list_beq, list_beq_iff}
use ecphoria.Prelude.Text.{Str, codes, contains, is_whitespace}
use ecphoria.Schema.{
  Json, null, boolean, number, text, array, object, Libraries, type_matches, is_type_ok, format_ok,
  Rules, is_nil,
}

module _ {N F Re : Type 0} (lib : Libraries N F Re) where
  -- The value is of the named type: every number is a `number`, and a whole one an `integer` too.
  abbrev pub IsOfType : Str → Json N → Type 0
  IsOfType t null = t ≡ codes "null"
  IsOfType t (boolean b) = t ≡ codes "boolean"
  IsOfType t (number n) = (t ≡ codes "number") ⊎ ((t ≡ codes "integer") × (lib.is_integer n ≡ true))
  IsOfType t (text s) = t ≡ codes "string"
  IsOfType t (array vs) = t ≡ codes "array"
  IsOfType t (object fs) = t ≡ codes "object"

  -- one of the types, where any is named
  abbrev pub HasType : List Str → Json N → Type 0
  HasType types v = (types ≡ []) ⊎ ((t : Str) × In t types × IsOfType t v)

  -- the four formats that say something
  abbrev pub IsFormat : Str → Str → Type 0
  IsFormat format s =
      (format ≡ codes "date-time" → lib.is_date_time s ≡ true)
      × (format ≡ codes "date" → lib.is_date s ≡ true)
      × (format ≡ codes "uuid" → lib.is_uuid s ≡ true)
      × (format ≡ codes "uri"
          → (contains (codes "://") s ≡ true) × All (λ c. is_whitespace c ≡ false) s)

  -- A type that is not of numbers is matched by its name alone.
  named_iff :
      (t name : Str)
      → list_beq name (codes "number") ≡ false
      → list_beq name (codes "integer") ≡ false
      → ((if list_beq t (codes "number")
            then false
            else if list_beq t (codes "integer")
            then false
            else list_beq t name)
          ≡ true)
        ↔ (t ≡ name)
  named_iff t name n i = (
    λ h. (list_beq_iff t name).0 (ground arith),
    λ e.
        let same = (list_beq_iff t name).1 e in
        let a = subst (λ x. list_beq x (codes "number") ≡ false) (sym e) n in
        let b = subst (λ x. list_beq x (codes "integer") ≡ false) (sym e) i in ground arith,
  )

  number_iff : (n : N) (t : Str) → (type_matches lib (number n) t ≡ true) ↔ IsOfType t (number n)
  unfolding type_matches
  number_iff n t = elim (Bool-cases (list_beq t (codes "number"))) [
    | inl a ↦ (λ h. inl ((list_beq_iff t (codes "number")).0 a), λ e. ground arith)
    | inr a ↦ elim (Bool-cases (list_beq t (codes "integer"))) [
      | inl b ↦ (
        λ h. inr ((list_beq_iff t (codes "integer")).0 b, ground arith),
        λ e. elim e [
          | inl q ↦ absurd (let f = (list_beq_iff t (codes "number")).1 q in ground arith)
          | inr (q, w) ↦ ground arith
        ],
      )
      | inr b ↦ (
        λ h. elim (Bool-cases (lib.is_integer n)) [
          | inl w ↦ absurd (ground arith)
          | inr w ↦ absurd (ground arith)
        ],
        λ e. elim e [
          | inl q ↦ absurd (let f = (list_beq_iff t (codes "number")).1 q in ground arith)
          | inr (q, w) ↦ absurd (let f = (list_beq_iff t (codes "integer")).1 q in ground arith)
        ],
      )
    ]
  ]

  type_matches_iff : (v : Json N) (t : Str) → (type_matches lib v t ≡ true) ↔ IsOfType t v
  unfolding type_matches
  type_matches_iff null t = named_iff t (codes "null") refl refl
  type_matches_iff (boolean b) t = named_iff t (codes "boolean") refl refl
  type_matches_iff (number n) t = number_iff n t
  type_matches_iff (text s) t = named_iff t (codes "string") refl refl
  type_matches_iff (array vs) t = named_iff t (codes "array") refl refl
  type_matches_iff (object fs) t = named_iff t (codes "object") refl refl

  any_later :
      (v : Json N) (t : Str) (types : List Str)
      → type_matches lib v t ≡ false
      → (((u : Str) × In u types × IsOfType u v) → any (type_matches lib v) types ≡ true)
      → (u : Str) × In u (t ∷ types) × IsOfType u v
      → any (type_matches lib v) (t ∷ types) ≡ true
  any_later v t types m k (u, here e, o) =
      absurd (let f = (type_matches_iff v t).1 (subst (λ x. IsOfType x v) e o) in ground arith)
  any_later v t types m k (u, there i, o) = let f = k (u, i, o) in ground arith

  any_type_iff :
      (v : Json N) (types : List Str)
      → (any (type_matches lib v) types ≡ true) ↔ ((t : Str) × In t types × IsOfType t v)
  any_type_iff v [] = (λ h. absurd (ground arith), λ (t, i, o). elim i [ ])
  any_type_iff v (t ∷ types) = elim (Bool-cases (type_matches lib v t)) [
    | inl m ↦ (λ h. (t, here refl, (type_matches_iff v t).0 m), λ e. ground arith)
    | inr m ↦ (
      λ h. let (u, i, o) = (any_type_iff v types).0 (ground arith) in (u, there i, o),
      λ e. any_later v t types m (any_type_iff v types).1 e,
    )
  ]

  -- A value passes the test of its type exactly when it has one of the types.
  pub is_type_ok_iff :
      (r : Rules N F Re) (v : Json N) → (is_type_ok lib r v ≡ true) ↔ HasType r.types v
  is_type_ok_iff r v = types_iff r.types
    where
      types_iff :
          (types : List Str)
          → ((is_nil types || any (type_matches lib v) types) ≡ true) ↔ HasType types v
      types_iff [] = (λ h. inl refl, λ h. refl)
      types_iff (t ∷ types) = (
        λ h. inr ((any_type_iff v (t ∷ types)).0 h),
        λ h. elim h [ inl e ↦ absurd (ground arith) | inr e ↦ (any_type_iff v (t ∷ types)).1 e ],
      )

  no_blank_iff :
      (s : Str) → (not (any is_whitespace s) ≡ true) ↔ All (λ c. is_whitespace c ≡ false) s
  no_blank_iff [] = (λ h. tt, λ h. refl)
  no_blank_iff (c ∷ s) = elim (Bool-cases (is_whitespace c)) [
    | inl w ↦ (λ h. absurd (ground arith), λ h. absurd (ground arith))
    | inr w ↦ (
      λ h. (w, (no_blank_iff s).0 (ground arith)),
      λ h. let k = (no_blank_iff s).1 h.1 in ground arith,
    )
  ]

  uri_iff :
      (s : Str)
      → (contains (codes "://") s && not (any is_whitespace s) ≡ true)
        ↔ ((contains (codes "://") s ≡ true) × All (λ c. is_whitespace c ≡ false) s)
  uri_iff s = (
    λ h. (ground arith, (no_blank_iff s).0 (ground arith)),
    λ (a, b). let k = (no_blank_iff s).1 b in ground arith,
  )

  described-format_ok : (format s : Str) → IsFormat format s → format_ok lib format s ≡ true
  unfolding format_ok
  described-format_ok format s (a, b, c, d) =
      elim (Bool-cases (list_beq format (codes "date-time"))) [
        | inl e ↦ let k = a ((list_beq_iff format (codes "date-time")).0 e) in ground arith
        | inr e ↦ elim (Bool-cases (list_beq format (codes "date"))) [
          | inl f ↦ let k = b ((list_beq_iff format (codes "date")).0 f) in ground arith
          | inr f ↦ elim (Bool-cases (list_beq format (codes "uuid"))) [
            | inl g ↦ let k = c ((list_beq_iff format (codes "uuid")).0 g) in ground arith
            | inr g ↦ elim (Bool-cases (list_beq format (codes "uri"))) [
              | inl h ↦
                  let k = (uri_iff s).1 (d ((list_beq_iff format (codes "uri")).0 h)) in
                  ground arith
              | inr h ↦ ground arith
            ]
          ]
        ]
      ]

  -- A text passes the test of a format exactly when it is of that format.
  pub format_ok_iff : (format s : Str) → (format_ok lib format s ≡ true) ↔ IsFormat format s
  unfolding format_ok
  format_ok_iff format s = (
    λ h. (
      λ e. subst (λ x. format_ok lib x s ≡ true) e h,
      λ e. subst (λ x. format_ok lib x s ≡ true) e h,
      λ e. subst (λ x. format_ok lib x s ≡ true) e h,
      λ e. (uri_iff s).0 (subst (λ x. format_ok lib x s ≡ true) e h),
    ),
    described-format_ok format s,
  )
