-- ===== src/Auth/Keys.antt =====
-- API keys (crates/ecphoria-gateway/src/auth/middleware.rs): parsing an entry of the configuration,
-- and the lookup by digest. SHA-256 is a parameter.
mod Examples
use Prim.Native.Nat.{bit_and, bit_or, bit_xor}
use ecphoria.Prelude.{
  ℕ, zero, suc, ◌+◌, ◌-◌, ◌*◌, ◌<◌, ◌≡◌, ◌≢◌, refl, ap, Bool, true, false, not, ◌&&◌, Option, none,
  some, List, [], ◌∷◌, if◌then◌else◌, arith, or_else, eqb, ltb, leb, length, All, In, here, there,
  ◌↔◌, Bool-cases, Option-cases, inl, inr, ◌⊎◌, sym, ◌∙◌,
}
use ecphoria.Prelude.Bits.{bit_or_zero, bit_xor_zero}
use ecphoria.Prelude.Text.{Str, codes, split_once, starts_with, strip_prefix}
use ecphoria.Auth.Roles.{Role, writer, from_str_loose}

pub record ApiKeyInfo : Type 0 where
  pub tenant : Option Str
  pub role : Role

-- 32 bytes
abbrev pub KeyDigest : Type 0
KeyDigest = List ℕ

-- `u8::is_ascii_hexdigit`, and the value of the digit
hex_value : ℕ → Option ℕ
hex_value c =
    if leb b'0' c && leb c b'9'
    then some (c - b'0')
    else if leb b'a' c && leb c b'f'
    then some (c - b'a' + 10)
    else if leb b'A' c && leb c b'F'
    then some (c - b'A' + 10)
    else none

abbrev cons_byte : Option ℕ → Option ℕ → Option KeyDigest → Option KeyDigest
cons_byte (some a) (some b) (some rest) = some ((a * 16 + b) ∷ rest)
cons_byte _ _ _ = none

-- pairs of digits to bytes
hex_bytes : Str → Option KeyDigest
hex_bytes [] = some []
hex_bytes (a ∷ []) = none
hex_bytes (a ∷ b ∷ s) = cons_byte (hex_value a) (hex_value b) (hex_bytes s)

unfoldable pub hex_to_digest : Str → Option KeyDigest
unfolding hex_value hex_bytes
hex_to_digest s = if eqb (length s) 64 then hex_bytes s else none

abbrev pub nonempty : Str → Option Str
nonempty [] = none
nonempty (c ∷ s) = some (c ∷ s)

-- the part behind `@`
grant_of : Str → ApiKeyInfo
grant_of rest = elim (split_once b':' rest) [
  | none ↦ record { tenant = nonempty rest; role = writer }
  | some (t, r) ↦ record { tenant = nonempty t; role = or_else writer (from_str_loose r) }
]

-- the secret of an entry, and what it grants
split_entry : Str → Str × ApiKeyInfo
unfolding grant_of
split_entry entry = elim (split_once b'@' entry) [
  | none ↦ (entry, record { tenant = none; role = writer })
  | some (key, rest) ↦ (key, grant_of rest)
]

-- `ct_eq`: the loop runs over both texts to the end
diff_from : ℕ → List ℕ → List ℕ → ℕ
diff_from diff [] ys = diff
diff_from diff (x ∷ xs) [] = diff
diff_from diff (x ∷ xs) (y ∷ ys) = diff_from (bit_or diff (bit_xor x y)) xs ys

unfoldable pub ct_eq : List ℕ → List ℕ → Bool
unfolding diff_from
ct_eq a b = if not (eqb (length a) (length b)) then false else eqb (diff_from 0 a b) 0

-- Nothing differs where the accumulated difference is zero.
diff_from_zero :
    (diff : ℕ) (xs ys : List ℕ)
    → length xs ≡ length ys
    → diff_from diff xs ys ≡ 0
    → (diff ≡ 0) × (xs ≡ ys)
unfolding diff_from
diff_from_zero diff [] [] l h = (h, refl)
diff_from_zero diff [] (y ∷ ys) l h = absurd (ground arith)
diff_from_zero diff (x ∷ xs) [] l h = absurd (ground arith)
diff_from_zero diff (x ∷ xs) (y ∷ ys) l h =
    let (d, e) = diff_from_zero (bit_or diff (bit_xor x y)) xs ys (omega arith) h in
    let (p, q) = bit_or_zero diff (bit_xor x y) d in (p, cc (bit_xor_zero x y q, e))

pub ct_eq_sound : (a b : List ℕ) → ct_eq a b ≡ true → a ≡ b
unfolding ct_eq
ct_eq_sound a b h = (diff_from_zero 0 a b (ground arith) (ground arith)).1

module _ (sha256 : Str → KeyDigest) where
  digest_of : Str → Option KeyDigest
  digest_of secret = elim (strip_prefix (codes "sha256:") secret) [
    | none ↦ some (sha256 secret)
    | some hex ↦ hex_to_digest hex
  ]

  unfoldable pub parse_api_key : Str → Option (KeyDigest × ApiKeyInfo)
  unfolding digest_of split_entry
  parse_api_key entry = elim (digest_of (split_entry entry).0) [
    | none ↦ none
    | some d ↦ some (d, (split_entry entry).1)
  ]

  abbrev add_key :
      Option (KeyDigest × ApiKeyInfo)
      → List (KeyDigest × ApiKeyInfo)
      → List (KeyDigest × ApiKeyInfo)
  add_key none keys = keys
  add_key (some k) keys = k ∷ keys

  -- the loop of `AuthState::new`: an entry that does not parse is skipped
  unfoldable pub load_keys : List Str → List (KeyDigest × ApiKeyInfo)
  load_keys [] = []
  load_keys (entry ∷ entries) = add_key (parse_api_key entry) (load_keys entries)

  -- every digest is compared, and the first match is kept
  find_from : Option ApiKeyInfo → KeyDigest → List (KeyDigest × ApiKeyInfo) → Option ApiKeyInfo
  find_from found digest [] = found
  find_from found digest ((stored, info) ∷ keys) =
      find_from
        (elim found [ none ↦ if ct_eq stored digest then some info else none | some i ↦ some i ])
        digest keys

  unfoldable pub find_key : List (KeyDigest × ApiKeyInfo) → Str → Option ApiKeyInfo
  unfolding find_from
  find_key keys token = find_from none (sha256 token) keys

  find_from-In :
      (found : Option ApiKeyInfo) (digest : KeyDigest) (keys : List (KeyDigest × ApiKeyInfo))
      (info : ApiKeyInfo)
      → find_from found digest keys ≡ some info
      → (found ≡ some info) ⊎ ((d : KeyDigest) × In (d, info) keys × (ct_eq d digest ≡ true))
  unfolding find_from
  find_from-In found digest [] info h = inl h
  find_from-In (some i) digest ((stored, k) ∷ keys) info h =
      elim (find_from-In (some i) digest keys info h) [
        | inl e ↦ inl e
        | inr (d, m, c) ↦ inr (d, there m, c)
      ]
  find_from-In none digest ((stored, k) ∷ keys) info h = elim (Bool-cases (ct_eq stored digest)) [
    | inl e ↦ elim (find_from-In (some k) digest keys info (ground arith)) [
      | inl same ↦ inr (stored, here (ground arith), e)
      | inr (d, m, c) ↦ inr (d, there m, c)
    ]
    | inr e ↦ elim (find_from-In none digest keys info (ground arith)) [
      | inl same ↦ absurd (ground arith)
      | inr (d, m, c) ↦ inr (d, there m, c)
    ]
  ]

  In-nil {ℓ} : {A : Type ℓ} (a : A) → In a [] → ⊥
  In-nil a m = elim m [ ]

  add_key-In :
      (o : Option (KeyDigest × ApiKeyInfo)) (keys : List (KeyDigest × ApiKeyInfo))
      (key : KeyDigest × ApiKeyInfo)
      → In key (add_key o keys)
      → (o ≡ some key) ⊎ In key keys
  add_key-In none keys key m = inr m
  add_key-In (some k) keys key (here e) = inl (ap some (sym e))
  add_key-In (some k) keys key (there m) = inr m

  load_keys-In :
      (entries : List Str) (key : KeyDigest × ApiKeyInfo)
      → In key (load_keys entries)
      → (entry : Str) × In entry entries × (parse_api_key entry ≡ some key)
  unfolding load_keys
  load_keys-In [] key m = absurd (In-nil key m)
  load_keys-In (entry ∷ entries) key m =
      elim (add_key-In (parse_api_key entry) (load_keys entries) key m) [
        | inl e ↦ (entry, here refl, e)
        | inr k ↦ let (other, i, p) = load_keys-In entries key k in (other, there i, p)
      ]

  -- A token that a lookup accepts has the digest of an entry of the configuration, byte for byte, and
  -- is granted what that entry says.
  pub find_key-load_keys :
      (entries : List Str) (token : Str) (info : ApiKeyInfo)
      → find_key (load_keys entries) token ≡ some info
      → (entry : Str) × In entry entries × (parse_api_key entry ≡ some (sha256 token, info))
  unfolding find_key
  find_key-load_keys entries token info h =
      elim (find_from-In none (sha256 token) (load_keys entries) info h) [
        | inl e ↦ absurd (ground arith)
        | inr (d, m, c) ↦
            let (entry, i, p) = load_keys-In entries (d, info) m in
            (entry, i, p ∙ ap (λ (x : KeyDigest). some (x, info)) (ct_eq_sound d (sha256 token) c))
      ]
