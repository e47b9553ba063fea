-- ===== src/Prelude/Bits.antt =====
-- When the native `|` and `^` give zero.
use Prim.Native.Nat.{
  ℕ, zero, suc, ◌/◌, ◌%◌, ◌≤◌, max, digits, differ, bit_or, bit_xor, bit_or-bitwise,
  bit_xor-bitwise,
}
use mathlib.Core.Path.{◌≡◌, refl, sym, ◌∙◌}
use native.Mathlib.Omega.{arith}
use native.Mathlib.Nat.{le_refl}

differ_zero : (x y : ℕ) → differ x y ≡ 0 → x ≡ y
differ_zero zero y h = sym h
differ_zero (suc x) zero h = absurd (omega arith)
differ_zero (suc x) (suc y) h = omega (arith, differ_zero x y h)

-- The recursion on digits, for as many of them as the first number needs.
digits-differ_zero : (n a b : ℕ) → a ≤ n → digits (λ y. y) differ n a b ≡ 0 → a ≡ b
digits-differ_zero zero a b l h = omega arith
digits-differ_zero (suc n) zero b l h = sym h
digits-differ_zero (suc n) (suc a) b l h = omega (
  arith,
  digits-differ_zero n (suc a / 2) (b / 2) (omega arith) (omega arith),
  differ_zero (suc a % 2) (b % 2) (omega arith),
)

pub bit_xor_zero : (a b : ℕ) → bit_xor a b ≡ 0 → a ≡ b
bit_xor_zero a b h = digits-differ_zero a a b (le_refl a) (sym (bit_xor-bitwise a b) ∙ h)

digits-max_zero : (n a b : ℕ) → a ≤ n → digits (λ y. y) max n a b ≡ 0 → (a ≡ 0) × (b ≡ 0)
digits-max_zero zero a b l h = (omega arith, h)
digits-max_zero (suc n) zero b l h = (refl, h)
digits-max_zero (suc n) (suc a) b l h =
    let (p, q) = digits-max_zero n (suc a / 2) (b / 2) (omega arith) (omega arith) in
    absurd (omega arith)

pub bit_or_zero : (a b : ℕ) → bit_or a b ≡ 0 → (a ≡ 0) × (b ≡ 0)
bit_or_zero a b h = digits-max_zero a a b (le_refl a) (sym (bit_or-bitwise a b) ∙ h)
