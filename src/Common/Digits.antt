-- ===== src/Common/Digits.antt =====
-- The bitwise operations of C++ on unsigned words, one binary digit at a time: what each does to the
-- last digits and to the halves of its operands.
use Prim.Native.Nat.{
  ℕ, zero, suc, ◌+◌, ◌-◌, ◌*◌, ◌/◌, ◌%◌, ◌≤◌, min, max, differ, digits, bitwise, bit_and, bit_or,
  bit_xor, bit_and-bitwise, bit_or-bitwise, bit_xor-bitwise,
}
use mathlib.Core.Path.{◌≡◌, refl, ap, ◌∙◌}
use native.Mathlib.Omega.{arith}

module _ (tail : ℕ → ℕ) (op : ℕ → ℕ → ℕ) where
  -- A count of digits that is high enough may be raised.
  one_more : (count x y : ℕ) → x ≤ count → digits tail op (suc count) x y ≡ digits tail op count x y
  one_more zero zero y enough = refl
  one_more (suc count) zero y enough = refl
  one_more zero (suc x) y enough = absurd (omega arith)
  one_more (suc count) (suc x) y enough =
      ap (λ d. d * 2 + op (suc x % 2) (y % 2)) (one_more count (suc x / 2) (y / 2) (omega arith))

  raised : (extra x y : ℕ) → digits tail op (extra + x) x y ≡ bitwise tail op x y
  raised zero x y = ap (λ count. digits tail op count x y) (omega arith)
  raised (suc extra) x y =
      ap (λ count. digits tail op count x y) {y = suc (extra + x)} (omega arith)
      ∙ (one_more (extra + x) x y (omega arith) ∙ raised extra x y)

  -- Any operation that treats a first operand which has run out like one of zeros.
  bitwise_halves :
      ((y : ℕ) → tail y ≡ tail (y / 2) * 2 + op 0 (y % 2))
      → (x y : ℕ) → bitwise tail op x y ≡ bitwise tail op (x / 2) (y / 2) * 2 + op (x % 2) (y % 2)
  bitwise_halves zeros zero y = zeros y
  bitwise_halves zeros (suc x) y =
      ap (λ d. d * 2 + op (suc x % 2) (y % 2))
        (ap (λ count. digits tail op count (suc x / 2) (y / 2)) (omega arith)
          ∙ raised (x - suc x / 2) (suc x / 2) (y / 2))

pub bit_and_halves : (x y : ℕ) → bit_and x y ≡ bit_and (x / 2) (y / 2) * 2 + min (x % 2) (y % 2)
bit_and_halves x y =
    rw (bit_and-bitwise x y, bit_and-bitwise (x / 2) (y / 2))
      (bitwise_halves (λ y. 0) min (λ y. omega arith) x y)

pub bit_or_halves : (x y : ℕ) → bit_or x y ≡ bit_or (x / 2) (y / 2) * 2 + max (x % 2) (y % 2)
bit_or_halves x y =
    rw (bit_or-bitwise x y, bit_or-bitwise (x / 2) (y / 2))
      (bitwise_halves (λ y. y) max (λ y. omega arith) x y)

pub bit_xor_halves : (x y : ℕ) → bit_xor x y ≡ bit_xor (x / 2) (y / 2) * 2 + differ (x % 2) (y % 2)
bit_xor_halves x y =
    rw (bit_xor-bitwise x y, bit_xor-bitwise (x / 2) (y / 2))
      (bitwise_halves (λ y. y) differ (λ y. omega arith) x y)
