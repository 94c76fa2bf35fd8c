-- ===== src/Common/Words.antt =====
-- `|` and `^` on words.
use Prim.Native.Nat.{ℕ, zero, suc, ◌+◌, ◌*◌, ◌/◌, ◌%◌, ◌^◌, ◌≤◌, ◌<◌, bit_or, bit_xor, differ}
use wirelab_experiments.Common.Digits.{bit_or_halves, bit_xor_halves}
use mathlib.Core.Path.{◌≡◌, refl, ap}
use mathlib.Core.Logic.{◌↔◌}
use native.Mathlib.Omega.{arith}
use native.Mathlib.Nat.{pow-suc, mul_assoc}

-- The operands are zero where `|` is.
or_zero : (n a b : ℕ) → a ≤ n → b ≤ n → bit_or a b ≡ 0 → (a ≡ 0) × (b ≡ 0)
or_zero zero a b p q h = omega arith
or_zero (suc n) a b p q h = omega (
  arith,
  bit_or_halves a b,
  or_zero n (a / 2) (b / 2) (omega arith) (omega arith) (omega (arith, bit_or_halves a b)),
)

pub bit_or-zero_iff : (a b : ℕ) → (bit_or a b ≡ 0) ↔ ((a ≡ 0) × (b ≡ 0))
bit_or-zero_iff a b = (or_zero (a + b) a b (omega arith) (omega arith), λ h. rw (h.0, h.1))

differ-zero : (a b : ℕ) → differ a b ≡ 0 → a ≡ b
differ-zero zero b h = omega arith
differ-zero (suc a) zero h = omega arith
differ-zero (suc a) (suc b) h = ap suc (differ-zero a b h)

differ_self : (a : ℕ) → differ a a ≡ 0
differ_self zero = refl
differ_self (suc a) = differ_self a

xor_zero : (n a b : ℕ) → a ≤ n → b ≤ n → bit_xor a b ≡ 0 → a ≡ b
xor_zero zero a b p q h = omega arith
xor_zero (suc n) a b p q h = omega (
  arith,
  differ-zero (a % 2) (b % 2) (omega (arith, bit_xor_halves a b)),
  xor_zero n (a / 2) (b / 2) (omega arith) (omega arith) (omega (arith, bit_xor_halves a b)),
)

xor_self : (n a : ℕ) → a ≤ n → bit_xor a a ≡ 0
xor_self zero zero p = refl
xor_self zero (suc a) p = absurd (omega arith)
xor_self (suc n) a p =
    omega (arith, bit_xor_halves a a, xor_self n (a / 2) (omega arith), differ_self (a % 2))

pub bit_xor-zero_iff : (a b : ℕ) → (bit_xor a b ≡ 0) ↔ (a ≡ b)
bit_xor-zero_iff a b =
    (xor_zero (a + b) a b (omega arith) (omega arith), λ h. rw h (xor_self b b (omega arith)))

or_none : (n a : ℕ) → a ≤ n → bit_or a 0 ≡ a
or_none zero zero h = refl
or_none zero (suc a) h = absurd (omega arith)
or_none (suc n) a h = omega (arith, bit_or_halves a 0, or_none n (a / 2) (omega arith))

-- Digits that are put behind others.
pub bit_or-shifted : (k high low : ℕ) → low < 2 ^ k → bit_or (high * 2 ^ k) low ≡ high * 2 ^ k + low
bit_or-shifted zero high low h =
    rw (low_zero low h) (omega (arith, or_none (high * 1) (high * 1) (omega arith)))
  where
    low_zero : (low : ℕ) → low < 1 → low ≡ 0
    low_zero low h = omega arith
bit_or-shifted (suc k) high low h =
    rw (doubled high (2 ^ k) (2 ^ suc k) (omega (arith, pow-suc 2 k))) (
      omega (
        arith,
        bit_or_halves (high * 2 ^ k * 2) low,
        bit_or-shifted k high (low / 2) (omega (arith, pow-suc 2 k)),
        ap (λ n. bit_or n (low / 2)) (halved (high * 2 ^ k)),
      ))
  where
    doubled : (high x y : ℕ) → y ≡ x * 2 → high * y ≡ high * x * 2
    doubled high x y e = rw (e, mul_assoc) refl

    halved : (x : ℕ) → x * 2 / 2 ≡ x
    halved x = omega arith
