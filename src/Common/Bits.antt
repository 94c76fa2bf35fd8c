-- ===== src/Common/Bits.antt =====
-- `&` with a mask of low ones, and with a mask of high ones, on numbers of any width.
use Prim.Native.Nat.{◌-◌, ◌<◌, ◌^◌, ℕ, zero, suc, ◌+◌, ◌*◌, ◌/◌, ◌%◌, ◌≤◌, bit_and}
use wirelab_experiments.Common.Digits.{bit_and_halves}
use mathlib.Core.Path.{◌≡◌, refl, ap, subst, ◌∙◌}
use native.Mathlib.Omega.{arith}
use Prim.Native.Nat.add
use native.Mathlib.Nat.{
  zero-add, pow-suc, one-le-pow, mul-add-mod_self_left, mod-eq_of_lt, mod-lt, div-add-mod,
  div-div-eq-div-mul, div-one, div-lt_iff_lt-mul, mul_comm, mul_assoc,
}

-- Nothing is common with a word of zeros.
and_zeros : (bound x : ℕ) → x ≤ bound → bit_and x 0 ≡ 0
and_zeros zero x low = subst (λ t. bit_and t 0 ≡ 0) {x = 0} (omega arith) refl
and_zeros (suc bound) x low =
    omega (arith, bit_and_halves x 0, and_zeros bound (x / 2) (omega arith))

two_pow_pos : (k : ℕ) → 0 < 2 ^ k
two_pow_pos k = one-le-pow k 2 (omega arith)

two_pow_suc : (k : ℕ) → 2 ^ suc k ≡ 2 * 2 ^ k
two_pow_suc k = omega (arith, pow-suc 2 k)

pub two_pow_add : (j k : ℕ) → 2 ^ (j + k) ≡ 2 ^ j * 2 ^ k
two_pow_add zero k = rw zero-add (omega arith)
two_pow_add (suc j) k =
    rw (add.suc, two_pow_suc (j + k), two_pow_suc j, two_pow_add j k)
      (omega (arith, mul_assoc 2 (2 ^ j) (2 ^ k)))

mod_double : (a m : ℕ) → 0 < m → a % (2 * m) ≡ a / 2 % m * 2 + a % 2
mod_double a m h = omega (
  arith,
  mul-add-mod_self_left (2 * m) (a / 2 / m) (a / 2 % m * 2 + a % 2),
  mod-eq_of_lt {n = a / 2 % m * 2 + a % 2} {m = 2 * m} (omega (arith, mod-lt (a / 2) h)),
  ap (λ (t : ℕ). t % (2 * m)) (split a m),
)
  where
    split : (a m : ℕ) → a ≡ 2 * m * (a / 2 / m) + (a / 2 % m * 2 + a % 2)
    split a m = omega (arith, div-add-mod (a / 2) m)

-- The low `k` bits.
pub bit_and-low : (k a : ℕ) → bit_and a (2 ^ k - 1) ≡ a % 2 ^ k
bit_and-low zero a = omega (arith, and_zeros a a (omega arith))
bit_and-low (suc k) a = rw two_pow_suc (
    omega (
      arith,
      bit_and_halves a (2 * 2 ^ k - 1),
      ap (bit_and (a / 2)) (halve (2 ^ k) (two_pow_pos k)),
      bit_and-low k (a / 2),
      mod_double a (2 ^ k) (two_pow_pos k),
      two_pow_pos k,
    ))
  where
    halve : (m : ℕ) → 0 < m → (2 * m - 1) / 2 ≡ m - 1
    halve m h = omega arith

-- A mask that ends in `k` zeros.
pub bit_and-high : (k m a : ℕ) → bit_and a (2 ^ k * m) ≡ 2 ^ k * bit_and (a / 2 ^ k) m
bit_and-high zero m a =
    omega (arith, ap (bit_and a) (one_mul m), ap (λ (t : ℕ). bit_and t m) (div-one a))
  where
    one_mul : (n : ℕ) → 1 * n ≡ n
    one_mul n = omega arith
bit_and-high (suc k) m a =
    rw (two_pow_suc k, ← div-div-eq-div-mul a 2 (2 ^ k))
      (omega (
        arith,
        bit_and_halves a (2 * 2 ^ k * m),
        ap (bit_and (a / 2)) (halve (2 ^ k) m),
        bit_and-high k m (a / 2),
      ))
  where
    halve : (p m : ℕ) → 2 * p * m / 2 ≡ p * m
    halve p m = omega arith

-- An IPv4 mask of `32 - k` ones before `k` zeros, and its complement.
pub bit_and-mask : (k a : ℕ) → k ≤ 32 → a < 2 ^ 32 → bit_and a (2 ^ 32 - 2 ^ k) ≡ a / 2 ^ k * 2 ^ k
bit_and-mask k a h small = rw (shape (2 ^ k) (2 ^ (32 - k)) whole) (
    omega (
      arith,
      bit_and-high k (2 ^ (32 - k) - 1) a,
      ap (λ (t : ℕ). 2 ^ k * t)
          (bit_and-low (32 - k) (a / 2 ^ k)
            ∙ mod-eq_of_lt
                ((div-lt_iff_lt-mul {x = a} (two_pow_pos k)).1 (rw (mul_comm, whole) small))),
    ))
  where
    suc_pred : (q : ℕ) → suc q - 1 ≡ q
    suc_pred q = omega arith

    sum : (k : ℕ) → k ≤ 32 → k + (32 - k) ≡ 32
    sum k h = omega arith

    whole : 2 ^ k * 2 ^ (32 - k) ≡ 2 ^ 32
    whole = omega (arith, two_pow_add k (32 - k), ap (λ (t : ℕ). 2 ^ t) (sum k h))

    shape : (p q : ℕ) → p * q ≡ 2 ^ 32 → 2 ^ 32 - p ≡ p * (q - 1)
    shape p zero e = absurd (omega arith)
    shape p (suc q) e = rw (← e, suc_pred q) (omega arith)
