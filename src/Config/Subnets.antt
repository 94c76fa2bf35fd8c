-- ===== src/Config/Subnets.antt =====
-- The subnet arithmetic of `validate` in src/config.cpp, against subnets as blocks of addresses: the
-- network of an address under a prefix `p` is its quotient by 2 ^ (32 - p), its host part the
-- remainder.
use native.Mathlib.Nat.{
  mul-div_cancel, mod-eq_of_lt, mod-lt, mul-add-mod_self_left, one-le-pow, pow-le-pow_right,
}
use wirelab_experiments.Common.{
  ℕ, ◌+◌, ◌-◌, ◌*◌, ◌/◌, ◌%◌, ◌^◌, ◌≤◌, ◌<◌, min, bit_and, true, [], ◌≡◌, ◌≢◌, ◌↔◌, ap, sym, ◌∙◌,
  arith, ltb, ◌==◌, if◌then◌else◌, Bool-cases, inl, inr,
}
use wirelab_experiments.Common.Bits.{bit_and-low, bit_and-mask}
use wirelab_experiments.Config.{mask, complement, usable, validate_subnets}

-- The number of addresses in a subnet.
abbrev pub block : ℕ → ℕ
block prefix = 2 ^ (32 - prefix)

abbrev pub network : ℕ → ℕ → ℕ
network prefix a = a / block prefix

abbrev pub host : ℕ → ℕ → ℕ
host prefix a = a % block prefix

pub block_pos : (p : ℕ) → 0 < block p
block_pos p = one-le-pow (32 - p) 2 (omega arith)

block-le : (p : ℕ) → block p ≤ 2 ^ 32
block-le p = pow-le-pow_right {n = 2} (omega arith) {i = 32 - p} {j = 32} (omega arith)

mask_lem : (p : ℕ) → mask p ≡ 2 ^ 32 - block p
mask_lem p = omega (
  arith,
  block_pos p,
  block-le p,
  mul-add-mod_self_left (2 ^ 32) (block p - 1) (2 ^ 32 - block p),
  mod-eq_of_lt {n = 2 ^ 32 - block p} {m = 2 ^ 32} (omega (arith, block_pos p, block-le p)),
  ap (λ (t : ℕ). t % 2 ^ 32) (split (block p) (block_pos p) (block-le p)),
)
  where
    split : (b : ℕ) → 0 < b → b ≤ 2 ^ 32 → 0xffff_ffff * b ≡ 2 ^ 32 * (b - 1) + (2 ^ 32 - b)
    split b h k = omega arith

complement_lem : (p : ℕ) → complement (mask p) ≡ block p - 1
complement_lem p = omega (arith, mask_lem p, block_pos p, block-le p)

-- The bits under a mask are the network, those outside it the host part.
pub bit_and-mask_eq : (p a : ℕ) → a < 2 ^ 32 → bit_and a (mask p) ≡ network p a * block p
bit_and-mask_eq p a h = rw (mask_lem p) (bit_and-mask (32 - p) a (omega arith) h)

bit_and-complement : (p a : ℕ) → bit_and a (complement (mask p)) ≡ host p a
bit_and-complement p a = rw (complement_lem p) (bit_and-low (32 - p) a)

-- Neither the network address nor the broadcast address of its block.
pub record IsHost (prefix : ℕ) (a : ℕ) : Type 0 where
  pub above_network : 0 < host prefix a
  pub below_broadcast : host prefix a < block prefix - 1

usable_iff : (p a : ℕ) → (usable a (mask p) ≡ true) ↔ IsHost p a
unfolding usable
usable_iff p a = rw (bit_and-complement, complement_lem p) (ground (arith, mod-lt a (block_pos p)))

network_cancel : (x y b : ℕ) → 0 < b → x * b ≡ y * b → x ≡ y
network_cancel x y b h e =
    sym (mul-div_cancel x {n = b} h) ∙ ap (λ (t : ℕ). t / b) e ∙ mul-div_cancel y {n = b} h

network_iff :
    (p a b : ℕ)
    → a < 2 ^ 32
    → b < 2 ^ 32
    → ((bit_and a (mask p) == bit_and b (mask p)) ≡ true) ↔ (network p a ≡ network p b)
network_iff p a b ha hb =
    rw (bit_and-mask_eq p a ha, bit_and-mask_eq p b hb)
      (ground (arith, network_cancel (network p a) (network p b) (block p) (block_pos p)))

-- What the last block of `validate` promises of the inner address and device under the prefix `p`,
-- and of the outer address and gateway under the prefix `q`.
pub record SubnetsOk (p q inner device outer gateway : ℕ) : Type 0 where
  pub inner_host : IsHost p inner
  pub device_host : IsHost p device
  pub outer_host : IsHost q outer
  pub gateway_host : IsHost q gateway
  pub inner_subnet : network p inner ≡ network p device
  pub outer_subnet : network q outer ≡ network q gateway
  pub disjoint : network (min p q) inner ≢ network (min p q) outer

common_mask_lem : (p q : ℕ) → (if ltb p q then mask p else mask q) ≡ mask (min p q)
common_mask_lem p q = elim (Bool-cases (ltb p q)) [
  | inl h ↦ rw h (ap mask (ground arith))
  | inr h ↦ rw h (ap mask (ground arith))
]

pub validate_subnets-nil_iff :
    (p q inner device outer gateway : ℕ)
    → inner < 2 ^ 32
    → device < 2 ^ 32
    → outer < 2 ^ 32
    → gateway < 2 ^ 32
    → (validate_subnets p q inner device outer gateway ≡ [])
      ↔ SubnetsOk p q inner device outer gateway
unfolding validate_subnets
validate_subnets-nil_iff p q inner device outer gateway hi hd ho hg = rw (common_mask_lem p q) (
    ground (
      arith,
      usable_iff p inner,
      usable_iff p device,
      usable_iff q outer,
      usable_iff q gateway,
      network_iff p inner device hi hd,
      network_iff q outer gateway ho hg,
      network_iff (min p q) inner outer hi ho,
    ))
