-- ===== src/Config/Syntax.antt =====
-- The interface names and MAC addresses that src/config.cpp accepts.
use wirelab_experiments.Common.{
  ℕ, ◌+◌, ◌-◌, ◌/◌, ◌%◌, ◌≤◌, ◌<◌, true, [], ◌∷◌, ◌≡◌, ◌≢◌, ◌↔◌, ◌⊎◌, refl, some, Text, arith,
  text_eq-false_iff, length, All, ltb, if◌then◌else◌, digit, scan, from_chars,
}
use wirelab_experiments.Common.Bits.{bit_and-low}
use wirelab_experiments.Config.{
  interface_byte, interface_bytes, valid_interface, is_colon, mac_byte, mac_bytes, any_nonzero,
  front_is_unicast, unicast_mac,
}

-- A letter, a digit, `_`, `-` or `.`.
abbrev pub IsInterfaceByte : ℕ → Type 0
IsInterfaceByte c =
    ((b'a' ≤ c) × (c ≤ b'z'))
    ⊎ ((b'A' ≤ c) × (c ≤ b'Z'))
    ⊎ ((b'0' ≤ c) × (c ≤ b'9'))
    ⊎ (c ≡ b'_')
    ⊎ (c ≡ b'-')
    ⊎ (c ≡ b'.')

interface_byte_iff : (c : ℕ) → (interface_byte c ≡ true) ↔ IsInterfaceByte c
unfolding interface_byte
interface_byte_iff c = (λ h. ground arith, λ h. ground arith)

interface_bytes_iff : (t : Text) → (interface_bytes t ≡ true) ↔ All IsInterfaceByte t
unfolding interface_bytes
interface_bytes_iff [] = (λ h. tt, λ h. refl)
interface_bytes_iff (c ∷ cs) = (
  λ h. ground (arith, interface_byte_iff c, interface_bytes_iff cs),
  λ h. ground (arith, interface_byte_iff c, interface_bytes_iff cs),
)

pub record IsInterfaceName (t : Text) : Type 0 where
  pub nonempty : 1 ≤ length t
  pub fits : length t ≤ 15
  pub not_dot : t ≢ b'.' ∷ []
  pub not_dots : t ≢ b'.' ∷ b'.' ∷ []
  pub bytes : All IsInterfaceByte t

-- A name is valid exactly when it has 1 to 15 bytes, all letters, digits, `_`, `-` or `.`, and is
-- neither `.` nor `..`.
pub valid_interface_iff : (t : Text) → (valid_interface t ≡ true) ↔ IsInterfaceName t
unfolding valid_interface
valid_interface_iff t = (
  λ h. record {
    nonempty = ground arith;
    fits = ground arith;
    not_dot = (text_eq-false_iff t _).0 (ground arith);
    not_dots = (text_eq-false_iff t _).0 (ground arith);
    bytes = (interface_bytes_iff t).0 (ground arith);
  },
  λ h. ground (
    arith,
    (text_eq-false_iff t (b'.' ∷ [])).1 h.not_dot,
    (text_eq-false_iff t (b'.' ∷ b'.' ∷ [])).1 h.not_dots,
    (interface_bytes_iff t).1 h.bytes,
  ),
)

-- The lower case digit of a number below 16.
pub hex_digit : ℕ → ℕ
hex_digit d = if ltb d 10 then b'0' + d else b'a' + d - 10

abbrev pub hex_byte : ℕ → Text → Text
hex_byte b rest = hex_digit (b / 16) ∷ hex_digit (b % 16) ∷ rest

-- `aa:bb:cc:dd:ee:ff`
abbrev pub mac_text : ℕ → ℕ → ℕ → ℕ → ℕ → ℕ → Text
mac_text b0 b1 b2 b3 b4 b5 = hex_byte b0 (
    b':'
    ∷ hex_byte b1
        (b':' ∷ hex_byte b2 (b':' ∷ hex_byte b3 (b':' ∷ hex_byte b4 (b':' ∷ hex_byte b5 [])))))

digit-hex_digit : (d : ℕ) → d < 16 → digit (hex_digit d) ≡ some d
unfolding digit hex_digit
digit-hex_digit d h = ground arith

from_chars-hex_byte : (b : ℕ) → b < 256 → from_chars 16 (hex_byte b []) ≡ some (b, 2)
unfolding from_chars scan
from_chars-hex_byte b h =
    rw (digit-hex_digit (b / 16) (omega arith), digit-hex_digit (b % 16) (omega arith), scan)
      (ground arith)

module _ (b0 b1 b2 b3 b4 b5 : ℕ) (h0 : b0 < 256) (h1 : b1 < 256) (h2 : b2 < 256) (h3 : b3 < 256)
    (h4 : b4 < 256) (h5 : b5 < 256) where
  pub mac_bytes-mac_text :
      mac_bytes 6 0 (mac_text b0 b1 b2 b3 b4 b5) ≡ some (b0 ∷ b1 ∷ b2 ∷ b3 ∷ b4 ∷ b5 ∷ [])
  unfolding mac_bytes mac_byte is_colon
  mac_bytes-mac_text = rw (
    from_chars-hex_byte b0 h0,
    from_chars-hex_byte b1 h1,
    from_chars-hex_byte b2 h2,
    from_chars-hex_byte b3 h3,
    from_chars-hex_byte b4 h4,
    from_chars-hex_byte b5 h5,
    mac_bytes,
    mac_byte,
  )

  -- The usual notation of any six bytes is accepted exactly when the first byte is even, which makes
  -- the address unicast, and not all six are zero.
  pub unicast_mac-mac_text :
      (unicast_mac (mac_text b0 b1 b2 b3 b4 b5) ≡ true)
      ↔ ((b0 % 2 ≡ 0) × (b0 + b1 + b2 + b3 + b4 + b5 ≢ 0))
  unfolding unicast_mac any_nonzero front_is_unicast
  unicast_mac-mac_text = rw (mac_bytes-mac_text, unicast_mac) (ground (arith, bit_and-low 1 b0))
