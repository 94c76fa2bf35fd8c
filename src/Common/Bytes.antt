-- ===== src/Common/Bytes.antt =====
-- `std::string` and `std::string_view` as lists of bytes, with the calls of the standard library
-- that the sources make on them.
use Prim.Native.Nat.{ℕ, ◌+◌, ◌-◌, ◌*◌, ◌^◌}
use Prim.Native.Char.{code}
use Prim.Native.String.{String}
use mathlib.Core.Path.{◌≡◌, refl, subst}
use mathlib.Core.Logic.{◌↔◌, ◌≢◌, inl, inr}
use mathlib.Core.Bool.{Bool, true, false, ◌&&◌}
use mathlib.Core.Option.{Option, none, some}
use mathlib.Core.List.{List, [], ◌∷◌}
use native.Mathlib.Omega.{arith}
use wirelab_experiments.Common.Tests.{ltb, leb, ◌==◌, if◌then◌else◌, Bool-cases}

abbrev pub Text : Type 0
Text = List ℕ

-- The bytes of an ASCII literal.
abbrev pub codes : String → Text
codes String.[] = []
codes (String.◌∷◌ c s) = code c ∷ codes s

-- `a == b`
unfoldable pub text_eq : Text → Text → Bool
text_eq [] [] = true
text_eq [] (y ∷ ys) = false
text_eq (x ∷ xs) [] = false
text_eq (x ∷ xs) (y ∷ ys) = (x == y) && text_eq xs ys

pub text_eq_refl : (a : Text) → text_eq a a ≡ true
unfolding text_eq
text_eq_refl [] = refl
text_eq_refl (x ∷ xs) = ground (arith, text_eq_refl xs)

pub text_eq_sound : (a b : Text) → text_eq a b ≡ true → a ≡ b
unfolding text_eq
text_eq_sound [] [] h = refl
text_eq_sound [] (y ∷ ys) h = cc
text_eq_sound (x ∷ xs) [] h = cc
text_eq_sound (x ∷ xs) (y ∷ ys) h = ground (arith, text_eq_sound xs ys)

pub text_eq_iff : (a b : Text) → (text_eq a b ≡ true) ↔ (a ≡ b)
text_eq_iff a b = (text_eq_sound a b, λ e. subst (λ t. text_eq a t ≡ true) e (text_eq_refl a))

pub text_eq-false_iff : (a b : Text) → (text_eq a b ≡ false) ↔ (a ≢ b)
text_eq-false_iff a b = (
  λ h e. cc (text_eq_refl a),
  λ h. elim (Bool-cases (text_eq a b)) [ inl e ↦ absurd (h (text_eq_sound a b e)) | inr e ↦ e ],
)

-- What a C function reads of `s.c_str()`: the bytes before the first NUL.
unfoldable pub c_str : Text → Text
c_str [] = []
c_str (x ∷ xs) = if x == 0 then [] else x ∷ c_str xs

-- The value of a digit in bases up to 16.
unfoldable pub digit : ℕ → Option ℕ
digit c =
    if leb b'0' c && leb c b'9'
    then some (c - b'0')
    else if leb b'a' c && leb c b'f'
    then some (c - b'a' + 10)
    else if leb b'A' c && leb c b'F'
    then some (c - b'A' + 10)
    else none

-- The digits at the front of a text: their value, after `acc`, and their number, after `n`.
unfoldable pub scan : ℕ → ℕ → ℕ → Text → ℕ × ℕ
scan base acc n [] = (acc, n)
scan base acc n (c ∷ cs) = elim (digit c) [
  | none ↦ (acc, n)
  | some d ↦ if ltb d base then scan base (acc * base + d) (n + 1) cs else (acc, n)
]

-- `std::from_chars` into an `unsigned` of 32 bits: the value and how many bytes it took. `none` is
-- an error code, for no digit at all or a value out of range.
unfoldable pub from_chars : ℕ → Text → Option (ℕ × ℕ)
from_chars base s =
    let r = scan base 0 0 s in if r.1 == 0 then none else if ltb r.0 (2 ^ 32) then some r else none
