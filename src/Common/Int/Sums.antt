-- ===== src/Common/Int/Sums.antt =====
-- Addition of signed integers, and sums over lists.
use Prim.Native.Nat.{ℕ, ◌+◌}
use mathlib.Core.Path.{◌≡◌, sym, ap, ◌∙◌}
use mathlib.Core.Logic.{◌↔◌}
use mathlib.Core.Bool.{Bool, true, false}
use mathlib.Core.List.{List, [], ◌∷◌}
use native.Mathlib.Omega.{arith}
use wirelab_experiments.Common.Tests.{◌==◌}
use wirelab_experiments.Common.Int.{ℤ, pos, negsuc, pos_part, neg_part, sub_ℕ}

infixl 65 ◌+ℤ◌
unfoldable pub ◌+ℤ◌ : ℤ → ℤ → ℤ
a +ℤ b = sub_ℕ (pos_part a + pos_part b) (neg_part a + neg_part b)

sub_ℕ-balance : (a b : ℕ) → pos_part (sub_ℕ a b) + b ≡ neg_part (sub_ℕ a b) + a
sub_ℕ-balance a b = ground arith

sub_ℕ-same : (a b c d : ℕ) → a + d ≡ c + b → sub_ℕ a b ≡ sub_ℕ c d
sub_ℕ-same a b c d h = ground arith

pub +ℤ-comm : (a b : ℤ) → a +ℤ b ≡ b +ℤ a
unfolding ◌+ℤ◌
+ℤ-comm a b = sub_ℕ-same _ _ _ _ (omega arith)

pub +ℤ-assoc : (a b c : ℤ) → (a +ℤ b) +ℤ c ≡ a +ℤ (b +ℤ c)
unfolding ◌+ℤ◌
+ℤ-assoc a b c =
    let l = sub_ℕ-balance (pos_part a + pos_part b) (neg_part a + neg_part b) in
    let r = sub_ℕ-balance (pos_part b + pos_part c) (neg_part b + neg_part c) in
    sub_ℕ-same _ _ _ _ (omega arith)

pub +ℤ-zero : (a : ℤ) → a +ℤ pos 0 ≡ a
unfolding ◌+ℤ◌
+ℤ-zero (pos n) = ground arith
+ℤ-zero (negsuc n) = ground arith

pub zero-+ℤ : (a : ℤ) → pos 0 +ℤ a ≡ a
zero-+ℤ a = +ℤ-comm (pos 0) a ∙ +ℤ-zero a

-- The middle two of three.
pub +ℤ-swap : (a b c : ℤ) → a +ℤ (b +ℤ c) ≡ b +ℤ (a +ℤ c)
+ℤ-swap a b c = sym (+ℤ-assoc a b c) ∙ ap (λ x. x +ℤ c) (+ℤ-comm a b) ∙ +ℤ-assoc b a c

-- The numbers of a list, added up.
unfoldable pub sum_ℤ {ℓ} : {A : Type ℓ} → (A → ℤ) → List A → ℤ
sum_ℤ f [] = pos 0
sum_ℤ f (x ∷ xs) = f x +ℤ sum_ℤ f xs

unfoldable pub eq_ℤ : ℤ → ℤ → Bool
eq_ℤ (pos n) (pos m) = n == m
eq_ℤ (negsuc n) (negsuc m) = n == m
eq_ℤ _ _ = false

pub eq_ℤ_iff : (a b : ℤ) → (eq_ℤ a b ≡ true) ↔ (a ≡ b)
unfolding eq_ℤ
eq_ℤ_iff (pos n) (pos m) = ground arith
eq_ℤ_iff (pos n) (negsuc m) = ground arith
eq_ℤ_iff (negsuc n) (pos m) = ground arith
eq_ℤ_iff (negsuc n) (negsuc m) = ground arith
