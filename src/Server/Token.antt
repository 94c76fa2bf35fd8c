-- ===== src/Server/Token.antt =====
-- `token_equal` and `valid_origin` of src/server.cpp, and the test of the bearer token in its handler.
use wirelab_experiments.Common.{
  ℕ, bit_or, bit_xor, Bool, true, false, not, ◌&&◌, ◌||◌, [], ◌∷◌, ◌++◌, ◌≡◌, ◌↔◌, ◌⊎◌, refl, ap,
  Text, codes, text_eq, text_eq_iff, length, drop, ◌==◌, if◌then◌else◌, arith,
}
use wirelab_experiments.Common.Words.{bit_or-zero_iff, bit_xor-zero_iff}
use wirelab_experiments.Capture.{starts_with}

-- The loop over `difference`.
unfoldable pub differences : ℕ → Text → Text → ℕ
differences d [] b = d
differences d (x ∷ a) [] = d
differences d (x ∷ a) (y ∷ b) = differences (bit_or d (bit_xor x y)) a b

unfoldable pub token_equal : Text → Text → Bool
token_equal a b = if not (length a == length b) then false else differences 0 a b == 0

differences-zero :
    (d : ℕ) (a b : Text) → length a ≡ length b → (differences d a b ≡ 0) ↔ ((d ≡ 0) × (a ≡ b))
unfolding differences
differences-zero d [] [] h = (λ e. (e, refl), λ e. e.0)
differences-zero d [] (y ∷ b) h = absurd (omega arith)
differences-zero d (x ∷ a) [] h = absurd (omega arith)
differences-zero d (x ∷ a) (y ∷ b) h = ground (
  arith,
  differences-zero (bit_or d (bit_xor x y)) a b,
  bit_or-zero_iff d (bit_xor x y),
  bit_xor-zero_iff x y,
)

-- `token_equal` accepts two texts exactly when they are the same.
pub token_equal_iff : (a b : Text) → (token_equal a b ≡ true) ↔ (a ≡ b)
unfolding token_equal
token_equal_iff a b = (
  λ h. ground (arith, differences-zero 0 a b),
  λ h. ground (arith, differences-zero 0 a b, ap length h),
)

-- The headers that the handlers look at; an absent header is empty.
pub record Request : Type 0 where
  pub origin : Text
  pub host : Text
  pub authorization : Text

unfoldable pub valid_origin : Request → Bool
valid_origin r =
    length r.origin == 0
    || text_eq r.origin (codes "http://" ++ r.host)
    || text_eq r.origin (codes "https://" ++ r.host)

-- The test of the HTTP handler; a request that fails it gets 401.
unfoldable pub admitted : Text → Request → Bool
admitted token r =
    valid_origin r
    && (starts_with r.authorization (codes "Bearer ") && token_equal token (drop 7 r.authorization))

starts_with-append : (p rest : Text) → starts_with (p ++ rest) p ≡ true
unfolding starts_with
starts_with-append [] [] = refl
starts_with-append [] (c ∷ rest) = refl
starts_with-append (x ∷ p) rest = ground (arith, starts_with-append p rest)

starts_with-split : (c p : Text) → starts_with c p ≡ true → c ≡ p ++ drop (length p) c
unfolding starts_with
starts_with-split [] [] h = refl
starts_with-split (x ∷ c) [] h = refl
starts_with-split [] (y ∷ p) h = cc
starts_with-split (x ∷ c) (y ∷ p) h = ground (arith, starts_with-split c p)

-- A request from the daemon's own pages, or from no page at all.
abbrev pub IsSameOrigin : Request → Type 0
IsSameOrigin r =
    (r.origin ≡ [])
    ⊎ (r.origin ≡ codes "http://" ++ r.host)
    ⊎ (r.origin ≡ codes "https://" ++ r.host)

valid_origin_iff : (r : Request) → (valid_origin r ≡ true) ↔ IsSameOrigin r
unfolding valid_origin
valid_origin_iff r = (
  λ h. ground (
    arith,
    text_eq_iff r.origin (codes "http://" ++ r.host),
    text_eq_iff r.origin (codes "https://" ++ r.host),
  ),
  λ h. ground (
    arith,
    text_eq_iff r.origin (codes "http://" ++ r.host),
    text_eq_iff r.origin (codes "https://" ++ r.host),
  ),
)

-- A request is let through exactly when its origin is empty or that of its host, over HTTP or HTTPS,
-- and its authorization is the word `Bearer`, a space and the token.
pub admitted_iff :
    (token : Text) (r : Request)
    → (admitted token r ≡ true) ↔ (IsSameOrigin r × (r.authorization ≡ codes "Bearer " ++ token))
unfolding admitted
admitted_iff token r = (
  λ h. ground (
    arith,
    valid_origin_iff r,
    starts_with-split r.authorization (codes "Bearer "),
    token_equal_iff token (drop 7 r.authorization),
  ),
  λ h. rw ((valid_origin_iff r).1 h.0) (
      simp (h.1, starts_with-append (codes "Bearer ") token, (token_equal_iff token token).1 refl)),
)
