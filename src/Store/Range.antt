-- ===== src/Store/Range.antt =====
-- Which ranges `history` of src/store.cpp takes.
use wirelab_experiments.Common.{
  ℕ, ◌+◌, ◌-◌, ◌%◌, ◌^◌, ◌≤◌, ◌<◌, ◌≡◌, ◌↔◌, refl, false, not, lt→ltb, le→not_ltb, ◌⊎◌, arith, inl,
  inr,
}
use wirelab_experiments.Common.Int.{
  ℤ, pos, negsuc, pos_part, neg_part, ◌-ℤ◌, ◌<ℤ◌, IsInt64, signed, low_word,
}
use wirelab_experiments.Store.{week, valid_interval, invalid_range}

-- How far `to` lies behind `from`.
abbrev pub distance : ℤ → ℤ → ℕ
distance from to = pos_part to + neg_part from - (neg_part to + pos_part from)

lt_or_ge : (a b : ℕ) → (a < b) ⊎ (b ≤ a)
lt_or_ge a b = ground arith

-ℤ-distance : (to from : ℤ) → from <ℤ to → to -ℤ from ≡ pos (distance from to)
unfolding ◌-ℤ◌
-ℤ-distance to from h = ground arith

signed-low_word : (d : ℕ) → d < 2 ^ 63 → signed (low_word (pos d)) ≡ pos d
unfolding signed low_word
signed-low_word d h = let e : d % 2 ^ 64 ≡ d = omega arith in rw e (rw (lt→ltb d (2 ^ 63) h) refl)

signed-low_word_wraps :
    (d : ℕ) → 2 ^ 63 ≤ d → d < 2 ^ 64 → signed (low_word (pos d)) ≡ negsuc (2 ^ 64 - 1 - d)
unfolding signed low_word
signed-low_word_wraps d h k =
    let e : d % 2 ^ 64 ≡ d = omega arith in rw e (rw (le→not_ltb d (2 ^ 63) h) refl)

distance-lt : (from to : ℤ) → IsInt64 from → IsInt64 to → distance from to < 2 ^ 64
distance-lt (pos a) (pos b) p q = omega arith
distance-lt (pos a) (negsuc b) p q = omega arith
distance-lt (negsuc a) (pos b) p q = omega arith
distance-lt (negsuc a) (negsuc b) p q = omega arith

-- For a range whose length fits 64 bits with a sign, `history` takes exactly an interval of one
-- minute, five minutes or an hour, and a range that is not empty and at most seven days long.
pub invalid_range-false_iff :
    (from to : ℤ) (interval : ℕ)
    → distance from to < 2 ^ 63
    → (invalid_range from to interval ≡ false) ↔ (
        ((interval ≡ 60) ⊎ (interval ≡ 300) ⊎ (interval ≡ 3600))
        × (from <ℤ to)
        × (distance from to ≤ week))
unfolding invalid_range valid_interval
invalid_range-false_iff from to interval near =
    elim (lt_or_ge (pos_part from + neg_part to) (pos_part to + neg_part from)) [
      | inl h ↦ rw (-ℤ-distance to from h, signed-low_word (distance from to) near) (ground arith)
      | inr h ↦ ground arith
    ]

-- The difference of two far ends of the 64 bits wraps to a negative number: whatever ends at least
-- 2 ^ 63 apart are asked for, the test for seven days passes and only the interval is looked at.
pub invalid_range-wraps :
    (from to : ℤ) (interval : ℕ)
    → IsInt64 from
    → IsInt64 to
    → from <ℤ to
    → 2 ^ 63 ≤ distance from to
    → invalid_range from to interval ≡ not (valid_interval interval)
unfolding invalid_range
invalid_range-wraps from to interval p q h far =
    rw
      (
        -ℤ-distance to from h,
        signed-low_word_wraps (distance from to) far (distance-lt from to p q),
      )
      (ground arith)
