-- ===== src/Store/Tables/Rows.antt =====
-- The rows of `history` in src/store.cpp: their order, and which of them the limit leaves.
use mathlib.Core.List.{Memᴰ}
use wirelab_experiments.Common.{
  ◌≡◌, inl, inr, refl, ap, List, [], ◌∷◌, true, false, ℕ, zero, suc, ◌<◌, take, length, arith,
  Bool-cases, All, ◌⊎◌, subst, sym,
}
use wirelab_experiments.Common.Int.{ℤ, pos, negsuc, ltb_ℤ, ◌<ℤ◌}
use wirelab_experiments.Common.Int.Sums.{eq_ℤ, eq_ℤ_iff}
use wirelab_experiments.Store.{Row}
use wirelab_experiments.Store.Tables.{Sample, Sqlite, bucket}
use wirelab_experiments.Store.Tables.Statements.{sample_row, add_row, group_row, group_rows}

-- The rows come by ascending timestamps, all behind `b`.
abbrev pub Above : ℤ → List Row → Type 0
Above b [] = Unit {0}
Above b (r ∷ rows) = (b <ℤ r.timestamp) × Above r.timestamp rows

abbrev pub IsAscending : List Row → Type 0
IsAscending [] = Unit {0}
IsAscending (r ∷ rows) = Above r.timestamp rows

take-Above : (n : ℕ) (b : ℤ) (rows : List Row) → Above b rows → Above b (take n rows)
take-Above zero b rows h = tt
take-Above (suc n) b [] h = tt
take-Above (suc n) b (r ∷ rows) (h, k) = (h, take-Above n r.timestamp rows k)

pub take-IsAscending : (n : ℕ) (rows : List Row) → IsAscending rows → IsAscending (take n rows)
take-IsAscending zero rows h = tt
take-IsAscending (suc n) [] h = tt
take-IsAscending (suc n) (r ∷ rows) h = take-Above n r.timestamp rows h

pub short_take : {A : Type 0} (n : ℕ) (xs : List A) → length (take n xs) < n → take n xs ≡ xs
short_take zero xs h = ground arith
short_take (suc n) [] h = refl
short_take (suc n) (x ∷ xs) h = ap (◌∷◌ x) (short_take n xs (omega arith))

pub lt_trans : (a b c : ℤ) → a <ℤ b → b <ℤ c → a <ℤ c
lt_trans a b c h k = omega arith

pub Above-IsAscending : (b : ℤ) (rows : List Row) → Above b rows → IsAscending rows
Above-IsAscending b [] h = tt
Above-IsAscending b (r ∷ rows) h = h.1

ltb_ℤ→lt : (a b : ℤ) → ltb_ℤ a b ≡ true → a <ℤ b
ltb_ℤ→lt a b h = ground arith

neither→gt : (a b : ℤ) → eq_ℤ a b ≡ false → ltb_ℤ a b ≡ false → b <ℤ a
unfolding eq_ℤ
neither→gt (pos n) (pos m) h k = ground arith
neither→gt (pos n) (negsuc m) h k = ground arith
neither→gt (negsuc n) (pos m) h k = ground arith
neither→gt (negsuc n) (negsuc m) h k = ground arith

-- A row of that time is there.
abbrev pub HasRow : ℤ → List Row → Type 0
HasRow b [] = ⊥
HasRow b (r ∷ rows) = (r.timestamp ≡ b) ⊎ HasRow b rows

-- All rows are of times before it.
abbrev pub Before : ℤ → List Row → Type 0
Before b = All (λ r. r.timestamp <ℤ b)

Above-HasRow : (a b : ℤ) (rows : List Row) → Above a rows → HasRow b rows → a <ℤ b
Above-HasRow a b [] h m = elim m [ ]
Above-HasRow a b (r ∷ rows) (h, k) (inl e) = subst (λ x. a <ℤ x) e h
Above-HasRow a b (r ∷ rows) (h, k) (inr m) =
    lt_trans a r.timestamp b h (Above-HasRow r.timestamp b rows k m)

-- A row is among the first ones, or there are as many as asked for, all of times before it.
take-HasRow :
    (n : ℕ) (b : ℤ) (rows : List Row)
    → IsAscending rows
    → HasRow b rows
    → HasRow b (take n rows) ⊎ ((length (take n rows) ≡ n) × Before b (take n rows))
take-HasRow zero b rows h m = inr (refl, tt)
take-HasRow (suc n) b [] h m = elim m [ ]
take-HasRow (suc n) b (r ∷ rows) h (inl e) = inl (inl e)
take-HasRow (suc n) b (r ∷ rows) h (inr m) =
    elim (take-HasRow n b rows (Above-IsAscending r.timestamp rows h) m) [
      | inl k ↦ inl (inr k)
      | inr (l, k) ↦ inr (omega (arith, l), (Above-HasRow r.timestamp b rows h m, k))
    ]

module _ (sqlite : Sqlite) where
  Above-group_row :
      (b : ℤ) (a : Row) (rows : List Row)
      → b <ℤ a.timestamp
      → Above b rows
      → Above b (group_row sqlite a rows)
  unfolding group_row add_row
  Above-group_row b a [] h k = (h, tt)
  Above-group_row b a (r ∷ rows) h (k, l) = elim (Bool-cases (eq_ℤ a.timestamp r.timestamp)) [
    | inl e ↦ rw e (k, l)
    | inr e ↦ elim (Bool-cases (ltb_ℤ a.timestamp r.timestamp)) [
      | inl m ↦ rw (e, m) (h, (ltb_ℤ→lt a.timestamp r.timestamp m, l))
      | inr m ↦
          rw (e, m)
            (k, Above-group_row r.timestamp a rows (neither→gt a.timestamp r.timestamp e m) l)
    ]
  ]

  group_row-IsAscending :
      (a : Row) (rows : List Row) → IsAscending rows → IsAscending (group_row sqlite a rows)
  unfolding group_row add_row
  group_row-IsAscending a [] h = tt
  group_row-IsAscending a (r ∷ rows) h = elim (Bool-cases (eq_ℤ a.timestamp r.timestamp)) [
    | inl e ↦ rw e h
    | inr e ↦ elim (Bool-cases (ltb_ℤ a.timestamp r.timestamp)) [
      | inl m ↦ rw (e, m) (ltb_ℤ→lt a.timestamp r.timestamp m, h)
      | inr m ↦
          rw (e, m) (Above-group_row r.timestamp a rows (neither→gt a.timestamp r.timestamp e m) h)
    ]
  ]

  pub group_rows-IsAscending :
      (interval : ℕ) (rows : List (ℤ × Sample)) → IsAscending (group_rows sqlite interval rows)
  unfolding group_rows
  group_rows-IsAscending interval [] = tt
  group_rows-IsAscending interval ((ts, s) ∷ rows) =
      group_row-IsAscending _ _ (group_rows-IsAscending interval rows)

  group_row-own : (a : Row) (rows : List Row) → HasRow a.timestamp (group_row sqlite a rows)
  unfolding group_row add_row
  group_row-own a [] = inl refl
  group_row-own a (r ∷ rows) = elim (Bool-cases (eq_ℤ a.timestamp r.timestamp)) [
    | inl e ↦ rw e (inl (sym ((eq_ℤ_iff a.timestamp r.timestamp).0 e)))
    | inr e ↦ elim (Bool-cases (ltb_ℤ a.timestamp r.timestamp)) [
      | inl m ↦ rw (e, m) (inl refl)
      | inr m ↦ rw (e, m) (inr (group_row-own a rows))
    ]
  ]

  group_row-HasRow :
      (a : Row) (b : ℤ) (rows : List Row) → HasRow b rows → HasRow b (group_row sqlite a rows)
  unfolding group_row add_row
  group_row-HasRow a b [] h = elim h [ ]
  group_row-HasRow a b (r ∷ rows) h = elim (Bool-cases (eq_ℤ a.timestamp r.timestamp)) [
    | inl e ↦ rw e h
    | inr e ↦ elim (Bool-cases (ltb_ℤ a.timestamp r.timestamp)) [
      | inl m ↦ rw (e, m) (inr h)
      | inr m ↦ rw (e, m) (elim h [ inl k ↦ inl k | inr k ↦ inr (group_row-HasRow a b rows k) ])
    ]
  ]

  group_rows-HasRow :
      (interval : ℕ) (x : ℤ × Sample) (rows : List (ℤ × Sample))
      → Memᴰ x rows
      → HasRow (bucket interval x.0) (group_rows sqlite interval rows)
  unfolding group_rows sample_row
  group_rows-HasRow interval x [] m = elim m [ ]
  group_rows-HasRow interval x ((ts, s) ∷ rows) (Memᴰ.head e) =
      subst (λ y. HasRow (bucket interval y.0) (group_rows sqlite interval ((ts, s) ∷ rows)))
        (sym e)
        (group_row-own (sample_row sqlite (bucket interval ts) s) (group_rows sqlite interval rows))
  group_rows-HasRow interval x ((ts, s) ∷ rows) (Memᴰ.tail m) =
      group_row-HasRow (sample_row sqlite (bucket interval ts) s) (bucket interval x.0)
        (group_rows sqlite interval rows) (group_rows-HasRow interval x rows m)

  -- A sample is in one of the first rows, or these are as many as asked for and all before it.
  pub take-group_rows :
      (n interval : ℕ) (x : ℤ × Sample) (rows : List (ℤ × Sample))
      → Memᴰ x rows
      → let answer = take n (group_rows sqlite interval rows) in
        HasRow (bucket interval x.0) answer
        ⊎ ((length answer ≡ n) × Before (bucket interval x.0) answer)
  take-group_rows n interval x rows m =
      take-HasRow n (bucket interval x.0) (group_rows sqlite interval rows)
        (group_rows-IsAscending interval rows) (group_rows-HasRow interval x rows m)
