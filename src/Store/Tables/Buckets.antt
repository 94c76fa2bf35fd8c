-- ===== src/Store/Tables/Buckets.antt =====
-- What the rows of `history` in src/store.cpp add up: the samples of a bucket.
use mathlib.Core.List.{Memᴰ}
use wirelab_experiments.Common.{
  ◌≡◌, inl, inr, refl, sym, ap, subst, ◌∙◌, List, [], ◌∷◌, Bool, true, false, ◌&&◌, ℕ, codes, arith,
  if◌then◌else◌, Bool-cases,
}
use wirelab_experiments.Common.Int.{ℤ, pos, leb_ℤ, ltb_ℤ, ◌<ℤ◌}
use wirelab_experiments.Common.Int.Sums.{
  ◌+ℤ◌, +ℤ-assoc, +ℤ-swap, +ℤ-zero, zero-+ℤ, sum_ℤ, eq_ℤ, eq_ℤ_iff,
}
use wirelab_experiments.Store.{Row}
use wirelab_experiments.Store.Tables.{Sample, Sqlite, select_range, bucket}
use wirelab_experiments.Store.Tables.Statements.{sample_row, add_row, group_row, group_rows}
use wirelab_experiments.Store.Tables.Rows.{
  Above, Above-IsAscending, lt_trans, IsAscending, group_rows-IsAscending,
}

-- The number of a row that has the time `b`.
abbrev at : ℤ → (Row → ℤ) → Row → ℤ
at b f r = if eq_ℤ r.timestamp b then f r else pos 0

-- What the samples of a bucket in a range add up to.
abbrev pub bucket_sum : (Sample → ℤ) → ℤ → ℤ → ℕ → ℤ → List (ℤ × Sample) → ℤ
bucket_sum g from to interval b [] = pos 0
bucket_sum g from to interval b ((ts, s) ∷ rows) =
    (if leb_ℤ from ts && ltb_ℤ ts to && eq_ℤ (bucket interval ts) b then g s else pos 0)
    +ℤ bucket_sum g from to interval b rows

eq_ℤ-refl : (a : ℤ) → eq_ℤ a a ≡ true
eq_ℤ-refl a = (eq_ℤ_iff a a).1 refl

eq_ℤ-gt : (a b : ℤ) → a <ℤ b → eq_ℤ a b ≡ false
eq_ℤ-gt a b h = ground (arith, (eq_ℤ_iff a b).0)

Above-weaken : (a b : ℤ) (rows : List Row) → a <ℤ b → Above b rows → Above a rows
Above-weaken a b [] h k = tt
Above-weaken a b (r ∷ rows) h (k, l) = (lt_trans a b r.timestamp h k, l)

eq_ℤ-lt : (a b : ℤ) → a <ℤ b → eq_ℤ b a ≡ false
eq_ℤ-lt a b h = ground (arith, (eq_ℤ_iff b a).0)

cond_sum :
    (test p q : Bool) (x y z : ℤ)
    → p ≡ q
    → test ≡ q
    → z ≡ x +ℤ y
    → (if test then z else pos 0) ≡ (if p then x else pos 0) +ℤ (if q then y else pos 0)
cond_sum test p true x y z h k l = rw (h, k) l
cond_sum test p false x y z h k l = rw (h, k) (sym (+ℤ-zero (pos 0)))

Above-zero : (f : Row → ℤ) (b : ℤ) (rows : List Row) → Above b rows → sum_ℤ (at b f) rows ≡ pos 0
unfolding sum_ℤ
Above-zero f b [] h = refl
Above-zero f b (r ∷ rows) (h, k) =
    rw (eq_ℤ-lt b r.timestamp h)
      (zero-+ℤ (sum_ℤ (at b f) rows) ∙ Above-zero f b rows (Above-weaken b r.timestamp rows h k))

Above-Memᴰ : (a : ℤ) (r : Row) (rows : List Row) → Above a rows → Memᴰ r rows → a <ℤ r.timestamp
Above-Memᴰ a r [] h m = elim m [ ]
Above-Memᴰ a r (q ∷ rows) (h, k) (Memᴰ.head e) = subst (λ x. a <ℤ x.timestamp) (sym e) h
Above-Memᴰ a r (q ∷ rows) (h, k) (Memᴰ.tail m) =
    lt_trans a q.timestamp r.timestamp h (Above-Memᴰ q.timestamp r rows k m)

-- Among ascending rows a row is the only one of its time.
own_row :
    (f : Row → ℤ) (r : Row) (rows : List Row)
    → IsAscending rows
    → Memᴰ r rows
    → sum_ℤ (at r.timestamp f) rows ≡ f r
unfolding sum_ℤ
own_row f r [] h m = elim m [ ]
own_row f r (q ∷ rows) h (Memᴰ.head e) =
    ap (λ x. sum_ℤ (at x.timestamp f) (q ∷ rows)) e ∙ first q rows h ∙ ap f (sym e)
  where
    first :
        (q : Row) (rows : List Row)
        → Above q.timestamp rows
        → sum_ℤ (at q.timestamp f) (q ∷ rows) ≡ f q
    first q rows h =
        ap (λ t. (if t then f q else pos 0) +ℤ sum_ℤ (at q.timestamp f) rows)
          (eq_ℤ-refl q.timestamp)
        ∙ ap (λ x. f q +ℤ x) (Above-zero f q.timestamp rows h)
        ∙ +ℤ-zero (f q)
own_row f r (q ∷ rows) h (Memᴰ.tail m) =
    ap (λ t. (if t then f q else pos 0) +ℤ sum_ℤ (at r.timestamp f) rows)
      (eq_ℤ-gt q.timestamp r.timestamp (Above-Memᴰ q.timestamp r rows h m))
    ∙ zero-+ℤ (sum_ℤ (at r.timestamp f) rows)
    ∙ own_row f r rows (Above-IsAscending q.timestamp rows h) m

module _ (sqlite : Sqlite) where
  -- Numbers that add up where rows of one time are joined.
  abbrev pub IsAdditive : (Row → ℤ) → Type 0
  IsAdditive f =
      (a b : Row) → eq_ℤ a.timestamp b.timestamp ≡ true → f (add_row sqlite a b) ≡ f a +ℤ f b

  at-IsAdditive : (f : Row → ℤ) (b : ℤ) → IsAdditive f → IsAdditive (at b f)
  unfolding add_row
  at-IsAdditive f b h x y e =
      cond_sum _ _ _ (f x) (f y) (f (add_row sqlite x y))
        (ap (λ t. eq_ℤ t b) ((eq_ℤ_iff x.timestamp y.timestamp).0 e)) refl (h x y e)

  sum-group_row :
      (f : Row → ℤ) (a : Row) (rows : List Row)
      → IsAdditive f
      → sum_ℤ f (group_row sqlite a rows) ≡ f a +ℤ sum_ℤ f rows
  unfolding group_row sum_ℤ
  sum-group_row f a [] h = refl
  sum-group_row f a (b ∷ rows) h = elim (Bool-cases (eq_ℤ a.timestamp b.timestamp)) [
    | inl e ↦ rw (e, h a b e) (+ℤ-assoc (f a) (f b) (sum_ℤ f rows))
    | inr e ↦ elim (Bool-cases (ltb_ℤ a.timestamp b.timestamp)) [
      | inl l ↦ rw (e, l) refl
      | inr l ↦ rw (e, l, sum-group_row f a rows h) (+ℤ-swap (f b) (f a) (sum_ℤ f rows))
    ]
  ]

  -- What a sample counts for in a column.
  abbrev pub share : (Row → ℤ) → ℕ → ℤ × Sample → ℤ
  share f interval r = f (sample_row sqlite (bucket interval r.0) r.1)

  pub sum-group_rows :
      (f : Row → ℤ) (interval : ℕ) (rows : List (ℤ × Sample))
      → IsAdditive f
      → sum_ℤ f (group_rows sqlite interval rows) ≡ sum_ℤ (share f interval) rows
  unfolding group_rows sum_ℤ
  sum-group_rows f interval [] h = refl
  sum-group_rows f interval ((ts, s) ∷ rows) h =
      sum-group_row f (sample_row sqlite (bucket interval ts) s) (group_rows sqlite interval rows) h
      ∙ ap (λ x. share f interval (ts, s) +ℤ x) (sum-group_rows f interval rows h)

  sum-select_range :
      (f : Row → ℤ) (g : Sample → ℤ) (from to : ℤ) (interval : ℕ) (b : ℤ) (rows : List (ℤ × Sample))
      → ((ts : ℤ) (s : Sample) → f (sample_row sqlite ts s) ≡ g s)
      → sum_ℤ (share (at b f) interval) (select_range from to rows)
        ≡ bucket_sum g from to interval b rows
  unfolding sum_ℤ select_range sample_row
  sum-select_range f g from to interval b [] h = refl
  sum-select_range f g from to interval b ((ts, s) ∷ rows) h =
      let rest = sum-select_range f g from to interval b rows h in
      elim (Bool-cases (leb_ℤ from ts && ltb_ℤ ts to)) [
        | inl e ↦ rw (e, h (bucket interval ts) s, rest) refl
        | inr e ↦ rw (e, rest) (sym (zero-+ℤ (bucket_sum g from to interval b rows)))
      ]

  row_sum :
      (f : Row → ℤ) (g : Sample → ℤ) (from to : ℤ) (interval : ℕ) (r : Row)
      (rows : List (ℤ × Sample))
      → IsAdditive f
      → ((ts : ℤ) (s : Sample) → f (sample_row sqlite ts s) ≡ g s)
      → Memᴰ r (group_rows sqlite interval (select_range from to rows))
      → f r ≡ bucket_sum g from to interval r.timestamp rows
  row_sum f g from to interval r rows h k m =
      sym (own_row f r _ (group_rows-IsAscending sqlite interval _) m)
      ∙ sum-group_rows (at r.timestamp f) interval (select_range from to rows)
          (at-IsAdditive f r.timestamp h)
      ∙ sum-select_range f g from to interval r.timestamp rows k

  -- The row counts and adds up the samples of its bucket.
  pub record IsSum (from to : ℤ) (interval : ℕ) (table : List (ℤ × Sample)) (r : Row) : Type 0 where
    pub packets : r.packets ≡ bucket_sum (λ s. s.packets) from to interval r.timestamp table
    pub bytes : r.bytes ≡ bucket_sum (λ s. s.bytes) from to interval r.timestamp table
    pub samples : r.samples ≡ bucket_sum (λ s. pos 1) from to interval r.timestamp table
    pub tcp :
        r.tcp
        ≡ bucket_sum
            (λ s. sqlite.extract (codes "tcp") s.details)
            from
            to
            interval
            r.timestamp
            table
    pub udp :
        r.udp
        ≡ bucket_sum
            (λ s. sqlite.extract (codes "udp") s.details)
            from
            to
            interval
            r.timestamp
            table
    pub icmp :
        r.icmp
        ≡ bucket_sum
            (λ s. sqlite.extract (codes "icmp") s.details)
            from
            to
            interval
            r.timestamp
            table
    pub other :
        r.other
        ≡ bucket_sum
            (λ s. sqlite.extract (codes "other") s.details)
            from
            to
            interval
            r.timestamp
            table

  pub group_rows-IsSum :
      (from to : ℤ) (interval : ℕ) (samples : List (ℤ × Sample)) (r : Row)
      → Memᴰ r (group_rows sqlite interval (select_range from to samples))
      → IsSum from to interval samples r
  unfolding add_row sample_row
  group_rows-IsSum from to interval samples r m = record {
    packets = row_sum (λ r. r.packets) _ from to interval r samples (λ a b e. refl) (λ t s. refl) m;
    bytes = row_sum (λ r. r.bytes) _ from to interval r samples (λ a b e. refl) (λ t s. refl) m;
    samples = row_sum (λ r. r.samples) _ from to interval r samples (λ a b e. refl) (λ t s. refl) m;
    tcp = row_sum (λ r. r.tcp) _ from to interval r samples (λ a b e. refl) (λ t s. refl) m;
    udp = row_sum (λ r. r.udp) _ from to interval r samples (λ a b e. refl) (λ t s. refl) m;
    icmp = row_sum (λ r. r.icmp) _ from to interval r samples (λ a b e. refl) (λ t s. refl) m;
    other = row_sum (λ r. r.other) _ from to interval r samples (λ a b e. refl) (λ t s. refl) m;
  }
