-- ===== src/Store/Tables/Sums.antt =====
-- `history` of src/store.cpp on the tables: its rows against the samples of the range.
use mathlib.Core.List.{Memᴰ}
use wirelab_experiments.Common.{
  ◌≡◌, ◌⊎◌, ap, subst, zero, suc, ◌∙◌, List, [], ◌∷◌, Bool, true, false, ◌&&◌, ℕ, ◌≤◌, ◌<◌, take,
  length, length-take, ◌+◌, ◌*◌, ◌/◌, refl, returned, arith, if◌then◌else◌,
}
use wirelab_experiments.Common.Int.{ℤ, pos, leb_ℤ, ltb_ℤ, ◌≤ℤ◌, ◌<ℤ◌}
use wirelab_experiments.Common.Int.Sums.{sum_ℤ}
use wirelab_experiments.Common.Logged.{throw, perform}
use wirelab_experiments.Network.Outside.{Exception}
use wirelab_experiments.Store.{
  D, Statement, sum_samples, Row, valid_interval, invalid_range, history,
}
use wirelab_experiments.Store.Tables.{Sample, Tables, Sqlite, Connection, select_range, bucket}
use wirelab_experiments.Store.Tables.Statements.{group_rows, select_sums, run_query, database}
use wirelab_experiments.Store.Tables.Rows.{
  IsAscending, HasRow, Before, take-IsAscending, short_take, group_rows-IsAscending,
  take-group_rows,
}
use wirelab_experiments.Store.Tables.Buckets.{
  IsAdditive, share, sum-group_rows, IsSum, group_rows-IsSum,
}

Memᴰ-take : (n : ℕ) (r : Row) (rows : List Row) → Memᴰ r (take n rows) → Memᴰ r rows
Memᴰ-take zero r rows m = elim m [ ]
Memᴰ-take (suc n) r [] m = elim m [ ]
Memᴰ-take (suc n) r (q ∷ rows) (Memᴰ.head e) = Memᴰ.head e
Memᴰ-take (suc n) r (q ∷ rows) (Memᴰ.tail m) = Memᴰ.tail (Memᴰ-take n r rows m)

in_range : (from to ts : ℤ) → from ≤ℤ ts → ts <ℤ to → (leb_ℤ from ts && ltb_ℤ ts to) ≡ true
in_range from to ts h k = ground arith

-- The bucket of a time that is not before the epoch: it begins at a multiple of the interval, the last
-- one up to that time.
abbrev pub BucketStart : ℕ → ℕ → Type 0
BucketStart interval n =
    (q : ℕ) × (bucket interval (pos n) ≡ pos (q * interval))
    × (q * interval ≤ n)
    × (n < q * interval + interval)

valid-BucketStart : (interval n : ℕ) → valid_interval interval ≡ true → BucketStart interval n
unfolding valid_interval bucket
valid-BucketStart interval n h = (n / interval, refl, ground arith, ground arith)

not_refused :
    (from to : ℤ) (interval : ℕ)
    → invalid_range from to interval ≡ false
    → valid_interval interval ≡ true
unfolding invalid_range
not_refused from to interval h = ground arith

module _ (sqlite : Sqlite) where
  not_thrown :
      {A : Type 0} (test : Bool) (x : Exception) (m : D (database sqlite) A)
      (c : Connection sqlite.Host) (a : A)
      → ((if test then throw x else m) c).outcome ≡ returned a
      → (test ≡ false) × ((m c).outcome ≡ returned a)
  not_thrown true x m c a h = cc
  not_thrown false x m c a h = (refl, h)

  run_query-answer :
      {A : Type 0} (s : Statement) (answer : Tables → A) (c : Connection sqlite.Host) (a : A)
      → (run_query sqlite s answer c).0 ≡ returned a
      → a ≡ answer c.tables
  unfolding run_query
  run_query-answer s answer c a h = ground arith

  history-selects :
      (from to : ℤ) (interval : ℕ) (c : Connection sqlite.Host) (rows : List Row)
      → (history (database sqlite) from to interval c).outcome ≡ returned rows
      → rows ≡ take 1000 (group_rows sqlite interval (select_range from to c.tables.samples))
  unfolding history select_sums
  history-selects from to interval c rows h =
      let db = database sqlite in
      run_query-answer (sum_samples interval from to)
        (λ t. select_sums sqlite interval from to t.samples) c rows
        ((not_thrown (invalid_range from to interval) _
          (perform (sum_samples interval from to) (db.sums interval from to)) c rows h).1)

  history-valid :
      (from to : ℤ) (interval : ℕ) (c : Connection sqlite.Host) (rows : List Row)
      → (history (database sqlite) from to interval c).outcome ≡ returned rows
      → valid_interval interval ≡ true
  unfolding history
  history-valid from to interval c rows h =
      let db = database sqlite in
      not_refused from to interval (
        (not_thrown (invalid_range from to interval) _
          (perform (sum_samples interval from to) (db.sums interval from to)) c rows h).0)

  -- Fewer rows than the limit add up to all samples of the range, in each column of sums.
  pub history-total :
      (from to : ℤ) (interval : ℕ) (c : Connection sqlite.Host) (rows : List Row) (f : Row → ℤ)
      → (history (database sqlite) from to interval c).outcome ≡ returned rows
      → length rows < 1000
      → IsAdditive sqlite f
      → sum_ℤ f rows ≡ sum_ℤ (share sqlite f interval) (select_range from to c.tables.samples)
  history-total from to interval c rows f h short q =
      let all = group_rows sqlite interval (select_range from to c.tables.samples) in
      let e = history-selects from to interval c rows h in
      ap (sum_ℤ f) (e ∙ short_take 1000 all (subst (λ x. length x < 1000) e short))
      ∙ sum-group_rows sqlite f interval _ q

  select_range-Memᴰ :
      (from to : ℤ) (x : ℤ × Sample) (rows : List (ℤ × Sample))
      → Memᴰ x rows
      → from ≤ℤ x.0
      → x.0 <ℤ to
      → Memᴰ x (select_range from to rows)
  unfolding select_range
  select_range-Memᴰ from to x [] m h k = elim m [ ]
  select_range-Memᴰ from to x (y ∷ rows) (Memᴰ.head e) h k =
      rw (in_range from to y.0 (subst (λ z. from ≤ℤ z.0) e h) (subst (λ z. z.0 <ℤ to) e k))
        (Memᴰ.head e)
  select_range-Memᴰ from to x (y ∷ rows) (Memᴰ.tail m) h k =
      kept_tail (leb_ℤ from y.0 && ltb_ℤ y.0 to) (select_range-Memᴰ from to x rows m h k)
    where
      kept_tail :
          {rest : List (ℤ × Sample)} (test : Bool)
          → Memᴰ x rest
          → Memᴰ x (if test then y ∷ rest else rest)
      kept_tail true n = Memᴰ.tail n
      kept_tail false n = n

  -- If `history` returns rows, they are at most 1000 and come by ascending timestamps, no two the same;
  -- each sample of the table whose time lies in the range has a row with the time of its bucket, or
  -- there are 1000 rows, all with earlier times; and in each row the number of samples, the packets,
  -- the bytes and the four protocols are the sums over exactly the samples of the table that lie in
  -- the range and in the bucket of its timestamp. The bucket of a time that is not before the epoch
  -- begins at the last multiple of the interval up to it.
  pub history-Sums :
      (from to : ℤ) (interval : ℕ) (c : Connection sqlite.Host) (rows : List Row)
      → (history (database sqlite) from to interval c).outcome ≡ returned rows
      → (length rows ≤ 1000)
        × IsAscending rows
        × ((x : ℤ × Sample)
            → Memᴰ x c.tables.samples
            → from ≤ℤ x.0
            → x.0 <ℤ to
            → HasRow (bucket interval x.0) rows
              ⊎ ((length rows ≡ 1000) × Before (bucket interval x.0) rows))
        × ((r : Row) → Memᴰ r rows → IsSum sqlite from to interval c.tables.samples r)
        × ((n : ℕ) → BucketStart interval n)
  history-Sums from to interval c rows h =
      let all = group_rows sqlite interval (select_range from to c.tables.samples) in
      let e = history-selects from to interval c rows h in
      rw e (
        omega (arith, length-take 1000 all),
        take-IsAscending 1000 all (group_rows-IsAscending sqlite interval _),
        λ x m l k.
            take-group_rows sqlite 1000 interval x (select_range from to c.tables.samples)
              (select_range-Memᴰ from to x c.tables.samples m l k),
        λ r m. group_rows-IsSum sqlite from to interval c.tables.samples r (Memᴰ-take 1000 r all m),
        λ n. valid-BucketStart interval n (history-valid from to interval c rows h),
      )
