-- ===== src/Store/Tables/Kept.antt =====
-- The samples of src/store.cpp added up, while none is older than a week.
use wirelab_experiments.Common.{
  ◌≡◌, inl, inr, refl, sym, ap, ◌∙◌, subst, List, [], ◌∷◌, none, Text, ◌&&◌, true, false, ℕ,
  returned, arith, Bool-cases, All,
}
use wirelab_experiments.Common.Int.{ℤ, pos, signed, ltb_ℤ, leb_ℤ, ◌≤ℤ◌, ◌<ℤ◌}
use wirelab_experiments.Common.Int.Sums.{◌+ℤ◌, +ℤ-assoc, +ℤ-comm, +ℤ-swap, sum_ℤ, eq_ℤ}
use wirelab_experiments.Store.{Statement, week, sub_int64, execute, sample}
use wirelab_experiments.Store.Keyed.{upsert}
use wirelab_experiments.Store.Tables.{
  Sample, Sqlite, Connection, upsert_sample, delete_before, select_range,
}
use wirelab_experiments.Store.Tables.Statements.{effect, finish_statement, run_statement, database}
use wirelab_experiments.Store.Tables.Values.{sample-tables}

-- The packets of all samples.
abbrev pub packets_of : ℤ × Sample → ℤ
packets_of r = r.1.packets

-- All samples were taken in the range.
abbrev pub Within : ℤ → ℤ → List (ℤ × Sample) → Type 0
Within from to = All (λ r. (from ≤ℤ r.0) × (r.0 <ℤ to))

sum-upsert :
    (ts x : ℤ) (fresh : Sample) (change : Sample → Sample) (rows : List (ℤ × Sample))
    → fresh.packets ≡ x
    → ((s : Sample) → (change s).packets ≡ s.packets +ℤ x)
    → sum_ℤ packets_of (upsert eq_ℤ ts fresh change rows) ≡ x +ℤ sum_ℤ packets_of rows
unfolding upsert sum_ℤ
sum-upsert ts x fresh change [] h k = rw h refl
sum-upsert ts x fresh change ((t, s) ∷ rows) h k = elim (Bool-cases (eq_ℤ t ts)) [
  | inl e ↦
      rw (e, k s)
        (ap (λ y. y +ℤ sum_ℤ packets_of rows) (+ℤ-comm s.packets x)
          ∙ +ℤ-assoc x s.packets (sum_ℤ packets_of rows))
  | inr e ↦
      rw (e, sum-upsert ts x fresh change rows h k) (+ℤ-swap s.packets x (sum_ℤ packets_of rows))
]

Within-upsert :
    (ts from to : ℤ) (fresh : Sample) (change : Sample → Sample) (rows : List (ℤ × Sample))
    → (from ≤ℤ ts) × (ts <ℤ to)
    → Within from to rows
    → Within from to (upsert eq_ℤ ts fresh change rows)
unfolding upsert
Within-upsert ts from to fresh change [] h w = (h, tt)
Within-upsert ts from to fresh change ((t, s) ∷ rows) h (p, w) = elim (Bool-cases (eq_ℤ t ts)) [
  | inl e ↦ rw e (p, w)
  | inr e ↦ rw e (p, Within-upsert ts from to fresh change rows h w)
]

not_older : (limit from t : ℤ) → limit ≤ℤ from → from ≤ℤ t → ltb_ℤ t limit ≡ false
not_older limit from t h k = ground arith

in_range : (from to t : ℤ) → from ≤ℤ t → t <ℤ to → (leb_ℤ from t && ltb_ℤ t to) ≡ true
in_range from to t h k = ground arith

delete_before-Within :
    (limit from to : ℤ) (rows : List (ℤ × Sample))
    → limit ≤ℤ from
    → Within from to rows
    → delete_before limit rows ≡ rows
unfolding delete_before
delete_before-Within limit from to [] h w = refl
delete_before-Within limit from to ((t, s) ∷ rows) h ((p, q), w) =
    rw (not_older limit from t h p, delete_before-Within limit from to rows h w) refl

pub select_range-Within :
    (from to : ℤ) (rows : List (ℤ × Sample))
    → Within from to rows
    → select_range from to rows ≡ rows
unfolding select_range
select_range-Within from to [] w = refl
select_range-Within from to ((t, s) ∷ rows) ((p, q), w) =
    rw (in_range from to t p q, select_range-Within from to rows w) refl

module _ (sqlite : Sqlite) where
  -- SQLite refuses nothing.
  abbrev pub Accepts : Type 0
  Accepts = (s : Statement) (h : sqlite.Host) → (sqlite.refuses s h).0 ≡ none

  sample-accepted :
      (ts : ℤ) (packets bytes : ℕ) (details : Text) (c : Connection sqlite.Host)
      → Accepts
      → let r = sample (database sqlite) ts packets bytes details c in
        (r.outcome ≡ returned tt) × (r.state.begun ≡ c.begun)
  unfolding sample execute run_statement finish_statement effect
  sample-accepted ts packets bytes details c h = rw (h, h) (refl, refl)

  -- What `sample` adds to samples that lie in a range with its own.
  pub record Grown (from to : ℤ) (packets : ℕ) (c c' : Connection sqlite.Host) : Type 0 where
    pub begun : c'.begun ≡ c.begun
    pub within : Within from to c'.tables.samples
    pub sum :
        sum_ℤ packets_of c'.tables.samples ≡ signed packets +ℤ sum_ℤ packets_of c.tables.samples

  pub sample-Grown :
      (from to ts : ℤ) (packets bytes : ℕ) (details : Text) (c : Connection sqlite.Host)
      → Accepts
      → sub_int64 ts (pos week) ≤ℤ from
      → (from ≤ℤ ts) × (ts <ℤ to)
      → Within from to c.tables.samples
      → let r = sample (database sqlite) ts packets bytes details c in
        (r.outcome ≡ returned tt) × Grown from to packets c r.state
  unfolding upsert_sample
  sample-Grown from to ts packets bytes details c accepts old h w =
      let a = sample-accepted ts packets bytes details c accepts in
      let rows = upsert_sample ts (signed packets) (signed bytes) details c.tables.samples in
      let v : Within from to rows =
        Within-upsert ts from to
          (record { packets = signed packets; bytes = signed bytes; details = details }) _
          c.tables.samples h w in
      let e =
        ap (λ t. t.samples) (sample-tables sqlite ts packets bytes details c a.0)
        ∙ delete_before-Within (sub_int64 ts (pos week)) from to rows old v in
      (
        a.0,
        record {
          begun = a.1;
          within = subst (Within from to) (sym e) v;
          sum =
              ap (sum_ℤ packets_of) e
              ∙ sum-upsert ts (signed packets)
                  (record { packets = signed packets; bytes = signed bytes; details = details }) _
                  c.tables.samples refl (λ s. refl);
        },
      )
