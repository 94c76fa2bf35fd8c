-- ===== src/Store/Tables/Latest.antt =====
-- Which flows `record_flows` of src/store.cpp leaves in the table.
use mathlib.Core.List.{Memᴰ}
use mathlib.Core.List.Memᴰ
use wirelab_experiments.Common.{
  ◌≡◌, ◌⊎◌, inl, inr, refl, sym, subst, List, [], ◌∷◌, Text, true, false, ℕ, zero, suc, ◌≤◌, take,
  length, length-take, arith, Bool-cases, All,
}
use wirelab_experiments.Common.Int.{ℤ, ltb_ℤ, ◌≤ℤ◌}
use wirelab_experiments.Store.{Summary}
use wirelab_experiments.Store.Tables.{
  flow_limit, delete_flows_before, insert_latest, order_latest, trim_flows,
}

abbrev pub Flows : Type 0
Flows = List (Text × Summary)

-- The second was seen last at the latest when the first was.
abbrev pub NotAfter : Text × Summary → Text × Summary → Type 0
NotAfter f g = g.1.last_seen ≤ℤ f.1.last_seen

abbrev Descending : Flows → Type 0
Descending [] = Unit {0}
Descending (f ∷ rows) = All (NotAfter f) rows × Descending rows

pub at :
    (P : Text × Summary → Type 0) (f : Text × Summary) (rows : Flows)
    → Memᴰ f rows
    → All P rows
    → P f
at P f [] m h = elim m [ ]
at P f (g ∷ rows) (Memᴰ.head e) h = subst P (sym e) h.0
at P f (g ∷ rows) (Memᴰ.tail m) h = at P f rows m h.1

pub All-insert :
    (P : Text × Summary → Type 0) (f : Text × Summary) (rows : Flows)
    → P f
    → All P rows
    → All P (insert_latest f rows)
unfolding insert_latest
All-insert P f [] p h = (p, tt)
All-insert P f (g ∷ rows) p (q, h) = elim (Bool-cases (ltb_ℤ f.1.last_seen g.1.last_seen)) [
  | inl e ↦ rw e (q, All-insert P f rows p h)
  | inr e ↦ rw e (p, (q, h))
]

not_before : (a b : ℤ) → ltb_ℤ a b ≡ false → b ≤ℤ a
not_before a b h = ground arith

not_both : (a b : ℤ) → ltb_ℤ a b ≡ true → b ≤ℤ a → ⊥
not_both a b h k = ground arith

before : (a b : ℤ) → ltb_ℤ a b ≡ true → a ≤ℤ b
before a b h = ground arith

le_trans : (a b c : ℤ) → a ≤ℤ b → b ≤ℤ c → a ≤ℤ c
le_trans a b c h k = omega arith

weaken :
    (f g : Text × Summary) (rows : Flows)
    → NotAfter f g
    → All (NotAfter g) rows
    → All (NotAfter f) rows
weaken f g [] h k = tt
weaken f g (r ∷ rows) h (p, k) =
    (le_trans r.1.last_seen g.1.last_seen f.1.last_seen p h, weaken f g rows h k)

insert-Descending :
    (f : Text × Summary) (rows : Flows) → Descending rows → Descending (insert_latest f rows)
unfolding insert_latest
insert-Descending f [] h = (tt, tt)
insert-Descending f (g ∷ rows) (a, h) = elim (Bool-cases (ltb_ℤ f.1.last_seen g.1.last_seen)) [
  | inl e ↦ rw e (
    All-insert (NotAfter g) f rows (before f.1.last_seen g.1.last_seen e) a,
    insert-Descending f rows h,
  )
  | inr e ↦
      let b = not_before f.1.last_seen g.1.last_seen e in rw e ((b, weaken f g rows b a), (a, h))
]

order-Descending : (rows : Flows) → Descending (order_latest rows)
unfolding order_latest
order-Descending [] = tt
order-Descending (f ∷ rows) = insert-Descending f (order_latest rows) (order-Descending rows)

pub All-order :
    (P : Text × Summary → Type 0) (rows : Flows) → All P rows → All P (order_latest rows)
unfolding order_latest
All-order P [] h = tt
All-order P (f ∷ rows) (p, h) = All-insert P f (order_latest rows) p (All-order P rows h)

pub All-take :
    (P : Text × Summary → Type 0) (n : ℕ) (rows : Flows) → All P rows → All P (take n rows)
All-take P zero rows h = tt
All-take P (suc n) [] h = tt
All-take P (suc n) (f ∷ rows) (p, h) = (p, All-take P n rows h)

inserted : (f : Text × Summary) (rows : Flows) → Memᴰ f (insert_latest f rows)
unfolding insert_latest
inserted f [] = Memᴰ.head refl
inserted f (g ∷ rows) = elim (Bool-cases (ltb_ℤ f.1.last_seen g.1.last_seen)) [
  | inl e ↦ rw e (Memᴰ.tail (inserted f rows))
  | inr e ↦ rw e (Memᴰ.head refl)
]

insert-keeps : (f r : Text × Summary) (rows : Flows) → Memᴰ r rows → Memᴰ r (insert_latest f rows)
unfolding insert_latest
insert-keeps f r [] m = elim m [ ]
insert-keeps f r (g ∷ rows) m = elim (Bool-cases (ltb_ℤ f.1.last_seen g.1.last_seen)) [
  | inl e ↦
      rw e
        (elim m [ Memᴰ.head q ↦ Memᴰ.head q | Memᴰ.tail m' ↦ Memᴰ.tail (insert-keeps f r rows m') ])
  | inr e ↦ rw e (Memᴰ.tail m)
]

order-keeps : (r : Text × Summary) (rows : Flows) → Memᴰ r rows → Memᴰ r (order_latest rows)
unfolding order_latest
order-keeps r [] m = elim m [ ]
order-keeps r (f ∷ rows) (Memᴰ.head q) = Memᴰ.cast q (inserted f (order_latest rows))
order-keeps r (f ∷ rows) (Memᴰ.tail m) = insert-keeps f r (order_latest rows) (order-keeps r rows m)

delete-keeps :
    (limit : ℤ) (r : Text × Summary) (rows : Flows)
    → Memᴰ r rows
    → limit ≤ℤ r.1.last_seen
    → Memᴰ r (delete_flows_before limit rows)
unfolding delete_flows_before
delete-keeps limit r [] m h = elim m [ ]
delete-keeps limit r (f ∷ rows) m h = elim (Bool-cases (ltb_ℤ f.1.last_seen limit)) [
  | inl e ↦ rw e (elim m [
    | Memᴰ.head q ↦
        elim (not_both f.1.last_seen limit e (subst (λ g. limit ≤ℤ g.1.last_seen) q h)) [ ]
    | Memᴰ.tail m' ↦ delete-keeps limit r rows m' h
  ])
  | inr e ↦ rw e (elim m [
    | Memᴰ.head q ↦ Memᴰ.head q
    | Memᴰ.tail m' ↦ Memᴰ.tail (delete-keeps limit r rows m' h)
  ])
]

delete-recent :
    (limit : ℤ) (rows : Flows) → All (λ r. limit ≤ℤ r.1.last_seen) (delete_flows_before limit rows)
unfolding delete_flows_before
delete-recent limit [] = tt
delete-recent limit (f ∷ rows) = elim (Bool-cases (ltb_ℤ f.1.last_seen limit)) [
  | inl e ↦ rw e (delete-recent limit rows)
  | inr e ↦ rw e (not_before f.1.last_seen limit e, delete-recent limit rows)
]

-- A row is taken, or the places are full of rows that were seen no earlier.
take-latest :
    (n : ℕ) (r : Text × Summary) (rows : Flows)
    → Descending rows
    → Memᴰ r rows
    → Memᴰ r (take n rows) ⊎ ((length (take n rows) ≡ n) × All (λ k. NotAfter k r) (take n rows))
take-latest zero r rows d m = inr (refl, tt)
take-latest (suc n) r [] d m = elim m [ ]
take-latest (suc n) r (f ∷ rows) d (Memᴰ.head q) = inl (Memᴰ.head q)
take-latest (suc n) r (f ∷ rows) (a, d) (Memᴰ.tail m) = elim (take-latest n r rows d m) [
  | inl k ↦ inl (Memᴰ.tail k)
  | inr (l, k) ↦ inr (omega (arith, l), (at (NotAfter f) r rows m a, k))
]

-- At most 10 000 rows, each seen within the last week, and of the rows seen within the last week each
-- one, or else 10 000 that were all seen last no earlier than it.
abbrev pub Latest : ℕ → Flows → Flows → Type 0
Latest now rows kept =
    (length kept ≤ 10_000)
    × All (λ f. flow_limit now ≤ℤ f.1.last_seen) kept
    × ((f : Text × Summary)
        → Memᴰ f rows
        → flow_limit now ≤ℤ f.1.last_seen
        → Memᴰ f kept ⊎ ((length kept ≡ 10_000) × All (λ k. NotAfter k f) kept))

pub trim_flows-Latest : (now : ℕ) (rows : Flows) → Latest now rows (trim_flows now rows)
unfolding trim_flows
trim_flows-Latest now rows =
    let recent = delete_flows_before (flow_limit now) rows in
    (
      omega (arith, length-take 10_000 (order_latest recent)),
      All-take _ 10_000 (order_latest recent)
          (All-order _ recent (delete-recent (flow_limit now) rows)),
      λ f m h.
          take-latest 10_000 f (order_latest recent) (order-Descending recent)
            (order-keeps f recent (delete-keeps (flow_limit now) f rows m h)),
    )
