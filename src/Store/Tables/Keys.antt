-- ===== src/Store/Tables/Keys.antt =====
-- The primary key of the table of the flows in src/store.cpp: no two rows have the same.
use mathlib.Core.List.{Memᴰ}
use wirelab_experiments.Common.{
  ◌≡◌, ◌≢◌, inl, inr, refl, sym, ap, [], ◌∷◌, some, Text, text_eq, text_eq_iff, text_eq-false_iff,
  true, false, ℕ, zero, suc, take, Bool-cases, All,
}
use wirelab_experiments.Common.Int.{ℤ, ltb_ℤ}
use wirelab_experiments.Store.{Summary}
use wirelab_experiments.Store.Keyed.{lookup, upsert}
use wirelab_experiments.Store.Tables.{delete_flows_before, insert_latest, order_latest, trim_flows}
use wirelab_experiments.Store.Tables.Latest.{Flows, at, All-insert, All-order, All-take}

-- No row has this key.
abbrev Lacks : Text → Flows → Type 0
Lacks key = All (λ f. f.0 ≢ key)

abbrev pub HasKeys : Flows → Type 0
HasKeys [] = Unit {0}
HasKeys (f ∷ rows) = Lacks f.0 rows × HasKeys rows

upsert-Lacks :
    (key k : Text) (fresh : Summary) (change : Summary → Summary) (rows : Flows)
    → k ≢ key
    → Lacks key rows
    → Lacks key (upsert text_eq k fresh change rows)
unfolding upsert
upsert-Lacks key k fresh change [] h l = (h, tt)
upsert-Lacks key k fresh change ((j, s) ∷ rows) h (l, ls) = elim (Bool-cases (text_eq j k)) [
  | inl e ↦ rw e (l, ls)
  | inr e ↦ rw e (l, upsert-Lacks key k fresh change rows h ls)
]

pub upsert-HasKeys :
    (k : Text) (fresh : Summary) (change : Summary → Summary) (rows : Flows)
    → HasKeys rows
    → HasKeys (upsert text_eq k fresh change rows)
unfolding upsert
upsert-HasKeys k fresh change [] h = (tt, tt)
upsert-HasKeys k fresh change ((j, s) ∷ rows) (l, h) = elim (Bool-cases (text_eq j k)) [
  | inl e ↦ rw e (l, h)
  | inr e ↦
      rw e (
        upsert-Lacks j k fresh change rows (different j k e) l,
        upsert-HasKeys k fresh change rows h,
      )
]
  where
    different : (j k : Text) → text_eq j k ≡ false → k ≢ j
    different j k e q = cc (e, (text_eq_iff j k).1 (sym q))

All-delete :
    (P : Text × Summary → Type 0) (limit : ℤ) (rows : Flows)
    → All P rows
    → All P (delete_flows_before limit rows)
unfolding delete_flows_before
All-delete P limit [] h = tt
All-delete P limit (f ∷ rows) (p, h) = elim (Bool-cases (ltb_ℤ f.1.last_seen limit)) [
  | inl e ↦ rw e (All-delete P limit rows h)
  | inr e ↦ rw e (p, All-delete P limit rows h)
]

delete-HasKeys :
    (limit : ℤ) (rows : Flows) → HasKeys rows → HasKeys (delete_flows_before limit rows)
unfolding delete_flows_before
delete-HasKeys limit [] h = tt
delete-HasKeys limit (f ∷ rows) (l, h) = elim (Bool-cases (ltb_ℤ f.1.last_seen limit)) [
  | inl e ↦ rw e (delete-HasKeys limit rows h)
  | inr e ↦ rw e (All-delete _ limit rows l, delete-HasKeys limit rows h)
]

insert-HasKeys :
    (f : Text × Summary) (rows : Flows)
    → Lacks f.0 rows
    → HasKeys rows
    → HasKeys (insert_latest f rows)
unfolding insert_latest
insert-HasKeys f [] l h = (tt, tt)
insert-HasKeys f (g ∷ rows) (l, ls) (k, h) = elim (Bool-cases (ltb_ℤ f.1.last_seen g.1.last_seen)) [
  | inl e ↦ rw e (All-insert _ f rows (λ q. l (sym q)) k, insert-HasKeys f rows ls h)
  | inr e ↦ rw e ((l, ls), (k, h))
]

order-HasKeys : (rows : Flows) → HasKeys rows → HasKeys (order_latest rows)
unfolding order_latest
order-HasKeys [] h = tt
order-HasKeys (f ∷ rows) (l, h) =
    insert-HasKeys f (order_latest rows) (All-order _ rows l) (order-HasKeys rows h)

take-HasKeys : (n : ℕ) (rows : Flows) → HasKeys rows → HasKeys (take n rows)
take-HasKeys zero rows h = tt
take-HasKeys (suc n) [] h = tt
take-HasKeys (suc n) (f ∷ rows) (l, h) = (All-take _ n rows l, take-HasKeys n rows h)

pub trim_flows-HasKeys : (now : ℕ) (rows : Flows) → HasKeys rows → HasKeys (trim_flows now rows)
unfolding trim_flows
trim_flows-HasKeys now rows h = take-HasKeys 10_000 _ (order-HasKeys _ (delete-HasKeys _ rows h))

-- Trimming takes no row from elsewhere.
pub trim_flows-Memᴰ :
    (now : ℕ) (f : Text × Summary) (rows : Flows) → Memᴰ f (trim_flows now rows) → Memᴰ f rows
unfolding trim_flows
trim_flows-Memᴰ now f rows m =
    at (λ g. Memᴰ g rows) f _ m
      (All-take _ 10_000 _ (All-order _ _ (All-delete _ _ rows (members rows rows λ g k. k))))
  where
    members :
        (rows all : Flows)
        → ((g : Text × Summary) → Memᴰ g rows → Memᴰ g all)
        → All (λ g. Memᴰ g all) rows
    members [] all h = tt
    members (g ∷ rows) all h = (h g (Memᴰ.head refl), members rows all λ k m. h k (Memᴰ.tail m))

pub lookup-Memᴰ :
    (key : Text) (s : Summary) (rows : Flows)
    → lookup text_eq key rows ≡ some s
    → Memᴰ (key, s) rows
unfolding lookup
lookup-Memᴰ key s [] h = cc
lookup-Memᴰ key s ((j, t) ∷ rows) h = elim (Bool-cases (text_eq j key)) [
  | inl e ↦ Memᴰ.head (cc ((text_eq_iff j key).0 e, rw e at h))
  | inr e ↦ Memᴰ.tail (lookup-Memᴰ key s rows (rw e at h))
]

pub Memᴰ-lookup :
    (key : Text) (s : Summary) (rows : Flows)
    → HasKeys rows
    → Memᴰ (key, s) rows
    → lookup text_eq key rows ≡ some s
unfolding lookup
Memᴰ-lookup key s [] h m = elim m [ ]
Memᴰ-lookup key s ((j, t) ∷ rows) h (Memᴰ.head e) =
    let k : text_eq j key ≡ true = (text_eq_iff j key).1 (sym (ap (λ f. f.0) e)) in
    rw k (ap (λ f. some f.1) (sym e))
Memᴰ-lookup key s ((j, t) ∷ rows) (l, h) (Memᴰ.tail m) =
    rw ((text_eq-false_iff j key).1 (λ q. at _ (key, s) rows m l (sym q)))
      (Memᴰ-lookup key s rows h m)
