-- ===== src/Store/Keyed.antt =====
-- A table with a primary key, as `INSERT ... ON CONFLICT(key) DO UPDATE` in src/store.cpp changes it.
use wirelab_experiments.Common.{
  Bool, true, false, List, [], ◌∷◌, Option, none, some, if◌then◌else◌, ◌≡◌, ◌↔◌, refl, arith,
  Bool-cases, inl, inr, subst,
}

-- A test that decides equality.
abbrev pub Decides : {K : Type 0} → (K → K → Bool) → Type 0
Decides {K} eq = (a b : K) → (eq a b ≡ true) ↔ (a ≡ b)

module _ {K V : Type 0} (eq : K → K → Bool) where
  unfoldable pub lookup : K → List (K × V) → Option V
  lookup k [] = none
  lookup k ((j, v) ∷ rows) = if eq j k then some v else lookup k rows

  -- `fresh` is the row of the VALUES, `change` the update.
  unfoldable pub upsert : K → V → (V → V) → List (K × V) → List (K × V)
  upsert k fresh change [] = (k, fresh) ∷ []
  upsert k fresh change ((j, v) ∷ rows) =
      let rest = upsert k fresh change rows in
      if eq j k then (j, change v) ∷ rows else (j, v) ∷ rest

  -- The row behind such a statement.
  abbrev pub changed : V → (V → V) → Option V → V
  changed fresh change none = fresh
  changed fresh change (some v) = change v

  pub lookup-upsert :
      (k : K) (fresh : V) (change : V → V) (rows : List (K × V))
      → Decides eq
      → lookup k (upsert k fresh change rows) ≡ some (changed fresh change (lookup k rows))
  unfolding lookup upsert
  lookup-upsert k fresh change [] d = ground (arith, (d k k).1 refl)
  lookup-upsert k fresh change ((j, v) ∷ rows) d =
      ground (arith, lookup-upsert k fresh change rows d)

  pub lookup-upsert_other :
      (k l : K) (fresh : V) (change : V → V) (rows : List (K × V))
      → Decides eq
      → eq k l ≡ false
      → lookup l (upsert k fresh change rows) ≡ lookup l rows
  unfolding lookup upsert
  lookup-upsert_other k l fresh change [] d h = ground arith
  lookup-upsert_other k l fresh change ((j, v) ∷ rows) d h =
      ground (arith, lookup-upsert_other k l fresh change rows d h, (d j k).0, (d j l).0)

  -- The whole table behind such a statement.
  pub lookup-upsert_any :
      (k l : K) (fresh : V) (change : V → V) (rows : List (K × V))
      → Decides eq
      → lookup l (upsert k fresh change rows)
        ≡ (if eq k l then some (changed fresh change (lookup l rows)) else lookup l rows)
  lookup-upsert_any k l fresh change rows d = elim (Bool-cases (eq k l)) [
    | inl e ↦ rw e (
        subst
          (λ j. lookup j (upsert k fresh change rows) ≡ some (changed fresh change (lookup j rows)))
          ((d k l).0 e) (lookup-upsert k fresh change rows d))
    | inr e ↦ rw e (lookup-upsert_other k l fresh change rows d e)
  ]
