-- ===== src/Network/Steady.antt =====
-- Methods of the network controller that never ask to delete the forwarding guard, and methods that
-- always return: lemmas on sequences and `try` blocks for the proofs on `restore`.
use wirelab_experiments.Common.{
  Bool, true, false, not, ◌&&◌, List, [], ◌∷◌, ◌++◌, Text, Outcome, returned, thrown, returned-inj,
  codes, text_eq, ◌≡◌, refl, subst, sym, arith,
}
use wirelab_experiments.Network.Outside.{
  Exception, Controller, Event, sends, writes, runs, puts, M, pure, after, ◌>>=◌, ◌>>◌,
}
use wirelab_experiments.Network.Checks.{delete_table}

unfoldable pub texts_eq : List Text → List Text → Bool
texts_eq [] [] = true
texts_eq [] (y ∷ ys) = false
texts_eq (x ∷ xs) [] = false
texts_eq (x ∷ xs) (y ∷ ys) = text_eq x y && texts_eq xs ys

-- `nft delete table inet magicbox`, the table of the guard.
unfoldable pub is_release : Event → Bool
is_release (runs argv input) = texts_eq argv (delete_table (codes "inet"))
is_release (sends message) = false
is_release (writes path value) = false
is_release (puts state) = false

unfoldable pub keeps_guard : List Event → Bool
keeps_guard [] = true
keeps_guard (e ∷ es) = not (is_release e) && keeps_guard es

pub keeps_guard-append :
    (xs ys : List Event)
    → keeps_guard xs ≡ true
    → keeps_guard ys ≡ true
    → keeps_guard (xs ++ ys) ≡ true
unfolding keeps_guard
keeps_guard-append [] ys p q = q
keeps_guard-append (x ∷ xs) ys p q = ground (arith, keeps_guard-append xs ys)

module _ {W : Type 0} where
  -- A method that never asks to delete the guard.
  abbrev pub KeepsGuard : {A : Type 0} → M W A → Type 0
  KeepsGuard m = (n : Controller W) → keeps_guard (m n).log ≡ true

  pub after-keeps :
      {A B : Type 0} (f : A → M W B) (n : Controller W) (log : List Event) (o : Outcome Exception A)
      → keeps_guard log ≡ true
      → ((a : A) → KeepsGuard (f a))
      → keeps_guard (after f n log o).log ≡ true
  after-keeps f n log (returned a) h k = keeps_guard-append log (f a n).log h (k a n)
  after-keeps f n log (thrown e) h k = h

  -- The same as a record, whose argument is found by unification.
  pub record IsKeeping {A : Type 0} (m : M W A) : Type 0 where
    pub log : KeepsGuard m

  pub keeping : {A : Type 0} (m : M W A) → KeepsGuard m → IsKeeping m
  keeping m h = record { log = h }

  pub then-IsKeeping :
      {B : Type 0} (m : M W (Unit {0})) {k : M W B}
      → KeepsGuard m
      → IsKeeping k
      → IsKeeping (m >> k)
  then-IsKeeping m {k} h l = record { log = λ n. after-keeps (λ _. k) _ _ _ (h n) (λ a. l.log) }

  -- A method that always returns, and never asks to delete the guard.
  pub record IsSteady {A : Type 0} (m : M W A) : Type 0 where
    pub keeps : KeepsGuard m
    pub returns : (n : Controller W) → (a : A) × ((m n).outcome ≡ returned a)

  pub after-IsSteady :
      {A B : Type 0} (f : A → M W B) (n : Controller W) (log : List Event) (a : A)
      (o : Outcome Exception A)
      → o ≡ returned a
      → keeps_guard log ≡ true
      → IsSteady (f a)
      → (keeps_guard (after f n log o).log ≡ true)
        × ((b : B) × ((after f n log o).outcome ≡ returned b))
  after-IsSteady f n log a (returned a') e h k =
      subst
        (λ c.
          (keeps_guard (log ++ (f c n).log) ≡ true) × ((b : _) × ((f c n).outcome ≡ returned b)))
        (sym (returned-inj e)) (keeps_guard-append log (f a n).log h (k.keeps n), k.returns n)
  after-IsSteady f n log a (thrown x) e h k = cc

  pub bind-IsSteady :
      {A B : Type 0} {m : M W A} {f : A → M W B}
      → IsSteady m
      → ((a : A) → IsSteady (f a))
      → IsSteady (m >>= f)
  bind-IsSteady {f} h k = record {
    keeps = λ n. (after-IsSteady f _ _ _ _ (h.returns n).1 (h.keeps n) (k _)).0;
    returns = λ n. (after-IsSteady f _ _ _ _ (h.returns n).1 (h.keeps n) (k _)).1;
  }

  pub pure-IsSteady : {A : Type 0} {a : A} → IsSteady {A = A} (pure a)
  unfolding keeps_guard
  pure-IsSteady {a} = record { keeps = λ n. refl; returns = λ n. (a, refl) }
