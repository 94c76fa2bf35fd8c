-- ===== src/Common/Logged.antt =====
-- Calls with a state, exceptions and a log: what a method returns or throws, the state that it
-- leaves, and what it asked of the outside world on the way, in order.
use mathlib.Core.List.{List, [], ◌∷◌, ◌++◌}
use wirelab_experiments.Common.Results.{Outcome, returned, thrown}

pub record Run (X S E A : Type 0) : Type 0 where
  pub outcome : Outcome X A
  pub state : S
  pub log : List E

abbrev pub M : Type 0 → Type 0 → Type 0 → Type 0 → Type 0
M X S E A = S → Run X S E A

module _ {X S E : Type 0} where
  abbrev pub pure : {A : Type 0} → A → M X S E A
  pure a s = record { outcome = returned a; state = s; log = [] }

  abbrev pub throw : {A : Type 0} → X → M X S E A
  throw x s = record { outcome = thrown x; state = s; log = [] }

  -- The rest of a method behind a call, or the way out.
  abbrev pub after : {A B : Type 0} → (A → M X S E B) → S → List E → Outcome X A → Run X S E B
  after f s log (returned a) =
      let r = f a s in record { outcome = r.outcome; state = r.state; log = log ++ r.log }
  after f s log (thrown x) = record { outcome = thrown x; state = s; log = log }

  infixl 5 ◌>>=◌ ◌>>◌
  abbrev pub ◌>>=◌ : {A B : Type 0} → M X S E A → (A → M X S E B) → M X S E B
  ◌>>=◌ m f s = let r = m s in after f r.state r.log r.outcome

  abbrev pub ◌>>◌ : {B : Type 0} → M X S E (Unit {0}) → M X S E B → M X S E B
  ◌>>◌ m k = m >>= λ _. k

  -- A request to the outside world, whatever becomes of it.
  abbrev pub perform : {A : Type 0} → E → (S → Outcome X A × S) → M X S E A
  perform e act s = let r = act s in record { outcome = r.0; state = r.1; log = e ∷ [] }
