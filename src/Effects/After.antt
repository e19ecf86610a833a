-- ===== src/Effects/After.antt =====
-- Postconditions of steps that may fail (xtask): what holds of the value and the world after success,
-- and of the world after an error or a panic.
use shakespeare.Prelude.{◌≡◌, refl, Option, none, some, Result, ok, err}
use shakespeare.Effects.{Stop, continue_with, and_then, unwrapping, pure, or_panic}

-- What holds of a step's value and world, or of its world after an error.
module _ {World Error : Type 0} where
  abbrev pub After :
      {A : Type 0}
      → (A → World → Type 0)
      → (World → Type 0)
      → Result (Stop Error) A × World
      → Type 0
  After P E (ok a, w) = P a w
  After P E (err e, w) = E w

  pub After-weaken :
      {A : Type 0} (P Q : A → World → Type 0) (E F : World → Type 0)
      (r : Result (Stop Error) A × World)
      → ((a : A) (w : World) → P a w → Q a w)
      → ((w : World) → E w → F w)
      → After P E r
      → After Q F r
  After-weaken P Q E F (ok a, w) f g p = f a w p
  After-weaken P Q E F (err e, w) f g p = g w p

  continue_with-After :
      {A B : Type 0} (P : A → World → Type 0) (Q : B → World → Type 0) (E : World → Type 0)
      (r : Result (Stop Error) A × World) (f : A → World → Result (Stop Error) B × World)
      → After P E r
      → ((a : A) (w : World) → P a w → After Q E (f a w))
      → After Q E (continue_with r f)
  continue_with-After P Q E (ok a, w) f p next = next a w p
  continue_with-After P Q E (err e, w) f p next = p

  pub and_then-After :
      {A B : Type 0} (P : A → World → Type 0) (Q : B → World → Type 0) (E : World → Type 0)
      (w : World) (step : World → Result (Stop Error) A × World)
      (f : A → World → Result (Stop Error) B × World)
      → After P E (step w)
      → ((a : A) (w' : World) → P a w' → After Q E (f a w'))
      → After Q E (and_then step f w)
  unfolding and_then
  and_then-After P Q E w step f p next = continue_with-After P Q E (step w) f p next

  pub unwrapping-After :
      {A : Type 0} (P : A → World → Type 0) (E : World → Type 0) (r : Result Error A × World)
      → ((a : A) → r.0 ≡ ok a → P a r.1)
      → E r.1
      → After P E (unwrapping r)
  unwrapping-After P E (ok a, w) p e = p a refl
  unwrapping-After P E (err x, w) p e = e

  pub pure-After :
      {A : Type 0} (P : A → World → Type 0) (E : World → Type 0) (r : Result Error A) (w : World)
      → ((a : A) → r ≡ ok a → P a w)
      → E w
      → After P E (pure r w)
  pure-After P E (ok a) w p e = p a refl
  pure-After P E (err x) w p e = e

module _ {World : Type 0} (Error : Type 0) where
  pub or_panic-After :
      {A : Type 0} (P : A → World → Type 0) (E : World → Type 0) (o : Option A) (w : World)
      → ((a : A) → o ≡ some a → P a w)
      → E w
      → After P E (or_panic {Error = Error} o w)
  or_panic-After P E none w p e = e
  or_panic-After P E (some a) w p e = p a refl
