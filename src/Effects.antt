-- ===== src/Effects.antt =====
-- Fallible steps of the tools in xtask: on a world, with errors that are returned and panics.
pub mod After
use shakespeare.Prelude.{Option, none, some, Result, ok, err}

-- An error that the tool returns, or a panic.
pub data Stop (Error : Type 0) : Type 0 where
  returned : Error → Stop Error
  panicked : Stop Error

abbrev pub Step : Type 0 → Type 0 → Type 0 → Type 0
Step World Error A = World → Result (Stop Error) A × World

module _ {World Error : Type 0} where
  abbrev pub continue_with :
      {A B : Type 0}
      → Result (Stop Error) A × World
      → (A → Step World Error B)
      → Result (Stop Error) B × World
  continue_with (ok a, w) f = f a w
  continue_with (err e, w) f = (err e, w)

  -- One step after the other, up to an error.
  unfoldable pub and_then :
      {A B : Type 0} → Step World Error A → (A → Step World Error B) → Step World Error B
  and_then step f w = continue_with (step w) f

  -- What `?` and `unwrap` make of an error.
  abbrev pub returning : {A : Type 0} → Result Error A × World → Result (Stop Error) A × World
  returning (ok a, w) = (ok a, w)
  returning (err e, w) = (err (returned e), w)

  abbrev pub unwrapping : {A : Type 0} → Result Error A × World → Result (Stop Error) A × World
  unwrapping (ok a, w) = (ok a, w)
  unwrapping (err e, w) = (err panicked, w)

  abbrev pub pure : {A : Type 0} → Result Error A → Step World Error A
  pure r w = returning (r, w)

  abbrev pub or_panic : {A : Type 0} → Option A → Step World Error A
  or_panic none w = (err panicked, w)
  or_panic (some a) w = (ok a, w)
