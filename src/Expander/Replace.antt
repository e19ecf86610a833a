-- ===== src/Expander/Replace.antt =====
-- What the tools in xtask use of the methods of `str`.
use Prim.Native.Nat.{◌-◌}
use Prim.Native.String.{String, [], ◌∷◌, ◌++◌, count as chars}
use text.Mathlib.Text.{starts_with, ◌==◌}
use shakespeare.Prelude.{ℕ, zero, suc, Bool, true, false, ◌||◌}

-- `str::replace`; the number is that of the characters left of an occurrence.
unfoldable pub replace_from : ℕ → String → String → String → String
replace_from k pat to [] = []
replace_from (suc k) pat to (c ∷ s) = replace_from k pat to s
replace_from zero pat to (c ∷ s) = elim (starts_with (c ∷ s) pat) [
  | true ↦ to ++ replace_from (chars pat - 1) pat to s
  | false ↦ c ∷ replace_from 0 pat to s
]

unfoldable pub replace : String → String → String → String
unfolding replace_from
replace pat to s = replace_from 0 pat to s

-- `str::ends_with`
unfoldable pub ends_with : String → String → Bool
ends_with [] pat = [] == pat
ends_with (c ∷ s) pat = (c ∷ s) == pat || ends_with s pat
