-- ===== src/Expander/Lines.antt =====
-- `str::lines`, by which xtask/build.rs takes a file apart.
use Prim.Native.Char.{code}
use Prim.Native.String.{String, [], ◌∷◌, ◌++◌}
use text.Mathlib.Text.{◌==◌ as str_eq}
use shakespeare.Prelude.{true, false, List, if◌then◌else◌, ◌==◌, ◌&&◌}

-- A line with no carriage return at its end.
unfoldable pub without_return : String → String
without_return [] = []
without_return (c ∷ s) =
    let rest = without_return s in if code c == 13 && str_eq s "" then [] else c ∷ rest

-- The lines behind what has been read of the first; a last line need not have an end.
unfoldable pub lines_from : String → String → List String
unfolding without_return
lines_from line [] = if str_eq line "" then List.[] else List.◌∷◌ line List.[]
lines_from line (c ∷ s) = elim (code c == 10) [
  | true ↦ List.◌∷◌ (without_return line) (lines_from "" s)
  | false ↦ lines_from (line ++ (c ∷ [])) s
]

unfoldable pub lines : String → List String
unfolding lines_from
lines s = lines_from "" s
