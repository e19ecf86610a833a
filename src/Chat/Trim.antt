-- ===== src/Chat/Trim.antt =====
-- What examples/chat.rs uses of `str::trim`.
use Prim.Native.Char.{Char}
use Prim.Native.String.{String, [], ◌∷◌}
use shakespeare.Prelude.{Bool, if◌then◌else◌}

module _ (is_whitespace : Char → Bool) where
  trim_start : String → String
  trim_start [] = []
  trim_start (c ∷ s) = let rest = trim_start s in if is_whitespace c then rest else c ∷ s

  or_nothing : Char → String → String
  or_nothing c [] = if is_whitespace c then [] else c ∷ []
  or_nothing c (d ∷ s) = c ∷ d ∷ s

  trim_end : String → String
  unfolding or_nothing
  trim_end [] = []
  trim_end (c ∷ s) = or_nothing c (trim_end s)

  -- `str::trim`
  unfoldable pub trim : String → String
  unfolding trim_start trim_end
  trim s = trim_end (trim_start s)
