-- ===== src/Expander/Strip.antt =====
-- The copy of shakespeare-macro/src that xtask/build.rs makes for the expansion tool: which lines of a
-- file are left out, and how the others are changed.
use Prim.Native.String.{◌++◌}
use text.Mathlib.Text.{starts_with, find?}
use shakespeare.Prelude.{Bool, true, false, ◌||◌, none, some, List, [], ◌∷◌, String}
use shakespeare.Expander.Replace.{replace}

abbrev contains : String → String → Bool
contains line pat = elim (find? line pat) [ none ↦ false | some i ↦ true ]

unfoldable pub is_left_out : String → Bool
is_left_out line =
    starts_with line "#![warn("
    || (starts_with line "#![deny("
        || (starts_with line "#![forbid(" || contains line "#[test] // EXPANDER EXCLUDE"))

unfoldable pub stripped_line : String → String
unfolding replace
stripped_line line =
    replace "proc_macro::" "proc_macro2::"
      (replace "crate::" "crate::stripped_macro::" (replace "#[proc_macro_attribute]" "" line))

-- The loop over `contents.lines()`, each by `writeln!`.
unfoldable pub strip_file : List String → String
unfolding is_left_out stripped_line
strip_file [] = ""
strip_file (line ∷ lines) = elim (is_left_out line) [
  | true ↦ strip_file lines
  | false ↦ stripped_line line ++ ("\n" ++ strip_file lines)
]
