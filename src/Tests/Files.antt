-- ===== src/Tests/Files.antt =====
-- A walk over a directory, a text, a test file and an entry that cannot be read.
use shakespeare.Prelude.{
  ◌≡◌, refl, Bool, true, false, Option, none, some, List, [], ◌∷◌, ◌++◌, String, Result, ok, err,
}
use shakespeare.Macro.Grouping.Assoc.{assoc_grouping}
use shakespeare.Expander.{SynItems}
use shakespeare.Expander.Replace.{replace, replace_from}
use shakespeare.Expander.Strip.{strip_file, is_left_out, stripped_line}
use shakespeare.Expander.Files.{Host, DirEntry, expand_all_tests}
use shakespeare.Expander.Files.Steps.{Disk}
use shakespeare.Expander.Files.Wrote.{Done, expand_all_tests-Wrote}
use shakespeare.Tests.Samples.{same_case}
use shakespeare.Tests.Declared.{has_flag}

renamed :
    replace "crate::" "crate::expanded::" "use crate::a; crate" ≡ "use crate::expanded::a; crate"
unfolding replace replace_from
renamed = refl

abbrev pub disk_only : Host
disk_only = record {
  World = List (String × String);
  Error = String;
  PathBuf = String;
  new_path = ok;
  parse_file = λ s. ok SynItems.nil;
  create_dir_all = λ p w. (ok tt, w);
  read_to_string = λ p w. (ok "use crate::a;", w);
  format = λ toks w. (ok "formatted", w);
  write = λ p s w. (ok tt, w ++ (p, s) ∷ []);
}

abbrev all_writes : Disk disk_only
all_writes = record {
  writes = λ w. w;
  writes-dir = λ p w. refl;
  writes-read = λ p w. refl;
  writes-format = λ toks w. refl;
  writes-written = λ p s w e. refl;
  writes-failed = λ p s w e fails. absurd (cc fails);
}

abbrev entry : String → Bool → Option String → Result String (DirEntry disk_only)
entry path is_dir extension = ok (record { path = path; is_dir = ok is_dir; extension = extension })

abbrev pub walk : List (Result String (DirEntry disk_only))
walk =
    entry "tests" true none
    ∷ entry "tests/notes.txt" false (some "txt")
    ∷ entry "tests/mod.rs" false (some "rs")
    ∷ err "not permitted"
    ∷ []

expand_all_tests-Wrote_example :
    Done disk_only all_writes same_case assoc_grouping has_flag
      (λ i. "")
      walk
      []
      (expand_all_tests disk_only same_case assoc_grouping has_flag (λ i. "") walk [])
expand_all_tests-Wrote_example =
    expand_all_tests-Wrote disk_only all_writes same_case assoc_grouping has_flag (λ i. "") walk []

stripped :
    strip_file (
      "#![warn(unused)]" ∷ "use crate::data;" ∷ "use proc_macro::TokenStream;"
      ∷ "  #[test] // EXPANDER EXCLUDE" ∷ "#[proc_macro_attribute]" ∷ [])
    ≡ "use crate::stripped_macro::data;\nuse proc_macro2::TokenStream;\n\n"
unfolding strip_file is_left_out stripped_line replace replace_from
stripped = refl
