-- ===== src/Tests/Copied.antt =====
-- The copying of a directory with a Rust file, a text, and a file that has no extension.
use Prim.Native.String.{◌++◌}
use text.Mathlib.TextPositions.{eq_refl}
use shakespeare.Prelude.{
  ◌≡◌, ◌≢◌, refl, ap, ◌∙◌, Bool-cases, inl, inr, false, Option, none, some, List, [], ◌∷◌, String,
  Result, ok, err, str_eq, str_eq_iff, if◌then◌else◌,
}
use shakespeare.Expander.Replace.{replace, replace_from}
use shakespeare.Expander.Strip.{is_left_out, stripped_line}
use shakespeare.Expander.Lines.{lines, lines_from, without_return}
use shakespeare.Expander.Build.{
  Tree, FileType, file, dir, DirEntry, is_source, copy_file, copy_entry, write_lines, main,
}
use shakespeare.Expander.Build.Texts.{Texts}
use shakespeare.Expander.Build.Copied.{Ended, main-Ended}

abbrev TextsOf : Type 0
TextsOf = String → Option String

abbrev read_from : Option String → Result String String
read_from none = err "no such file"
read_from (some s) = ok s

abbrev longer : String → Option String → Option String
longer line none = none
longer line (some s) = some (s ++ (line ++ "\n"))

abbrev put : String → Option String → TextsOf → TextsOf
put p s w q = if str_eq q p then s else w q

abbrev in_memory : Tree
in_memory = record {
  World = TextsOf;
  Error = String;
  PathBuf = String;
  new_path = λ p. some ("copy/" ++ p);
  rerun_if_changed = λ p w. w;
  read = λ p w. (read_from (w p), w);
  create = λ p w. (ok tt, put p (some "") w);
  write_line = λ p line w. (ok tt, put p (longer line (w p)) w);
  exists = λ p w. false;
  create_dir_all = λ p w. (ok tt, w);
}

put_self : (p : String) (s : Option String) (w : TextsOf) → put p s w p ≡ s
put_self p s w = rw (eq_refl p) refl

put_other : (p q : String) (s : Option String) (w : TextsOf) → q ≢ p → put p s w q ≡ w q
put_other p q s w n = elim (Bool-cases (str_eq q p)) [
  | inl same ↦ absurd (n ((str_eq_iff q p).0 same))
  | inr other ↦ rw other refl
]

read_from-ok : (o : Option String) (s : String) → read_from o ≡ ok s → o ≡ some s
read_from-ok none s e = absurd (cc)
read_from-ok (some t) s e = cc

abbrev memory_texts : Texts in_memory
memory_texts = record {
  text = λ w. w;
  text-announced = λ p q w. refl;
  text-read = λ p q w. refl;
  text-contents = λ p w s e. read_from-ok (w p) s e;
  text-dir = λ p q w. refl;
  text-created = λ p w e. put_self p (some "") w;
  text-create_other = λ p q w n. put_other p q (some "") w n;
  text-written = λ p line s w e is. put_self p (longer line (w p)) w ∙ ap (longer line) is;
  text-write_other = λ p q line w n. put_other p q (longer line (w p)) w n;
}

abbrev sources : TextsOf
sources p =
    if str_eq p "lib.rs" then some "#![warn(unused)]\r\nmod data;\n\nuse crate::data;" else none

abbrev found : String → FileType → Option String → Result String (DirEntry in_memory)
found path kind extension = ok (record { path = path; metadata = ok kind; extension = extension })

abbrev sources_walk : List (Result String (DirEntry in_memory))
sources_walk =
    found "" dir none
    ∷ found "notes.txt" file (some "txt")
    ∷ found "lib.rs" file (some "rs")
    ∷ found "LICENSE" file none
    ∷ []

main-Ended_example :
    Ended in_memory memory_texts sources_walk sources (main in_memory sources_walk sources)
main-Ended_example = main-Ended in_memory memory_texts sources_walk sources

copied_text :
    (main in_memory sources_walk sources).1 "copy/lib.rs"
    ≡ some "mod data;\n\nuse crate::stripped_macro::data;\n"
unfolding main copy_entry copy_file write_lines is_source is_left_out stripped_line replace
    replace_from lines lines_from without_return
copied_text = refl
