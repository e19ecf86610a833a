-- ===== src/Expander/Files.antt =====
-- `expand_all_tests` in xtask/src/expander.rs: the loop over the test files.
pub mod Steps
pub mod Wrote
use shakespeare.Prelude.{
  Bool, true, false, Option, none, some, List, [], ◌∷◌, String, Result, ok, err, ◌>>=◌, str_eq,
}
use shakespeare.Macro.Naming.{Casing}
use shakespeare.Macro.Grouping.{GroupingMap}
use shakespeare.Expander.{SynItem, SynItems, Toks, expand_test}
use shakespeare.Expander.Replace.{replace}
use shakespeare.Effects
use shakespeare.Effects.{Stop, returned, and_then, returning, unwrapping, pure, or_panic}

-- What the tool calls of the file system, of syn and of rustfmt. `format` starts rustfmt, which may
-- fail, writes the tokens to it and reads its output, and panics if a pipe fails.
pub record Host : Type 1 where
  pub World : Type 0
  pub Error : Type 0
  pub PathBuf : Type 0
  pub new_path : PathBuf → Result Error PathBuf
  pub parse_file : String → Result Error SynItems
  pub create_dir_all : PathBuf → World → Result Error (Unit {0}) × World
  pub read_to_string : PathBuf → World → Result Error String × World
  pub format : Toks → World → Result (Stop Error) String × World
  pub write : PathBuf → String → World → Result Error (Unit {0}) × World

module _ (host : Host) where
  open host use {World, Error, PathBuf}

  -- An entry of the walk; its metadata, that is whether it is a directory, may be out of reach.
  pub record DirEntry : Type 0 where
    pub path : PathBuf
    pub is_dir : Result Error Bool
    pub extension : Option String

  -- `none` is the panic of `unwrap`.
  unfoldable pub is_a_rust_file : DirEntry → Option Bool
  is_a_rust_file f = elim f.is_dir [
    | err e ↦ none
    | ok true ↦ some true
    | ok false ↦ some (elim f.extension [ none ↦ false | some p ↦ str_eq p "rs" ])
  ]

  abbrev pub Step : Type 0 → Type 0
  Step A = Effects.Step World Error A

  module _ (casing : Casing) (grouping : GroupingMap) (parse_args : String → Option Bool)
      (print : SynItem → String) where
    abbrev pub write_formatted : PathBuf → Toks → Step (Unit {0})
    write_formatted new_path toks =
        and_then (host.format toks) (λ output w. returning (host.write new_path output w))

    abbrev pub expanded : String → Result Error (Option Toks)
    expanded contents =
        expand_test casing grouping parse_args print host.parse_file
          (replace "crate::" "crate::expanded::" contents)

    abbrev pub write_expanded : PathBuf → String → Step (Unit {0})
    write_expanded new_path contents =
        and_then (pure (expanded contents))
          (λ toks. and_then (or_panic toks) (write_formatted new_path))

    -- A file: its text is read, the paths of the crate renamed, expanded, formatted and written.
    unfoldable pub expand_file : DirEntry → PathBuf → Step (Unit {0})
    unfolding and_then replace expand_test
    expand_file test_file new_path =
        and_then (λ w. returning (host.read_to_string test_file.path w)) (write_expanded new_path)

    abbrev pub by_kind : DirEntry → PathBuf → Bool → Step (Unit {0})
    by_kind test_file new_path true w = unwrapping (host.create_dir_all new_path w)
    by_kind test_file new_path false w = expand_file test_file new_path w

    -- The body of the loop.
    unfoldable pub expand_entry : DirEntry → Step (Unit {0})
    unfolding expand_file
    expand_entry test_file =
        and_then (pure (host.new_path test_file.path))
          (λ new_path. and_then (pure test_file.is_dir) (by_kind test_file new_path))

    -- The filter of the walk: what is no Rust file is passed over.
    abbrev pub if_rust_file : Bool → DirEntry → Step (Unit {0})
    if_rust_file true f w = expand_entry f w
    if_rust_file false f w = (ok tt, w)

    unfoldable pub visit : Result Error DirEntry → Step (Unit {0})
    unfolding expand_entry is_a_rust_file
    visit (err e) w = (err (returned e), w)
    visit (ok f) w = and_then (or_panic (is_a_rust_file f)) (λ is_rust. if_rust_file is_rust f) w

    -- `expand_all_tests`, over what the two walks yield.
    unfoldable pub expand_all_tests : List (Result Error DirEntry) → Step (Unit {0})
    unfolding visit
    expand_all_tests [] w = (ok tt, w)
    expand_all_tests (f ∷ fs) w = and_then (visit f) (λ u. expand_all_tests fs) w
