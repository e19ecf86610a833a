-- ===== src/Coverage.antt =====
-- The command `coverage` of xtask/src/main.rs.
pub mod Commands
use shakespeare.Prelude.{
  Bool, true, false, Option, none, some, List, [], ◌∷◌, String, Result, ok, err, if◌then◌else◌,
}
use shakespeare.Effects
use shakespeare.Effects.{Stop, and_then, returning}
use shakespeare.Expander.Replace.{ends_with}

pub record Cmd : Type 0 where
  pub program : String
  pub args : List String
  pub env : List (String × String)

-- What the tool calls of the system, and its root directory.
pub record Shell : Type 1 where
  pub World : Type 0
  pub Error : Type 0
  pub root_crate_dir : String
  pub set_current_dir : String → World → Result Error (Unit {0}) × World
  pub create_all : String → World → Result Error (Unit {0}) × World
  pub run : Cmd → World → Result Error (Unit {0}) × World
  pub open_that : String → World → Result Error (Unit {0}) × World
  pub confirm : String → World → Result Error Bool × World
  pub canonicalize : String → World → Result Error String × World
  pub dir_files : String → World → Result Error (List String) × World
  pub remove : String → World → Result Error (Unit {0}) × World

abbrev pub cargo_test : String → Cmd
cargo_test profile = record {
  program = "cargo";
  args = "test" ∷ [];
  env =
      ("CARGO_INCREMENTAL", "0")
      ∷ ("RUSTFLAGS", "-Cinstrument-coverage")
      ∷ ("LLVM_PROFILE_FILE", profile)
      ∷ [];
}

abbrev pub macro_tests : Cmd
macro_tests = cargo_test "../coverage/cargo-test-%p-%m.profraw"

abbrev pub main_tests : Cmd
main_tests = cargo_test "coverage/cargo-test-%p-%m.profraw"

-- The format and the file of the report.
abbrev pub fmt_and_file : Bool → String × String
fmt_and_file true = ("html", "coverage/html")
fmt_and_file false = ("lcov", "coverage/tests.lcov")

abbrev pub grcov : Bool → Cmd
grcov readable = record {
  program = "grcov";
  args =
      "."
      ∷ "--binary-path"
      ∷ "./target/debug/deps"
      ∷ "-s"
      ∷ "."
      ∷ "-t"
      ∷ (fmt_and_file readable).0
      ∷ "-o"
      ∷ (fmt_and_file readable).1
      ∷ "--branch"
      ∷ "--ignore-not-existing"
      ∷ "--ignore"
      ∷ "**/tests/*"
      ∷ "--ignore"
      ∷ "xtask/*"
      ∷ "--excl-start"
      ∷ "mod tests"
      ∷ [];
  env = [];
}

module _ (shell : Shell) where
  open shell use {World, Error, root_crate_dir, set_current_dir, create_all, run}

  abbrev pub Step : Type 0 → Type 0
  Step A = Effects.Step World Error A

  abbrev pub nothing_more : Step (Unit {0})
  nothing_more w = (ok tt, w)

  -- Whether the report is to be opened; the user is asked if the options do not say.
  abbrev pub wanted : Option Bool → Step Bool
  wanted none w = returning (shell.confirm "open report folder?" w)
  wanted (some b) w = (ok b, w)

  -- A report that cannot be opened is only complained of.
  abbrev pub open_report_at : Bool → Step (Unit {0})
  open_report_at true w = (ok tt, (shell.open_that "coverage/html/index.html" w).1)
  open_report_at false w =
      and_then (λ w. returning (shell.canonicalize "coverage/html/index.html" w))
        (λ path. nothing_more) w

  unfoldable pub show_report : Bool → Option Bool → Step (Unit {0})
  unfolding and_then
  show_report true open_report = and_then (wanted open_report) open_report_at
  show_report false open_report = nothing_more

  unfoldable pub remove_profiles : List String → Step (Unit {0})
  unfolding and_then ends_with
  remove_profiles [] = nothing_more
  remove_profiles (file ∷ files) = elim (ends_with file "profraw") [
    | true ↦ and_then (λ w. returning (shell.remove file w)) (λ u. remove_profiles files)
    | false ↦ remove_profiles files
  ]

  abbrev pub cd : String → Step (Unit {0})
  cd dir w = returning (set_current_dir dir w)

  abbrev pub cmd : Cmd → Step (Unit {0})
  cmd c w = returning (run c w)

  abbrev pub make_dir : String → Step (Unit {0})
  make_dir dir w = returning (create_all dir w)

  abbrev pub clean_up : Step (Unit {0})
  clean_up = and_then (λ w. returning (shell.dir_files "." w)) remove_profiles

  -- `a?; b`
  infixr 10 ◌then◌
  abbrev pub ◌then◌ : Step (Unit {0}) → Step (Unit {0}) → Step (Unit {0})
  a then b = and_then a (λ u. b)

  unfoldable pub coverage : Bool → Option Bool → Step (Unit {0})
  unfolding and_then show_report remove_profiles
  coverage readable open_report =
      cd root_crate_dir
      then make_dir "coverage"
      then cd "shakespeare-macro"
      then cmd macro_tests
      then cd root_crate_dir
      then cmd main_tests
      then cmd (grcov readable)
      then show_report readable open_report
      then clean_up
