-- ===== src/Tests/Reports.antt =====
-- The coverage command on a system without grcov.
use shakespeare.Prelude.{
  ◌≡◌, refl, Bool, true, false, none, List, [], ◌∷◌, ◌++◌, String, str_eq, Result, ok, err,
}
use shakespeare.Expander.Replace.{ends_with}
use shakespeare.Macro.Grouping.Assoc.{assoc_grouping}
use shakespeare.Tests.Samples.{same_case}
use shakespeare.Tests.Declared.{has_flag}
use shakespeare.Tests.Files.{disk_only, walk}
use shakespeare.Xtask.{Commands, main}
use shakespeare.Coverage.{Cmd, Shell, macro_tests, main_tests, grcov, coverage}
use shakespeare.Coverage.Commands.{History, Upto, coverage-Upto}

profile : ends_with "cargo-test-12.profraw" "profraw" ≡ true
unfolding ends_with
profile = refl

abbrev ran : Bool → Cmd → List Cmd → Result String (Unit {0}) × List Cmd
ran true c w = (err "no grcov", w)
ran false c w = (ok tt, w ++ c ∷ [])

abbrev no_grcov : Shell
no_grcov = record {
  World = List Cmd;
  Error = String;
  root_crate_dir = "/shakespeare";
  set_current_dir = λ d w. (ok tt, w);
  create_all = λ d w. (ok tt, w);
  run = λ c w. ran (str_eq c.program "grcov") c w;
  open_that = λ f w. (ok tt, w);
  confirm = λ q w. (ok true, w);
  canonicalize = λ f w. (ok f, w);
  dir_files = λ d w. (ok [], w);
  remove = λ f w. (ok tt, w);
}

ran-passed :
    (b : Bool) (c : Cmd) (w : List Cmd) → (ran b c w).0 ≡ ok tt → (ran b c w).1 ≡ w ++ c ∷ []
ran-passed false c w e = refl
ran-passed true c w e = absurd (cc e)

ran-failed :
    (b : Bool) (c : Cmd) (w : List Cmd) (x : String) → (ran b c w).0 ≡ err x → (ran b c w).1 ≡ w
ran-failed true c w x e = refl
ran-failed false c w x e = absurd (cc e)

abbrev all_commands : History no_grcov
all_commands = record {
  passed = λ w. w;
  passed-run = λ c w e. ran-passed (str_eq c.program "grcov") c w e;
  passed-failed = λ c w x e. ran-failed (str_eq c.program "grcov") c w x e;
  passed-cd = λ d w. refl;
  passed-create = λ d w. refl;
  passed-open = λ f w. refl;
  passed-confirm = λ q w. refl;
  passed-path = λ f w. refl;
  passed-files = λ d w. refl;
  passed-remove = λ f w. refl;
}

only_tests : (coverage no_grcov true none []).1 ≡ macro_tests ∷ main_tests ∷ []
unfolding coverage
only_tests = refl

-- The tool runs the one command that it is given.
tool_reports :
    (main no_grcov disk_only same_case assoc_grouping has_flag
      (λ item. "")
      walk
      (Commands.coverage true none)
      ([], [])).1
    ≡ (macro_tests ∷ main_tests ∷ [], [])
unfolding main coverage
tool_reports = refl

tool_expands :
    (main no_grcov disk_only same_case assoc_grouping has_flag
      (λ item. "")
      walk
      Commands.expand
      ([], [])).1.0
    ≡ []
unfolding main
tool_expands = refl

coverage-Upto_example :
    Upto no_grcov all_commands
      (macro_tests ∷ main_tests ∷ grcov true ∷ [])
      []
      (coverage no_grcov true none [])
coverage-Upto_example = coverage-Upto no_grcov all_commands true none []
