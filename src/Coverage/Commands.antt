-- ===== src/Coverage/Commands.antt =====
-- Which commands the command `coverage` has run (xtask/src/main.rs).
use mathlib.Core.List.{append_assoc, append-nil}
use shakespeare.Prelude.{
  ◌≡◌, refl, sym, ◌∙◌, ap, Bool, true, false, Option, none, some, List, [], ◌∷◌, ◌++◌, String,
  Result, ok, err, Bool-cases, inl, inr,
}
use shakespeare.Effects.{Stop, continue_with, and_then, returning}
use shakespeare.Expander.Replace.{ends_with}
use shakespeare.Coverage.{
  Cmd, Shell, Step, macro_tests, main_tests, grcov, wanted, open_report_at, show_report,
  remove_profiles, coverage, cd, cmd, make_dir, clean_up, ◌then◌,
}

-- The commands that have been run and have succeeded; nothing else runs one.
pub record History (shell : Shell) : Type 0 where
  pub passed : shell.World → List Cmd
  pub passed-run :
      (c : Cmd) (w : shell.World)
      → (shell.run c w).0 ≡ ok tt
      → passed (shell.run c w).1 ≡ passed w ++ c ∷ []
  pub passed-failed :
      (c : Cmd) (w : shell.World) (e : shell.Error)
      → (shell.run c w).0 ≡ err e
      → passed (shell.run c w).1 ≡ passed w
  pub passed-cd : (d : String) (w : shell.World) → passed (shell.set_current_dir d w).1 ≡ passed w
  pub passed-create : (d : String) (w : shell.World) → passed (shell.create_all d w).1 ≡ passed w
  pub passed-open : (f : String) (w : shell.World) → passed (shell.open_that f w).1 ≡ passed w
  pub passed-confirm : (q : String) (w : shell.World) → passed (shell.confirm q w).1 ≡ passed w
  pub passed-path : (f : String) (w : shell.World) → passed (shell.canonicalize f w).1 ≡ passed w
  pub passed-files : (d : String) (w : shell.World) → passed (shell.dir_files d w).1 ≡ passed w
  pub passed-remove : (f : String) (w : shell.World) → passed (shell.remove f w).1 ≡ passed w

module _ (shell : Shell) (history : History shell) where
  open shell use {World, Error}
  open history use {passed}

  -- The commands of the plan up to some point have passed, and all of them after success.
  abbrev pub Upto : {A : Type 0} → List Cmd → World → Result (Stop Error) A × World → Type 0
  Upto plan w (ok a, w') = passed w' ≡ passed w ++ plan
  Upto plan w (err e, w') =
      (before rest : List Cmd) × (plan ≡ before ++ rest) × (passed w' ≡ passed w ++ before)

  Upto-behind :
      {B : Type 0} (p q : List Cmd) (w w' : World) (r : Result (Stop Error) B × World)
      → passed w' ≡ passed w ++ p
      → Upto q w' r
      → Upto (p ++ q) w r
  Upto-behind p q w w' (ok b, w'') ran ran' =
      ran' ∙ (ap (λ (l : List Cmd). l ++ q) ran ∙ append_assoc (passed w) p q)
  Upto-behind p q w w' (err e, w'') ran (before, rest, is, ran') = (
    p ++ before,
    rest,
    ap (λ (l : List Cmd). p ++ l) is ∙ sym (append_assoc p before rest),
    ran' ∙ (ap (λ (l : List Cmd). l ++ before) ran ∙ append_assoc (passed w) p before),
  )

  continue_with-Upto :
      {A B : Type 0} (p q : List Cmd) (w : World) (r : Result (Stop Error) A × World)
      (f : A → Step shell B)
      → Upto p w r
      → ((a : A) (w' : World) → Upto q w' (f a w'))
      → Upto (p ++ q) w (continue_with r f)
  continue_with-Upto p q w (err e, w') f (before, rest, is, ran) next =
      (before, rest ++ q, ap (λ (l : List Cmd). l ++ q) is ∙ append_assoc before rest q, ran)
  continue_with-Upto p q w (ok a, w') f ran next = Upto-behind p q w w' (f a w') ran (next a w')

  and_then-Upto :
      {A B : Type 0} (p q : List Cmd) (w : World) (step : Step shell A) (f : A → Step shell B)
      → Upto p w (step w)
      → ((a : A) (w' : World) → Upto q w' (f a w'))
      → Upto (p ++ q) w (and_then step f w)
  unfolding and_then
  and_then-Upto p q w step f ran next = continue_with-Upto p q w (step w) f ran next

  none_run :
      {A : Type 0} (w : World) (r : Result Error A × World)
      → passed r.1 ≡ passed w
      → Upto [] w (returning r)
  none_run w (ok a, w') same = same ∙ sym (append-nil (passed w))
  none_run w (err e, w') same = ([], [], refl, same ∙ sym (append-nil (passed w)))

  run-Upto : (c : Cmd) (w : World) → Upto (c ∷ []) w (returning (shell.run c w))
  run-Upto c w = upto (shell.run c w) refl
    where
      upto :
          (r : Result Error (Unit {0}) × World) → shell.run c w ≡ r → Upto (c ∷ []) w (returning r)
      upto (ok tt, w') is =
          ap (λ r. passed r.1) (sym is) ∙ history.passed-run c w (ap (λ r. r.0) is)
      upto (err e, w') is = (
        [],
        c ∷ [],
        refl,
        (ap (λ r. passed r.1) (sym is) ∙ history.passed-failed c w e (ap (λ r. r.0) is))
            ∙ sym (append-nil (passed w)),
      )

  wanted-Upto : (o : Option Bool) (w : World) → Upto [] w (wanted shell o w)
  wanted-Upto none w = none_run w _ (history.passed-confirm "open report folder?" w)
  wanted-Upto (some b) w = sym (append-nil (passed w))

  open_report_at-Upto : (b : Bool) (w : World) → Upto [] w (open_report_at shell b w)
  open_report_at-Upto true w =
      history.passed-open "coverage/html/index.html" w ∙ sym (append-nil (passed w))
  open_report_at-Upto false w =
      and_then-Upto [] [] w (λ w. returning (shell.canonicalize "coverage/html/index.html" w))
        (λ path w. (ok tt, w)) (none_run w _ (history.passed-path "coverage/html/index.html" w))
        (λ path w'. sym (append-nil (passed w')))

  show_report-Upto : (b : Bool) (o : Option Bool) (w : World) → Upto [] w (show_report shell b o w)
  unfolding show_report
  show_report-Upto true o w =
      and_then-Upto [] [] w (wanted shell o) (open_report_at shell) (wanted-Upto o w)
        open_report_at-Upto
  show_report-Upto false o w = sym (append-nil (passed w))

  remove_profiles-Upto : (fs : List String) (w : World) → Upto [] w (remove_profiles shell fs w)
  unfolding remove_profiles
  remove_profiles-Upto [] w = sym (append-nil (passed w))
  remove_profiles-Upto (f ∷ fs) w = elim (Bool-cases (ends_with f "profraw")) [
    | inl profile ↦
        rw (profile, remove_profiles)
          (and_then-Upto [] [] w (λ w. returning (shell.remove f w)) (λ u. remove_profiles shell fs)
            (none_run w _ (history.passed-remove f w)) (λ u w'. remove_profiles-Upto fs w'))
    | inr other ↦ rw (other, remove_profiles) (remove_profiles-Upto fs w)
  ]

  -- A step that runs commands of the plan only.
  record Runs (plan : List Cmd) (step : Step shell (Unit {0})) : Type 0 where
    upto : (w : World) → Upto plan w (step w)

  then-Runs :
      {p q : List Cmd} {a b : Step shell (Unit {0})}
      → Runs p a
      → Runs q b
      → Runs (p ++ q) (◌then◌ shell a b)
  then-Runs {p = p} {q = q} {a = a} {b = b} x y = record {
    upto = λ w. and_then-Upto p q w a (λ u. b) (x.upto w) (λ u w'. y.upto w');
  }

  cd-Runs : (d : String) → Runs [] (cd shell d)
  cd-Runs d = record { upto = λ w. none_run w _ (history.passed-cd d w) }

  make_dir-Runs : (d : String) → Runs [] (make_dir shell d)
  make_dir-Runs d = record { upto = λ w. none_run w _ (history.passed-create d w) }

  cmd-Runs : (c : Cmd) → Runs (c ∷ []) (cmd shell c)
  cmd-Runs c = record { upto = λ w. run-Upto c w }

  clean_up-Runs : Runs [] (clean_up shell)
  clean_up-Runs = record {
    upto = λ w.
        and_then-Upto [] [] w (λ w. returning (shell.dir_files "." w)) (remove_profiles shell)
          (none_run w _ (history.passed-files "." w)) (λ fs w'. remove_profiles-Upto fs w');
  }

  coverage-Runs :
      (readable : Bool) (open_report : Option Bool)
      → Runs (macro_tests ∷ main_tests ∷ grcov readable ∷ []) (coverage shell readable open_report)
  unfolding coverage
  coverage-Runs readable open_report = then-Runs (cd-Runs shell.root_crate_dir) (
      then-Runs (make_dir-Runs "coverage") (
        then-Runs (cd-Runs "shakespeare-macro") (
          then-Runs (cmd-Runs macro_tests) (
            then-Runs (cd-Runs shell.root_crate_dir) (
              then-Runs (cmd-Runs main_tests) (
                then-Runs (cmd-Runs (grcov readable)) (
                  then-Runs (record { upto = show_report-Upto readable open_report })
                    clean_up-Runs)))))))

  -- The commands that have passed are the tests of the macros, the main tests and then grcov, as far as
  -- they succeed: each is run only after those before it have passed. The command `coverage` succeeds
  -- only if all three have passed.
  pub coverage-Upto :
      (readable : Bool) (open_report : Option Bool) (w : World)
      → Upto
          (macro_tests ∷ main_tests ∷ grcov readable ∷ [])
          w
          (coverage shell readable open_report w)
  coverage-Upto readable open_report w = (coverage-Runs readable open_report).upto w
