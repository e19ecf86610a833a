-- ===== src/Xtask.antt =====
-- `main` of xtask/src/main.rs, behind the reading of the command line.
use shakespeare.Prelude.{◌⊎◌, inl, inr, Bool, Option, String, List, Result, ok, err}
use shakespeare.Macro.Naming.{Casing}
use shakespeare.Macro.Grouping.{GroupingMap}
use shakespeare.Effects
use shakespeare.Effects.{Stop, returned, panicked}
use shakespeare.Coverage
use shakespeare.Coverage.{Shell}
use shakespeare.Expander.{SynItem}
use shakespeare.Expander.Files.{Host, DirEntry, expand_all_tests}

-- `enum Commands`
pub data Commands : Type 0 where
  coverage : (readable : Bool) (open_report : Option Bool) → Commands
  expand : Commands

-- What becomes of the errors of a command.
abbrev pub convert : {E F A : Type 0} → (E → F) → Result (Stop E) A → Result (Stop F) A
convert f (ok a) = ok a
convert f (err (returned e)) = err (returned (f e))
convert f (err panicked) = err panicked

-- The parts of the system that the two commands use stand side by side, since a run of the tool is
-- a run of one command; the entries are what the walks of `expand_all_tests` yield.
module _ (shell : Shell) (host : Host) (casing : Casing) (grouping : GroupingMap)
    (parse_args : String → Option Bool) (print : SynItem → String)
    (entries : List (Result host.Error (DirEntry host))) where
  unfoldable pub main :
      Commands → Effects.Step (shell.World × host.World) (shell.Error ⊎ host.Error) (Unit {0})
  unfolding Coverage.coverage expand_all_tests
  main (coverage readable open_report) (w, v) =
      let (result, w') = Coverage.coverage shell readable open_report w in
      (convert inl result, (w', v))
  main expand (w, v) =
      let (result, v') = expand_all_tests host casing grouping parse_args print entries v in
      (convert inr result, (w, v'))
