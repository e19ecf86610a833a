-- ===== src/Macro/ActorOutput/Complete.antt =====
-- When an accepted module gets its output (shakespeare-macro/src/lib.rs, with
-- shakespeare-macro/src/declarations/actor.rs and shakespeare-macro/src/outputs/actor/mod.rs).
use shakespeare.Prelude.{◌≡◌, Bool, true, Option, String, [], Result, ok, err, All}
use shakespeare.Macro.Naming.{Casing}
use shakespeare.Macro.Declarations.{Failure, PerformanceDecl, RoleDecl}
use shakespeare.Macro.ActorDecl.{ActorDecl}
use shakespeare.Macro.Performance.Accepted.{IsQuotable}
use shakespeare.Macro.Signatures.{variant_text}
use shakespeare.Macro.RoleOutput.{RoleOutput}
use shakespeare.Macro.ActorOutput.{ActorOutput, assert_not_empty}
use shakespeare.Macro.ActorDecl.Checked.{IsChecked}

module _ (casing : Casing) (parse_args : String → Option Bool) where
  -- The performances of an accepted actor.
  abbrev HasChecked : Result Failure ActorDecl → Type 0
  HasChecked (err x) = Unit
  HasChecked (ok a) =
      All IsChecked a.performances × (assert_not_empty casing a.performances ≡ ok tt)

-- A role whose name is one segment, all of whose methods' names give identifiers for the variants.
abbrev pub IsDeclarable : Casing → RoleDecl → Type 0
IsDeclarable casing role =
    All (λ sig. casing.is_ident (variant_text casing sig) ≡ true) role.signatures
    × (role.name.leading ≡ [])

abbrev pub HasQuotable : Casing → PerformanceDecl → Type 0
HasQuotable casing perf = All (IsQuotable casing) perf.handlers
