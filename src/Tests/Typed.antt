-- ===== src/Tests/Typed.antt =====
-- What the macros generate for a performance of two methods is well typed.
use mathlib.Core.Bool.{true}
use shakespeare.Prelude.{refl, none, [], ◌∷◌}
use shakespeare.Macro.Syntax.{Ty, reference, named}
use shakespeare.Macro.Signatures.{enum_variant_name, remove_context_param}
use shakespeare.Macro.Grouping.Assoc.{assoc_grouping}
use shakespeare.Macro.Declarations.{RoleDecl}
use shakespeare.Macro.RoleOutput.{role_output, new_role_output, name_variants}
use shakespeare.Macro.Typing.{RoleTyped}
use shakespeare.Macro.Typing.Roles.{new_role_output-Typed}
use shakespeare.Tests.Samples.{same_case, path_of, speak, bow, play}

abbrev acting : RoleDecl
acting = record {
  name = path_of "Actor";
  attributes = [];
  vis = "pub";
  signatures = remove_context_param speak ∷ bow ∷ play ∷ [];
}

new_role_output-Typed_example : RoleTyped (role_output same_case assoc_grouping acting)
unfolding new_role_output name_variants enum_variant_name
new_role_output-Typed_example =
    new_role_output-Typed same_case assoc_grouping acting
      (role_output same_case assoc_grouping acting) refl

abbrev context_type : Ty
context_type = reference none true (named "Context<Self>")
