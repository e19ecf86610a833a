-- ===== src/Macro/Typing/Performances.antt =====
-- What is generated for a canonical performance is well typed, against what is generated for its role
-- (shakespeare-macro/src/outputs/performance).
use shakespeare.Prelude.{◌≡◌, List, map, String, true}
use shakespeare.Macro.Syntax.{Ty, SynPath, FunctionItem, Attribute}
use shakespeare.Macro.Naming.{Casing}
use shakespeare.Macro.Signatures.{remove_context_param, typed_inputs, variant_text}
use shakespeare.Macro.Signatures.Arity.{IsMethod}
use shakespeare.Macro.Grouping.{GroupingMap}
use shakespeare.Macro.Declarations.{new_role}
use shakespeare.Macro.RoleOutput.{RoleOutput, role_output}
use shakespeare.Macro.Performance.{all_expressions}
use shakespeare.Macro.Typing.Scopes.{ContextIs, Distinct}

-- A method: its inputs behind the receiver are typed and differ in their names, what is taken for a
-- context is one, of the type `c`, its name gives a variant, and the others' names are expressions.
pub record HandlerTyped (casing : Casing) (c : Ty) (h : FunctionItem) : Type 0 where
  pub is_method : IsMethod h.sig.inputs
  pub context_is : ContextIs c h.sig.inputs
  pub distinct : Distinct (typed_inputs (remove_context_param h.sig).inputs)
  pub named : casing.is_ident (variant_text casing h.sig) ≡ true
  pub expressions :
      all_expressions casing
        (map (λ (p : String × Ty). p.0) (typed_inputs (remove_context_param h.sig).inputs))
      ≡ true

module _ (casing : Casing) (grouping : GroupingMap) (name : SynPath) (attrs : List Attribute)
    (vis : String) where
  -- The role of a canonical performance, and what is generated for it.
  abbrev pub canonical_role : List FunctionItem → RoleOutput
  canonical_role hs =
      role_output casing grouping (new_role name attrs vis (map (λ (h : FunctionItem). h.sig) hs))
