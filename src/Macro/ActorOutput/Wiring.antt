-- ===== src/Macro/ActorOutput/Wiring.antt =====
-- Which channel each part of an actor's generated code uses, when `start` has run its first lines
-- (shakespeare-macro/src/outputs/actor): channels are numbered in the order in which `start` makes
-- them, variables are looked up in its scope, and fields in the shell that it fills.
pub mod Texts
pub mod Places
pub mod Wired
use Prim.Native.String.{String, ◌∷◌ as char_before, ◌++◌ as joined}
use Prim.Native.Char.{Char, code}
use text.Mathlib.TextLemmas
use text.Mathlib.TextPositions.{eq_refl}
use shakespeare.Prelude.{
  ℕ, zero, suc, ◌+◌, ◌≡◌, ◌≢◌, refl, sym, ap, ◌∙◌, subst, Bool, true, false, Option, none, some,
  List, [], ◌∷◌, map, str_eq, str_eq_iff, if◌then◌else◌, All, All-weaken, Bool-cases, inl, inr, ok,
  arith, Result-cases,
}
use shakespeare.Macro.Naming.{Casing, RoleName, queue_name, method_name, sender_method_name}
use shakespeare.Macro.Grouping.{GroupingMap}
use shakespeare.Macro.Declarations.{PerformanceDecl}
use shakespeare.Macro.ActorDecl.{ActorDecl}
use shakespeare.Macro.Performance.Dispatches.{get_elem?}
use shakespeare.Macro.ActorOutput.{
  ActorOutput, Construction, FieldValue, SenderMethod, Branch, SpawningFunction, new_actor_output,
  new_actor_struct, new_spawning_function, sender_method, input_name, output_name, assert_not_empty,
  perf_dispatches,
}

-- The variables in scope, the latest in front, each with the channel whose end it is.
abbrev pub Scope : Type 0
Scope = List (String × ℕ)

-- The statements `let (input, mut output) = Channel::new(..);`, from the channel `k` on.
unfoldable pub construct : ℕ → List Construction → Scope → Scope
construct k [] scope = scope
construct k (c ∷ cs) scope = construct (suc k) cs ((c.output, k) ∷ (c.input, k) ∷ scope)

unfoldable pub variable : String → Scope → Option ℕ
variable x [] = none
variable x ((y, k) ∷ scope) = if str_eq x y then some k else variable x scope

-- The channel in a field of the shell, `name: value`.
unfoldable pub field_channel : Scope → List FieldValue → String → Option ℕ
unfolding variable
field_channel scope [] name = none
field_channel scope (f ∷ fs) name =
    if str_eq name f.name then variable f.value scope else field_channel scope fs name

-- The channel on which a method of the shell sends: `self.field.send(payload)`.
unfoldable pub method_channel : (String → Option ℕ) → List SenderMethod → String → Option ℕ
method_channel fields [] name = none
method_channel fields (m ∷ ms) name =
    if str_eq name m.name then fields m.field else method_channel fields ms name

abbrev pub scope_of : SpawningFunction → Scope
scope_of f = construct 0 f.constructions []

-- The channel that a call of one of the shell's methods sends to.
unfoldable pub sends_to : ActorOutput → String → Option ℕ
unfolding construct field_channel method_channel
sends_to o name =
    method_channel (field_channel (scope_of o.spawning_function) o.spawning_function.actor_fields)
      o.actor_struct.methods name

-- The channel that a branch of the loop receives from.
unfoldable pub receives_from : ActorOutput → Branch → Option ℕ
unfolding construct variable
receives_from o b = variable b.output (scope_of o.spawning_function)
