-- ===== src/Macro/Entry.antt =====
-- The entry points of shakespeare-macro/src/lib.rs, and the order in which the outputs are printed.
-- Tokens are kept as the parts that they are printed from.
pub mod Expansion
use shakespeare.Prelude.{
  Option, none, some, List, [], ◌∷◌, ◌++◌, map, Bool, String, Result, ok, err,
}
use shakespeare.Macro.Syntax.{
  SynPath, Attribute, FunctionItem, ItemImpl, ItemData, Item, ItemMod, ItemTrait,
}
use shakespeare.Macro.Naming.{Casing}
use shakespeare.Macro.Declarations.{Failure, error, panic, Message}
use shakespeare.Macro.Grouping.{GroupingMap}
use shakespeare.Macro.Handlers.{HandlerFunctions}
use shakespeare.Macro.RoleOutput.{PayloadEnum, ReturnPayload, TraitMethod, RoleOutput, make_role}
use shakespeare.Macro.Performance.{ActorPerf, DispatchFunction, PerfDispatch, make_performance}
use shakespeare.Macro.ActorOutput.{ActorStruct, SpawningFunction, ActorOutput, make_actor}

pub data Part : Type 0 where
  actor_struct : ActorStruct → Part
  data_item : ItemData → Part
  getter_for : String → Part
  spawning_function : SpawningFunction → Part
  -- `impl #state_name { #panic #exit }`
  hooks : String → Option FunctionItem → Option FunctionItem → Part
  actor_impl : ActorPerf → Part
  dispatch_fn : DispatchFunction → Part
  payload_enum : PayloadEnum → Part
  return_payload_enum : ReturnPayload → Part
  trait_definition : List Attribute → String → List TraitMethod → Part
  role_impl : SynPath → SynPath → Part
  item : Item → Part
  compile_error : List Message → Part
  -- what syn says of tokens that are not of the kind that a macro stands on
  syntax_error : String → Part

abbrev pub Tokens : Type 0
Tokens = List Part

unfoldable pub perf_tokens : PerfDispatch → Tokens
perf_tokens p = actor_impl p.actor_impl ∷ dispatch_fn p.dispatch_fn ∷ []

unfoldable pub role_tokens : RoleOutput → Tokens
role_tokens r =
    payload_enum r.payload_enum
    ∷ return_payload_enum r.return_payload_enum
    ∷ trait_definition r.trait_attributes r.trait_vis r.trait_methods
    ∷ role_impl r.role_payload r.role_return
    ∷ []

-- `ToTokens for HandlerFunctions`, which panics without the name of the state; `none` is a panic.
unfoldable pub handler_tokens : HandlerFunctions → Option Tokens
handler_tokens h = elim h.state_name [
  | none ↦ none
  | some state_name ↦ some (hooks state_name h.panic h.exit ∷ [])
]

abbrev pub all_tokens : {A : Type 0} → (A → Tokens) → List A → Tokens
all_tokens f [] = []
all_tokens f (x ∷ xs) = f x ++ all_tokens f xs

abbrev pub around : Tokens → Tokens → Option Tokens → Option Tokens
around front back none = none
around front back (some ts) = some (front ++ (ts ++ back))

abbrev pub head_tokens : ActorOutput → Tokens
head_tokens o =
    actor_struct o.actor_struct
    ∷ data_item o.data_item
    ∷ getter_for o.getter_for
    ∷ spawning_function o.spawning_function
    ∷ []

-- `ToTokens for ActorOutput`
unfoldable pub actor_tokens : ActorOutput → Option Tokens
unfolding handler_tokens perf_tokens role_tokens
actor_tokens o =
    around (head_tokens o)
      (all_tokens perf_tokens o.performances ++ (all_tokens role_tokens o.roles ++ map item o.misc))
      (handler_tokens o.handlers)

-- An error is printed as `compile_error!`, and a panic stays one.
unfoldable pub tokens_of : {A : Type 0} → (A → Option Tokens) → Result Failure A → Option Tokens
tokens_of print (ok o) = print o
tokens_of print (err (error ms)) = some (compile_error ms ∷ [])
tokens_of print (err panic) = none

-- The match on what `parse_macro_input` gives.
unfoldable pub expand :
    {A B : Type 0} → (A → Result Failure B) → (B → Option Tokens) → Result String A → Option Tokens
unfolding tokens_of
expand make print (ok parsed) = tokens_of print (make parsed)
expand make print (err e) = some (syntax_error e ∷ [])

-- syn's parsers of a token stream; a syntax error is its message.
pub record Syn : Type 1 where
  pub TokenStream : Type 0
  pub parse_mod : TokenStream → Result String ItemMod
  pub parse_impl : TokenStream → Result String ItemImpl
  pub parse_trait : TokenStream → Result String ItemTrait

module _ (syn : Syn) (casing : Casing) (grouping : GroupingMap) where
  open syn use {TokenStream, parse_mod, parse_impl, parse_trait}

  -- The macros `actor`, `performance` and `role`, which drop what stands in the attribute.
  unfoldable pub actor_internal : (String → Option Bool) → TokenStream → TokenStream → Option Tokens
  unfolding expand actor_tokens
  actor_internal parse_args attr tokens =
      expand (make_actor casing grouping parse_args) actor_tokens (parse_mod tokens)

  unfoldable pub performance_internal : TokenStream → TokenStream → Option Tokens
  unfolding expand perf_tokens
  performance_internal attr tokens =
      expand (make_performance casing) (λ p. some (perf_tokens p)) (parse_impl tokens)

  unfoldable pub role_internal : TokenStream → TokenStream → Option Tokens
  unfolding expand role_tokens
  role_internal attr tokens =
      expand (make_role casing grouping) (λ r. some (role_tokens r)) (parse_trait tokens)
