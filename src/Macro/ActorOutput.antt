-- ===== src/Macro/ActorOutput.antt =====
-- shakespeare-macro/src/outputs/actor: the shell's struct, the spawning function and what else is
-- generated for an actor.
pub mod Names
pub mod Wiring
pub mod Complete
use Prim.Native.String.{◌++◌}
use shakespeare.Prelude.{
  Bool, Option, none, some, List, [], ◌∷◌, map, String, Result, ok, err, ◌>>=◌,
}
use shakespeare.Macro.Syntax.{Ty, Attribute, ItemData, Item, ItemMod}
use shakespeare.Macro.Naming.{Casing, RoleName, queue_name, method_name, sender_method_name}
use shakespeare.Macro.Grouping.{GroupingMap}
use shakespeare.Macro.Declarations.{Failure, panic, PerformanceDecl, RoleDecl}
use shakespeare.Macro.Handlers.{HandlerFunctions, exit_name, panic_name, exit_return, panic_return}
use shakespeare.Macro.ActorDecl.{ActorDecl, new_actor}
use shakespeare.Macro.RoleOutput.{RoleOutput, new_role_output}
use shakespeare.Macro.Performance.{PerfDispatch, new_perf_dispatch}

-- A field of the shell: a queue's sender for a role's channel.
pub record QueueField : Type 0 where
  pub name : String
  pub sender_of : RoleName

-- `async fn name(&self, payload) { self.field.send(payload) }`
pub record SenderMethod : Type 0 where
  pub name : String
  pub field : String
  pub role : RoleName

-- The struct, its accessors, and the types of the impls of `ActorShell` and `ActorState`.
pub record ActorStruct : Type 0 where
  pub attributes : List Attribute
  pub vis : String
  pub name : String
  pub fields : List QueueField
  pub methods : List SenderMethod
  pub state_type : String
  pub exit_type : Ty
  pub panic_type : Ty

-- `let (input, mut output) = Channel::new(..)`, for a role.
pub record Construction : Type 0 where
  pub input : String
  pub output : String
  pub role : RoleName

-- A field of the constructor, `name: value`.
pub record FieldValue : Type 0 where
  pub name : String
  pub value : String

-- A branch of the loop's `select!`: the queue that it receives from, and the method that it calls.
pub record Branch : Type 0 where
  pub output : String
  pub fn_name : String

-- A hook's call, or what stands for a hook that is not there: `()`, or the panic's value.
pub data AtEnd : Type 0 where
  call : String → AtEnd
  plain : AtEnd

pub record SpawningFunction : Type 0 where
  pub constructions : List Construction
  pub actor_fields : List FieldValue
  pub branches : List Branch
  pub at_panic : AtEnd
  pub at_exit : AtEnd

pub record ActorOutput : Type 0 where
  pub actor_struct : ActorStruct
  pub data_item : ItemData
  pub getter_for : String
  pub spawning_function : SpawningFunction
  pub handlers : HandlerFunctions
  pub performances : List PerfDispatch
  pub roles : List RoleOutput
  pub misc : List Item

abbrev pub at_end : Option String → AtEnd
at_end none = plain
at_end (some handler) = call handler

module _ (casing : Casing) where
  -- `shell_field_from_performance`
  unfoldable pub shell_field : PerformanceDecl → QueueField
  shell_field perf = record { name = queue_name casing perf.role_name; sender_of = perf.role_name }

  -- `make_methods` of `create_inherent_impl`
  unfoldable pub sender_method : PerformanceDecl → SenderMethod
  sender_method perf = record {
    name = sender_method_name casing perf.role_name;
    field = queue_name casing perf.role_name;
    role = perf.role_name;
  }

  -- `ActorStruct::new`
  unfoldable pub new_actor_struct : ActorDecl → ActorStruct
  unfolding shell_field sender_method exit_return panic_return
  new_actor_struct actor = record {
    attributes = actor.attributes;
    vis = actor.actor_vis;
    name = actor.actor_name;
    fields = map shell_field actor.performances;
    methods = map sender_method actor.performances;
    state_type = actor.data_item.ident;
    exit_type = exit_return actor.handlers;
    panic_type = panic_return actor.handlers;
  }

  abbrev pub input_name : PerformanceDecl → String
  input_name perf = queue_name casing perf.role_name ++ "_input"

  abbrev pub output_name : PerformanceDecl → String
  output_name perf = queue_name casing perf.role_name ++ "_output"

  -- `SpawningFunction::new`
  unfoldable pub new_spawning_function :
      List PerformanceDecl → Option String → Option String → SpawningFunction
  new_spawning_function performances panic_name exit_name = record {
    constructions =
        map
          (λ (perf : PerformanceDecl). record {
            input = input_name perf;
            output = output_name perf;
            role = perf.role_name;
          })
          performances;
    actor_fields =
        map
          (λ (perf : PerformanceDecl). record {
            name = queue_name casing perf.role_name;
            value = input_name perf;
          })
          performances;
    branches =
        map
          (λ (perf : PerformanceDecl). record {
            output = output_name perf;
            fn_name = method_name casing perf.role_name;
          })
          performances;
    at_panic = at_end panic_name;
    at_exit = at_end exit_name;
  }

  -- `map_or_bail!` over the performances, and `flatten` over the results.
  abbrev pub prepend : Option PerfDispatch → List PerfDispatch → List PerfDispatch
  prepend none pds = pds
  prepend (some pd) pds = pd ∷ pds

  unfoldable pub perf_dispatches : List PerformanceDecl → Result Failure (List PerfDispatch)
  perf_dispatches [] = ok []
  perf_dispatches (perf ∷ perfs) =
      new_perf_dispatch casing perf >>= λ pd. perf_dispatches perfs >>= λ pds. ok (prepend pd pds)

  -- `assert!(!performances.is_empty())`
  unfoldable pub assert_not_empty : List PerformanceDecl → Result Failure (Unit {0})
  assert_not_empty [] = err panic
  assert_not_empty (p ∷ ps) = ok tt

  module _ (grouping : GroupingMap) where
    -- `map_or_bail!` over the roles.
    unfoldable pub role_outputs : List RoleDecl → Result Failure (List RoleOutput)
    role_outputs [] = ok []
    role_outputs (role ∷ roles) =
        new_role_output casing grouping role >>= λ o. role_outputs roles >>= λ os. ok (o ∷ os)

    -- `ActorOutput::new`
    unfoldable pub new_actor_output : ActorDecl → Result Failure ActorOutput
    unfolding new_actor_struct new_spawning_function panic_name exit_name
    new_actor_output actor = assert_not_empty actor.performances >>= λ _.
        role_outputs actor.roles >>= λ roles. perf_dispatches actor.performances >>= λ performances.
        ok (record {
          actor_struct = new_actor_struct actor;
          data_item = actor.data_item;
          getter_for = actor.actor_name;
          spawning_function =
              new_spawning_function actor.performances (panic_name actor.handlers)
                (exit_name actor.handlers);
          handlers = actor.handlers;
          performances = performances;
          roles = roles;
          misc = actor.misc;
        })

    -- `make_actor` of lib.rs
    unfoldable pub make_actor : (String → Option Bool) → ItemMod → Result Failure ActorOutput
    make_actor parse_args module_ = new_actor parse_args module_ >>= new_actor_output
