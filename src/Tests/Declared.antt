-- ===== src/Tests/Declared.antt =====
-- What the macros read of an actor's module and its methods.
use shakespeare.Prelude.{
  ◌≡◌, ◌↔◌, refl, Bool, Option, none, some, List, [], ◌∷◌, String, str_eq, Result, ok, err, All,
}
use shakespeare.Macro.Syntax.{
  named, SynPath, returns, Attribute, FunctionItem, ImplItem, ItemImpl, Item, ItemMod,
}
use shakespeare.Macro.Signatures.{extract_return_type}
use shakespeare.Macro.Declarations.{
  functions, new_performance, check_handlers, check_handler, Failure,
}
use shakespeare.Macro.Declarations.Accepts.{IsHandler, new_performance_iff}
use shakespeare.Macro.ActorOutput.{ActorOutput}
use shakespeare.Macro.ActorDecl.{ActorDecl}
use shakespeare.Macro.Handlers.{exit_return, panic_return, any_send}
use shakespeare.Macro.ActorDecl.{
  nothing_sorted, Sorted, sort_items, sort_item, read_performance, new_actor, performance_tag,
}
use shakespeare.Macro.ActorDecl.Acceptance.{Verdict, new_actor-Verdict}
use shakespeare.Macro.ActorDecl.HookFunctions.{hooks_of_module}
use shakespeare.Tests.Samples.{path_of, method, speak, bow, item_of, state, both_methods}

abbrev pub has_flag : String → Option Bool
has_flag s = some (str_eq s "canonical")

abbrev pub tag : String → Attribute
tag args = record { path = path_of "performance"; args = args }

abbrev pub performance_of : Option SynPath → ItemImpl
performance_of trait_ = record {
  attrs = tag "canonical" ∷ [];
  trait_ = trait_;
  self_ty = named "State";
  items = ImplItem.function (item_of speak) ∷ ImplItem.function (item_of bow) ∷ [];
}

abbrev stop_hook : FunctionItem
stop_hook = item_of (method "stop" [] (returns (named "u64")))

abbrev pub items : List Item
items =
    Item.struct_ state
    ∷ Item.impl_ (performance_of (some (path_of "Actor")))
    ∷ Item.function stop_hook
    ∷ Item.other "use foo;"
    ∷ []

abbrev pub module_of : List Item → ItemMod
module_of content = record { attrs = []; vis = "pub"; ident = "Stage"; content = some content }

abbrev sorted_or_nothing : Result Failure Sorted → Sorted
sorted_or_nothing (ok t) = t
sorted_or_nothing (err x) = nothing_sorted

abbrev sorted : Sorted
sorted = sorted_or_nothing (sort_items has_flag items nothing_sorted)

new_actor-Verdict_example :
    Verdict has_flag items
      (state ∷ [])
      (path_of "Actor" ∷ [])
      (new_actor has_flag (module_of items))
unfolding sort_items sort_item read_performance performance_tag new_performance check_handlers
    functions check_handler
new_actor-Verdict_example = new_actor-Verdict has_flag (module_of items) items sorted refl refl

hooks_of_module_example :
    (sorted.handlers.exit ≡ some stop_hook)
    × (sorted.handlers.panic ≡ none)
    × (exit_return sorted.handlers ≡ named "u64")
    × (panic_return sorted.handlers ≡ any_send)
unfolding sort_items sort_item read_performance performance_tag new_performance check_handlers
    functions check_handler extract_return_type
hooks_of_module_example = hooks_of_module has_flag items sorted refl

new_performance_iff_example :
    (new_performance (path_of "Actor") (performance_of none) ≡ ok both_methods) ↔ (
      All IsHandler (functions (performance_of none).items)
      × (both_methods ≡ record {
        role_name = path_of "Actor";
        handlers = functions (performance_of none).items;
      }))
new_performance_iff_example =
    new_performance_iff (path_of "Actor") (performance_of none) both_methods

abbrev actor_or : Result Failure ActorDecl → ActorDecl
actor_or (ok a) = a
actor_or (err x) = record {
  actor_name = "";
  attributes = [];
  actor_vis = "";
  data_item = state;
  handlers = nothing_sorted.handlers;
  performances = [];
  roles = [];
  misc = [];
}

abbrev stage : ActorDecl
stage = actor_or (new_actor has_flag (module_of items))
