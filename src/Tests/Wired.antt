-- ===== src/Tests/Wired.antt =====
-- An actor with two performances: which queue a message of the second goes to.
use shakespeare.Prelude.{
  ◌≡◌, refl, none, some, [], ◌∷◌, Result, ok, err, Option, str_eq_iff, false_ne_true,
}
use shakespeare.Macro.Grouping.Assoc.{assoc_grouping}
use shakespeare.Macro.Declarations.{PerformanceDecl, Failure}
use shakespeare.Macro.ActorDecl.{nothing_sorted, ActorDecl}
use shakespeare.Macro.Naming.{path_leaf, queue_name}
use shakespeare.Macro.Signatures.{enum_variant_name, payload_pattern, method_call_pattern}
use shakespeare.Macro.Performance.{
  PerfDispatch, new_perf_dispatch, new_actor_perf, sending_methods, create_sending_method,
  sending_method, dispatch_cases, dispatch_case,
}
use shakespeare.Macro.Performance.Dispatches.{get_elem?}
use shakespeare.Macro.ActorOutput.{
  role_outputs, ActorOutput, Branch, new_actor_output, assert_not_empty, perf_dispatches,
  new_actor_struct, new_spawning_function,
}
use shakespeare.Macro.ActorOutput.Wiring.{sends_to, receives_from}
use shakespeare.Macro.ActorOutput.Wiring.Wired.{new_actor_output-Wired}
use shakespeare.Tests.Samples.{same_case, path_of, bow, play, item_of, state, both_methods}

abbrev playing : PerformanceDecl
playing = record { role_name = path_of "Player"; handlers = item_of play ∷ item_of bow ∷ [] }

abbrev two_roles : ActorDecl
two_roles = record {
  actor_name = "Stage";
  attributes = [];
  actor_vis = "pub";
  data_item = state;
  handlers = nothing_sorted.handlers;
  performances = both_methods ∷ playing ∷ [];
  roles = [];
  misc = [];
}

abbrev nothing_made : ActorOutput
nothing_made = record {
  actor_struct = new_actor_struct same_case two_roles;
  data_item = state;
  getter_for = "";
  spawning_function = new_spawning_function same_case [] none none;
  handlers = nothing_sorted.handlers;
  performances = [];
  roles = [];
  misc = [];
}

abbrev or_nothing : Result Failure ActorOutput → ActorOutput
or_nothing (ok o) = o
or_nothing (err x) = nothing_made

abbrev two_outputs : ActorOutput
two_outputs = or_nothing (new_actor_output same_case assoc_grouping two_roles)

abbrev no_dispatch : PerfDispatch
no_dispatch = record {
  actor_impl = record { role_name = path_of ""; methods = []; enqueues_by = "" };
  dispatch_fn = record { method = ""; arms = []; renamed_handlers = [] };
}

abbrev or_no_dispatch : Result Failure (Option PerfDispatch) → PerfDispatch
or_no_dispatch (ok (some pd)) = pd
or_no_dispatch _ = no_dispatch

abbrev playing_dispatch : PerfDispatch
playing_dispatch = or_no_dispatch (new_perf_dispatch same_case playing)

new_actor_output-Wired_example :
    (b : Branch) × (sends_to two_outputs playing_dispatch.actor_impl.enqueues_by ≡ some 1)
    × (get_elem? two_outputs.spawning_function.branches 1 ≡ some b)
    × (receives_from two_outputs b ≡ some 1)
    × (b.fn_name ≡ playing_dispatch.dispatch_fn.method)
unfolding new_actor_output role_outputs assert_not_empty perf_dispatches new_perf_dispatch
    new_actor_perf sending_methods create_sending_method sending_method enum_variant_name
    dispatch_cases dispatch_case payload_pattern method_call_pattern path_leaf queue_name
new_actor_output-Wired_example =
    new_actor_output-Wired same_case assoc_grouping two_roles two_outputs 1 playing playing_dispatch
      refl ((λ e. false_ne_true ((str_eq_iff "Actor" "Player").1 e), tt), (tt, tt)) refl refl
