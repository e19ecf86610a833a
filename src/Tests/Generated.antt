-- ===== src/Tests/Generated.antt =====
-- What the macros generate for methods, performances and an actor.
use shakespeare.Prelude.{ℕ, ◌≡◌, refl, none, some, List, [], ◌∷◌, Result, ok, err}
use shakespeare.Macro.Syntax.{Ty, named, unit, Ty-discrete, String-discrete, SynPath, Signature}
use shakespeare.Macro.Signatures.{
  remove_context_param, extract_return_type, variant_text, payload_pattern, method_call_pattern,
}
use shakespeare.Macro.Grouping.{values}
use shakespeare.Macro.Grouping.Assoc.{assoc_grouping}
use shakespeare.Macro.Declarations.{PerformanceDecl, Failure}
use shakespeare.Macro.ActorDecl.{nothing_sorted, ActorDecl}
use shakespeare.Macro.RoleOutput.{
  Tys-discrete, selected, return_types, from_return_payload, fold_signature,
}
use shakespeare.Macro.RoleOutput.Payloads.{sole, taking, values-selected}
use shakespeare.Macro.RoleOutput.Replies.{own_reply_cast}
use shakespeare.Macro.Performance.{
  sending_method, new_perf_dispatch, dispatch_case, dispatch_cases, Arm,
}
use shakespeare.Macro.Performance.Interface.{sending_shape, trait_shape, canonical_interface}
use shakespeare.Macro.Performance.Dispatches.{match_arms, own_call, sent_message_dispatched}
use shakespeare.Macro.ActorOutput.{
  role_outputs, ActorOutput, new_actor_output, assert_not_empty, perf_dispatches, new_actor_struct,
  new_spawning_function,
}
use shakespeare.Macro.ActorOutput.Names.{NamesAgree, new_actor_output-NamesAgree}
use shakespeare.Tests.Samples.{same_case, path_of, speak, bow, play, item_of, state}

abbrev sigs : List Signature
sigs = remove_context_param speak ∷ bow ∷ play ∷ []

abbrev two_types : List Ty
two_types = named "String" ∷ named "bool" ∷ []

values-selected_example :
    values Tys-discrete two_types (selected same_case assoc_grouping sigs)
    ≡ sole two_types (taking same_case two_types sigs)
values-selected_example = values-selected same_case assoc_grouping two_types sigs

own_reply_cast_example :
    (values Ty-discrete unit (
        assoc_grouping.collect Ty-discrete
          (return_types same_case assoc_grouping (speak ∷ bow ∷ play ∷ [])))
      ≡ ("Bow" ∷ "Play" ∷ []) ∷ [])
    × (from_return_payload {V = ℕ}
          (record { typ = unit; variants = "Bow" ∷ "Play" ∷ [] })
          ("Bow", 5)
        ≡ some 5)
unfolding extract_return_type variant_text Ty-discrete String-discrete
own_reply_cast_example = own_reply_cast same_case assoc_grouping bow (speak ∷ []) (play ∷ []) 5

canonical_interface_example :
    sending_shape
      (sending_method same_case (path_of "ActorPayload") (path_of "Actor") (item_of speak))
    ≡ trait_shape (fold_signature (path_of "Actor") (remove_context_param speak))
unfolding remove_context_param
canonical_interface_example =
    canonical_interface same_case (path_of "ActorPayload") (path_of "Actor") (item_of speak) refl
      refl

sent_message_dispatched_example :
    (arms : List Arm) × (dispatch_cases same_case
        (path_of "Actor")
        (item_of bow ∷ item_of speak ∷ [])
      ≡ ok arms)
    × (match_arms {V = ℕ} arms "Speak" (4 ∷ 1 ∷ [])
        ≡ some (own_call same_case (path_of "Actor") (item_of speak) (4 ∷ 1 ∷ [])))
unfolding remove_context_param sending_method variant_text
sent_message_dispatched_example =
    sent_message_dispatched same_case (path_of "Actor") (path_of "ActorPayload") (item_of bow ∷ [])
      [] (item_of speak) (4 ∷ 1 ∷ []) (tt, (tt, tt)) refl refl

abbrev actor : ActorDecl
actor = record {
  actor_name = "Stage";
  attributes = [];
  actor_vis = "pub";
  data_item = state;
  handlers = nothing_sorted.handlers;
  performances =
      record { role_name = path_of "Actor"; handlers = item_of speak ∷ item_of bow ∷ [] } ∷ [];
  roles = [];
  misc = [];
}

abbrev nothing_generated : ActorOutput
nothing_generated = record {
  actor_struct = new_actor_struct same_case actor;
  data_item = state;
  getter_for = "";
  spawning_function = new_spawning_function same_case [] none none;
  handlers = nothing_sorted.handlers;
  performances = [];
  roles = [];
  misc = [];
}

abbrev generated_or_nothing : Result Failure ActorOutput → ActorOutput
generated_or_nothing (ok o) = o
generated_or_nothing (err x) = nothing_generated

abbrev generated : ActorOutput
generated = generated_or_nothing (new_actor_output same_case assoc_grouping actor)

new_actor_output-NamesAgree_example : NamesAgree same_case actor generated
unfolding new_actor_output role_outputs assert_not_empty perf_dispatches new_perf_dispatch
    dispatch_cases dispatch_case payload_pattern method_call_pattern
new_actor_output-NamesAgree_example =
    new_actor_output-NamesAgree same_case assoc_grouping actor generated refl

abbrev other_path : SynPath
other_path = record {
  leading = record { ident = "other"; arguments = "" } ∷ [];
  last = record { ident = "Actor"; arguments = "" };
}

abbrev without_methods : PerformanceDecl
without_methods = record { role_name = path_of "Actor"; handlers = [] }

abbrev elsewhere : PerformanceDecl
elsewhere = record { role_name = other_path; handlers = item_of bow ∷ [] }
