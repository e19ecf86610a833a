-- ===== src/Macro/ActorOutput/Wiring/Wired.antt =====
-- The event loop's queues are the generated channels (shakespeare-macro/src/outputs/actor): what
-- `enqueue` of a performance sends arrives at the branch that calls its dispatch method.
use Prim.Native.String.{String}
use shakespeare.Prelude.{
  ℕ, zero, suc, ◌≡◌, refl, sym, ap, ◌∙◌, subst, some, List, [], ◌∷◌, map, inl, inr, ok, arith,
  Result-cases, Result, err,
}
use shakespeare.Macro.Naming.{Casing, method_name, sender_method_name}
use shakespeare.Macro.Grouping.{GroupingMap}
use shakespeare.Macro.Declarations.{PerformanceDecl, Failure}
use shakespeare.Macro.Syntax.{FunctionItem}
use shakespeare.Macro.Performance.{PerfDispatch, new_perf_dispatch}
use shakespeare.Macro.ActorDecl.{ActorDecl}
use shakespeare.Macro.Performance.Dispatches.{get_elem?}
use shakespeare.Macro.ActorOutput.{
  ActorOutput, Branch, new_actor_output, new_actor_struct, new_spawning_function, output_name,
  assert_not_empty, role_outputs, perf_dispatches,
}
use shakespeare.Macro.ActorOutput.Wiring.{construct, sends_to, receives_from}
use shakespeare.Macro.ActorOutput.Names.{defined, called, if_any, Named, Named-perf_dispatch}
use shakespeare.Macro.ActorOutput.Wiring.Places.{
  Differ, queue_of, constructions_of, ends_in_scope, field_at, method_at,
}

-- A list of branches that the performances have.
get_elem?-map :
    {A B : Type 0} (f : A → B) (i : ℕ) (x : A) (xs : List A)
    → get_elem? xs i ≡ some x
    → get_elem? (map f xs) i ≡ some (f x)
get_elem?-map f i x [] e = absurd (cc)
get_elem?-map f zero x (y ∷ ys) e = ap (λ z. some (f z)) (let is : y ≡ x = cc in is)
get_elem?-map f (suc i) x (y ∷ ys) e = get_elem?-map f i x ys e

module _ (casing : Casing) where
  abbrev branch_of : PerformanceDecl → Branch
  branch_of perf = record {
    output = output_name casing perf;
    fn_name = method_name casing perf.role_name;
  }

  -- The performance at place `i` of an actor: its accessor sends on the channel `i`, and there is a
  -- branch that receives from it and calls the dispatch method.
  pub record WiredAt (o : ActorOutput) (i : ℕ) (perf : PerformanceDecl) : Type 0 where
    pub sends : sends_to o (sender_method_name casing perf.role_name) ≡ some i
    pub branch : Branch
    pub listed : get_elem? o.spawning_function.branches i ≡ some branch
    pub receives : receives_from o branch ≡ some i
    pub calls : branch.fn_name ≡ method_name casing perf.role_name

  abbrev WiredIf : ActorDecl → ℕ → PerformanceDecl → Result Failure ActorOutput → Type 0
  WiredIf a i perf (err x) = Unit
  WiredIf a i perf (ok o) = WiredAt o i perf

  new_actor_output-WiredIf :
      (grouping : GroupingMap) (a : ActorDecl) (i : ℕ) (perf : PerformanceDecl)
      → Differ (map (queue_of casing) a.performances)
      → get_elem? a.performances i ≡ some perf
      → WiredIf a i perf (new_actor_output casing grouping a)
  unfolding new_actor_output new_actor_struct new_spawning_function sends_to receives_from
  new_actor_output-WiredIf grouping a i perf d e =
      let ps = a.performances in
      let (input, output) = ends_in_scope casing 0 i perf ps [] d e in
      elim (Result-cases (assert_not_empty casing ps)) [
        | inl (u, some_perf) ↦ elim (Result-cases (role_outputs casing grouping a.roles)) [
          | inl (ros, roles) ↦ elim (Result-cases (perf_dispatches casing ps)) [
            | inl (pds, made) ↦
                rw (some_perf, roles, made)
                  (record {
                    sends =
                        method_at casing _ i perf ps d e
                        ∙ (field_at casing (construct 0 (constructions_of casing ps) []) i perf ps d
                              e
                            ∙ (input ∙ ap some (omega arith)));
                    branch = branch_of perf;
                    listed = get_elem?-map branch_of i perf ps e;
                    receives = output ∙ ap some (omega arith);
                    calls = refl;
                  })
            | inr (x, failed) ↦ rw (some_perf, roles, failed) tt
          ]
          | inr (x, failed) ↦ rw (some_perf, failed) tt
        ]
        | inr (x, none') ↦ rw none' tt
      ]

  dispatch-names :
      (perf : PerformanceDecl) (handlers : List FunctionItem) (pd : PerfDispatch)
      → (defined casing pd ∷ [] ≡ map (called casing) (if_any casing handlers perf))
      → defined casing pd ≡ called casing perf
  dispatch-names perf [] pd e = absurd (cc)
  dispatch-names perf (h ∷ hs) pd e = cc

  -- In the output for an actor whose queues' names differ, what the `enqueue` that is generated for
  -- the performance at place `i` sends goes on the channel that `start` makes as number `i`, and the
  -- branch at place `i` of the loop receives from this channel and calls the dispatch method that is
  -- generated for the performance.
  pub new_actor_output-Wired :
      (grouping : GroupingMap) (a : ActorDecl) (o : ActorOutput) (i : ℕ) (perf : PerformanceDecl)
      (pd : PerfDispatch)
      → new_actor_output casing grouping a ≡ ok o
      → Differ (map (queue_of casing) a.performances)
      → get_elem? a.performances i ≡ some perf
      → new_perf_dispatch casing perf ≡ ok (some pd)
      → (b : Branch) × (sends_to o pd.actor_impl.enqueues_by ≡ some i)
        × (get_elem? o.spawning_function.branches i ≡ some b)
        × (receives_from o b ≡ some i)
        × (b.fn_name ≡ pd.dispatch_fn.method)
  new_actor_output-Wired grouping a o i perf pd made d e generated =
      let wired = subst (WiredIf a i perf) made (new_actor_output-WiredIf grouping a i perf d e) in
      let names : defined casing pd ≡ called casing perf = dispatch-names perf perf.handlers pd (
        subst (Named casing perf) generated
          (Named-perf_dispatch casing perf.role_name perf.handlers)) in
      (
        wired.branch,
        ap (sends_to o) (ap (λ (n : String × String). n.1) names) ∙ wired.sends,
        wired.listed,
        wired.receives,
        wired.calls ∙ sym (ap (λ (n : String × String). n.0) names),
      )
