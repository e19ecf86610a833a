-- ===== src/Macro/ActorOutput/Names.antt =====
-- The names that the parts generated for an actor (shakespeare-macro/src/outputs/actor) share.
use mathlib.Core.List.{map-map, map-append}
use shakespeare.Prelude.{
  ◌≡◌, refl, sym, ap, Option, none, some, List, [], ◌∷◌, ◌++◌, subst, map, String, Result, ok, err,
  Result-cases, inl, inr,
}
use shakespeare.Macro.Naming.{
  payload_path, Casing, RoleName, path_leaf, queue_name, method_name, sender_method_name,
}
use shakespeare.Macro.Syntax.{FunctionItem}
use shakespeare.Macro.Grouping.{GroupingMap}
use shakespeare.Macro.Declarations.{Failure, PerformanceDecl}
use shakespeare.Macro.ActorDecl.{ActorDecl}
use shakespeare.Macro.Performance.{
  PerfDispatch, new_perf_dispatch, dispatch_cases, new_actor_perf, sending_methods,
}
use shakespeare.Macro.ActorOutput.{
  role_outputs, ActorOutput, Branch, QueueField, FieldValue, SenderMethod, perf_dispatches,
  new_actor_output, prepend, assert_not_empty, shell_field, Construction,
}

abbrev or_none : {E A : Type 0} → Result E (List A) → List A
or_none (ok l) = l
or_none (err e) = []

module _ (casing : Casing) where
  -- What the performances with methods call and define, in their order.
  abbrev pub if_any : List FunctionItem → PerformanceDecl → List PerformanceDecl
  if_any [] perf = []
  if_any (h ∷ hs) perf = perf ∷ []

  abbrev pub with_methods : List PerformanceDecl → List PerformanceDecl
  with_methods [] = []
  with_methods (perf ∷ perfs) = if_any perf.handlers perf ++ with_methods perfs

  -- The method that the loop calls, and the accessor that `enqueue` calls.
  abbrev pub called : PerformanceDecl → String × String
  called p = (method_name casing p.role_name, sender_method_name casing p.role_name)

  abbrev pub defined : PerfDispatch → String × String
  defined p = (p.dispatch_fn.method, p.actor_impl.enqueues_by)

  abbrev pub Named : PerformanceDecl → Result Failure (Option PerfDispatch) → Type 0
  Named perf (err x) = Unit
  Named perf (ok pd) = map defined (prepend casing pd []) ≡ map called (if_any perf.handlers perf)

  pub Named-perf_dispatch :
      (role : RoleName) (handlers : List FunctionItem)
      → Named
          (record { role_name = role; handlers = handlers })
          (new_perf_dispatch casing (record { role_name = role; handlers = handlers }))
  unfolding new_perf_dispatch new_actor_perf
  Named-perf_dispatch role [] = refl
  Named-perf_dispatch role (h ∷ hs) =
      elim (Result-cases (sending_methods casing (payload_path role) role (h ∷ hs))) [
        | inl (ms, sent) ↦ elim (Result-cases (dispatch_cases casing role (h ∷ hs))) [
          | inl (arms, made) ↦ rw (sent, made) refl
          | inr (x, failed) ↦ rw (sent, failed) tt
        ]
        | inr (x, failed) ↦ rw failed tt
      ]

  prepend-append :
      (o : Option PerfDispatch) (l : List PerfDispatch)
      → prepend casing o l ≡ prepend casing o [] ++ l
  prepend-append none l = refl
  prepend-append (some p) l = refl

  -- The performances that have methods of their own, and no others, get a dispatch method and an
  -- impl, in order, under the names that the loop and the impl call.
  defined-perf_dispatches :
      (perfs : List PerformanceDecl) (pds : List PerfDispatch)
      → perf_dispatches casing perfs ≡ ok pds
      → map defined pds ≡ map called (with_methods perfs)
  unfolding perf_dispatches
  defined-perf_dispatches [] pds e = ap (λ r. map defined (or_none r)) (sym e)
  defined-perf_dispatches (perf ∷ perfs) pds e =
      elim (Result-cases (new_perf_dispatch casing perf)) [
        | inl (pd, made) ↦ elim (Result-cases (perf_dispatches casing perfs)) [
          | inl (rest, more) ↦
              let one =
                subst (Named perf) made (Named-perf_dispatch perf.role_name perf.handlers) in
              let all = defined-perf_dispatches perfs rest more in
              let is : pds ≡ prepend casing pd [] ++ rest =
                cc (rw (made, more) at e, prepend-append pd rest) in
              rw (is, map-append defined, map-append called) (rw (one, all) refl)
          | inr (x, failed) ↦ absurd (cc (rw (made, failed) at e))
        ]
        | inr (x, failed) ↦ absurd (cc (rw failed at e))
      ]

  -- The names of an actor's generated parts, against one another and the performances.
  abbrev pub NamesAgree : ActorDecl → ActorOutput → Type 0
  NamesAgree a o =
      (map (λ (f : QueueField). f.name) o.actor_struct.fields
        ≡ map (λ (f : FieldValue). f.name) o.spawning_function.actor_fields)
      × (map (λ (f : FieldValue). f.value) o.spawning_function.actor_fields
          ≡ map (λ (c : Construction). c.input) o.spawning_function.constructions)
      × (map (λ (b : Branch). b.output) o.spawning_function.branches
          ≡ map (λ (c : Construction). c.output) o.spawning_function.constructions)
      × (map (λ (b : Branch). b.fn_name) o.spawning_function.branches
          ≡ map (λ (p : PerformanceDecl). method_name casing p.role_name) a.performances)
      × (map (λ (m : SenderMethod). m.field) o.actor_struct.methods
          ≡ map (λ (f : QueueField). f.name) o.actor_struct.fields)
      × (map (λ (m : SenderMethod). m.name) o.actor_struct.methods
          ≡ map (λ (p : PerformanceDecl). sender_method_name casing p.role_name) a.performances)
      × (map defined o.performances ≡ map called (with_methods a.performances))

  abbrev AgreesOk : ActorDecl → Result Failure ActorOutput → Type 0
  AgreesOk a (err x) = Unit
  AgreesOk a (ok o) = NamesAgree a o

  AgreesOk-new :
      (grouping : GroupingMap) (a : ActorDecl) → AgreesOk a (new_actor_output casing grouping a)
  unfolding new_actor_output
  AgreesOk-new grouping a = elim (Result-cases (assert_not_empty casing a.performances)) [
    | inl (u, some_perf) ↦ elim (Result-cases (role_outputs casing grouping a.roles)) [
      | inl (ros, roles) ↦ elim (Result-cases (perf_dispatches casing a.performances)) [
        | inl (pds, made) ↦
            rw (some_perf, roles, made)
              (
                simp map-map refl,
                simp map-map refl,
                simp map-map refl,
                simp map-map refl,
                simp map-map refl,
                simp map-map refl,
                defined-perf_dispatches a.performances pds made,
              )
        | inr (x, failed) ↦ rw (some_perf, roles, failed) tt
      ]
      | inr (x, failed) ↦ rw (some_perf, failed) tt
    ]
    | inr (x, none') ↦ rw none' tt
  ]

  -- The parts that are generated for an actor agree on their names: the constructor fills exactly the
  -- shell's queue fields, in order, from the senders that are constructed; each branch of the loop
  -- receives from a constructed receiver, and calls the dispatch method of its performance; each
  -- accessor sends on its own field; and the dispatch methods and accessors that the performances'
  -- impls define and call are those, for the performances that have methods of their own.
  pub new_actor_output-NamesAgree :
      (grouping : GroupingMap) (a : ActorDecl) (o : ActorOutput)
      → new_actor_output casing grouping a ≡ ok o
      → NamesAgree a o
  new_actor_output-NamesAgree grouping a o e = subst (AgreesOk a) e (AgreesOk-new grouping a)

  -- Two performances of roles whose names end in the same segment, wherever the roles stand, get one
  -- name for their queue's field, their accessor and their dispatch method.
  pub same_leaf_collides :
      (p q : PerformanceDecl)
      → path_leaf p.role_name ≡ path_leaf q.role_name
      → ((shell_field casing p).name ≡ (shell_field casing q).name) × (called p ≡ called q)
  unfolding path_leaf shell_field queue_name method_name sender_method_name
  same_leaf_collides p q e = (rw e refl, rw e refl)
