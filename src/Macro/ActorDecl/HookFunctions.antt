-- ===== src/Macro/ActorDecl/HookFunctions.antt =====
-- The hooks of an actor's module, and a panic of the macro
-- (shakespeare-macro/src/declarations/actor.rs).
use shakespeare.Prelude.{
  ◌≡◌, refl, sym, ap, subst, ◌∙◌, Bool, true, false, Option, none, some, List, [], ◌∷◌, ◌++◌,
  String, Result, ok, err, Result-cases, inl, inr, arith,
}
use shakespeare.Macro.Syntax.{unit, Attribute, FunctionItem, ItemImpl, Item, ItemMod}
use shakespeare.Macro.Declarations.{Failure, panic, PerformanceDecl, RoleDecl}
use shakespeare.Macro.Handlers
use shakespeare.Macro.Handlers.{HandlerFunctions, exit_return, panic_return, any_send}
use shakespeare.Macro.Handlers.Hooks.{last_named, add_all, hook_type, hooks_of_functions}
use shakespeare.Macro.ActorDecl.{
  performance_tag, Sorted, nothing_sorted, read_performance, push_performance, sort_item,
  sort_items, new_actor, tagged_performance, data_item, push_function,
}

-- The functions of a module.
abbrev pub if_function : Item → List FunctionItem
if_function (Item.function f) = f ∷ []
if_function _ = []

abbrev pub module_functions : List Item → List FunctionItem
module_functions [] = []
module_functions (item ∷ items) = if_function item ++ module_functions items

module _ (parse_args : String → Option Bool) where
  abbrev HandlersOk : Item → Sorted → Result Failure Sorted → Type 0
  HandlersOk item s (err x) = Unit
  HandlersOk item s (ok t) = t.handlers ≡ add_all (if_function item) s.handlers

  push-HandlersOk :
      (imp : ItemImpl) (found : Option (PerformanceDecl × Option RoleDecl)) (s : Sorted)
      → (push_performance (Item.impl_ imp) found s).handlers ≡ s.handlers
  push-HandlersOk imp none s = refl
  push-HandlersOk imp (some (p, r)) s = refl

  function-HandlersOk :
      (item : Item) (r : HandlerFunctions × Bool) (s : Sorted)
      → (r.1 ≡ false → r.0 ≡ s.handlers)
      → (push_function item r s).handlers ≡ r.0
  function-HandlersOk item (h, true) s e = refl
  function-HandlersOk item (h, false) s e = sym (e refl)

  sort_item-HandlersOk :
      (item : Item) (s : Sorted) → HandlersOk item s (sort_item parse_args item s)
  unfolding sort_item data_item
  sort_item-HandlersOk (Item.impl_ imp) s = elim (Result-cases (read_performance parse_args imp)) [
    | inl (found, read) ↦ rw read (push-HandlersOk imp found s)
    | inr (x, failed) ↦ rw failed tt
  ]
  sort_item-HandlersOk (Item.function f) s =
      function-HandlersOk (Item.function f) (Handlers.add f s.handlers) s
        (unfold Handlers.add in ground arith)
  sort_item-HandlersOk (Item.struct_ d) s = refl
  sort_item-HandlersOk (Item.enum_ d) s = refl
  sort_item-HandlersOk (Item.union_ d) s = refl
  sort_item-HandlersOk (Item.other t) s = refl

  add_all-append :
      (fs gs : List FunctionItem) (h : HandlerFunctions)
      → add_all (fs ++ gs) h ≡ add_all gs (add_all fs h)
  add_all-append [] gs h = refl
  add_all-append (f ∷ fs) gs h = add_all-append fs gs (Handlers.add f h).0

  sort_items-handlers :
      (items : List Item) (s t : Sorted)
      → sort_items parse_args items s ≡ ok t
      → t.handlers ≡ add_all (module_functions items) s.handlers
  unfolding sort_items
  sort_items-handlers [] s t e = ap handlers_or (sym e)
    where
      handlers_or : Result Failure Sorted → HandlerFunctions
      handlers_or (ok t) = t.handlers
      handlers_or (err x) = s.handlers
  sort_items-handlers (item ∷ items) s t e = elim (Result-cases (sort_item parse_args item s)) [
    | inl (u, one) ↦
        let now = subst (HandlersOk item s) one (sort_item-HandlersOk item s) in
        sort_items-handlers items u t (rw one at e)
        ∙ ap (add_all (module_functions items)) now
        ∙ sym (add_all-append (if_function item) (module_functions items) s.handlers)
    | inr (x, failed) ↦ absurd (cc (rw failed at e))
  ]

  -- In a module whose items can be sorted, the last function named `stop` becomes the exit hook and
  -- the last named `catch` the panic hook, and the shell's exit and panic types are their return
  -- types, or `()` and the boxed panic value for a hook that is not there.
  pub hooks_of_module :
      (items : List Item) (t : Sorted)
      → sort_items parse_args items nothing_sorted ≡ ok t
      → let fs = module_functions items in
        (t.handlers.exit ≡ last_named "stop" fs none)
        × (t.handlers.panic ≡ last_named "catch" fs none)
        × (exit_return t.handlers ≡ hook_type unit (last_named "stop" fs none))
        × (panic_return t.handlers ≡ hook_type any_send (last_named "catch" fs none))
  unfolding Handlers.new
  hooks_of_module items t e =
      rw (sort_items-handlers items nothing_sorted t e)
        (hooks_of_functions (module_functions items) Handlers.new)

  sort_items-append :
      (pre rest : List Item) (s u : Sorted)
      → sort_items parse_args pre s ≡ ok u
      → sort_items parse_args (pre ++ rest) s ≡ sort_items parse_args rest u
  unfolding sort_items
  sort_items-append [] rest s u e = ap (sort_items parse_args rest) (ap sorted_or e)
    where
      sorted_or : Result Failure Sorted → Sorted
      sorted_or (ok v) = v
      sorted_or (err x) = s
  sort_items-append (item ∷ pre) rest s u e = elim (Result-cases (sort_item parse_args item s)) [
    | inl (v, one) ↦ rw one (sort_items-append pre rest v u (rw one at e))
    | inr (x, failed) ↦ absurd (cc (rw failed at e))
  ]

  read_performance-inherent :
      (imp : ItemImpl) (attr : Attribute)
      → performance_tag imp.attrs ≡ some attr
      → imp.trait_ ≡ none
      → read_performance parse_args imp ≡ err panic
  unfolding tagged_performance read_performance
  read_performance-inherent imp attr tag inherent = rw (read_performance, tag) (rw inherent refl)

  -- A tagged impl block of no trait, behind items that can be sorted, makes the macro panic, whatever
  -- stands behind it.
  pub inherent_performance_panics :
      (m : ItemMod) (pre post : List Item) (imp : ItemImpl) (attr : Attribute) (s : Sorted)
      → sort_items parse_args pre nothing_sorted ≡ ok s
      → performance_tag imp.attrs ≡ some attr
      → imp.trait_ ≡ none
      → m.content ≡ some (pre ++ Item.impl_ imp ∷ post)
      → new_actor parse_args m ≡ err panic
  unfolding new_actor sort_items sort_item
  inherent_performance_panics m pre post imp attr s sorted tag inherent content = rw content (
      rw (sort_items-append pre (Item.impl_ imp ∷ post) nothing_sorted s sorted)
        (rw (read_performance-inherent imp attr tag inherent) refl))
