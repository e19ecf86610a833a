-- ===== src/Macro/ActorDecl/Acceptance.antt =====
-- Which modules `ActorDecl::new` accepts (shakespeare-macro/src/declarations/actor.rs).
use shakespeare.Prelude.{◌≡◌, refl, Bool, Option, some, List, [], ◌∷◌, map, String, Result, ok, err}
use shakespeare.Macro.Syntax.{SynPath, ItemData, Item, ItemMod}
use shakespeare.Macro.Declarations.{
  Failure, error, no_data_item, no_performance, extra_data_item, PerformanceDecl,
}
use shakespeare.Macro.Handlers
use shakespeare.Macro.Handlers.{HandlerFunctions}
use shakespeare.Macro.ActorDecl.{
  ActorDecl, Sorted, nothing_sorted, sort_items, new_actor, finish, assembled,
}
use shakespeare.Macro.ActorDecl.Sorting.{
  declared, performed, passed_on, role_of, sort_items-SortedFrom,
}

module _ (parse_args : String → Option Bool) where
  -- What `ActorDecl::new` makes of a module whose performances can be read, by the state types that
  -- its items declare and the roles that they perform.
  abbrev pub Verdict : List Item → List ItemData → List SynPath → Result Failure ActorDecl → Type 0
  Verdict items [] ps r = r ≡ err (error (no_data_item ∷ []))
  Verdict items (d ∷ d' ∷ ds) ps r = r ≡ err (error (map extra_data_item (d ∷ d' ∷ ds)))
  Verdict items (d ∷ []) [] r = r ≡ err (error (no_performance ∷ []))
  Verdict items (d ∷ []) (p ∷ ps) r =
      (a : ActorDecl) × (r ≡ ok a)
      × (a.data_item ≡ d)
      × (a.handlers.state_name ≡ some d.ident)
      × (map role_of a.performances ≡ p ∷ ps)
      × (a.misc ≡ passed_on items)

  Verdict-finish :
      (m : ItemMod) (items : List Item) (ds : List ItemData) (ps : List PerformanceDecl)
      (t : Sorted)
      → t.data_items ≡ ds
      → t.performances ≡ ps
      → t.misc ≡ passed_on items
      → Verdict items ds (map role_of ps) (finish m t)
  unfolding finish Handlers.set_data_name
  Verdict-finish m items [] ps t d p q = rw d refl
  Verdict-finish m items (x ∷ y ∷ ds) ps t d p q = rw d refl
  Verdict-finish m items (x ∷ []) [] t d p q = rw (d, p) refl
  Verdict-finish m items (x ∷ []) (y ∷ ps) t d p q =
      (assembled m t x, rw (d, p) refl, refl, refl, rw p refl, q)

  -- A module whose tagged impl blocks can all be read is accepted exactly if it declares one struct,
  -- enum or union and performs a role. The actor then has that state type, the roles performed, in
  -- order, and passes on, in order, all items but these and the hooks. Without a state type, with
  -- several, or with no performance, it is refused with the message for that, in this precedence.
  pub new_actor-Verdict :
      (m : ItemMod) (items : List Item) (t : Sorted)
      → m.content ≡ some items
      → sort_items parse_args items nothing_sorted ≡ ok t
      → Verdict items (declared items) (performed items) (new_actor parse_args m)
  unfolding new_actor
  new_actor-Verdict m items t c e =
      let (misc, data_items, performances) =
        sort_items-SortedFrom parse_args items nothing_sorted t e in
      rw (c, new_actor)
        (rw e (
          rw (← performances)
            (Verdict-finish m items (declared items) t.performances t data_items refl misc)))
