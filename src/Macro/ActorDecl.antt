-- ===== src/Macro/ActorDecl.antt =====
-- shakespeare-macro/src/declarations/actor.rs: the contents of an actor's module, sorted.
pub mod Sorting
pub mod Checked
pub mod Acceptance
pub mod HookFunctions
use shakespeare.Prelude.{
  Bool, true, false, not, ◌||◌, Option, none, some, List, [], ◌∷◌, ◌++◌, map, String, str_eq,
  Result, ok, err, ◌>>=◌, if◌then◌else◌,
}
use shakespeare.Macro.Syntax.{
  SynPath, Attribute, FunctionItem, ImplItem, ItemImpl, ItemData, Item, ItemMod, Signature,
}
use shakespeare.Macro.Declarations.{
  Failure, error, panic, empty_declaration, no_data_item, no_performance, extra_data_item,
  functions, PerformanceDecl, new_performance, RoleDecl, new_role, Message,
}
use shakespeare.Macro.Handlers
use shakespeare.Macro.Handlers.{HandlerFunctions}

-- `enum DataItem`, and `TryFrom<&Item>`
unfoldable pub data_item : Item → Option ItemData
data_item (Item.struct_ s) = some s
data_item (Item.enum_ e) = some e
data_item (Item.union_ u) = some u
data_item _ = none

unfoldable pub is_not_internal_attribute : Attribute → Bool
is_not_internal_attribute a =
    let ident = a.path.last.ident in
    not (str_eq ident "actor" || str_eq ident "performance" || str_eq ident "role")

-- `attrs.iter().filter(is_not_internal_attribute)`
unfoldable pub external_attributes : List Attribute → List Attribute
unfolding is_not_internal_attribute
external_attributes [] = []
external_attributes (a ∷ as') =
    if is_not_internal_attribute a then a ∷ external_attributes as' else external_attributes as'

-- `get_performance_tag`
unfoldable pub performance_tag : List Attribute → Option Attribute
performance_tag [] = none
performance_tag (a ∷ as') =
    if str_eq a.path.last.ident "performance" then some a else performance_tag as'

pub record ActorDecl : Type 0 where
  pub actor_name : String
  pub attributes : List Attribute
  pub actor_vis : String
  pub data_item : ItemData
  pub handlers : HandlerFunctions
  pub performances : List PerformanceDecl
  pub roles : List RoleDecl
  pub misc : List Item

-- The variables of the loop of `ActorDecl::new`.
pub record Sorted : Type 0 where
  pub performances : List PerformanceDecl
  pub roles : List RoleDecl
  pub data_items : List ItemData
  pub misc : List Item
  pub handlers : HandlerFunctions

abbrev pub nothing_sorted : Sorted
nothing_sorted = record {
  performances = [];
  roles = [];
  data_items = [];
  misc = [];
  handlers = Handlers.new;
}

abbrev pub push_role : Option RoleDecl → List RoleDecl → List RoleDecl
push_role none roles = roles
push_role (some role) roles = roles ++ role ∷ []

abbrev pub push_misc : Item → Sorted → Sorted
push_misc item s = record s { misc = s.misc ++ item ∷ [] }

abbrev pub push_performance : Item → Option (PerformanceDecl × Option RoleDecl) → Sorted → Sorted
push_performance item none s = push_misc item s
push_performance item (some (perf, role)) s = record s {
  performances = s.performances ++ perf ∷ [];
  roles = push_role role s.roles;
}

abbrev pub push_data : Item → Option ItemData → Sorted → Sorted
push_data item none s = push_misc item s
push_data item (some d) s = record s { data_items = s.data_items ++ d ∷ [] }

abbrev pub push_function : Item → HandlerFunctions × Bool → Sorted → Sorted
push_function item (h, true) s = record s { handlers = h }
push_function item (h, false) s = push_misc item s

-- `at_most_one`, and the errors for none and for several.
unfoldable pub only_data_item : List ItemData → Result Failure ItemData
only_data_item [] = err (error (no_data_item ∷ []))
only_data_item (d ∷ []) = ok d
only_data_item extras = err (error (map extra_data_item extras))

unfoldable pub some_performance : List PerformanceDecl → Result Failure (Unit {0})
some_performance [] = err (error (no_performance ∷ []))
some_performance (p ∷ ps) = ok tt

-- The struct literal at the end.
abbrev pub assembled : ItemMod → Sorted → ItemData → ActorDecl
assembled m s d = record {
  actor_name = m.ident;
  attributes = external_attributes m.attrs;
  actor_vis = m.vis;
  data_item = d;
  handlers = Handlers.set_data_name d.ident s.handlers;
  performances = s.performances;
  roles = s.roles;
  misc = s.misc;
}

-- What follows the loop.
unfoldable pub finish : ItemMod → Sorted → Result Failure ActorDecl
unfolding only_data_item some_performance
finish m s = only_data_item s.data_items >>= λ d.
    some_performance s.performances >>= λ _. ok (assembled m s d)

-- `parse_args` is the attribute parser of `structmeta`: whether the arguments, if they can be read,
-- have the flag `canonical`.
module _ (parse_args : String → Option Bool) where
  abbrev pub is_canonical : Attribute → Bool
  is_canonical a = elim (parse_args a.args) [ none ↦ false | some canonical ↦ canonical ]

  pub tagged_performance :
      Attribute
      → Option SynPath
      → ItemImpl
      → Result Failure (Option (PerformanceDecl × Option RoleDecl))
  tagged_performance attr none imp = err panic
  tagged_performance attr (some role_name) imp = new_performance role_name imp >>= λ perf.
      if is_canonical attr
      then ok (
          some (
            perf,
            some (
                new_role role_name (external_attributes imp.attrs) "pub"
                  (map (λ (f : FunctionItem). f.sig) (functions imp.items))),
          ))
      else ok (some (perf, none))

  unfoldable pub read_performance :
      ItemImpl → Result Failure (Option (PerformanceDecl × Option RoleDecl))
  unfolding tagged_performance
  read_performance imp = elim (performance_tag imp.attrs) [
    | none ↦ ok none
    | some attr ↦ tagged_performance attr imp.trait_ imp
  ]

  -- One round of the loop.
  unfoldable pub sort_item : Item → Sorted → Result Failure Sorted
  unfolding data_item
  sort_item (Item.impl_ imp) s =
      read_performance imp >>= λ found. ok (push_performance (Item.impl_ imp) found s)
  sort_item (Item.function f) s = ok (push_function (Item.function f) (Handlers.add f s.handlers) s)
  sort_item item s = ok (push_data item (data_item item) s)

  unfoldable pub sort_items : List Item → Sorted → Result Failure Sorted
  sort_items [] s = ok s
  sort_items (item ∷ items) s = sort_item item s >>= sort_items items

  -- `ActorDecl::new`
  unfoldable pub new_actor : ItemMod → Result Failure ActorDecl
  new_actor m = elim m.content [
    | none ↦ err (error (empty_declaration ∷ []))
    | some items ↦ sort_items items nothing_sorted >>= finish m
  ]
