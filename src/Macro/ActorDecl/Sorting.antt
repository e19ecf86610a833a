-- ===== src/Macro/ActorDecl/Sorting.antt =====
-- Where each item of an actor's module goes (shakespeare-macro/src/declarations/actor.rs).
use mathlib.Core.List.{append_assoc, append-nil, map-append}
use shakespeare.Prelude.{
  ◌≡◌, refl, sym, ap, subst, ◌∙◌, Bool, ◌||◌, Option, none, some, List, [], ◌∷◌, ◌++◌, map, String,
  str_eq, Result, ok, err, ◌>>=◌, if◌then◌else◌, Result-cases, Option-cases, Bool-cases, inl, inr,
}
use shakespeare.Macro.Syntax.{SynPath, Attribute, FunctionItem, ItemImpl, ItemData, Item}
use shakespeare.Macro.Declarations.{Failure, PerformanceDecl, RoleDecl, new_performance}
use shakespeare.Macro.Declarations.Accepts.{new_performance_iff}
use shakespeare.Macro.Handlers
use shakespeare.Macro.Handlers.{HandlerFunctions}
use shakespeare.Macro.ActorDecl.{
  data_item, performance_tag, Sorted, read_performance, sort_item, sort_items, push_performance,
  push_misc, tagged_performance, is_canonical,
}

-- The places that an item can go to.
pub data Place : Type 0 where
  performance hook state rest : Place

abbrev pub is_hook : String → Bool
is_hook name = str_eq name "stop" || str_eq name "catch"

-- Where the documentation of the macro says that an item goes.
abbrev pub place : Item → Place
place (Item.impl_ imp) = elim (performance_tag imp.attrs) [ none ↦ rest | some a ↦ performance ]
place (Item.function f) = if is_hook f.sig.ident then hook else rest
place (Item.struct_ s) = state
place (Item.enum_ e) = state
place (Item.union_ u) = state
place (Item.other t) = rest

-- The items that go to none of the three special places, in their order.
abbrev pub keep_if : Place → Item → List Item
keep_if rest item = item ∷ []
keep_if _ item = []

abbrev pub passed_on : List Item → List Item
passed_on [] = []
passed_on (item ∷ items) = keep_if (place item) item ++ passed_on items

-- The state types that the items declare.
abbrev pub list_of {ℓ} : {A : Type ℓ} → Option A → List A
list_of none = []
list_of (some d) = d ∷ []

abbrev pub declared : List Item → List ItemData
declared [] = []
declared (item ∷ items) = list_of (data_item item) ++ declared items

-- The roles that the tagged impl blocks name.
abbrev pub name_if : Place → Item → List SynPath
name_if performance (Item.impl_ imp) = list_of imp.trait_
name_if _ item = []

abbrev pub performed : List Item → List SynPath
performed [] = []
performed (item ∷ items) = name_if (place item) item ++ performed items

abbrev pub role_of : PerformanceDecl → SynPath
role_of p = p.role_name

-- What one round adds to what is sorted.
record Adds (item : Item) (s t : Sorted) : Type 0 where
  misc : t.misc ≡ s.misc ++ keep_if (place item) item
  data_items : t.data_items ≡ s.data_items ++ list_of (data_item item)
  performances :
      map role_of t.performances ≡ map role_of s.performances ++ name_if (place item) item

module _ (parse_args : String → Option Bool) where
  -- A tagged impl block is refused, or read under the role that it names.
  abbrev ReadAs :
      Option SynPath → Result Failure (Option (PerformanceDecl × Option RoleDecl)) → Type 0
  ReadAs trait_ (err x) = Unit
  ReadAs trait_ (ok none) = ⊥
  ReadAs trait_ (ok (some (perf, role))) = trait_ ≡ some perf.role_name

  ReadAs-tagged :
      (attr : Attribute) (trait_ : Option SynPath) (imp : ItemImpl)
      → ReadAs trait_ (tagged_performance parse_args attr trait_ imp)
  unfolding tagged_performance
  ReadAs-tagged attr none imp = tt
  ReadAs-tagged attr (some role) imp = elim (Result-cases (new_performance role imp)) [
    | inl (d, made) ↦
        let named : role ≡ d.role_name =
          sym (ap role_of (((new_performance_iff role imp d).0 made).1)) in
        elim (Bool-cases (is_canonical parse_args attr)) [
          | inl c ↦ rw (made, c) (ap some named)
          | inr c ↦ rw (made, c) (ap some named)
        ]
    | inr (x, failed) ↦ rw failed tt
  ]

  abbrev AddsOk : Item → Sorted → Result Failure Sorted → Type 0
  AddsOk item s (err x) = Unit
  AddsOk item s (ok t) = Adds item s t

  push-Adds :
      (imp : ItemImpl) (r : Result Failure (Option (PerformanceDecl × Option RoleDecl)))
      (s : Sorted)
      → place (Item.impl_ imp) ≡ performance
      → ReadAs imp.trait_ r
      → AddsOk (Item.impl_ imp) s (r >>= λ found. ok (push_performance (Item.impl_ imp) found s))
  unfolding data_item
  push-Adds imp (err x) s p h = tt
  push-Adds imp (ok none) s p h = absurd h
  push-Adds imp (ok (some (perf, role))) s p h = record {
    misc = rw p (rw append-nil refl);
    data_items = rw append-nil refl;
    performances = rw (p, h, map-append) refl;
  }

  pub read-untagged :
      (imp : ItemImpl)
      → performance_tag imp.attrs ≡ none
      → read_performance parse_args imp ≡ ok none
  unfolding read_performance
  read-untagged imp e = rw (e, read_performance) refl

  pub read-tagged :
      (imp : ItemImpl) (a : Attribute)
      → performance_tag imp.attrs ≡ some a
      → read_performance parse_args imp ≡ tagged_performance parse_args a imp.trait_ imp
  unfolding read_performance
  read-tagged imp a e = rw (e, read_performance) refl

  untagged-Adds :
      (imp : ItemImpl) (s : Sorted)
      → place (Item.impl_ imp) ≡ rest
      → Adds (Item.impl_ imp) s (push_misc (Item.impl_ imp) s)
  unfolding data_item
  untagged-Adds imp s p = record {
    misc = rw p refl;
    data_items = rw append-nil refl;
    performances = rw p (rw append-nil refl);
  }

  hook_added :
      (f : FunctionItem) (h : HandlerFunctions) (s : Sorted)
      → place (Item.function f) ≡ hook
      → Adds (Item.function f) s (record s { handlers = h })
  unfolding data_item
  hook_added f h s p = record {
    misc = rw p (rw append-nil refl);
    data_items = rw append-nil refl;
    performances = rw p (rw append-nil refl);
  }

  sort_item-Adds : (item : Item) (s : Sorted) → AddsOk item s (sort_item parse_args item s)
  unfolding sort_item Handlers.add data_item
  sort_item-Adds (Item.impl_ imp) s = elim (Option-cases (performance_tag imp.attrs)) [
    | inl e ↦ rw (read-untagged imp e) (untagged-Adds imp s (rw (e, place) refl))
    | inr (a, e) ↦ rw (read-tagged imp a e) (
        push-Adds imp (tagged_performance parse_args a imp.trait_ imp) s (rw (e, place) refl)
          (ReadAs-tagged a imp.trait_ imp))
  ]
  sort_item-Adds (Item.function f) s = elim (Bool-cases (str_eq f.sig.ident "stop")) [
    | inl stop ↦ rw stop (hook_added f _ s (rw stop refl))
    | inr other ↦ elim (Bool-cases (str_eq f.sig.ident "catch")) [
      | inl catch ↦ rw (other, catch) (hook_added f _ s (rw (other, catch) refl))
      | inr neither ↦
          rw (other, neither)
            (record {
              misc = rw (other, neither) refl;
              data_items = rw append-nil refl;
              performances = rw (other, neither, append-nil) refl;
            })
    ]
  ]
  sort_item-Adds (Item.struct_ d) s = record {
    misc = rw append-nil refl;
    data_items = refl;
    performances = rw append-nil refl;
  }
  sort_item-Adds (Item.enum_ d) s = record {
    misc = rw append-nil refl;
    data_items = refl;
    performances = rw append-nil refl;
  }
  sort_item-Adds (Item.union_ d) s = record {
    misc = rw append-nil refl;
    data_items = refl;
    performances = rw append-nil refl;
  }
  sort_item-Adds (Item.other d) s = record {
    misc = refl;
    data_items = rw append-nil refl;
    performances = rw append-nil refl;
  }

  -- The items that a list of items declares, names and leaves over.
  abbrev pub SortedFrom : List Item → Sorted → Sorted → Type 0
  SortedFrom items s t =
      (t.misc ≡ s.misc ++ passed_on items)
      × (t.data_items ≡ s.data_items ++ declared items)
      × (map role_of t.performances ≡ map role_of s.performances ++ performed items)

  abbrev pub SortedOk : List Item → Sorted → Result Failure Sorted → Type 0
  SortedOk items s (err x) = Unit
  SortedOk items s (ok t) = SortedFrom items s t

  pub sort_items-SortedFrom :
      (items : List Item) (s t : Sorted)
      → sort_items parse_args items s ≡ ok t
      → SortedFrom items s t
  unfolding sort_items
  sort_items-SortedFrom [] s t e =
      subst (λ r. SortedOk [] s r) e (rw append-nil refl, rw append-nil refl, rw append-nil refl)
  sort_items-SortedFrom (item ∷ items) s t e = elim (Result-cases (sort_item parse_args item s)) [
    | inl (u, one) ↦
        let a = subst (AddsOk item s) one (sort_item-Adds item s) in
        let (m, d, p) = sort_items-SortedFrom items u t (rw (one) at e) in
        (
          m ∙ rw (a.misc, append_assoc) refl,
          d ∙ rw (a.data_items, append_assoc) refl,
          p ∙ rw (a.performances, append_assoc) refl,
        )
    | inr (x, failed) ↦ absurd (cc (rw failed at e))
  ]
