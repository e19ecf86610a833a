-- ===== src/Macro/ActorDecl/Checked.antt =====
-- The performances that are sorted out of an actor's module have all been checked
-- (shakespeare-macro/src/declarations/actor.rs).
use shakespeare.Prelude.{
  subst, Bool, true, false, Option, none, some, String, List, [], ◌∷◌, ◌++◌, Result, ok, err, ◌>>=◌,
  All, Result-cases, Bool-cases, Option-cases, inl, inr,
}
use shakespeare.Macro.Syntax.{SynPath, Attribute, ItemImpl, Item}
use shakespeare.Macro.Declarations.{Failure, PerformanceDecl, RoleDecl, new_performance}
use shakespeare.Macro.Declarations.Accepts.{IsHandler, new_performance_iff}
use shakespeare.Macro.Handlers
use shakespeare.Macro.ActorDecl.{
  performance_tag, tagged_performance, read_performance, is_canonical, Sorted, push_performance,
  push_function, sort_item, sort_items, data_item,
}
use shakespeare.Macro.ActorDecl.Sorting.{read-untagged, read-tagged}

-- A performance whose methods have all been checked.
abbrev pub IsChecked : PerformanceDecl → Type 0
IsChecked p = All IsHandler p.handlers

All-append :
    (ps qs : List PerformanceDecl) → All IsChecked ps → All IsChecked qs → All IsChecked (ps ++ qs)
All-append [] qs a b = b
All-append (p ∷ ps) qs (one, a) b = (one, All-append ps qs a b)

module _ (parse_args : String → Option Bool) where
  abbrev ReadChecked : Result Failure (Option (PerformanceDecl × Option RoleDecl)) → Type 0
  ReadChecked (err x) = Unit
  ReadChecked (ok none) = Unit
  ReadChecked (ok (some (perf, role))) = IsChecked perf

  ReadChecked-tagged :
      (attr : Attribute) (trait_ : Option SynPath) (imp : ItemImpl)
      → ReadChecked (tagged_performance parse_args attr trait_ imp)
  unfolding tagged_performance
  ReadChecked-tagged attr none imp = tt
  ReadChecked-tagged attr (some role) imp = elim (Result-cases (new_performance role imp)) [
    | inl (perf, made) ↦
        let (all, is) = (new_performance_iff role imp perf).0 made in
        elim (Bool-cases (is_canonical parse_args attr)) [
          | inl c ↦ rw (made, c, is) all
          | inr c ↦ rw (made, c, is) all
        ]
    | inr (x, failed) ↦ rw failed tt
  ]

  ReadChecked-read_performance : (imp : ItemImpl) → ReadChecked (read_performance parse_args imp)
  ReadChecked-read_performance imp = elim (Option-cases (performance_tag imp.attrs)) [
    | inl untagged ↦ rw (read-untagged parse_args imp untagged) tt
    | inr (attr, tagged) ↦
        rw (read-tagged parse_args imp attr tagged) (ReadChecked-tagged attr imp.trait_ imp)
  ]

  abbrev pub SortChecked : Result Failure Sorted → Type 0
  SortChecked (err x) = Unit
  SortChecked (ok t) = All IsChecked t.performances

  push-Checked :
      (imp : ItemImpl) (r : Result Failure (Option (PerformanceDecl × Option RoleDecl)))
      (s : Sorted)
      → ReadChecked r
      → All IsChecked s.performances
      → SortChecked (r >>= λ found. ok (push_performance (Item.impl_ imp) found s))
  push-Checked imp (err x) s read all = tt
  push-Checked imp (ok none) s read all = all
  push-Checked imp (ok (some (perf, role))) s read all =
      All-append s.performances (perf ∷ []) all (read, tt)

  function-Checked :
      (item : Item) (r : Handlers.HandlerFunctions × Bool) (s : Sorted)
      → All IsChecked s.performances
      → All IsChecked (push_function item r s).performances
  function-Checked item (h, true) s all = all
  function-Checked item (h, false) s all = all

  SortChecked-item :
      (item : Item) (s : Sorted)
      → All IsChecked s.performances
      → SortChecked (sort_item parse_args item s)
  unfolding sort_item data_item
  SortChecked-item (Item.impl_ imp) s all =
      push-Checked imp (read_performance parse_args imp) s (ReadChecked-read_performance imp) all
  SortChecked-item (Item.function f) s all =
      function-Checked (Item.function f) (Handlers.add f s.handlers) s all
  SortChecked-item (Item.struct_ d) s all = all
  SortChecked-item (Item.enum_ d) s all = all
  SortChecked-item (Item.union_ d) s all = all
  SortChecked-item (Item.other t) s all = all

  pub SortChecked-items :
      (items : List Item) (s : Sorted)
      → All IsChecked s.performances
      → SortChecked (sort_items parse_args items s)
  unfolding sort_items
  SortChecked-items [] s all = all
  SortChecked-items (item ∷ items) s all = elim (Result-cases (sort_item parse_args item s)) [
    | inl (u, one) ↦
        rw one (SortChecked-items items u (subst SortChecked one (SortChecked-item item s all)))
    | inr (x, failed) ↦ rw failed tt
  ]
