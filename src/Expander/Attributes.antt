-- ===== src/Expander/Attributes.antt =====
-- Which attribute the search takes, and what it leaves (xtask/src/expander.rs).
use shakespeare.Prelude.{
  ℕ, suc, ◌+◌, ◌≡◌, ◌⊎◌, refl, ap, ◌∙◌, true, false, Option, none, some, List, [], ◌∷◌, ◌++◌,
  String, length, All, Bool-cases, inl, inr, arith,
}
use shakespeare.Expander.{
  Attr, is_needle, last_index, rotated, swap_remove, find_attribute, found_of,
}

module _ (needle : String) where
  abbrev pub NotNeedle : List Attr → Type 0
  NotNeedle attrs = All (λ a. is_needle needle a ≡ false) attrs

  -- The last attribute that is looked for.
  pub record LastNeedle (attrs : List Attr) : Type 0 where
    pub before : List Attr
    pub attr : Attr
    pub after : List Attr
    pub parts : attrs ≡ before ++ attr ∷ after
    pub needle_there : is_needle needle attr ≡ true
    pub none_after : NotNeedle after

  last_needle : (attrs : List Attr) → NotNeedle attrs ⊎ LastNeedle attrs
  last_needle [] = inl tt
  last_needle (a ∷ attrs) = elim (last_needle attrs) [
    | inr l ↦ inr (record {
      before = a ∷ l.before;
      attr = l.attr;
      after = l.after;
      parts = ap (λ (as' : List Attr). a ∷ as') l.parts;
      needle_there = l.needle_there;
      none_after = l.none_after;
    })
    | inl not_behind ↦ elim (Bool-cases (is_needle needle a)) [
      | inl is ↦ inr (record {
        before = [];
        attr = a;
        after = attrs;
        parts = refl;
        needle_there = is;
        none_after = not_behind;
      })
      | inr not_here ↦ inl (not_here, not_behind)
    ]
  ]

  last_index-NotNeedle :
      (ind : ℕ) (index : Option ℕ) (attrs : List Attr)
      → NotNeedle attrs
      → last_index needle ind index attrs ≡ index
  unfolding last_index
  last_index-NotNeedle ind index [] all = refl
  last_index-NotNeedle ind index (a ∷ attrs) (here, all) =
      rw here (last_index-NotNeedle (suc ind) index attrs all)

  last_index-LastNeedle :
      (ind : ℕ) (index : Option ℕ) (before : List Attr) (a : Attr) (after : List Attr)
      → is_needle needle a ≡ true
      → NotNeedle after
      → last_index needle ind index (before ++ a ∷ after) ≡ some (ind + length before)
  unfolding last_index
  last_index-LastNeedle ind index [] a after is all =
      rw (is, last_index)
        (last_index-NotNeedle (suc ind) (some ind) after all ∙ ap some (omega arith))
  last_index-LastNeedle ind index (b ∷ before) a after is all =
      last_index-LastNeedle (suc ind) _ before a after is all ∙ ap some (omega arith)

  swap_remove-between :
      (before : List Attr) (a : Attr) (after : List Attr)
      → swap_remove (length before) (before ++ a ∷ after) ≡ some (a, before ++ rotated after)
  unfolding swap_remove
  swap_remove-between [] a after = refl
  swap_remove-between (b ∷ before) a after = rw (swap_remove-between before a after) refl

  pub find_attribute-NotNeedle :
      (attrs : List Attr) → NotNeedle attrs → find_attribute attrs needle ≡ some (none, attrs)
  unfolding find_attribute
  find_attribute-NotNeedle attrs all =
      rw (last_index-NotNeedle 0 none attrs all, find_attribute) refl

  find_attribute-at :
      (attrs : List Attr) (i : ℕ)
      → last_index needle 0 none attrs ≡ some i
      → find_attribute attrs needle ≡ found_of (swap_remove i attrs)
  unfolding find_attribute
  find_attribute-at attrs i e = rw (e, find_attribute) refl

  -- What the search gives of a list of attributes.
  abbrev pub Found : List Attr → Option (Option Attr × List Attr) → Type 0
  Found attrs r =
      (NotNeedle attrs × (r ≡ some (none, attrs)))
      ⊎ ((l : LastNeedle attrs) × (r ≡ some (some l.attr, l.before ++ rotated l.after)))

  -- The search never panics. It takes the last outer attribute, not of the form `name = value`, whose
  -- path ends in the name, and leaves the others, the ones in front of it in place and those behind it
  -- with the last one first; if there is none, it leaves all as they are.
  pub find_attribute-Found : (attrs : List Attr) → Found attrs (find_attribute attrs needle)
  find_attribute-Found attrs = elim (last_needle attrs) [
    | inl nowhere ↦ inl (nowhere, find_attribute-NotNeedle attrs nowhere)
    | inr l ↦
        let at : last_index needle 0 none attrs ≡ some (length l.before) =
          ap (last_index needle 0 none) l.parts
          ∙ (last_index-LastNeedle 0 none l.before l.attr l.after l.needle_there l.none_after
              ∙ ap some (omega arith)) in
        inr (
          l,
          find_attribute-at attrs (length l.before) at
              ∙ (ap (λ as'. found_of (swap_remove (length l.before) as')) l.parts
                  ∙ ap found_of (swap_remove-between l.before l.attr l.after)),
        )
  ]
