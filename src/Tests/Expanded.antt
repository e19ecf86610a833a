-- ===== src/Tests/Expanded.antt =====
-- A module that the macro `actor` expands, and a file that the expansion tool walks over.
use shakespeare.Prelude.{◌≡◌, refl, Bool, true, false, none, some, List, [], ◌∷◌, String, ok, err}
use shakespeare.Macro.Syntax.{ItemMod, Item}
use shakespeare.Macro.Grouping.Assoc.{assoc_grouping}
use shakespeare.Macro.Entry.{Syn}
use shakespeare.Expander.{
  Attr, is_needle, last_index, swap_remove, find_attribute, SynItem, SynItems, ModHead, expand_test,
}
use shakespeare.Expander.Attributes.{Found, find_attribute-Found}
use shakespeare.Expander.Untagged.{all_kept, expand_test-untagged}
use shakespeare.Tests.Samples.{same_case, path_of, state}
use shakespeare.Tests.Declared.{has_flag, performance_of}

abbrev modules : Syn
modules = record {
  TokenStream = ItemMod;
  parse_mod = ok;
  parse_impl = λ m. err "expected `impl`";
  parse_trait = λ m. err "expected `trait`";
}

abbrev attr : Bool → Bool → String → Attr
attr outer value name = record {
  is_outer = outer;
  is_name_value = value;
  attribute = record { path = path_of name; args = "" };
}

-- `#[actor] #[cfg(x)] #[actor] #[doc] #[allow(y)] #![actor]`
abbrev attrs : List Attr
attrs =
    attr true false "actor"
    ∷ attr true false "cfg"
    ∷ attr true false "actor"
    ∷ attr true true "doc"
    ∷ attr true false "allow"
    ∷ attr false false "actor"
    ∷ []

-- The last attribute comes to the place of the one that is taken.
found_here :
    find_attribute attrs "actor"
    ≡ some (
      some (attr true false "actor"),
      attr true false "actor"
          ∷ attr true false "cfg"
          ∷ attr false false "actor"
          ∷ attr true true "doc"
          ∷ attr true false "allow"
          ∷ [],
    )
unfolding find_attribute last_index swap_remove is_needle
found_here = refl

find_attribute-Found_example : Found "actor" attrs (find_attribute attrs "actor")
find_attribute-Found_example = find_attribute-Found "actor" attrs

abbrev head : ModHead
head = record { vis = "pub"; unsafety = ""; ident = "tests" }

-- A struct, and a module with an impl block that has the attribute in the form `#[performance = 1]`.
abbrev file : SynItems
file = SynItems.cons (SynItem.els (Item.struct_ state)) (
    SynItems.cons
      (SynItem.mod_ (attr true false "cfg" ∷ []) head (
        SynItems.cons (SynItem.impl_ (attr true true "performance" ∷ []) (performance_of none))
          SynItems.nil))
      SynItems.nil)

expand_test-untagged_example :
    expand_test same_case assoc_grouping has_flag
      (λ i. "")
      {Error = String}
      (λ (s : SynItems). ok s)
      file
    ≡ ok (some (all_kept file))
unfolding is_needle
expand_test-untagged_example =
    expand_test-untagged same_case assoc_grouping has_flag (λ i. "") (λ (s : SynItems). ok s) file
      file refl (tt, (((refl, tt), ((refl, tt), tt)), tt))
