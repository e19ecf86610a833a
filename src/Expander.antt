-- ===== src/Expander.antt =====
-- The expansion of a test file in xtask/src/expander.rs: the search for the macros' attributes, and
-- the walk over the file's items.
pub mod Attributes
pub mod Untagged
pub mod Replace
pub mod Strip
pub mod Lines
pub mod Build
pub mod Files
use shakespeare.Prelude.{
  ℕ, zero, suc, Bool, true, false, not, ◌&&◌, Option, none, some, List, [], ◌∷◌, map, String,
  str_eq, Result, ok, err, if◌then◌else◌,
}
use shakespeare.Macro.Syntax.{Attribute, ItemImpl, ItemMod, ItemTrait, Item}
use shakespeare.Macro.Naming.{Casing}
use shakespeare.Macro.Declarations.{Failure, error, panic}
use shakespeare.Macro.Grouping.{GroupingMap}
use shakespeare.Macro.RoleOutput.{make_role}
use shakespeare.Macro.Performance.{make_performance}
use shakespeare.Macro.ActorOutput.{make_actor}
use shakespeare.Macro.Entry.{Part, Tokens, tokens_of, actor_tokens, perf_tokens, role_tokens}

-- An attribute as syn has it: `#[…]` or `#![…]`, and whether it is of the form `name = value`.
pub record Attr : Type 0 where
  pub is_outer : Bool
  pub is_name_value : Bool
  pub attribute : Attribute

unfoldable pub is_needle : String → Attr → Bool
is_needle needle a =
    a.is_outer && (not a.is_name_value && str_eq a.attribute.path.last.ident needle)

-- The loop of `find_attribute`, with its variables `ind` and `index`.
unfoldable pub last_index : String → ℕ → Option ℕ → List Attr → Option ℕ
last_index needle ind index [] = index
last_index needle ind index (attr ∷ attrs) =
    last_index needle (suc ind) (if is_needle needle attr then some ind else index) attrs

module _ {A : Type 0} where
  abbrev pub last : A → List A → A
  last x [] = x
  last x (y ∷ ys) = last y ys

  abbrev pub init : A → List A → List A
  init x [] = []
  init x (y ∷ ys) = x ∷ init y ys

  -- The last item comes to the front.
  abbrev pub rotated : List A → List A
  rotated [] = []
  rotated (x ∷ xs) = last x xs ∷ init x xs

  abbrev behind : A → Option (A × List A) → Option (A × List A)
  behind x none = none
  behind x (some (a, rest)) = some (a, x ∷ rest)

  -- `Vec::swap_remove`, which panics out of range: the last item takes the place of the removed one.
  unfoldable pub swap_remove : ℕ → List A → Option (A × List A)
  swap_remove i [] = none
  swap_remove zero (x ∷ xs) = some (x, rotated xs)
  swap_remove (suc i) (x ∷ xs) = behind x (swap_remove i xs)

abbrev pub found_of : Option (Attr × List Attr) → Option (Option Attr × List Attr)
found_of none = none
found_of (some (attr, rest)) = some (some attr, rest)

-- What `find_attribute` gives, and what it leaves of the attributes; `none` is a panic.
unfoldable pub find_attribute : List Attr → String → Option (Option Attr × List Attr)
unfolding last_index swap_remove
find_attribute attrs needle = elim (last_index needle 0 none attrs) [
  | none ↦ some (none, attrs)
  | some index ↦ found_of (swap_remove index attrs)
]

pub record ModHead : Type 0 where
  pub vis : String
  pub unsafety : String
  pub ident : String

-- The items of a file, with the attributes where the walk looks for them; `mod_file` is a module
-- without a body.
mutual
  pub data SynItem : Type 0 where
    impl_ : List Attr → ItemImpl → SynItem
    trait_ : List Attr → ItemTrait → SynItem
    mod_ : List Attr → ModHead → SynItems → SynItem
    mod_file : List Attr → ModHead → SynItem
    els : Item → SynItem

  pub data SynItems : Type 0 where
    nil : SynItems
    cons : SynItem → SynItems → SynItems

-- The tokens that the walk collects: those of a macro's output, of an item as it is, of attributes, or
-- of a module without its attributes around the tokens of its items.
mutual
  pub data Tok : Type 0 where
    part : Part → Tok
    impl_ : List Attr → ItemImpl → Tok
    trait_ : List Attr → ItemTrait → Tok
    attributes : List Attr → Tok
    mod_ : ModHead → Toks → Tok
    mod_file : List Attr → ModHead → Tok
    els : Item → Tok

  pub data Toks : Type 0 where
    nil : Toks
    cons : Tok → Toks → Toks

infixr 30 ◌+++◌
abbrev pub ◌+++◌ : Toks → Toks → Toks
Toks.nil +++ us = us
Toks.cons t ts +++ us = Toks.cons t (ts +++ us)

abbrev pub one : Tok → Toks
one t = Toks.cons t Toks.nil

abbrev pub parts : Tokens → Toks
parts [] = Toks.nil
parts (p ∷ ps) = Toks.cons (Tok.part p) (parts ps)

abbrev pub macro_output : Option Tokens → Option Toks
macro_output none = none
macro_output (some ts) = some (parts ts)

abbrev pub both : Option Toks → Option Toks → Option Toks
both (some ts) (some us) = some (ts +++ us)
both _ _ = none

-- `quote! { #(#attrs)* #vis #unsafety mod #ident { #inner } }`: all the attributes, inner ones too, are
-- in front of `mod`.
abbrev pub inside : List Attr → ModHead → Option Toks → Option Toks
inside attrs head none = none
inside attrs head (some toks) = some (Toks.cons (Tok.attributes attrs) (one (Tok.mod_ head toks)))

-- The branches on whether the tag was found, with the attributes that are left.
abbrev pub by_tag :
    Option (Option Attr × List Attr)
    → (List Attr → Option Toks)
    → (List Attr → Option Toks)
    → Option Toks
by_tag none tagged untagged = none
by_tag (some (some tag, rest)) tagged untagged = tagged rest
by_tag (some (none, attrs)) tagged untagged = untagged attrs

-- `print` gives the text of an item that the macro `actor` only passes on.
module _ (casing : Casing) (grouping : GroupingMap) (parse_args : String → Option Bool)
    (print : SynItem → String) where
  abbrev pub with_attrs : List Attr → ItemImpl → ItemImpl
  with_attrs attrs i = record i { attrs = map (λ (a : Attr). a.attribute) attrs }

  abbrev pub item_of : SynItem → Item
  item_of (SynItem.impl_ attrs i) = Item.impl_ (with_attrs attrs i)
  item_of (SynItem.els i) = i
  item_of other = Item.other (print other)

  abbrev pub items_of : SynItems → List Item
  items_of SynItems.nil = []
  items_of (SynItems.cons i is) = item_of i ∷ items_of is

  abbrev pub module_of : List Attr → ModHead → Option (List Item) → ItemMod
  module_of attrs head content = record {
    attrs = map (λ (a : Attr). a.attribute) attrs;
    vis = head.vis;
    ident = head.ident;
    content = content;
  }

  abbrev pub expanded_actor : ItemMod → Option Toks
  expanded_actor m = macro_output (tokens_of actor_tokens (make_actor casing grouping parse_args m))

  -- `visit_item_impl_mut`
  unfoldable pub visit_impl : List Attr → ItemImpl → Option Toks
  unfolding find_attribute
  visit_impl attrs i =
      by_tag (find_attribute attrs "performance")
        (λ rest.
          macro_output
            (tokens_of (λ p. some (perf_tokens p)) (make_performance casing (with_attrs rest i))))
        (λ attrs. some (one (Tok.impl_ attrs i)))

  -- `visit_item_trait_mut`
  unfoldable pub visit_trait : List Attr → ItemTrait → Option Toks
  unfolding find_attribute
  visit_trait attrs i =
      by_tag (find_attribute attrs "role")
        (λ rest. macro_output (
          tokens_of (λ r. some (role_tokens r))
            (make_role casing grouping
              (record i { attrs = map (λ (a : Attr). a.attribute) rest }))))
        (λ attrs. some (one (Tok.trait_ attrs i)))

  -- `visit_item_mod_mut` and `visit_item_mut`; a walker's tokens are those of its items in order.
  unfoldable mutual
    unfolding find_attribute visit_impl visit_trait

    pub visit_item : SynItem → Option Toks
    visit_item (SynItem.impl_ attrs i) = visit_impl attrs i
    visit_item (SynItem.trait_ attrs i) = visit_trait attrs i
    visit_item (SynItem.mod_ attrs head items) =
        let toks = visit_items items in
        by_tag (find_attribute attrs "actor")
          (λ rest. expanded_actor (module_of rest head (some (items_of items))))
          (λ attrs. inside attrs head toks)
    visit_item (SynItem.mod_file attrs head) =
        by_tag (find_attribute attrs "actor") (λ rest. expanded_actor (module_of rest head none))
          (λ attrs. some (one (Tok.mod_file attrs head)))
    visit_item (SynItem.els i) = some (one (Tok.els i))

    pub visit_items : SynItems → Option Toks
    visit_items SynItems.nil = some Toks.nil
    visit_items (SynItems.cons i is) = both (visit_item i) (visit_items is)

  -- `expand_test`; the parser is syn's `parse_file`, of whose result the walk visits the items.
  unfoldable pub expand_test :
      {Contents Error : Type 0}
      → (Contents → Result Error SynItems)
      → Contents
      → Result Error (Option Toks)
  unfolding visit_items
  expand_test parse_file contents = elim (parse_file contents) [
    | err e ↦ err e
    | ok file ↦ ok (visit_items file)
  ]
