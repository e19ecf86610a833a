-- ===== src/Expander/Untagged.antt =====
-- The walk over a file without the macros' attributes (xtask/src/expander.rs).
use shakespeare.Prelude.{◌≡◌, refl, ap, ◌∙◌, Bool, Option, some, String, List, Result, ok}
use shakespeare.Macro.Naming.{Casing}
use shakespeare.Macro.Grouping.{GroupingMap}
use shakespeare.Expander.{
  Attr, SynItem, SynItems, Tok, Toks, find_attribute, by_tag, both, inside, one, ◌+++◌, visit_impl,
  visit_trait, visit_item, visit_items, expand_test,
}
use shakespeare.Expander.Attributes.{NotNeedle, find_attribute-NotNeedle}

-- The items as they are, where a module's attributes are all in front of it.
abbrev mutual
  pub kept : SynItem → Toks
  kept (SynItem.impl_ attrs i) = one (Tok.impl_ attrs i)
  kept (SynItem.trait_ attrs i) = one (Tok.trait_ attrs i)
  kept (SynItem.mod_ attrs head items) =
      Toks.cons (Tok.attributes attrs) (one (Tok.mod_ head (all_kept items)))
  kept (SynItem.mod_file attrs head) = one (Tok.mod_file attrs head)
  kept (SynItem.els i) = one (Tok.els i)

  pub all_kept : SynItems → Toks
  all_kept SynItems.nil = Toks.nil
  all_kept (SynItems.cons i is) = kept i +++ all_kept is

-- No item that the walk comes to has the attribute that is looked for on it.
abbrev mutual
  pub IsUntagged : SynItem → Type 0
  IsUntagged (SynItem.impl_ attrs i) = NotNeedle "performance" attrs
  IsUntagged (SynItem.trait_ attrs i) = NotNeedle "role" attrs
  IsUntagged (SynItem.mod_ attrs head items) = NotNeedle "actor" attrs × AllUntagged items
  IsUntagged (SynItem.mod_file attrs head) = NotNeedle "actor" attrs
  IsUntagged (SynItem.els i) = Unit

  pub AllUntagged : SynItems → Type 0
  AllUntagged SynItems.nil = Unit
  AllUntagged (SynItems.cons i is) = IsUntagged i × AllUntagged is

by_tag-untagged :
    (needle : String) (attrs : List Attr) (tagged untagged : List Attr → Option Toks)
    → NotNeedle needle attrs
    → by_tag (find_attribute attrs needle) tagged untagged ≡ untagged attrs
by_tag-untagged needle attrs tagged untagged all =
    ap (λ r. by_tag r tagged untagged) (find_attribute-NotNeedle needle attrs all)

module _ (casing : Casing) (grouping : GroupingMap) (parse_args : String → Option Bool)
    (print : SynItem → String) where
  mutual
    unfolding visit_item visit_impl visit_trait

    visit_item-kept :
        (i : SynItem) → IsUntagged i → visit_item casing grouping parse_args print i ≡ some (kept i)
    visit_item-kept (SynItem.impl_ attrs i) u = by_tag-untagged "performance" attrs _ _ u
    visit_item-kept (SynItem.trait_ attrs i) u = by_tag-untagged "role" attrs _ _ u
    visit_item-kept (SynItem.mod_ attrs head items) (u, us) =
        by_tag-untagged "actor" attrs _ _ u ∙ ap (inside attrs head) (visit_items-kept items us)
    visit_item-kept (SynItem.mod_file attrs head) u = by_tag-untagged "actor" attrs _ _ u
    visit_item-kept (SynItem.els i) u = refl

    visit_items-kept :
        (is : SynItems)
        → AllUntagged is
        → visit_items casing grouping parse_args print is ≡ some (all_kept is)
    visit_items-kept SynItems.nil u = refl
    visit_items-kept (SynItems.cons i is) (u, us) =
        ap (λ t. both t (visit_items casing grouping parse_args print is)) (visit_item-kept i u)
        ∙ ap (both (some (kept i))) (visit_items-kept is us)

  -- If no item of a file, at any depth of modules outside of actors, has the macro's attribute on it,
  -- the expansion is the file's items in their order, each as it is with its attributes, but for the
  -- modules with a body: all the attributes of such a module, inner ones too, are printed in front of
  -- it, and its items are expanded the same way within it. Attributes of the form `name = value` and
  -- inner ones count for no macro's.
  pub expand_test-untagged :
      {Contents Error : Type 0} (parse_file : Contents → Result Error SynItems)
      (contents : Contents) (file : SynItems)
      → parse_file contents ≡ ok file
      → AllUntagged file
      → expand_test casing grouping parse_args print parse_file contents ≡ ok (some (all_kept file))
  unfolding expand_test
  expand_test-untagged parse_file contents file parsed us =
      rw (parsed, expand_test) (ap ok (visit_items-kept file us))
