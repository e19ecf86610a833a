-- ===== src/Macro/Declarations.antt =====
-- shakespeare-macro/src/declarations: what is read from the macros' inputs, and which are refused.
pub mod Accepts
use shakespeare.Prelude.{
  Bool, true, false, not, ◌&&◌, ◌||◌, Option, none, some, List, [], ◌∷◌, ◌++◌, map, String, str_eq,
  Result, ok, err, ◌>>=◌, if◌then◌else◌,
}
use shakespeare.Macro.Syntax.{
  Ty, SynPath, FnArg, receiver, typed, GenericParam, type_param, lifetime_param, const_param,
  Signature, Attribute, FunctionItem, ImplItem, ItemImpl, ItemData, Item, ItemMod, TraitItem,
  ItemTrait,
}
use shakespeare.Macro.Signatures.{remove_context_param}

-- The messages of `syn::Error`, with what they point at.
pub data Message : Type 0 where
  empty_declaration no_data_item no_performance : Message
  extra_data_item : ItemData → Message
  generic_performance no_self_receiver : Signature → Message
  empty_performance no_role_name unsupported_self_type : Message
  -- of `fallible_quote!`, for tokens that do not parse
  internal_error : Message

-- A combined error, or a panic of the macro.
pub data Failure : Type 0 where
  error : List Message → Failure
  panic : Failure

-- `filter_unwrap!(items, ImplItem::Fn)`
unfoldable pub functions : List ImplItem → List FunctionItem
functions [] = []
functions (ImplItem.function f ∷ items) = f ∷ functions items
functions (ImplItem.other t ∷ items) = functions items

unfoldable pub trait_functions : List TraitItem → List Signature
trait_functions [] = []
trait_functions (TraitItem.function sig ∷ items) = sig ∷ trait_functions items
trait_functions (TraitItem.other t ∷ items) = trait_functions items

-- declarations/performance.rs

abbrev pub is_type_param : GenericParam → Bool
is_type_param (type_param t) = true
is_type_param _ = false

-- `generics.type_params().next().is_some()`
unfoldable pub has_type_params : List GenericParam → Bool
has_type_params [] = false
has_type_params (g ∷ gs) = is_type_param g || has_type_params gs

-- `matches!(inputs.first(), Some(FnArg::Receiver(_)))`
unfoldable pub starts_with_receiver : List FnArg → Bool
starts_with_receiver (receiver r ∷ inputs) = true
starts_with_receiver _ = false

unfoldable pub check_handler : FunctionItem → Result Failure (Unit {0})
unfolding has_type_params starts_with_receiver
check_handler h =
    if has_type_params h.sig.generics
    then err (error (generic_performance h.sig ∷ []))
    else if not (starts_with_receiver h.sig.inputs)
    then err (error (no_self_receiver h.sig ∷ []))
    else ok tt

unfoldable pub check_handlers : List FunctionItem → Result Failure (Unit {0})
check_handlers [] = ok tt
check_handlers (h ∷ hs) = check_handler h >>= λ _. check_handlers hs

pub record PerformanceDecl : Type 0 where
  pub role_name : SynPath
  pub handlers : List FunctionItem

-- `PerformanceDecl::new`
unfoldable pub new_performance : SynPath → ItemImpl → Result Failure PerformanceDecl
new_performance role_name imp =
    let handlers = functions imp.items in
    check_handlers handlers >>= λ _. ok (record { role_name = role_name; handlers = handlers })

-- declarations/role.rs
pub record RoleDecl : Type 0 where
  pub name : SynPath
  pub attributes : List Attribute
  pub vis : String
  pub signatures : List Signature

-- `RoleDecl::new`
unfoldable pub new_role : SynPath → List Attribute → String → List Signature → RoleDecl
new_role name attributes vis signatures = record {
  name = name;
  attributes = attributes;
  vis = vis;
  signatures = map remove_context_param signatures;
}
