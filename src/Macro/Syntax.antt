-- ===== src/Macro/Syntax.antt =====
-- The parts of Rust's syntax that shakespeare-macro/src reads. What it only copies is kept as text.
use shakespeare.Prelude.{
  false_ne_true, Bool, true, false, ◌≡◌, ◌↔◌, refl, Option, List, String, str_eq, str_eq_iff,
}

-- A type: a reference with its lifetime and mutability, a tuple, a path, or any other.
mutual
  pub data Ty : Type 0 where
    reference : Option String → Bool → Ty → Ty
    tuple : Tys → Ty
    named : String → Ty
    verbatim : String → Ty

  pub data Tys : Type 0 where
    nil : Tys
    cons : Ty → Tys → Tys

abbrev decided : {s t : String} (b : Bool) → ((b ≡ true) ↔ (s ≡ t)) → Dec (s ≡ t)
decided true h = yes (h.0 refl)
decided false h = no (λ e. false_ne_true (h.1 e))

unfoldable pub String-discrete : Discrete String
String-discrete s t = decided (str_eq s t) (str_eq_iff s t)

unfoldable pub Ty-discrete : Discrete Ty
unfolding String-discrete
Ty-discrete = hlevel String-discrete

pub record PathSegment : Type 0 where
  pub ident : String
  pub arguments : String

-- A path has at least one segment.
pub record SynPath : Type 0 where
  pub leading : List PathSegment
  pub last : PathSegment

pub data FnArg : Type 0 where
  receiver : String → FnArg
  typed : String → Ty → FnArg

pub data GenericParam : Type 0 where
  type_param lifetime_param const_param : String → GenericParam

pub data ReturnType : Type 0 where
  default : ReturnType
  returns : Ty → ReturnType

pub record Signature : Type 0 where
  pub asyncness : Bool
  pub ident : String
  pub generics : List GenericParam
  pub inputs : List FnArg
  pub output : ReturnType

pub record Attribute : Type 0 where
  pub path : SynPath
  pub args : String

-- `syn::ImplItemFn` and `syn::ItemFn`
pub record FunctionItem : Type 0 where
  pub attrs : List Attribute
  pub sig : Signature
  pub block : String

pub data ImplItem : Type 0 where
  function : FunctionItem → ImplItem
  other : String → ImplItem

pub record ItemImpl : Type 0 where
  pub attrs : List Attribute
  pub trait_ : Option SynPath
  pub self_ty : Ty
  pub items : List ImplItem

pub record ItemData : Type 0 where
  pub ident : String
  pub body : String

pub data Item : Type 0 where
  impl_ : ItemImpl → Item
  function : FunctionItem → Item
  struct_ enum_ union_ : ItemData → Item
  other : String → Item

pub record ItemMod : Type 0 where
  pub attrs : List Attribute
  pub vis : String
  pub ident : String
  pub content : Option (List Item)

pub data TraitItem : Type 0 where
  function : Signature → TraitItem
  other : String → TraitItem

pub record ItemTrait : Type 0 where
  pub attrs : List Attribute
  pub vis : String
  pub ident : String
  pub items : List TraitItem

-- The type `()`.
abbrev pub unit : Ty
unit = tuple nil
