-- ===== src/Macro/RoleOutput.antt =====
-- shakespeare-macro/src/outputs/role and interfacerewriter.rs: what is generated for a role.
pub mod Payloads
pub mod Replies
use Prim.Native.Nat.{ℕ, suc, ◌+◌}
use mathlib.Core.List.{filter_map}
use shakespeare.Prelude.{
  Bool, true, false, not, ◌&&◌, ◌||◌, str_eq, Option, none, some, List, [], ◌∷◌, map, String, ◌==◌,
  if◌then◌else◌, Result, ok, err, ◌>>=◌,
}
use shakespeare.Macro.Syntax.{
  Ty, Tys, nil, cons, tuple, unit, Ty-discrete, SynPath, FnArg, receiver, typed, GenericParam,
  Signature, Attribute, TraitItem, ItemTrait,
}
use shakespeare.Macro.Naming.{Casing, RoleName, payload_path, return_payload_path}
use shakespeare.Macro.Signatures.{
  remove_context_param, extract_return_type, variant_text, enum_variant_name,
  extract_input_type_vector, create_return_variant, output_type,
}
use shakespeare.Macro.Grouping.{GroupingMap}
use shakespeare.Macro.Declarations.{
  Failure, error, panic, internal_error, RoleDecl, new_role, trait_functions,
}

unfoldable pub Tys-discrete : Discrete (List Ty)
unfolding Ty-discrete
Tys-discrete = hlevel Ty-discrete

-- `(#(#types),*)`: a tuple, but with one type only parentheses.
abbrev tys_of : List Ty → Tys
tys_of [] = nil
tys_of (t ∷ ts) = cons t (tys_of ts)

unfoldable pub parenthesised : List Ty → Ty
parenthesised (t ∷ []) = t
parenthesised ts = tuple (tys_of ts)

-- `impl Accepts<(types)> for dyn Role`, converting a value into the variant.
pub record AcceptsImpl : Type 0 where
  pub accepted : Ty
  pub variant : String

pub record PayloadEnum : Type 0 where
  pub path : SynPath
  pub variants : List (String × Ty)
  pub impls : List AcceptsImpl

-- `impl Emits<typ> for dyn Role`, taking the value out of any of the variants.
pub record EmitsImpl : Type 0 where
  pub typ : Ty
  pub variants : List String

pub record ReturnPayload : Type 0 where
  pub path : SynPath
  pub variants : List (String × Ty)
  pub impls : List EmitsImpl

abbrev pub is_empty : {A : Type 0} → List A → Bool
is_empty [] = true
is_empty (x ∷ xs) = false

-- The first variant of a group stays, and the counts add up.
abbrev pub count_up : String × ℕ → List Ty → String × ℕ → String × ℕ
count_up (ident, count) _ v = (ident, count + v.1)

-- `filter(|(types, (_, n))| !types.is_empty() && *n == 1)`, with the `map` behind it.
abbrev pub single : List Ty × (String × ℕ) → Option (List Ty × String)
single (types, (ident, n)) = if not (is_empty types) && n == 1 then some (types, ident) else none

module _ (casing : Casing) (grouping : GroupingMap) where
  -- `PayloadEnum::create_variant`
  unfoldable pub create_variant : Signature → String × Ty
  unfolding variant_text extract_input_type_vector parenthesised
  create_variant sig = (variant_text casing sig, parenthesised (extract_input_type_vector sig))

  -- The signatures' type vectors, each with its variant and the count 1.
  unfoldable pub type_vectors : List Signature → List (List Ty × (String × ℕ))
  type_vectors sigs =
      map (λ sig. (extract_input_type_vector sig, (variant_text casing sig, 1))) sigs

  -- The type vectors that get an implementation, each with its variant.
  unfoldable pub selected : List Signature → List (List Ty × String)
  unfolding type_vectors
  selected sigs = filter_map single (grouping.reduce Tys-discrete count_up (type_vectors sigs))

  -- `PayloadEnum::create_from_impls`, with `type_vector_to_accepts`
  unfoldable pub create_from_impls : List Signature → List AcceptsImpl
  unfolding selected parenthesised
  create_from_impls sigs =
      map (λ (p : List Ty × String). record { accepted = parenthesised p.0; variant = p.1 })
        (selected sigs)

  -- `PayloadEnum::new`
  unfoldable pub new_payload : SynPath → List Signature → PayloadEnum
  unfolding create_variant create_from_impls
  new_payload payload_type methods = record {
    path = payload_type;
    variants = map create_variant methods;
    impls = create_from_impls methods;
  }

  -- The signatures' return types, each with its variant.
  unfoldable pub return_types : List Signature → List (Ty × String)
  return_types sigs = map (λ sig. (extract_return_type sig, variant_text casing sig)) sigs

  -- `ReturnPayload::create_output_from_impls`, with `create_try_from`
  unfoldable pub create_output_from_impls : List Signature → List EmitsImpl
  unfolding return_types
  create_output_from_impls sigs =
      map (λ (p : Ty × List String). record { typ = p.0; variants = p.1 })
        (grouping.collect Ty-discrete (return_types sigs))

  -- `ReturnPayload::new`
  unfoldable pub new_return_payload : SynPath → List Signature → ReturnPayload
  unfolding create_return_variant create_output_from_impls
  new_return_payload return_payload_type methods = record {
    path = return_payload_type;
    variants = map (create_return_variant casing) methods;
    impls = create_output_from_impls methods;
  }

-- The generated `from_return_payload`, on a return payload with its variant: the value, or `none`
-- for the panic of `unimplemented!`.
abbrev pub holds : String → List String → Bool
holds v [] = false
holds v (x ∷ xs) = str_eq v x || holds v xs

unfoldable pub from_return_payload : {V : Type 0} → EmitsImpl → String × V → Option V
from_return_payload impl (variant, val) = if holds variant impl.variants then some val else none

-- A method of the generated trait: it takes `&self`, and returns an envelope for the role with the
-- type that the method returned.
pub record TraitMethod : Type 0 where
  pub ident : String
  pub generics : List GenericParam
  pub inputs : List FnArg
  pub envelope_of : RoleName × Ty

-- `fold_receiver`, on each input.
abbrev pub fold_input : FnArg → FnArg
fold_input (receiver r) = receiver "&self"
fold_input (typed pat ty) = typed pat ty

-- `InterfaceRewriter::fold_signature`
unfoldable pub fold_signature : RoleName → Signature → TraitMethod
unfolding extract_return_type remove_context_param
fold_signature role_name sig =
    let folded = remove_context_param (record sig { inputs = map fold_input sig.inputs }) in
    record {
      ident = folded.ident;
      generics = folded.generics;
      inputs = folded.inputs;
      envelope_of = (role_name, extract_return_type sig);
    }

pub record RoleOutput : Type 0 where
  pub payload_enum : PayloadEnum
  pub return_payload_enum : ReturnPayload
  pub trait_attributes : List Attribute
  pub trait_vis : String
  pub trait_methods : List TraitMethod
  pub role_payload : SynPath
  pub role_return : SynPath

module _ (casing : Casing) (grouping : GroupingMap) where
  -- What `RoleOutput::new` quotes.
  unfoldable pub role_output : RoleDecl → RoleOutput
  unfolding new_payload new_return_payload fold_signature
  role_output role =
      let payload_type = payload_path role.name in
      let return_payload_type = return_payload_path role.name in
      record {
        payload_enum = new_payload casing grouping payload_type role.signatures;
        return_payload_enum =
            new_return_payload casing grouping return_payload_type role.signatures;
        trait_attributes = role.attributes;
        trait_vis = role.vis;
        trait_methods = map (fold_signature role.name) role.signatures;
        role_payload = payload_type;
        role_return = return_payload_type;
      }

  -- The variants' names, of which one can panic.
  unfoldable pub name_variants : List Signature → Result Failure (Unit {0})
  unfolding enum_variant_name
  name_variants [] = ok tt
  name_variants (sig ∷ sigs) = elim (enum_variant_name casing sig) [
    | none ↦ err panic
    | some variant_name ↦ name_variants sigs
  ]

  -- A trait and an enum are declared by one identifier: a path of several segments does not parse.
  abbrev pub declared : RoleName → RoleOutput → Result Failure RoleOutput
  declared name o = if is_empty name.leading then ok o else err (error (internal_error ∷ []))

  -- `RoleOutput::new`
  unfoldable pub new_role_output : RoleDecl → Result Failure RoleOutput
  unfolding role_output name_variants
  new_role_output role =
      name_variants role.signatures >>= λ _. declared role.name (role_output role)

  -- `make_role` of lib.rs
  unfoldable pub make_role : ItemTrait → Result Failure RoleOutput
  unfolding new_role_output new_role
  make_role imp = new_role_output (
      new_role (record { leading = []; last = record { ident = imp.ident; arguments = "" } })
        imp.attrs imp.vis (trait_functions imp.items))
