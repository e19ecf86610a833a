-- ===== src/Macro/Signatures.antt =====
-- shakespeare-macro/src/data/signature_ext.rs: what is read off a method's signature.
pub mod Arity
use shakespeare.Prelude.{
  ℕ, zero, suc, ◌-◌, ◌≡◌, Bool, true, false, not, Option, none, some, List, [], ◌∷◌, map, String,
  str_eq, length, if◌then◌else◌,
}
use shakespeare.Macro.Syntax.{
  Ty, reference, tuple, named, unit, FnArg, receiver, typed, ReturnType, default, returns,
  Signature,
}
use shakespeare.Macro.Naming.{Casing}

-- `r.lifetime.as_ref().is_none_or(|l| l.ident != "static")`
abbrev pub is_not_static : Option String → Bool
is_not_static none = true
is_not_static (some l) = not (str_eq l "static")

-- Whether the second of the inputs is a context.
unfoldable pub is_context : List FnArg → Bool
is_context (first ∷ typed pat (reference lifetime mutability ty) ∷ rest) = is_not_static lifetime
is_context _ = false

unfoldable pub has_context_input : Signature → Bool
unfolding is_context
has_context_input sig = is_context sig.inputs

-- `Vec::remove(1)`, on a list with a second element.
unfoldable pub remove_second : List FnArg → List FnArg
remove_second (first ∷ second ∷ rest) = first ∷ rest
remove_second inputs = inputs

unfoldable pub remove_context_param : Signature → Signature
unfolding has_context_input remove_second
remove_context_param sig =
    if has_context_input sig then record sig { inputs = remove_second sig.inputs } else sig

unfoldable pub output_type : ReturnType → Ty
output_type default = unit
output_type (returns ret_type) = ret_type

unfoldable pub extract_return_type : Signature → Ty
unfolding output_type
extract_return_type sig = output_type sig.output

-- The text of a method's variant, and the identifier; `none` is the panic of `format_ident!`.
unfoldable pub variant_text : Casing → Signature → String
variant_text casing sig = casing.upper_camel sig.ident

unfoldable pub enum_variant_name : Casing → Signature → Option String
unfolding variant_text
enum_variant_name casing sig =
    if casing.is_ident (variant_text casing sig) then some (variant_text casing sig) else none

-- `filter_unwrap!(inputs, FnArg::Typed)`: the patterns and types of the typed inputs.
unfoldable pub typed_inputs : List FnArg → List (String × Ty)
typed_inputs [] = []
typed_inputs (receiver r ∷ rest) = typed_inputs rest
typed_inputs (typed pat ty ∷ rest) = (pat, ty) ∷ typed_inputs rest

unfoldable pub extract_input_type_vector : Signature → List Ty
unfolding typed_inputs
extract_input_type_vector sig = map (λ (p : String × Ty). p.1) (typed_inputs sig.inputs)

-- The identifiers `_0`, `_1`, … by their numbers, from `i` on.
abbrev pub numbered_from : ℕ → ℕ → List ℕ
numbered_from i zero = []
numbered_from i (suc n) = i ∷ numbered_from (suc i) n

-- `(0..num_parameters - 1)`; with no parameter the subtraction overflows, which is `none`.
abbrev pub below_pred : ℕ → Option (List ℕ)
below_pred zero = none
below_pred (suc n) = some (numbered_from 0 n)

unfoldable pub payload_pattern : Signature → Option (List ℕ)
unfolding has_context_input
payload_pattern sig =
    let inputs = length sig.inputs in
    below_pred (if has_context_input sig then inputs - 1 else inputs)

-- An argument of a handler's call.
pub data Argument : Type 0 where
  context : Argument
  numbered : ℕ → Argument

unfoldable pub method_call_pattern : Signature → Option (List Argument)
method_call_pattern sig = elim (payload_pattern sig) [
  | none ↦ none
  | some names ↦
      some (if has_context_input sig then context ∷ map numbered names else map numbered names)
]

-- `create_return_variant`: the variant's name and its one field.
unfoldable pub create_return_variant : Casing → Signature → String × Ty
unfolding variant_text extract_return_type
create_return_variant casing sig = (variant_text casing sig, extract_return_type sig)
