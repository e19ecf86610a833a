-- ===== src/Macro/Performance/Interface.antt =====
-- The method that a performance gives the actor's shell
-- (shakespeare-macro/src/outputs/performance/actor_role_perf.rs) against the method of the role's
-- generated trait (shakespeare-macro/src/interfacerewriter.rs).
use shakespeare.Prelude.{
  ◌≡◌, refl, sym, ap, ◌∙◌, false, List, [], ◌∷◌, map, String, Bool-cases, inl, inr,
}
use shakespeare.Macro.Syntax.{
  Ty, reference, tuple, named, verbatim, SynPath, FnArg, receiver, typed, GenericParam, Signature,
  FunctionItem,
}
use shakespeare.Macro.Naming.{Casing, RoleName}
use shakespeare.Macro.Signatures.{
  is_context, has_context_input, remove_context_param, extract_return_type, typed_inputs,
}
use shakespeare.Macro.RoleOutput.{TraitMethod, fold_input, fold_signature}
use shakespeare.Macro.Performance.{SendingMethod, sending_method}

-- What must agree for an impl's method to be the trait's.
pub record Shape : Type 0 where
  pub ident : String
  pub generics : List GenericParam
  pub params : List (String × Ty)
  pub envelope_of : RoleName × Ty

-- A sending method has no generic parameters.
abbrev pub sending_shape : SendingMethod → Shape
sending_shape m = record {
  ident = m.ident;
  generics = [];
  params = m.params;
  envelope_of = m.envelope_of;
}

unfoldable pub trait_shape : TraitMethod → Shape
unfolding typed_inputs
trait_shape m = record {
  ident = m.ident;
  generics = m.generics;
  params = typed_inputs m.inputs;
  envelope_of = m.envelope_of;
}

is_context-fold : (inputs : List FnArg) → is_context (map fold_input inputs) ≡ is_context inputs
unfolding is_context
is_context-fold [] = refl
is_context-fold (a ∷ []) = refl
is_context-fold (a ∷ receiver r ∷ inputs) = refl
is_context-fold (a ∷ typed p (reference l m t) ∷ inputs) = refl
is_context-fold (a ∷ typed p (tuple ts) ∷ inputs) = refl
is_context-fold (a ∷ typed p (named n) ∷ inputs) = refl
is_context-fold (a ∷ typed p (verbatim n) ∷ inputs) = refl

typed_inputs-fold :
    (inputs : List FnArg) → typed_inputs (map fold_input inputs) ≡ typed_inputs inputs
unfolding typed_inputs
typed_inputs-fold [] = refl
typed_inputs-fold (receiver r ∷ inputs) = typed_inputs-fold inputs
typed_inputs-fold (typed p t ∷ inputs) =
    ap (λ (l : List (String × Ty)). (p, t) ∷ l) (typed_inputs-fold inputs)

-- Only the inputs change when a context is removed.
pub removed_rest :
    (sig : Signature)
    → ((remove_context_param sig).ident ≡ sig.ident)
      × ((remove_context_param sig).generics ≡ sig.generics)
      × (extract_return_type (remove_context_param sig) ≡ extract_return_type sig)
unfolding remove_context_param extract_return_type
removed_rest sig = elim (Bool-cases (is_context sig.inputs)) [
  | inl c ↦ rw c (refl, refl, refl)
  | inr c ↦ rw c (refl, refl, refl)
]

-- A signature with no context is folded by its inputs and its return type alone.
trait_shape-fold :
    (role : RoleName) (sig : Signature)
    → has_context_input sig ≡ false
    → trait_shape (fold_signature role sig) ≡ record {
      ident = sig.ident;
      generics = sig.generics;
      params = typed_inputs sig.inputs;
      envelope_of = (role, extract_return_type sig);
    }
unfolding trait_shape fold_signature has_context_input
trait_shape-fold role sig c = rw (is_context-fold, c) (rw typed_inputs-fold refl)

-- Shapes agree by their parts.
Shape-eq :
    (i j : String) (g : List GenericParam) (ps : List (String × Ty)) (role : RoleName) (t u : Ty)
    → i ≡ j
    → g ≡ []
    → t ≡ u
    → ◌≡◌ {A = Shape}
        (record { ident = j; generics = []; params = ps; envelope_of = (role, u) })
        (record { ident = i; generics = g; params = ps; envelope_of = (role, t) })
Shape-eq i j g ps role t u a b c =
    λ k. record { ident = sym a k; generics = sym b k; params = ps; envelope_of = (role, sym c k) }

-- For a canonical performance, whose role is declared by its own methods, the shell's method for a
-- method without generic parameters is the method of the generated trait: it has the same name, no
-- generic parameters, the same parameters, and returns the same envelope. The condition is that what
-- stands behind a removed context is not taken for a context too.
pub canonical_interface :
    (casing : Casing) (payload_type : SynPath) (role : RoleName) (fun : FunctionItem)
    → has_context_input (remove_context_param fun.sig) ≡ false
    → fun.sig.generics ≡ []
    → sending_shape (sending_method casing payload_type role fun)
      ≡ trait_shape (fold_signature role (remove_context_param fun.sig))
unfolding sending_method
canonical_interface casing payload_type role fun c plain =
    let (ident, generics, output) = removed_rest fun.sig in
    Shape-eq _ _ _ _ role _ _ ident (generics ∙ plain) output
    ∙ sym (trait_shape-fold role (remove_context_param fun.sig) c)
