-- ===== src/Macro/Typing/Scopes.antt =====
-- The names of a message, of its pattern and of a handler's call, with their types
-- (shakespeare-macro/src/data/signature_ext.rs).
use shakespeare.Prelude.{
  ℕ, zero, suc, ◌<◌, ◌≡◌, ◌≢◌, refl, Bool, true, List, [], ◌∷◌, map, String, length, All, inl, inr,
  Bool-cases, arith, if◌then◌else◌,
}
use shakespeare.Macro.Syntax.{
  Ty, reference, tuple, named, verbatim, FnArg, receiver, typed, Signature,
}
use shakespeare.Macro.Signatures.{
  is_not_static, is_context, has_context_input, remove_second, remove_context_param, typed_inputs,
  extract_input_type_vector, numbered_from, numbered,
}
use shakespeare.Macro.Signatures.Arity.{IsMethod, arguments}
use shakespeare.Macro.Typing.{AllBound, scope_of, SameLength, AllPassed}

-- A reference in the place of a context, unless it is 'static, is the context, of the type `c`.
abbrev pub ContextIs : Ty → List FnArg → Type 0
ContextIs c (first ∷ typed pat (reference l m ty) ∷ rest) =
    is_not_static l ≡ true → reference l m ty ≡ c
ContextIs c _ = Unit

-- The numbered names, in their scope.
numbered_bound :
    (c : Ty) (i : ℕ) (ts : List Ty)
    → AllPassed c
        (scope_of (numbered_from i (length ts)) ts)
        (map numbered (numbered_from i (length ts)))
        ts
numbered_bound c i [] = tt
numbered_bound c i (t ∷ ts) = (
  inl (refl, refl),
  shifted c i t (suc i) (length ts) ts (omega arith) (numbered_bound c (suc i) ts),
)
  where
    shifted :
        (c : Ty) (i : ℕ) (t : Ty) (j n : ℕ) (us : List Ty)
        → i < j
        → AllPassed c
            (scope_of (numbered_from (suc i) (length ts)) ts)
            (map numbered (numbered_from j n))
            us
        → AllPassed c
            ((i, t) ∷ scope_of (numbered_from (suc i) (length ts)) ts)
            (map numbered (numbered_from j n))
            us
    shifted c i t j zero [] h p = tt
    shifted c i t j (suc n) [] h p = absurd p
    shifted c i t j zero (u ∷ us) h p = absurd p
    shifted c i t j (suc n) (u ∷ us) h (b, p) =
        (inr (omega arith, b), shifted c i t (suc j) n us (omega arith) p)

pub numbered-SameLength : (i : ℕ) (ts : List Ty) → SameLength (numbered_from i (length ts)) ts
numbered-SameLength i [] = tt
numbered-SameLength i (t ∷ ts) = numbered-SameLength (suc i) ts

abbrev pub types : List (String × Ty) → List Ty
types ps = map (λ (p : String × Ty). p.1) ps

-- The call of a handler, with the context in front or not.
abbrev pub Called : Ty → Bool → List Ty → List Ty → Type 0
Called c with_context ts us =
    AllPassed c (scope_of (numbered_from 0 (length ts)) ts) (arguments with_context (length ts)) us

inputs-Called :
    (c : Ty) (inputs : List FnArg)
    → IsMethod inputs
    → ContextIs c inputs
    → Called c
        (is_context inputs)
        (types (typed_inputs (if is_context inputs then remove_second inputs else inputs)))
        (types (typed_inputs inputs))
unfolding is_context remove_second typed_inputs
inputs-Called c [] m is = absurd m
inputs-Called c (typed pat ty ∷ rest) m is = absurd m
inputs-Called c (receiver r ∷ []) m is = tt
inputs-Called c (receiver r ∷ receiver q ∷ rest) m is = absurd m
inputs-Called c (receiver r ∷ typed pat (tuple ts) ∷ rest) m is =
    numbered_bound c 0 (tuple ts ∷ types (typed_inputs rest))
inputs-Called c (receiver r ∷ typed pat (named n) ∷ rest) m is =
    numbered_bound c 0 (named n ∷ types (typed_inputs rest))
inputs-Called c (receiver r ∷ typed pat (verbatim n) ∷ rest) m is =
    numbered_bound c 0 (verbatim n ∷ types (typed_inputs rest))
inputs-Called c (receiver r ∷ typed pat (reference l mutability ty) ∷ rest) m is =
    elim (Bool-cases (is_not_static l)) [
      | inl a ↦ rw a (is a, numbered_bound c 0 (types (typed_inputs rest)))
      | inr b ↦ rw b (numbered_bound c 0 (reference l mutability ty ∷ types (typed_inputs rest)))
    ]

inputs-removed :
    (sig : Signature)
    → (remove_context_param sig).inputs
      ≡ (if is_context sig.inputs then remove_second sig.inputs else sig.inputs)
unfolding remove_context_param
inputs-removed sig = elim (Bool-cases (is_context sig.inputs)) [
  | inl a ↦ rw a refl
  | inr b ↦ rw b refl
]

pub handler-Called :
    (c : Ty) (sig : Signature)
    → IsMethod sig.inputs
    → ContextIs c sig.inputs
    → Called c
        (has_context_input sig)
        (extract_input_type_vector (remove_context_param sig))
        (types (typed_inputs sig.inputs))
unfolding has_context_input extract_input_type_vector
handler-Called c sig m is = rw (inputs-removed sig) (inputs-Called c sig.inputs m is)

-- Names that differ from one another.
abbrev pub Distinct : List (String × Ty) → Type 0
Distinct [] = Unit
Distinct ((x, t) ∷ ps) = All (λ (p : String × Ty). x ≢ p.0) ps × Distinct ps

bound_behind :
    (x : String) (t : Ty) (scope ps : List (String × Ty))
    → All (λ (p : String × Ty). x ≢ p.0) ps
    → AllBound scope (map (λ (p : String × Ty). p.0) ps) (types ps)
    → AllBound ((x, t) ∷ scope) (map (λ (p : String × Ty). p.0) ps) (types ps)
bound_behind x t scope [] new h = tt
bound_behind x t scope (p ∷ ps) (differs, new) (b, h) =
    (inr (differs, b), bound_behind x t scope ps new h)

pub params_bound :
    (ps : List (String × Ty))
    → Distinct ps
    → AllBound ps (map (λ (p : String × Ty). p.0) ps) (types ps)
params_bound [] d = tt
params_bound ((x, t) ∷ ps) (new, d) =
    (inl (refl, refl), bound_behind x t ps ps new (params_bound ps d))
