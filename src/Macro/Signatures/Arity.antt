-- ===== src/Macro/Signatures/Arity.antt =====
-- The parameters of a method (shakespeare-macro/src/data/signature_ext.rs): the payload, the pattern
-- that takes it apart and the call that is made with it fit together.
use shakespeare.Prelude.{
  ℕ, zero, suc, ◌-◌, ◌≡◌, refl, sym, ap, Bool, true, false, some, List, [], ◌∷◌, map, length, arith,
  Bool-cases, inl, inr, ◌∙◌,
}
use shakespeare.Macro.Syntax.{FnArg, receiver, typed, Signature}
use shakespeare.Macro.Signatures.{
  is_context, has_context_input, remove_second, remove_context_param, typed_inputs,
  extract_input_type_vector, numbered_from, below_pred, payload_pattern, Argument, context,
  numbered, method_call_pattern,
}

-- The inputs behind the first are typed, as Rust's grammar has it.
abbrev pub AreTyped : List FnArg → Type 0
AreTyped [] = Unit
AreTyped (typed pat ty ∷ rest) = AreTyped rest
AreTyped (receiver r ∷ rest) = ⊥

-- The inputs of a method: a receiver, and typed parameters.
abbrev pub IsMethod : List FnArg → Type 0
IsMethod (receiver r ∷ rest) = AreTyped rest
IsMethod _ = ⊥

-- The arguments that a handler is called with: one for each typed parameter.
abbrev pub arguments : Bool → ℕ → List Argument
arguments true n = context ∷ map numbered (numbered_from 0 n)
arguments false n = map numbered (numbered_from 0 n)

length-typed_inputs :
    (inputs : List FnArg) → AreTyped inputs → length (typed_inputs inputs) ≡ length inputs
unfolding typed_inputs
length-typed_inputs [] h = refl
length-typed_inputs (typed pat ty ∷ rest) h = ap suc (length-typed_inputs rest h)
length-typed_inputs (receiver r ∷ rest) h = absurd h

pub length-map {ℓ κ} :
    {A : Type ℓ} {B : Type κ} (f : A → B) (xs : List A) → length (map f xs) ≡ length xs
length-map f [] = refl
length-map f (x ∷ xs) = ap suc (length-map f xs)

pub length-numbered_from : (i n : ℕ) → length (numbered_from i n) ≡ n
length-numbered_from i zero = refl
length-numbered_from i (suc n) = ap suc (length-numbered_from (suc i) n)

length-arguments : (n : ℕ) → length (map numbered (numbered_from 0 n)) ≡ n
length-arguments n = length-map numbered _ ∙ length-numbered_from 0 n

length-method :
    (inputs : List FnArg) → IsMethod inputs → length inputs ≡ suc (length (typed_inputs inputs))
unfolding typed_inputs
length-method [] h = absurd h
length-method (receiver r ∷ rest) h = ap suc (sym (length-typed_inputs rest h))
length-method (typed pat ty ∷ rest) h = absurd h

-- With a context the payload has one parameter less.
length-with_context :
    (inputs : List FnArg)
    → IsMethod inputs
    → is_context inputs ≡ true
    → length inputs ≡ suc (suc (length (typed_inputs (remove_second inputs))))
      × (length (typed_inputs inputs) ≡ suc (length (typed_inputs (remove_second inputs))))
unfolding is_context remove_second typed_inputs
length-with_context [] h c = absurd h
length-with_context (typed pat ty ∷ rest) h c = absurd h
length-with_context (receiver r ∷ []) h c = cc
length-with_context (receiver r ∷ receiver s ∷ rest) h c = absurd h
length-with_context (receiver r ∷ typed pat ty ∷ rest) h c =
    let n = length-typed_inputs rest h in (ap suc (ap suc (sym n)), refl)

-- The pattern's names, and the types of the payload, by their number.
payload-length :
    (sig : Signature)
    → IsMethod sig.inputs
    → (n : ℕ) × (payload_pattern sig ≡ some (numbered_from 0 n))
      × (length (extract_input_type_vector (remove_context_param sig)) ≡ n)
      × (length (arguments (has_context_input sig) n) ≡ length (extract_input_type_vector sig))
unfolding payload_pattern extract_input_type_vector remove_context_param has_context_input
payload-length sig h = elim (Bool-cases (is_context sig.inputs)) [
  | inl c ↦
      let (all, some_typed) = length-with_context sig.inputs h c in
      let less : length sig.inputs - 1 ≡ suc (length (typed_inputs (remove_second sig.inputs))) =
        omega (arith, all) in
      (
        length (typed_inputs (remove_second sig.inputs)),
        rw c (ap below_pred less),
        rw c (length-map _ _),
        rw c (ap suc (length-arguments _) ∙ sym some_typed ∙ sym (length-map _ _)),
      )
  | inr c ↦ (
    length (typed_inputs sig.inputs),
    rw c (ap below_pred (length-method sig.inputs h)),
    rw c (length-map _ _),
    rw c (length-arguments _ ∙ sym (length-map _ _)),
  )
]

call_of_pattern :
    (sig : Signature) (n : ℕ)
    → payload_pattern sig ≡ some (numbered_from 0 n)
    → method_call_pattern sig ≡ some (arguments (has_context_input sig) n)
unfolding method_call_pattern
call_of_pattern sig n e = elim (Bool-cases (has_context_input sig)) [
  | inl c ↦ rw (e, method_call_pattern) (rw c refl)
  | inr c ↦ rw (e, method_call_pattern) (rw c refl)
]

-- For every method, the payload's pattern binds one name for each type of its variant, and the
-- handler is called with one argument for each parameter that it declares, the context first where
-- it takes one. Neither count can overflow.
pub method_arity :
    (sig : Signature)
    → IsMethod sig.inputs
    → let n = length (extract_input_type_vector (remove_context_param sig)) in
      (payload_pattern sig ≡ some (numbered_from 0 n))
      × (method_call_pattern sig ≡ some (arguments (has_context_input sig) n))
      × (length (arguments (has_context_input sig) n) ≡ length (extract_input_type_vector sig))
method_arity sig h =
    let (n, pattern', types, called) = payload-length sig h in
    rw types (pattern', call_of_pattern sig n pattern', called)
