-- ===== src/Macro/Performance/Accepted.antt =====
-- Which performances the macros generate code for (shakespeare-macro/src/lib.rs and
-- shakespeare-macro/src/outputs/performance).
use shakespeare.Prelude.{
  ℕ, suc, ◌-◌, if◌then◌else◌, ◌≡◌, ◌↔◌, refl, sym, ap, ◌∙◌, true, false, Option, none, some, List,
  [], ◌∷◌, map, Result, ok, err, ◌>>=◌, All, length, String, Bool-cases, inl, inr, arith,
  Result-cases, false_ne_true,
}
use shakespeare.Macro.Syntax.{Ty, named, SynPath, FnArg, receiver, typed, Signature, FunctionItem}
use shakespeare.Macro.Naming.{Casing, RoleName, payload_path}
use shakespeare.Macro.Signatures.{
  is_context, numbered_from, payload_pattern, below_pred, Argument, has_context_input,
  method_call_pattern, variant_text, enum_variant_name, typed_inputs, remove_context_param,
}
use shakespeare.Macro.Declarations.{Failure, starts_with_receiver}
use shakespeare.Macro.Declarations.Accepts.{IsHandler}
use shakespeare.Macro.Performance.{
  Arm, dispatch_case, dispatch_cases, PerfDispatch, new_perf_dispatch, some_dispatch,
  sending_method, create_sending_method, sending_methods, new_actor_perf, all_expressions,
}

abbrev count : List FnArg → ℕ
count inputs = if is_context inputs then length inputs - 1 else length inputs

below_pred-made :
    (inputs : List FnArg)
    → starts_with_receiver inputs ≡ true
    → (names : List ℕ) × (below_pred (count inputs) ≡ some names)
unfolding starts_with_receiver is_context
below_pred-made [] h = absurd (cc)
below_pred-made (typed pat ty ∷ inputs) h = absurd (cc)
below_pred-made (receiver r ∷ []) h = (_, refl)
below_pred-made (receiver r ∷ x ∷ inputs) h =
    elim (Bool-cases (is_context (receiver r ∷ x ∷ inputs))) [
      | inl c ↦
          let less : suc (suc (length inputs)) - 1 ≡ suc (length inputs) = omega arith in
          (numbered_from 0 (length inputs), rw c (ap below_pred less))
      | inr c ↦ (numbered_from 0 (suc (length inputs)), rw c refl)
    ]

payload_pattern-made :
    (sig : Signature)
    → starts_with_receiver sig.inputs ≡ true
    → (names : List ℕ) × (payload_pattern sig ≡ some names)
unfolding payload_pattern has_context_input
payload_pattern-made sig self = below_pred-made sig.inputs self

method_call_pattern-made :
    (sig : Signature) (names : List ℕ)
    → payload_pattern sig ≡ some names
    → (args : List Argument) × (method_call_pattern sig ≡ some args)
unfolding method_call_pattern
method_call_pattern-made sig names e = rw (e, method_call_pattern) (_, refl)

-- A method with a receiver has an arm.
dispatch_case-made :
    (casing : Casing) (role : RoleName) (h : FunctionItem)
    → starts_with_receiver h.sig.inputs ≡ true
    → (arm : Arm) × (dispatch_case casing role h ≡ ok arm)
unfolding dispatch_case
dispatch_case-made casing role h self =
    let (names, made) = payload_pattern-made h.sig self in
    let (args, called) = method_call_pattern-made h.sig names made in rw (made, called) (_, refl)

pub dispatch_cases-made :
    (casing : Casing) (role : RoleName) (hs : List FunctionItem)
    → All IsHandler hs
    → (arms : List Arm) × (dispatch_cases casing role hs ≡ ok arms)
unfolding dispatch_cases
dispatch_cases-made casing role [] all = ([], refl)
dispatch_cases-made casing role (h ∷ hs) ((plain, self), all) =
    let (arm, one) = dispatch_case-made casing role h self in
    let (arms, more) = dispatch_cases-made casing role hs all in (arm ∷ arms, rw (one, more) refl)

-- A method whose name gives an identifier for the variant, and whose message's names are expressions.
abbrev pub IsQuotable : Casing → FunctionItem → Type 0
IsQuotable casing h =
    (casing.is_ident (variant_text casing h.sig) ≡ true)
    × (all_expressions casing
          (map (λ (p : String × Ty). p.0) (typed_inputs (remove_context_param h.sig).inputs))
        ≡ true)

-- That a result is there exactly under a condition.
abbrev pub MadeIf : {A : Type 0} → Type 0 → Result Failure A → Type 0
MadeIf {A} P r = ((a : A) × (r ≡ ok a)) ↔ P

MadeIf-ok : {A P : Type 0} (a : A) → P → MadeIf P (ok a)
MadeIf-ok a p = (λ q. p, λ q. (a, refl))

MadeIf-err : {A P : Type 0} (x : Failure) → (P → ⊥) → MadeIf {A = A} P (err x)
MadeIf-err x not_p = (λ (a, e). absurd (cc e), λ p. absurd (not_p p))

-- What `make_performance` asks of a block: a trait, a path for its self type, and methods with
-- self-receivers and without type parameters, from which the quoted tokens parse.
abbrev pub Accepted : Casing → Option SynPath → Ty → List FunctionItem → Type 0
Accepted casing (some role) (named path) (h ∷ hs) =
    All IsHandler (h ∷ hs) × All (IsQuotable casing) (h ∷ hs)
Accepted casing _ _ _ = ⊥

module _ (casing : Casing) where
  enum_variant_name-refused :
      (h : FunctionItem)
      → casing.is_ident (variant_text casing h.sig) ≡ false
      → enum_variant_name casing h.sig ≡ none
  unfolding enum_variant_name variant_text
  enum_variant_name-refused h e = rw (e, enum_variant_name) refl

  pub enum_variant_name-made :
      (sig : Signature)
      → casing.is_ident (variant_text casing sig) ≡ true
      → enum_variant_name casing sig ≡ some (variant_text casing sig)
  unfolding enum_variant_name variant_text
  enum_variant_name-made sig e = rw (e, enum_variant_name) refl

  create_sending_method-MadeIf :
      (payload_type role : SynPath) (h : FunctionItem)
      → MadeIf (IsQuotable casing h) (create_sending_method casing payload_type role h)
  unfolding create_sending_method sending_method
  create_sending_method-MadeIf payload_type role h =
      let names =
        map (λ (p : String × Ty). p.0) (typed_inputs (remove_context_param h.sig).inputs) in
      elim (Bool-cases (casing.is_ident (variant_text casing h.sig))) [
        | inl ident ↦ elim (Bool-cases (all_expressions casing names)) [
          | inl exprs ↦
              rw (enum_variant_name-made h.sig ident, create_sending_method)
                (rw exprs (MadeIf-ok _ (ident, refl)))
          | inr bad ↦
              rw (enum_variant_name-made h.sig ident, create_sending_method)
                (rw bad (MadeIf-err _ (λ (i, e). false_ne_true e)))
        ]
        | inr bad ↦
            rw (enum_variant_name-refused h bad, create_sending_method)
              (MadeIf-err _ (λ (i, e). false_ne_true (sym bad ∙ i)))
      ]

  sending_methods-MadeIf :
      (payload_type role : SynPath) (hs : List FunctionItem)
      → MadeIf (All (IsQuotable casing) hs) (sending_methods casing payload_type role hs)
  unfolding sending_methods
  sending_methods-MadeIf payload_type role [] = MadeIf-ok _ tt
  sending_methods-MadeIf payload_type role (h ∷ hs) =
      let one = create_sending_method-MadeIf payload_type role h in
      let more = sending_methods-MadeIf payload_type role hs in
      elim (Result-cases (create_sending_method casing payload_type role h)) [
        | inl (m, made) ↦ elim (Result-cases (sending_methods casing payload_type role hs)) [
          | inl (ms, rest) ↦ rw (made, rest) (MadeIf-ok _ (one.0 (m, made), more.0 (ms, rest)))
          | inr (x, failed) ↦
              rw (made, failed)
                (MadeIf-err x (λ (q, qs). let (ms, rest) = more.1 qs in cc (sym failed ∙ rest)))
        ]
        | inr (x, failed) ↦
            rw failed (MadeIf-err x (λ (q, qs). let (m, made) = one.1 q in cc (sym failed ∙ made)))
      ]

  pub new_perf_dispatch-made :
      (role : SynPath) (h : FunctionItem) (hs : List FunctionItem)
      → All IsHandler (h ∷ hs)
      → All (IsQuotable casing) (h ∷ hs)
      → (pd : PerfDispatch) × (new_perf_dispatch casing
            (record { role_name = role; handlers = h ∷ hs })
          ≡ ok (some pd))
  unfolding new_perf_dispatch new_actor_perf
  new_perf_dispatch-made role h hs all quotable =
      let (ms, sent) = (sending_methods-MadeIf (payload_path role) role (h ∷ hs)).1 quotable in
      let (arms, made) = dispatch_cases-made casing role (h ∷ hs) all in rw (sent, made) (_, refl)

  abbrev finished : SynPath → List FunctionItem → Result Failure PerfDispatch
  finished role hs =
      new_perf_dispatch casing (record { role_name = role; handlers = hs }) >>= some_dispatch casing
