-- ===== src/Macro/Performance/Dispatches.antt =====
-- The dispatch method of a performance against its sending methods
-- (shakespeare-macro/src/outputs/performance).
use mathlib.Core.List.{append_assoc, map-append}
use text.Mathlib.TextPositions.{eq_refl}
use shakespeare.Prelude.{
  ℕ, zero, suc, ◌≡◌, refl, sym, ◌∙◌, Bool, true, false, ◌&&◌, Option, none, some, List, [], ◌∷◌,
  ◌++◌, map, String, str_eq, ◌==◌, length, ok, if◌then◌else◌, Bool-cases, inl, inr, arith, subst,
  length-append, not, All,
}
use shakespeare.Macro.Syntax.{SynPath, FunctionItem}
use shakespeare.Macro.Naming.{Casing, RoleName, make_method_name}
use shakespeare.Macro.Signatures.{
  remove_context_param, has_context_input, variant_text, extract_input_type_vector, Argument,
  context, numbered, numbered_from,
}
use shakespeare.Macro.Signatures.Arity.{
  IsMethod, arguments, method_arity, length-map, length-numbered_from,
}
use shakespeare.Macro.Performance.{Arm, dispatch_case, dispatch_cases, sending_method}

-- What an argument of a handler's call is when the method runs.
pub data Passed (V : Type 0) : Type 0 where
  the_context : Passed V
  value : V → Passed V

-- The call that an arm makes, and the variant of the return payload that its result gets.
pub record Call (V : Type 0) : Type 0 where
  pub fn_name : String
  pub args : List (Passed V)
  pub awaits : Bool
  pub reply : String

module _ {V : Type 0} where
  -- The value that a name of the pattern `(_0, _1, …)` is bound to.
  abbrev pub get_elem? : List V → ℕ → Option V
  get_elem? [] i = none
  get_elem? (x ∷ xs) zero = some x
  get_elem? (x ∷ xs) (suc i) = get_elem? xs i

  abbrev pub value_of : Option V → Option (Passed V)
  value_of none = none
  value_of (some v) = some (value v)

  abbrev pub argument : List V → Argument → Option (Passed V)
  argument vals context = some the_context
  argument vals (numbered i) = value_of (get_elem? vals i)

  abbrev pub cons_both : Option (Passed V) → Option (List (Passed V)) → Option (List (Passed V))
  cons_both (some x) (some xs) = some (x ∷ xs)
  cons_both _ _ = none

  abbrev pub pass : List V → List Argument → Option (List (Passed V))
  pass vals [] = some []
  pass vals (a ∷ as') = cons_both (argument vals a) (pass vals as')

  abbrev pub call_by : Arm → Option (List (Passed V)) → Option (Call V)
  call_by arm none = none
  call_by arm (some args) =
      some (record { fn_name = arm.fn_name; args = args; awaits = arm.awaits; reply = arm.variant })

  -- Rust's `match` on a payload: the first arm with its variant, whose pattern must fit.
  unfoldable pub match_arms : List Arm → String → List V → Option (Call V)
  match_arms [] variant vals = none
  match_arms (arm ∷ arms) variant vals =
      let rest = match_arms arms variant vals in
      if str_eq variant arm.variant && length arm.pattern_ == length vals
      then call_by arm (pass vals arm.args)
      else rest

  abbrev pub passed : Bool → List V → List (Passed V)
  passed true vals = the_context ∷ map value vals
  passed false vals = map value vals

  get_elem?-append :
      (pre : List V) (v : V) (rest : List V) → get_elem? (pre ++ v ∷ rest) (length pre) ≡ some v
  get_elem?-append [] v rest = refl
  get_elem?-append (x ∷ pre) v rest = get_elem?-append pre v rest

  pass-numbered :
      (pre vals : List V)
      → pass (pre ++ vals) (map numbered (numbered_from (length pre) (length vals)))
        ≡ some (map value vals)
  pass-numbered pre [] = refl
  pass-numbered pre (v ∷ vals) =
      let shifted : length (pre ++ v ∷ []) ≡ suc (length pre) =
        omega (arith, length-append pre (v ∷ [])) in
      let rest : pass (pre ++ v ∷ vals)
            (map numbered (numbered_from (suc (length pre)) (length vals)))
          ≡ some (map value vals) =
        subst
          (λ (l : List V).
            pass l (map numbered (numbered_from (suc (length pre)) (length vals)))
            ≡ some (map value vals))
          (append_assoc pre (v ∷ []) vals)
          (subst
            (λ (n : ℕ).
              pass ((pre ++ v ∷ []) ++ vals) (map numbered (numbered_from n (length vals)))
              ≡ some (map value vals))
            shifted (pass-numbered (pre ++ v ∷ []) vals)) in
      rw (get_elem?-append pre v vals) (rw rest refl)

  pass-arguments :
      (b : Bool) (vals : List V) → pass vals (arguments b (length vals)) ≡ some (passed b vals)
  pass-arguments true vals = rw (pass-numbered [] vals) refl
  pass-arguments false vals = pass-numbered [] vals

-- Whether none of the handlers has a variant.
abbrev pub no_variant : Casing → String → List FunctionItem → Bool
no_variant casing v [] = true
no_variant casing v (h ∷ hs) = not (str_eq v (variant_text casing h.sig)) && no_variant casing v hs

module _ (casing : Casing) (role : RoleName) where
  -- The arm of a method.
  abbrev pub arm_for : FunctionItem → Arm
  arm_for h =
      let n = length (extract_input_type_vector (remove_context_param h.sig)) in
      record {
        variant = variant_text casing h.sig;
        pattern_ = numbered_from 0 n;
        fn_name = make_method_name casing role h.sig.ident;
        args = arguments (has_context_input h.sig) n;
        awaits = h.sig.asyncness;
      }

  dispatch_case_of_method :
      (h : FunctionItem) → IsMethod h.sig.inputs → dispatch_case casing role h ≡ ok (arm_for h)
  unfolding dispatch_case
  dispatch_case_of_method h m =
      let (pattern', call, arity) = method_arity h.sig m in rw (pattern', call) refl

  pub dispatch_cases_of_methods :
      (hs : List FunctionItem)
      → All (λ h. IsMethod h.sig.inputs) hs
      → dispatch_cases casing role hs ≡ ok (map arm_for hs)
  unfolding dispatch_cases
  dispatch_cases_of_methods [] ms = refl
  dispatch_cases_of_methods (h ∷ hs) (m, ms) =
      rw (dispatch_case_of_method h m) (rw (dispatch_cases_of_methods hs ms) refl)

  message_parts :
      (payload_type : SynPath) (h : FunctionItem)
      → let m = sending_method casing payload_type role h in
        (m.variant ≡ variant_text casing h.sig)
        × (length (extract_input_type_vector (remove_context_param h.sig)) ≡ length m.message)
  unfolding sending_method extract_input_type_vector
  message_parts payload_type h = (refl, length-map _ _ ∙ sym (length-map _ _))

  ==_refl : (n : ℕ) → (n == n) ≡ true
  ==_refl n = ground arith

  module _ {V : Type 0} where
    -- The call that a message is for.
    abbrev pub own_call : FunctionItem → List V → Call V
    own_call h vals = record {
      fn_name = make_method_name casing role h.sig.ident;
      args = passed (has_context_input h.sig) vals;
      awaits = h.sig.asyncness;
      reply = variant_text casing h.sig;
    }

    match_own :
        (h : FunctionItem) (rest : List Arm) (vals : List V)
        → length (extract_input_type_vector (remove_context_param h.sig)) ≡ length vals
        → match_arms (arm_for h ∷ rest) (variant_text casing h.sig) vals ≡ some (own_call h vals)
    unfolding match_arms
    match_own h rest vals e =
        rw (e, eq_refl (variant_text casing h.sig))
          (rw (length-numbered_from 0 (length vals))
            (rw (==_refl (length vals)) (rw (pass-arguments (has_context_input h.sig) vals) refl)))

    match_behind :
        (pre : List FunctionItem) (v : String) (arms : List Arm) (vals : List V)
        → no_variant casing v pre ≡ true
        → match_arms (map arm_for pre ++ arms) v vals ≡ match_arms arms v vals
    unfolding match_arms
    match_behind [] v arms vals h = refl
    match_behind (x ∷ pre) v arms vals h =
        elim (Bool-cases (str_eq v (variant_text casing x.sig))) [
          | inl same ↦ absurd (cc (rw same at h))
          | inr other ↦ rw other (match_behind pre v arms vals (rw other at h))
        ]

    -- A message that a method's sending method makes, in a performance of methods where no earlier
    -- method has its variant, is dispatched to the handler of that method under its new name, with
    -- the message's values in order, behind the context if the handler takes one, awaited if it is
    -- async, and its result is put under the method's variant.
    pub sent_message_dispatched :
        (payload_type : SynPath) (pre post : List FunctionItem) (h : FunctionItem) (vals : List V)
        → All (λ f. IsMethod f.sig.inputs) (pre ++ h ∷ post)
        → no_variant casing (variant_text casing h.sig) pre ≡ true
        → let m = sending_method casing payload_type role h in
          length m.message ≡ length vals
          → (arms : List Arm) × (dispatch_cases casing role (pre ++ h ∷ post) ≡ ok arms)
            × (match_arms arms m.variant vals ≡ some (own_call h vals))
    sent_message_dispatched payload_type pre post h vals methods distinct fits = (
      map arm_for (pre ++ h ∷ post),
      dispatch_cases_of_methods (pre ++ h ∷ post) methods,
      rw (map-append arm_for) (
          rw ((message_parts payload_type h).0) (
            match_behind pre (variant_text casing h.sig) _ vals distinct
            ∙ match_own h _ vals ((message_parts payload_type h).1 ∙ fits))),
    )
