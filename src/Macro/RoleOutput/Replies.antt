-- ===== src/Macro/RoleOutput/Replies.antt =====
-- The implementations of `Emits` that are generated for a role
-- (shakespeare-macro/src/outputs/role/payload_enum.rs).
use mathlib.Core.Logic.{ite, if_pos, if_neg}
use text.Mathlib.TextPositions.{eq_refl}
use shakespeare.Prelude.{◌≡◌, refl, ◌∙◌, Bool, true, false, ◌||◌, some, List, [], ◌∷◌, ◌++◌, String}
use shakespeare.Macro.Syntax.{Ty, Ty-discrete, Signature}
use shakespeare.Macro.Naming.{Casing}
use shakespeare.Macro.Signatures.{extract_return_type, variant_text}
use shakespeare.Macro.Grouping.{values, collected, GroupingMap}
use shakespeare.Macro.RoleOutput.{return_types, holds, from_return_payload}

-- The variants of the methods with a given return type.
module _ (casing : Casing) where
  abbrev pub returning : Ty → List Signature → List String
  returning t [] = []
  returning t (sig ∷ sigs) =
      let rest = returning t sigs in
      ite (Ty-discrete (extract_return_type sig) t) (variant_text casing sig ∷ rest) rest

or_true : (b : Bool) → (b || true) ≡ true
or_true true = refl
or_true false = refl

collected-holds : (v : String) (vs : List String) → holds v vs ≡ true → collected vs ≡ vs ∷ []
collected-holds v [] h = cc
collected-holds v (x ∷ xs) h = refl

module _ (casing : Casing) (grouping : GroupingMap) where
  values-return_types :
      (t : Ty) (sigs : List Signature)
      → values Ty-discrete t (return_types casing grouping sigs) ≡ returning casing t sigs
  unfolding values return_types
  values-return_types t [] = refl
  values-return_types t (sig ∷ sigs) = elim (Ty-discrete (extract_return_type sig) t) [
    | yes p ↦
        simp
          (
            if_pos {C = List String} (Ty-discrete (extract_return_type sig) t) p,
            values-return_types t sigs,
          )
          refl
    | no p ↦
        simp
          (
            if_neg {C = List String} (Ty-discrete (extract_return_type sig) t) p,
            values-return_types t sigs,
          )
          refl
  ]

  -- Each return type of a method, and no other, gets one implementation of `Emits`, which takes the
  -- value out of the variants of all methods that return it.
  pub values-emits :
      (t : Ty) (sigs : List Signature)
      → values Ty-discrete t (grouping.collect Ty-discrete (return_types casing grouping sigs))
        ≡ collected (returning casing t sigs)
  values-emits t sigs =
      grouping.values-collect Ty-discrete (return_types casing grouping sigs) t
      ∙ rw values-return_types refl

  holds-returning :
      (t : Ty) (sig : Signature) (pre post : List Signature)
      → extract_return_type sig ≡ t
      → holds (variant_text casing sig) (returning casing t (pre ++ sig ∷ post)) ≡ true
  holds-returning t sig [] post e =
      rw (if_pos (Ty-discrete (extract_return_type sig) t) e)
        (rw (eq_refl (variant_text casing sig)) refl)
  holds-returning t sig (other ∷ pre) post e = elim (Ty-discrete (extract_return_type other) t) [
    | yes p ↦
        rw (if_pos (Ty-discrete (extract_return_type other) t) p)
          (rw (holds-returning t sig pre post e) (or_true _))
    | no p ↦
        rw (if_neg (Ty-discrete (extract_return_type other) t) p) (holds-returning t sig pre post e)
  ]

  -- The value that a method returns comes back as itself through the one implementation of `Emits`
  -- for the method's return type, and the generated conversion does not panic on it.
  pub own_reply_cast :
      {V : Type 0} (sig : Signature) (pre post : List Signature) (val : V)
      → let sigs = pre ++ sig ∷ post in
        let t = extract_return_type sig in
        let variants = returning casing t sigs in
        (values Ty-discrete t (grouping.collect Ty-discrete (return_types casing grouping sigs))
          ≡ variants ∷ [])
        × (from_return_payload
              (record { typ = t; variants = variants })
              (variant_text casing sig, val)
            ≡ some val)
  unfolding from_return_payload
  own_reply_cast sig pre post val =
      let t = extract_return_type sig in
      let sigs = pre ++ sig ∷ post in
      let found = holds-returning t sig pre post refl in
      (values-emits t sigs ∙ collected-holds _ _ found, rw found refl)
