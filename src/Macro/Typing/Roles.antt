-- ===== src/Macro/Typing/Roles.antt =====
-- What is generated for a role is well typed (shakespeare-macro/src/outputs/role/payload_enum.rs).
use mathlib.Core.Logic.{if_pos, if_neg}
use shakespeare.Prelude.{
  ◌≡◌, refl, sym, ap, ◌∙◌, subst, List, [], ◌∷◌, map, String, All, Listed, inl, inr, Listed-map,
  All-of_Listed, All-weaken, All-map, Bool, true, false, if◌then◌else◌, Result, ok, err,
  Result-cases,
}
use shakespeare.Macro.Syntax.{Ty, Ty-discrete, Signature}
use shakespeare.Macro.Naming.{Casing}
use shakespeare.Macro.Signatures.{
  variant_text, extract_input_type_vector, extract_return_type, create_return_variant,
}
use shakespeare.Macro.Grouping.{collected, GroupingMap, values-Listed, Listed-values}
use shakespeare.Macro.Declarations.{RoleDecl, Failure, error, internal_error}
use shakespeare.Macro.RoleOutput.{
  Tys-discrete, parenthesised, EmitsImpl, create_variant, selected, create_from_impls,
  create_output_from_impls, new_payload, new_return_payload, fold_signature, return_types,
  role_output, new_role_output, name_variants, RoleOutput, is_empty,
}
use shakespeare.Macro.RoleOutput.Payloads.{sole, taking, values-selected}
use shakespeare.Macro.RoleOutput.Replies.{returning, values-emits}
use shakespeare.Macro.Typing.{RoleTyped}

Listed-sole : (ts : List Ty) (v : String) (vs : List String) → Listed v (sole ts vs) → Listed v vs
Listed-sole [] v vs h = elim h [ ]
Listed-sole (t ∷ ts) v [] h = elim h [ ]
Listed-sole (t ∷ ts) v (w ∷ []) h = h
Listed-sole (t ∷ ts) v (w ∷ u ∷ vs) h = elim h [ ]

Listed-collected : (vs ws : List String) → Listed vs (collected ws) → vs ≡ ws
Listed-collected vs [] h = elim h [ ]
Listed-collected vs (w ∷ ws) (inl e) = sym e
Listed-collected vs (w ∷ ws) (inr h) = elim h [ ]

module _ (casing : Casing) (grouping : GroupingMap) where
  taking-variant :
      (ts : List Ty) (v : String) (sigs : List Signature)
      → Listed v (taking casing ts sigs)
      → Listed (v, parenthesised ts) (map (create_variant casing grouping) sigs)
  unfolding create_variant
  taking-variant ts v [] h = elim h [ ]
  taking-variant ts v (sig ∷ sigs) h = elim (Tys-discrete (extract_input_type_vector sig) ts) [
    | yes p ↦
        let h' : Listed v (variant_text casing sig ∷ taking casing ts sigs) =
          subst (Listed v) (if_pos (Tys-discrete (extract_input_type_vector sig) ts) p _ _) h in
        elim h' [ inl e ↦ inl (rw (e, p) refl) | inr later ↦ inr (taking-variant ts v sigs later) ]
    | no p ↦
        let h' : Listed v (taking casing ts sigs) =
          subst (Listed v) (if_neg (Tys-discrete (extract_input_type_vector sig) ts) p _ _) h in
        inr (taking-variant ts v sigs h')
  ]

  accepts-typed :
      (sigs : List Signature) (p : List Ty × String)
      → Listed p (selected casing grouping sigs)
      → Listed (p.1, parenthesised p.0) (map (create_variant casing grouping) sigs)
  accepts-typed sigs (ts, v) h =
      let there = values-Listed Tys-discrete ts v (selected casing grouping sigs) h in
      taking-variant ts v sigs (
        Listed-sole ts v (taking casing ts sigs)
          (subst (Listed v) (values-selected casing grouping ts sigs) there))

  returning-variant :
      (t : Ty) (sigs : List Signature)
      → All
          (λ (v : String). Listed (v, t) (map (create_return_variant casing) sigs))
          (returning casing t sigs)
  unfolding create_return_variant
  returning-variant t [] = tt
  returning-variant t (sig ∷ sigs) =
      let later =
        All-weaken _ _ (returning casing t sigs) (λ v i. inr i) (returning-variant t sigs) in
      elim (Ty-discrete (extract_return_type sig) t) [
        | yes p ↦
            rw (if_pos (Ty-discrete (extract_return_type sig) t) p)
              (inl (ap (λ (u : Ty). (variant_text casing sig, u)) p), later)
        | no p ↦ rw (if_neg (Ty-discrete (extract_return_type sig) t) p) later
      ]

  emits-typed :
      (sigs : List Signature) (p : Ty × List String)
      → Listed p (grouping.collect Ty-discrete (return_types casing grouping sigs))
      → All (λ (v : String). Listed (v, p.0) (map (create_return_variant casing) sigs)) p.1
  emits-typed sigs (t, vs) h =
      let there = values-Listed Ty-discrete t vs _ h in
      let own =
        Listed-collected vs _ (subst (Listed vs) (values-emits casing grouping t sigs) there) in
      rw own (returning-variant t sigs)

  returning-some :
      (sig : Signature) (sigs : List Signature)
      → Listed sig sigs
      → (vs : List String) × (collected (returning casing (extract_return_type sig) sigs) ≡ vs ∷ [])
  returning-some sig [] h = elim h [ ]
  returning-some sig (other ∷ sigs) h =
      let t = extract_return_type sig in
      elim (Ty-discrete (extract_return_type other) t) [
        | yes p ↦ rw (if_pos (Ty-discrete (extract_return_type other) t) p) (_, refl)
        | no p ↦ elim h [
          | inl e ↦ absurd (p (ap extract_return_type e))
          | inr later ↦
              rw (if_neg (Ty-discrete (extract_return_type other) t) p)
                (returning-some sig sigs later)
        ]
      ]

  -- There is an implementation of `Emits` for the type that a method returns.
  pub castable_type :
      (sig : Signature) (sigs : List Signature)
      → Listed sig sigs
      → (impl : EmitsImpl) × Listed impl (create_output_from_impls casing grouping sigs)
        × (impl.typ ≡ extract_return_type sig)
  unfolding create_output_from_impls
  castable_type sig sigs h =
      let t = extract_return_type sig in
      let (vs, one) = returning-some sig sigs h in
      let there = values-emits casing grouping t sigs ∙ one in
      (
        record { typ = t; variants = vs },
        Listed-map (λ (p : Ty × List String). record { typ = p.0; variants = p.1 }) (t, vs) _
            (Listed-values Ty-discrete t vs _ (subst (Listed vs) (sym there) (inl refl))),
        refl,
      )

  role_output-Typed : (role : RoleDecl) → RoleTyped (role_output casing grouping role)
  unfolding role_output new_payload create_from_impls new_return_payload create_output_from_impls
      fold_signature
  role_output-Typed role = record {
    accepts =
        All-map _ _ (selected casing grouping role.signatures)
          (All-of_Listed _ _ (accepts-typed role.signatures));
    emits =
        All-map _ _ (grouping.collect Ty-discrete (return_types casing grouping role.signatures))
          (All-of_Listed _ _ (emits-typed role.signatures));
    castable =
        All-map _ _ role.signatures
          (All-of_Listed _ _ (λ sig h. castable_type sig role.signatures h));
  }

  abbrev TypedIf : Result Failure RoleOutput → Type 0
  TypedIf (err x) = Unit
  TypedIf (ok o) = RoleTyped o

  declared-TypedIf :
      (b : Bool) (role : RoleDecl)
      → TypedIf
          (if b then ok (role_output casing grouping role) else err (error (internal_error ∷ [])))
  declared-TypedIf true role = role_output-Typed role
  declared-TypedIf false role = tt

  new_role_output-TypedIf : (role : RoleDecl) → TypedIf (new_role_output casing grouping role)
  unfolding new_role_output
  new_role_output-TypedIf role =
      elim (Result-cases (name_variants casing grouping role.signatures)) [
        | inl (u, named) ↦ rw named (declared-TypedIf (is_empty role.name.leading) role)
        | inr (x, failed) ↦ rw failed tt
      ]

  -- Whatever the order of the grouping maps, what is generated for a role is well typed, if anything
  -- is: each `into_payload` makes a variant that has the type accepted, each alternative of a
  -- `from_return_payload` binds a value of the type returned, and the type of each method's envelope
  -- has an implementation of `Emits`.
  pub new_role_output-Typed :
      (role : RoleDecl) (o : RoleOutput) → new_role_output casing grouping role ≡ ok o → RoleTyped o
  new_role_output-Typed role o made = subst TypedIf made (new_role_output-TypedIf role)
