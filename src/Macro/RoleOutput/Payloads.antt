-- ===== src/Macro/RoleOutput/Payloads.antt =====
-- Which conversions a role's payload enums get
-- (shakespeare-macro/src/outputs/role/payload_enum.rs).
use Prim.Native.Nat.{ℕ, suc, ◌+◌}
use mathlib.Core.Logic.{ite, if_pos, if_neg}
use mathlib.Core.List.{filter_map, foldl}
use mathlib.Core.Option.{Option-elim}
use shakespeare.Prelude.{
  ◌≡◌, refl, ap, sym, ◌∙◌, false, not, ◌&&◌, Option, none, some, List, [], ◌∷◌, map, String, ◌==◌,
  if◌then◌else◌, length, arith, Bool-cases, inl, inr,
}
use shakespeare.Macro.Syntax.{Ty, tuple, Signature}
use shakespeare.Macro.Naming.{Casing}
use shakespeare.Macro.Signatures.{variant_text, extract_input_type_vector}
use shakespeare.Macro.Grouping.{values, reduced, GroupingMap, values-cons_self, values-cons_ne}
use shakespeare.Macro.RoleOutput.{
  Tys-discrete, tys_of, parenthesised, is_empty, type_vectors, count_up, single, selected,
}

-- The variants of a group, if the group has exactly one member.
abbrev pub sole : List Ty → List String → List String
sole (t ∷ ts) (n ∷ []) = n ∷ []
sole _ _ = []

-- What the reduction by `count_up` makes of the variants of a group.
abbrev counted : List String → List (String × ℕ)
counted [] = []
counted (n ∷ ns) = (n, length ns + 1) ∷ []

abbrev one_each : List String → List (String × ℕ)
one_each ns = map (λ (n : String). (n, 1)) ns

-- The variants of the methods with a given list of parameter types.
module _ (casing : Casing) where
  abbrev pub taking : List Ty → List Signature → List String
  taking ts [] = []
  taking ts (sig ∷ sigs) =
      let rest = taking ts sigs in
      ite (Tys-discrete (extract_input_type_vector sig) ts) (variant_text casing sig ∷ rest) rest

foldl-count_up :
    (ts : List Ty) (n : String) (c : ℕ) (ns : List String)
    → foldl (λ a b. count_up a ts b) (n, c) (one_each ns) ≡ (n, length ns + c)
foldl-count_up ts n c [] = ap (λ (k : ℕ). (n, k)) (omega arith)
foldl-count_up ts n c (m ∷ ns) =
    foldl-count_up ts n (c + 1) ns ∙ ap (λ (k : ℕ). (n, k)) (omega arith)

reduced-one_each :
    (ts : List Ty) (ns : List String) → reduced count_up ts (one_each ns) ≡ counted ns
reduced-one_each ts [] = refl
reduced-one_each ts (n ∷ ns) = ap (λ (p : String × ℕ). p ∷ []) (foldl-count_up ts n 1 ns)

-- What the filter keeps of the entries at one key.
abbrev kept : List Ty → String × ℕ → Option String
kept ts (ident, n) = if not (is_empty ts) && n == 1 then some ident else none

values-filter_self :
    (ts : List Ty) (n : String) (c : ℕ) (l : List (List Ty × (String × ℕ)))
    → values Tys-discrete ts (filter_map single l) ≡ filter_map (kept ts) (values Tys-discrete ts l)
    → values Tys-discrete ts (filter_map single ((ts, (n, c)) ∷ l))
      ≡ filter_map (kept ts) ((n, c) ∷ values Tys-discrete ts l)
unfolding values filter_map Option-elim
values-filter_self ts n c l ih = elim (Bool-cases (not (is_empty ts) && c == 1)) [
  | inl b ↦ rw b (rw (if_pos (Tys-discrete ts ts) refl) (ap (λ (xs : List String). n ∷ xs) ih))
  | inr b ↦ rw b ih
]

values-filter_other :
    (ts us : List Ty) (n : String) (c : ℕ) (l : List (List Ty × (String × ℕ)))
    → ¬ (us ≡ ts)
    → values Tys-discrete ts (filter_map single ((us, (n, c)) ∷ l))
      ≡ values Tys-discrete ts (filter_map single l)
unfolding values filter_map Option-elim
values-filter_other ts us n c l h = elim (Bool-cases (not (is_empty us) && c == 1)) [
  | inl b ↦ rw b (rw (if_neg (Tys-discrete us ts) h) refl)
  | inr b ↦ rw b refl
]

values-filter_map :
    (ts : List Ty) (l : List (List Ty × (String × ℕ)))
    → values Tys-discrete ts (filter_map single l) ≡ filter_map (kept ts) (values Tys-discrete ts l)
values-filter_map ts [] = unfold values filter_map in refl
values-filter_map ts ((us, (n, c)) ∷ l) = elim (Tys-discrete us ts) [
  | yes p ↦ rw p (
      values-filter_self ts n c l (values-filter_map ts l)
      ∙ ap (filter_map (kept ts)) (sym (values-cons_self Tys-discrete ts (n, c) l)))
  | no p ↦
      values-filter_other ts us n c l p
      ∙ values-filter_map ts l
      ∙ ap (filter_map (kept ts)) (sym (values-cons_ne Tys-discrete ts us (n, c) l p))
]

-- The filter on a counted group leaves its variant if it is the only one.
kept-counted : (ts : List Ty) (ns : List String) → filter_map (kept ts) (counted ns) ≡ sole ts ns
unfolding filter_map Option-elim
kept-counted [] [] = refl
kept-counted [] (n ∷ ns) = refl
kept-counted (t ∷ ts) [] = refl
kept-counted (t ∷ ts) (n ∷ []) = refl
kept-counted (t ∷ ts) (n ∷ m ∷ ns) =
    let several : (suc (length ns) + 1 == 1) ≡ false = ground arith in rw several refl

module _ (casing : Casing) (grouping : GroupingMap) where
  values-type_vectors :
      (ts : List Ty) (sigs : List Signature)
      → values Tys-discrete ts (type_vectors casing grouping sigs)
        ≡ one_each (taking casing ts sigs)
  unfolding values type_vectors
  values-type_vectors ts [] = refl
  values-type_vectors ts (sig ∷ sigs) = elim (Tys-discrete (extract_input_type_vector sig) ts) [
    | yes p ↦
        simp
          (
            if_pos {C = List (String × ℕ)} (Tys-discrete (extract_input_type_vector sig) ts) p,
            if_pos {C = List String} (Tys-discrete (extract_input_type_vector sig) ts) p,
            values-type_vectors ts sigs,
          )
          refl
    | no p ↦
        simp
          (
            if_neg {C = List (String × ℕ)} (Tys-discrete (extract_input_type_vector sig) ts) p,
            if_neg {C = List String} (Tys-discrete (extract_input_type_vector sig) ts) p,
            values-type_vectors ts sigs,
          )
          refl
  ]

  -- Whatever the order of the grouping map, a list of parameter types gets an implementation of
  -- `Accepts` exactly if it is not empty and exactly one method takes it, and then one, that makes
  -- the variant of that method.
  pub values-selected :
      (ts : List Ty) (sigs : List Signature)
      → values Tys-discrete ts (selected casing grouping sigs) ≡ sole ts (taking casing ts sigs)
  unfolding selected
  values-selected ts sigs =
      values-filter_map ts
        (grouping.reduce Tys-discrete count_up (type_vectors casing grouping sigs))
      ∙ rw (grouping.values-reduce Tys-discrete count_up)
          (rw values-type_vectors (rw reduced-one_each (kept-counted ts (taking casing ts sigs))))

  -- A method with one parameter of tuple type and a method with the members of that tuple as its
  -- parameters both get an implementation, if each is the only one of its kind, and both are
  -- implementations for one Rust type.
  pub tuple_parameter_collides :
      (t u : Ty) (ts : List Ty) (sigs : List Signature) (v w : String)
      → let members = t ∷ u ∷ ts in
        let packed = tuple (tys_of members) ∷ [] in
        taking casing members sigs ≡ v ∷ []
        → taking casing packed sigs ≡ w ∷ []
        → (values Tys-discrete members (selected casing grouping sigs) ≡ v ∷ [])
          × (values Tys-discrete packed (selected casing grouping sigs) ≡ w ∷ [])
          × (parenthesised members ≡ parenthesised packed)
  unfolding parenthesised
  tuple_parameter_collides t u ts sigs v w one other = (
    values-selected (t ∷ u ∷ ts) sigs ∙ rw one refl,
    values-selected (tuple (tys_of (t ∷ u ∷ ts)) ∷ []) sigs ∙ rw other refl,
    refl,
  )
