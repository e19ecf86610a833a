-- ===== src/Macro/Grouping.antt =====
-- What shakespeare-macro/src/outputs/role/payload_enum.rs takes of the grouping maps of `itertools`.
pub mod Assoc
use mathlib.Core.Logic.{ite, if_pos, if_neg}
use mathlib.Core.List.{foldl}
use shakespeare.Prelude.{◌≡◌, refl, List, [], ◌∷◌, ◌++◌, inl, inr, Listed, ap, subst}

-- The values that stand at a key, in their order.
unfoldable pub values : {K V : Type 0} → Discrete K → K → List (K × V) → List V
values d k [] = []
values d k ((j, v) ∷ l) = let rest = values d k l in ite (d j k) (v ∷ rest) rest

module _ {K V : Type 0} (d : Discrete K) where
  pub values-cons_self :
      (k : K) (v : V) (l : List (K × V)) → values d k ((k, v) ∷ l) ≡ v ∷ values d k l
  unfolding values
  values-cons_self k v l = rw (if_pos (d k k) refl) refl

  pub values-cons_ne :
      (k j : K) (v : V) (l : List (K × V)) → ¬ (j ≡ k) → values d k ((j, v) ∷ l) ≡ values d k l
  unfolding values
  values-cons_ne k j v l h = rw (if_neg (d j k) h) refl

  -- An entry stands at its key.
  pub values-Listed : (k : K) (v : V) (l : List (K × V)) → Listed (k, v) l → Listed v (values d k l)
  values-Listed k v [] h = elim h [ ]
  values-Listed k v ((j, w) ∷ l) (inl e) =
      rw (ap (λ (p : K × V). p.0) e) (rw (values-cons_self k w l) (inl (ap (λ (p : K × V). p.1) e)))
  values-Listed k v ((j, w) ∷ l) (inr h) = elim (d j k) [
    | yes e ↦ rw e (rw (values-cons_self k w l) (inr (values-Listed k v l h)))
    | no e ↦ rw (values-cons_ne k j w l e) (values-Listed k v l h)
  ]

  values-nil : (k : K) → values {V = V} d k [] ≡ []
  unfolding values
  values-nil k = refl

  pub Listed-values : (k : K) (v : V) (l : List (K × V)) → Listed v (values d k l) → Listed (k, v) l
  Listed-values k v [] h = elim (subst (Listed v) (values-nil k) h) [ ]
  Listed-values k v ((j, w) ∷ l) h = elim (d j k) [
    | yes e ↦
        let at_key : values d k ((j, w) ∷ l) ≡ w ∷ values d k l = rw e (values-cons_self k w l) in
        let h' : Listed v (w ∷ values d k l) = subst (Listed v) at_key h in
        elim h' [ inl is ↦ inl (λ i. (e i, is i)) | inr later ↦ inr (Listed-values k v l later) ]
    | no e ↦ inr (Listed-values k v l (subst (Listed v) (values-cons_ne k j w l e) h))
  ]

-- The values of one group, reduced from the left.
abbrev pub reduced : {K V : Type 0} → (V → K → V → V) → K → List V → List V
reduced f k [] = []
reduced f k (v ∷ vs) = foldl (λ a b. f a k b) v vs ∷ []

-- The values of one group, collected by pushing them on a vector.
abbrev pub collected : {V : Type 0} → List V → List (List V)
collected [] = []
collected (v ∷ vs) = (v ∷ vs) ∷ []

-- `into_grouping_map` with `reduce`, and with a `fold` that pushes: there is one entry for each key
-- that occurs. The order of the entries is that of a hash map, and nothing is said of it.
pub record GroupingMap : Type 1 where
  pub reduce : {K V : Type 0} → Discrete K → (V → K → V → V) → List (K × V) → List (K × V)
  pub collect : {K V : Type 0} → Discrete K → List (K × V) → List (K × List V)
  pub values-reduce :
      {K V : Type 0} (d : Discrete K) (f : V → K → V → V) (l : List (K × V)) (k : K)
      → values d k (reduce d f l) ≡ reduced f k (values d k l)
  pub values-collect :
      {K V : Type 0} (d : Discrete K) (l : List (K × V)) (k : K)
      → values d k (collect d l) ≡ collected (values d k l)
