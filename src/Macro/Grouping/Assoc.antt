-- ===== src/Macro/Grouping/Assoc.antt =====
-- Grouping by an association list in the order of first occurrence, which meets the description of
-- the grouping maps that shakespeare-macro/src/outputs/role/payload_enum.rs uses.
use mathlib.Core.Logic.{ite, if_pos, if_neg}
use mathlib.Core.List.{foldl, append-nil, append_assoc}
use shakespeare.Prelude.{◌≡◌, refl, sym, ◌∙◌, List, [], ◌∷◌, ◌++◌}
use shakespeare.Macro.Grouping.{values, reduced, collected, GroupingMap}

module _ {K V W : Type 0} (d : Discrete K) (start : V → W) (more : W → K → V → W) where
  upsert : K → V → List (K × W) → List (K × W)
  upsert k v [] = (k, start v) ∷ []
  upsert k v ((j, w) ∷ l) =
      let rest = upsert k v l in ite (d j k) ((j, more w k v) ∷ l) ((j, w) ∷ rest)

  group : List (K × W) → List (K × V) → List (K × W)
  group acc [] = acc
  group acc ((k, v) ∷ l) = group (upsert k v acc) l

  -- The entry of a key, if it has one, with one more value.
  abbrev added : K → V → List W → List W
  added k v [] = start v ∷ []
  added k v (w ∷ ws) = more w k v ∷ ws

  abbrev all_added : K → List W → List V → List W
  all_added k ws [] = ws
  all_added k ws (v ∷ vs) = all_added k (added k v ws) vs

  values-upsert_self :
      (k : K) (v : V) (l : List (K × W)) → values d k (upsert k v l) ≡ added k v (values d k l)
  unfolding values upsert
  values-upsert_self k v [] = rw (if_pos (d k k) refl) refl
  values-upsert_self k v ((j, w) ∷ l) = elim (d j k) [
    | yes p ↦ simp (if_pos {C = List (K × W)} (d j k) p, if_pos {C = List W} (d j k) p) refl
    | no p ↦
        simp
          (
            if_neg {C = List (K × W)} (d j k) p,
            if_neg {C = List W} (d j k) p,
            values-upsert_self k v l,
          )
          refl
  ]

  values-upsert_ne :
      (k j : K) (v : V) (l : List (K × W)) → ¬ (j ≡ k) → values d k (upsert j v l) ≡ values d k l
  unfolding values upsert
  values-upsert_ne k j v [] h = rw (if_neg (d j k) h) refl
  values-upsert_ne k j v ((i, w) ∷ l) h = elim (d i j) [
    | yes p ↦
        simp (if_pos {C = List (K × W)} (d i j) p, if_neg {C = List W} (d i k) (λ q. h (sym p ∙ q)))
          refl
    | no p ↦ rw (if_neg (d i j) p) (rw (values-upsert_ne k j v l h) refl)
  ]

  values-group :
      (l : List (K × V)) (acc : List (K × W)) (k : K)
      → values d k (group acc l) ≡ all_added k (values d k acc) (values d k l)
  unfolding values group
  values-group [] acc k = refl
  values-group ((j, v) ∷ l) acc k = elim (d j k) [
    | yes p ↦
        values-group l (upsert j v acc) k
        ∙ rw (if_pos (d j k) p) (rw p (rw values-upsert_self refl))
    | no p ↦
        values-group l (upsert j v acc) k
        ∙ rw (if_neg (d j k) p) (rw (values-upsert_ne k j v acc p) refl)
  ]

module _ {K V : Type 0} where
  all_added-reduce :
      (d : Discrete K) (f : V → K → V → V) (k : K) (v : V) (vs : List V)
      → all_added d (λ a. a) f k (v ∷ []) vs ≡ foldl (λ a b. f a k b) v vs ∷ []
  all_added-reduce d f k v [] = refl
  all_added-reduce d f k v (w ∷ vs) = all_added-reduce d f k (f v k w) vs

  all_added-collect :
      (d : Discrete K) (k : K) (us vs : List V)
      → all_added d (λ a. a ∷ []) (λ ws k v. ws ++ v ∷ []) k (us ∷ []) vs ≡ (us ++ vs) ∷ []
  all_added-collect d k us [] = rw append-nil refl
  all_added-collect d k us (v ∷ vs) = all_added-collect d k (us ++ v ∷ []) vs ∙ rw append_assoc refl

  reduce_law :
      (d : Discrete K) (f : V → K → V → V) (l : List (K × V)) (k : K)
      → values d k (group d (λ a. a) f [] l) ≡ reduced f k (values d k l)
  unfolding values
  reduce_law d f l k = values-group d (λ a. a) f l [] k ∙ from_empty (values d k l)
    where
      from_empty : (vs : List V) → all_added d (λ a. a) f k [] vs ≡ reduced f k vs
      from_empty [] = refl
      from_empty (v ∷ vs) = all_added-reduce d f k v vs

  collect_law :
      (d : Discrete K) (l : List (K × V)) (k : K)
      → values d k (group d (λ a. a ∷ []) (λ ws k v. ws ++ v ∷ []) [] l) ≡ collected (values d k l)
  unfolding values
  collect_law d l k =
      values-group d (λ a. a ∷ []) (λ ws k v. ws ++ v ∷ []) l [] k ∙ from_empty (values d k l)
    where
      from_empty :
          (vs : List V) → all_added d (λ a. a ∷ []) (λ ws k v. ws ++ v ∷ []) k [] vs ≡ collected vs
      from_empty [] = refl
      from_empty (v ∷ vs) = all_added-collect d k (v ∷ []) vs

pub assoc_grouping : GroupingMap
assoc_grouping = record {
  reduce = λ d f l. group d (λ a. a) f [] l;
  collect = λ d l. group d (λ a. a ∷ []) (λ ws k v. ws ++ v ∷ []) [] l;
  values-reduce = reduce_law;
  values-collect = collect_law;
}
