-- ===== src/Prelude/Lists.antt =====
-- Lists measured by native numbers, and predicates on lists.
use Prim.Native.Nat.{ℕ, suc, ◌+◌}
use mathlib.Core.Path.{◌≡◌, refl, ap, subst}
use mathlib.Core.Logic.{◌⊎◌, inl, inr}
use mathlib.Core.List.{List, [], ◌∷◌, ◌++◌, map}
use native.Mathlib.Omega.{arith}

module _ {ℓ} {A : Type ℓ} where
  abbrev pub length : List A → ℕ
  length [] = 0
  length (x ∷ xs) = suc (length xs)

  pub length-append : (xs ys : List A) → length (xs ++ ys) ≡ length xs + length ys
  length-append [] ys = omega arith
  length-append (x ∷ xs) ys = omega (arith, length-append xs ys)

-- A predicate by recursion computes to tuples, which the tactics read and build.
abbrev pub All {ℓ κ} : {A : Type ℓ} → (A → Type κ) → List A → Type κ
All P [] = Unit
All P (x ∷ xs) = P x × All P xs

-- That something stands in a list, with the place.
abbrev pub Listed : {A : Type 0} → A → List A → Type 0
Listed x [] = ⊥
Listed x (y ∷ ys) = (y ≡ x) ⊎ Listed x ys

pub Listed-map :
    {A B : Type 0} (f : A → B) (x : A) (xs : List A) → Listed x xs → Listed (f x) (map f xs)
Listed-map f x [] h = elim h [ ]
Listed-map f x (y ∷ ys) (inl e) = inl (ap f e)
Listed-map f x (y ∷ ys) (inr h) = inr (Listed-map f x ys h)

-- What holds of everything that stands in a list.
pub All-of_Listed {κ} :
    {A : Type 0} (P : A → Type κ) (xs : List A) → ((x : A) → Listed x xs → P x) → All P xs
All-of_Listed P [] h = tt
All-of_Listed P (x ∷ xs) h = (h x (inl refl), All-of_Listed P xs (λ y i. h y (inr i)))

pub All-weaken {ℓ κ ι} :
    {A : Type ℓ} (P : A → Type κ) (Q : A → Type ι) (xs : List A)
    → ((x : A) → P x → Q x)
    → All P xs
    → All Q xs
All-weaken P Q [] f h = tt
All-weaken P Q (x ∷ xs) f (p, ps) = (f x p, All-weaken P Q xs f ps)

pub All-map {ℓ κ ι} :
    {A : Type ℓ} {B : Type κ} (P : B → Type ι) (f : A → B) (xs : List A)
    → All (λ x. P (f x)) xs
    → All P (map f xs)
All-map P f [] h = tt
All-map P f (x ∷ xs) (p, ps) = (p, All-map P f xs ps)

pub All-Listed {κ} :
    {A : Type 0} (P : A → Type κ) (x : A) (xs : List A) → All P xs → Listed x xs → P x
All-Listed P x [] h i = elim i [ ]
All-Listed P x (y ∷ ys) (p, ps) (inl e) = subst P e p
All-Listed P x (y ∷ ys) (p, ps) (inr i) = All-Listed P x ys ps i
