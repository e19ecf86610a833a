-- ===== src/Chat/Users.antt =====
-- The server's map of its users, under removal (examples/chat.rs).
use shakespeare.Prelude.{
  ℕ, ◌<◌, ◌≤◌, ◌≡◌, refl, true, false, [], ◌∷◌, if◌then◌else◌, ◌==◌, length, arith, Bool-cases, inl,
  inr,
}
use shakespeare.Chat.{Users, contains, remove, count}

length-remove : (i : ℕ) (us : Users) → length (remove i us) ≤ length us
unfolding remove
length-remove i [] = omega arith
length-remove i ((j, a) ∷ us) = elim (Bool-cases (i == j)) [
  | inl same ↦ rw same (omega (arith, length-remove i us))
  | inr other ↦ rw other (omega (arith, length-remove i us))
]

pub length-remove_contained :
    (i : ℕ) (us : Users) → contains i us ≡ true → length (remove i us) < length us
unfolding remove contains
length-remove_contained i [] c = absurd (cc)
length-remove_contained i ((j, a) ∷ us) c = elim (Bool-cases (i == j)) [
  | inl same ↦ rw same (omega (arith, length-remove i us))
  | inr other ↦ rw other (omega (arith, length-remove_contained i us (rw other at c)))
]

pub contains-remove_same : (i : ℕ) (us : Users) → contains i (remove i us) ≡ false
unfolding remove contains
contains-remove_same i [] = refl
contains-remove_same i ((j, a) ∷ us) = elim (Bool-cases (i == j)) [
  | inl same ↦ rw same (contains-remove_same i us)
  | inr other ↦ rw other (rw other (contains-remove_same i us))
]

pub contains-remove :
    (i d : ℕ) (us : Users) → contains i us ≡ false → contains i (remove d us) ≡ false
unfolding remove contains
contains-remove i d [] c = refl
contains-remove i d ((j, a) ∷ us) c = elim (Bool-cases (i == j)) [
  | inl same ↦ absurd (cc (rw same at c))
  | inr other ↦
      let rest = contains-remove i d us (rw other at c) in
      elim (Bool-cases (d == j)) [ inl out ↦ rw out rest | inr stays ↦ rw stays (rw other rest) ]
]

-- An entry under another number stays, and none appears.
pub count-remove :
    (i h d : ℕ) (us : Users) → count i h (remove d us) ≡ (if i == d then 0 else count i h us)
unfolding remove count
count-remove i h d [] = elim (Bool-cases (i == d)) [
  | inl same ↦ rw same refl
  | inr other ↦ rw other refl
]
count-remove i h d ((j, a) ∷ us) =
    let rest = count-remove i h d us in
    elim (Bool-cases (d == j)) [ inl out ↦ ground arith | inr stays ↦ ground arith ]

pub count_contained : (i h : ℕ) (us : Users) → 1 ≤ count i h us → contains i us ≡ true
unfolding contains count
count_contained i h [] c = absurd (omega arith)
count_contained i h ((j, a) ∷ us) c = elim (Bool-cases (i == j)) [
  | inl same ↦ rw same refl
  | inr other ↦ rw other (count_contained i h us (omega (arith, rw other at c)))
]
