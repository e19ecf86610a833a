-- ===== src/Chat/Invariant.antt =====
-- Which client a user of the server is, through all its methods, and what the users get
-- (examples/chat.rs).
use shakespeare.Prelude.{
  ℕ, zero, suc, ◌≤◌, ◌≡◌, refl, sym, ◌∙◌, ap, subst, false, some, List, [], ◌∷◌, ◌++◌, ◌==◌, ◌&&◌,
  arith, Bool-cases, inl, inr, length,
}
use shakespeare.Macro.Performance.Dispatches.{get_elem?}
use shakespeare.Chat.{Users, remove, insert, count}
use shakespeare.Chat.Users.{count-remove}
use shakespeare.Chat.Delivered.{Only}

-- Each entry stands in the map once, and its handle is that of the client that was started with
-- the entry's number.
abbrev pub Inv : List ℕ → Users → Type 0
Inv started us = (i h : ℕ) → (count i h us ≤ 1) × (1 ≤ count i h us → get_elem? started h ≡ some i)

pub Inv-Only :
    (started : List ℕ) (us : Users) (i h : ℕ) → Inv started us → 1 ≤ count i h us → Only i h us
Inv-Only started us i h inv is j = elim (Bool-cases (j == i)) [
  | inl own ↦
      let eq : j ≡ i = ground arith in
      rw own (subst (λ k. count k h us ≡ 1) (sym eq) (omega (arith, is, (inv i h).0)))
  | inr other ↦ rw other (few j other)
]
  where
    few : (j : ℕ) → (j == i) ≡ false → count j h us ≡ 0
    few j other = elim (Bool-cases (count j h us == 0)) [
      | inl none_there ↦ ground arith
      | inr some_there ↦
          let one : 1 ≤ count j h us = ground arith in
          let same = sym ((inv j h).1 one) ∙ (inv i h).1 is in absurd (ground (arith, same))
    ]

pub Inv-remove :
    (started : List ℕ) (us : Users) (d : ℕ) → Inv started us → Inv started (remove d us)
Inv-remove started us d inv i h = elim (Bool-cases (i == d)) [
  | inl out ↦
      let zero_left : count i h (remove d us) ≡ 0 = count-remove i h d us ∙ rw out refl in
      (omega (arith, zero_left), λ one. absurd (omega (arith, zero_left, one)))
  | inr stays ↦
      let as_before : count i h (remove d us) ≡ count i h us =
        count-remove i h d us ∙ rw stays refl in
      (omega (arith, as_before, (inv i h).0), λ one. (inv i h).1 (omega (arith, as_before, one)))
]

get_elem?-behind :
    (xs ys : List ℕ) (h i : ℕ) → get_elem? xs h ≡ some i → get_elem? (xs ++ ys) h ≡ some i
get_elem?-behind [] ys h i e = absurd (cc)
get_elem?-behind (x ∷ xs) ys zero i e = e
get_elem?-behind (x ∷ xs) ys (suc h) i e = get_elem?-behind xs ys h i e

get_elem?-last : (xs : List ℕ) (i : ℕ) → get_elem? (xs ++ i ∷ []) (length xs) ≡ some i
get_elem?-last [] i = refl
get_elem?-last (x ∷ xs) i = get_elem?-last xs i

get_elem?-length : (xs : List ℕ) (i : ℕ) → ¬ (get_elem? xs (length xs) ≡ some i)
get_elem?-length [] i e = cc
get_elem?-length (x ∷ xs) i e = get_elem?-length xs i e

-- The handle of a client that is just started is no user's.
fresh : (started : List ℕ) (us : Users) (i : ℕ) → Inv started us → count i (length started) us ≡ 0
fresh started us i inv = elim (Bool-cases (count i (length started) us == 0)) [
  | inl none_there ↦ ground arith
  | inr some_there ↦
      let one : 1 ≤ count i (length started) us = ground arith in
      absurd (get_elem?-length started i ((inv i (length started)).1 one))
]

pub Inv-insert :
    (started : List ℕ) (us : Users) (id : ℕ)
    → Inv started us
    → Inv (started ++ id ∷ []) (insert id (length started) us)
unfolding insert count
Inv-insert started us id inv i h =
    let (few, kept) = Inv-remove started us id inv i h in
    elim (Bool-cases (i == id && h == length started)) [
      | inl own ↦
          let same_id : i ≡ id = ground arith in
          let same : h ≡ length started = ground arith in
          let nothing_left : count i h (remove id us) ≡ 0 = count-remove i h id us ∙ ground arith in
          rw own (
            omega (arith, nothing_left),
            λ one.
                subst (λ k. get_elem? (started ++ id ∷ []) k ≡ some i) (sym same)
                  (get_elem?-last started id ∙ ap some (sym same_id)),
          )
      | inr other ↦ rw other (
        omega (arith, few),
        λ one. get_elem?-behind started (id ∷ []) h i (kept (omega (arith, one))),
      )
    ]
