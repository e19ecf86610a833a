-- ===== src/Macro/ActorOutput/Wiring/Texts.antt =====
-- Texts that are not equal (shakespeare-macro/src/outputs/actor/spawning_function.rs).
use Prim.Native.String.{String, ◌∷◌ as char_before, ◌++◌ as joined}
use Prim.Native.Char.{Char, code}
use text.Mathlib.TextLemmas
use shakespeare.Prelude.{
  ℕ, ◌≡◌, ◌≢◌, refl, sym, ap, ◌∙◌, false, str_eq, str_eq_iff, Bool-cases, inl, inr, arith,
}

pub different : (x y : String) → x ≢ y → str_eq x y ≡ false
different x y n = elim (Bool-cases (str_eq x y)) [
  | inl same ↦ absurd (n ((str_eq_iff x y).0 same))
  | inr other ↦ other
]

-- The code of a text's last character; texts that end differently differ.
last_code : ℕ → String → ℕ
last_code n String.[] = n
last_code n (char_before c s) = last_code (code c) s

last_code-append :
    (n : ℕ) (c : Char) (s : String) → last_code n (joined s (char_before c String.[])) ≡ code c
unfolding last_code
last_code-append n c String.[] = rw (TextLemmas.nil-append (char_before c String.[])) refl
last_code-append n c (char_before d s) =
    rw (TextLemmas.cons-append d s (char_before c String.[])) (last_code-append (code d) c s)

pub input-ne-output : (x y : String) → joined x "_input" ≢ joined y "_output"
input-ne-output x y e =
    let shorter : joined x "_in" ≡ joined y "_out" = TextLemmas.append_cancel_right _ _ "put" (
      TextLemmas.append_assoc x "_in" "put" ∙ (e ∙ sym (TextLemmas.append_assoc y "_out" "put"))) in
    let ends : joined (joined x "_i") "n" ≡ joined (joined y "_ou") "t" =
      TextLemmas.append_assoc x "_i" "n" ∙ (shorter ∙ sym (TextLemmas.append_assoc y "_ou" "t")) in
    let last : ◌≡◌ {A = ℕ} 110 116 =
      sym (last_code-append 0 "n" (joined x "_i"))
      ∙ (ap (last_code 0) ends ∙ last_code-append 0 "t" (joined y "_ou")) in
    omega (arith, last)
