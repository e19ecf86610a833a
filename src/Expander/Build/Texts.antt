-- ===== src/Expander/Build/Texts.antt =====
-- The copy of a file, line by line (xtask/build.rs).
use text.Mathlib.TextLemmas
use shakespeare.Prelude.{
  ◌≡◌, ◌≢◌, refl, sym, ◌∙◌, ap, true, false, Option, some, List, [], ◌∷◌, String, ok, Bool-cases,
  inl, inr,
}
use Prim.Native.String.{◌++◌ as joined}
use shakespeare.Expander.Strip.{is_left_out, stripped_line, strip_file}
use shakespeare.Expander.Lines.{lines}
use shakespeare.Expander.Build.{Tree, write_lines, create_and_write, copy_file}
use shakespeare.Effects.{unwrapping}
use shakespeare.Effects.After.{After, After-weaken, and_then-After, unwrapping-After}

-- The texts of the files. To create a file empties it, and a line that is written goes to its end.
pub record Texts (tree : Tree) : Type 0 where
  pub text : tree.World → tree.PathBuf → Option String
  pub text-announced :
      (p q : tree.PathBuf) (w : tree.World) → text (tree.rerun_if_changed p w) q ≡ text w q
  pub text-read : (p q : tree.PathBuf) (w : tree.World) → text (tree.read p w).1 q ≡ text w q
  pub text-contents :
      (p : tree.PathBuf) (w : tree.World) (s : String)
      → (tree.read p w).0 ≡ ok s
      → text w p ≡ some s
  pub text-dir :
      (p q : tree.PathBuf) (w : tree.World) → text (tree.create_dir_all p w).1 q ≡ text w q
  pub text-created :
      (p : tree.PathBuf) (w : tree.World)
      → (tree.create p w).0 ≡ ok tt
      → text (tree.create p w).1 p ≡ some ""
  pub text-create_other :
      (p q : tree.PathBuf) (w : tree.World) → q ≢ p → text (tree.create p w).1 q ≡ text w q
  pub text-written :
      (p : tree.PathBuf) (line s : String) (w : tree.World)
      → (tree.write_line p line w).0 ≡ ok tt
      → text w p ≡ some s
      → text (tree.write_line p line w).1 p ≡ some (joined s (joined line "\n"))
  pub text-write_other :
      (p q : tree.PathBuf) (line : String) (w : tree.World)
      → q ≢ p
      → text (tree.write_line p line w).1 q ≡ text w q

strip_file-out :
    (l : String) (ls : List String) → is_left_out l ≡ true → strip_file (l ∷ ls) ≡ strip_file ls
unfolding strip_file
strip_file-out l ls out = rw (out, strip_file) refl

strip_file-kept :
    (l : String) (ls : List String)
    → is_left_out l ≡ false
    → strip_file (l ∷ ls) ≡ joined (stripped_line l) (joined "\n" (strip_file ls))
unfolding strip_file
strip_file-kept l ls kept = rw (kept, strip_file) refl

module _ (tree : Tree) (texts : Texts tree) where
  open tree use {World, Error, PathBuf}
  open texts use {text}

  abbrev pub Files : Type 0
  Files = PathBuf → Option String

  abbrev pub Same : Files → Files → Type 0
  Same t u = (q : PathBuf) → u q ≡ t q

  -- All files but one are as they were.
  abbrev pub SameBut : PathBuf → Files → Files → Type 0
  SameBut p t u = (q : PathBuf) → q ≢ p → u q ≡ t q

  module _ (t : Files) (p : PathBuf) where
    -- The copy so far, with all other files as they were.
    abbrev pub Begun : String → World → Type 0
    Begun s w = (text w p ≡ some s) × SameBut p t (text w)

    write_lines-After :
        (ls : List String) (s whole : String) (w : World)
        → joined s (strip_file ls) ≡ whole
        → Begun s w
        → After (λ u. Begun whole) (λ w'. SameBut p t (text w')) (write_lines tree p ls w)
    unfolding write_lines strip_file
    write_lines-After [] s whole w is (own, others) =
        (own ∙ ap some (sym (TextLemmas.append-nil s) ∙ is), others)
    write_lines-After (l ∷ ls) s whole w is (own, others) = elim (Bool-cases (is_left_out l)) [
      | inl out ↦
          rw (out, write_lines)
            (write_lines-After ls s whole w (ap (joined s) (sym (strip_file-out l ls out)) ∙ is)
              (own, others))
      | inr kept ↦
          let line = stripped_line l in
          let put = tree.write_line p line w in
          let others' : SameBut p t (text put.1) =
            λ q n. texts.text-write_other p q line w n ∙ others q n in
          rw (kept, write_lines)
            (and_then-After (λ u. Begun (joined s (joined line "\n"))) (λ u. Begun whole)
              (λ w'. SameBut p t (text w')) w (λ w. unwrapping (tree.write_line p line w))
              (λ u. write_lines tree p ls)
              (unwrapping-After (λ u. Begun (joined s (joined line "\n")))
                (λ w'. SameBut p t (text w')) put
                (λ u is. (texts.text-written p line s w is own, others')) others')
              (λ u w' b.
                write_lines-After ls (joined s (joined line "\n")) whole w'
                  (TextLemmas.append_assoc s (joined line "\n") (strip_file ls)
                    ∙ (ap (joined s) (
                          TextLemmas.append_assoc line "\n" (strip_file ls)
                          ∙ sym (strip_file-kept l ls kept))
                        ∙ is))
                  b))
    ]

    -- A copy: all of the text's lines that are not left out.
    pub copy_file-After :
        (from : PathBuf) (w : World)
        → Same t (text w)
        → After
            (λ u w'.
              (contents : String) × (t from ≡ some contents)
              × Begun (strip_file (lines contents)) w')
            (λ w'. SameBut p t (text w'))
            (copy_file tree from p w)
    unfolding copy_file
    copy_file-After from w same =
        let E : World → Type 0 = λ w'. SameBut p t (text w') in
        let Q : Unit {0} → World → Type 0 = λ u w'.
          (contents : String) × (t from ≡ some contents) × Begun (strip_file (lines contents)) w' in
        let WasRead : String → World → Type 0 = λ s w'. (t from ≡ some s) × Same t (text w') in
        let got = tree.read from w in
        let same' : Same t (text got.1) = λ q. texts.text-read from q w ∙ same q in
        and_then-After WasRead Q E w (λ w. unwrapping (tree.read from w)) (create_and_write tree p)
          (unwrapping-After WasRead E got
            (λ s is. (sym (same from) ∙ texts.text-contents from w s is, same')) (λ q n. same' q))
          (λ s w1 (was, same1).
            let made = tree.create p w1 in
            let others : SameBut p t (text made.1) =
              λ q n. texts.text-create_other p q w1 n ∙ same1 q in
            and_then-After (λ u. Begun "") Q E w1 (λ w. unwrapping (tree.create p w))
              (λ u. write_lines tree p (lines s))
              (unwrapping-After (λ u. Begun "") E made
                (λ u is. (texts.text-created p w1 is, others)) others)
              (λ u w2 b.
                After-weaken (λ u. Begun (strip_file (lines s))) Q E E
                  (write_lines tree p (lines s) w2) (λ u w3 done. (s, was, done)) (λ w3 e. e)
                  (write_lines-After (lines s) "" (strip_file (lines s)) w2
                    (TextLemmas.nil-append _) b)))
