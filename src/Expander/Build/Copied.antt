-- ===== src/Expander/Build/Copied.antt =====
-- What the build script has left in the file system when it ends (xtask/build.rs).
use shakespeare.Prelude.{
  ◌≡◌, ◌≢◌, refl, sym, ◌∙◌, ap, Bool, true, false, some, List, [], ◌∷◌, ◌++◌, String, Result, ok,
  err,
}
use shakespeare.Expander.Strip.{strip_file}
use shakespeare.Expander.Lines.{lines}
use shakespeare.Expander.Build.{
  Tree, FileType, file, dir, symlink, DirEntry, is_source, copy_file, make_dir, if_dir, by_source,
  copy_entry, main,
}
use shakespeare.Expander.Build.Texts.{Texts, Files, Same, SameBut, copy_file-After}
use shakespeare.Effects.{Stop, continue_with, pure, or_panic}
use shakespeare.Effects.After.{
  After, After-weaken, and_then-After, unwrapping-After, or_panic-After, pure-After,
}

module _ (tree : Tree) (texts : Texts tree) where
  open tree use {World, Error, PathBuf}
  open texts use {text}

  -- What an entry of the walk leaves: a Rust file has its copy, the lines of its text that are not
  -- left out, and for all others no file has changed.
  pub data EntryDone (f : DirEntry tree) (t u : Files tree texts) : Type 0 where
    copied :
        (p : PathBuf) (metadata : FileType) (contents : String)
        → tree.new_path f.path ≡ some p
        → f.metadata ≡ ok metadata
        → is_source tree metadata f.extension ≡ some true
        → t f.path ≡ some contents
        → u p ≡ some (strip_file (lines contents))
        → SameBut tree texts p t u
        → EntryDone f t u
    passed :
        (metadata : FileType)
        → f.metadata ≡ ok metadata
        → is_source tree metadata f.extension ≡ some false
        → Same tree texts t u
        → EntryDone f t u

  -- What an entry leaves at which the script fails: at most its own copy has changed.
  abbrev pub Partly : Result Error (DirEntry tree) → Files tree texts → Files tree texts → Type 0
  Partly (err e) t u = Same tree texts t u
  Partly (ok f) t u = (q : PathBuf) → some q ≢ tree.new_path f.path → u q ≡ t q

  -- What a walk leaves: each entry in its turn.
  abbrev pub AllDone :
      List (Result Error (DirEntry tree)) → Files tree texts → Files tree texts → Type 0
  AllDone [] t u = Same tree texts t u
  AllDone (ok f ∷ fs) t u = (m : Files tree texts) × EntryDone f t m × AllDone fs m u
  AllDone (err e ∷ fs) t u = ⊥

  -- How the script ends: with every entry done, or at an entry that it fails at, with those in front
  -- of it done and none behind it.
  abbrev pub Ended :
      List (Result Error (DirEntry tree))
      → Files tree texts
      → Result (Stop Error) (Unit {0}) × World
      → Type 0
  Ended fs t (ok u, w) = AllDone fs t (text w)
  Ended fs t (err e, w) =
      (before : List (Result Error (DirEntry tree))) × (at : Result Error (DirEntry tree))
      × (behind : List (Result Error (DirEntry tree))) × (m : Files tree texts) × (fs
          ≡ before ++ at ∷ behind)
      × AllDone before t m
      × Partly at m (text w)

  module _ (f : DirEntry tree) (t : Files tree texts) where
    abbrev Failed : World → Type 0
    Failed w = Partly (ok f) t (text w)

    abbrev Done : {A : Type 0} → A → World → Type 0
    Done a w = EntryDone f t (text w)

    abbrev Kept : {A : Type 0} → A → World → Type 0
    Kept a w = Same tree texts t (text w)

    abbrev Unchanged : World → Type 0
    Unchanged w = Same tree texts t (text w)

    make_dir-After :
        (b : Bool) (p : PathBuf) (w : World)
        → Same tree texts t (text w)
        → After Kept Unchanged (make_dir tree b p w)
    make_dir-After true p w same = same
    make_dir-After false p w same =
        let after : Same tree texts t (text (tree.create_dir_all p w).1) =
          λ q. texts.text-dir p q w ∙ same q in
        unwrapping-After Kept Unchanged (tree.create_dir_all p w) (λ u is. after) after

    if_dir-After :
        (metadata : FileType) (p : PathBuf) (w : World)
        → Same tree texts t (text w)
        → After Kept Unchanged (if_dir tree metadata p w)
    if_dir-After file p w same = same
    if_dir-After dir p w same = make_dir-After (tree.exists p w) p w same
    if_dir-After symlink p w same = same

    Unchanged-Failed : (w : World) → Unchanged w → Failed w
    Unchanged-Failed w same q n = same q

    by_source-After :
        (p : PathBuf) (metadata : FileType) (b : Bool) (w : World)
        → tree.new_path f.path ≡ some p
        → f.metadata ≡ ok metadata
        → is_source tree metadata f.extension ≡ some b
        → Same tree texts t (text w)
        → After Done Failed (by_source tree f.path p metadata b w)
    by_source-After p metadata true w at kind source same =
        After-weaken _ Done (λ w'. SameBut tree texts p t (text w')) Failed
          (copy_file tree f.path p w)
          (λ u w' (s, was, (own, others)). copied p metadata s at kind source was own others)
          (λ w' others q n. others q (λ e. n (ap some e ∙ sym at)))
          (copy_file-After tree texts t p f.path w same)
    by_source-After p metadata false w at kind source same =
        After-weaken Kept Done Unchanged Failed (if_dir tree metadata p w)
          (λ u w' kept. passed metadata kind source kept) Unchanged-Failed
          (if_dir-After metadata p w same)

    copy_entry-After :
        (w : World) → Same tree texts t (text w) → After Done Failed (copy_entry tree f w)
    unfolding copy_entry
    copy_entry-After w same =
        let w0 = tree.rerun_if_changed f.path w in
        let same0 : Same tree texts t (text w0) = λ q. texts.text-announced f.path q w ∙ same q in
        let AtPath : PathBuf → World → Type 0 =
          λ p w'. (tree.new_path f.path ≡ some p) × Same tree texts t (text w') in
        let OfKind : FileType → World → Type 0 =
          λ m w'. (f.metadata ≡ ok m) × Same tree texts t (text w') in
        and_then-After AtPath Done Failed w0 (or_panic (tree.new_path f.path)) _
          (or_panic-After Error AtPath Failed (tree.new_path f.path) w0 (λ p at. (at, same0))
            (λ q n. same0 q))
          (λ p w1 (at, same1).
            and_then-After OfKind Done Failed w1 (pure f.metadata) _
              (pure-After OfKind Failed f.metadata w1 (λ m is. (is, same1)) (λ q n. same1 q))
              (λ m w2 (kind, same2).
                let IsSource : Bool → World → Type 0 =
                  λ b w'. (is_source tree m f.extension ≡ some b) × Same tree texts t (text w') in
                and_then-After IsSource Done Failed w2 (or_panic (is_source tree m f.extension))
                  (by_source tree f.path p m)
                  (or_panic-After Error IsSource Failed (is_source tree m f.extension) w2
                    (λ b is. (is, same2)) (λ q n. same2 q))
                  (λ b w3 (source, same3). by_source-After p m b w3 at kind source same3)))

  Ended-behind :
      (f : DirEntry tree) (fs : List (Result Error (DirEntry tree))) (t m : Files tree texts)
      (r : Result (Stop Error) (Unit {0}) × World)
      → EntryDone f t m
      → Ended fs m r
      → Ended (ok f ∷ fs) t r
  Ended-behind f fs t m (ok u, w) one all = (m, one, all)
  Ended-behind f fs t m (err e, w) one (before, at, behind, m', is, all, partly) = (
    ok f ∷ before,
    at,
    behind,
    m',
    ap (λ (l : List (Result Error (DirEntry tree))). ok f ∷ l) is,
    (m, one, all),
    partly,
  )

  Ended-next :
      (f : DirEntry tree) (fs : List (Result Error (DirEntry tree))) (t : Files tree texts)
      (r : Result (Stop Error) (Unit {0}) × World)
      → After (Done f t) (Failed f t) r
      → ((w : World) → Ended fs (text w) (main tree fs w))
      → Ended (ok f ∷ fs) t (continue_with r (λ u. main tree fs))
  Ended-next f fs t (ok u, w) one rest = Ended-behind f fs t (text w) (main tree fs w) one (rest w)
  Ended-next f fs t (err e, w) partly rest = ([], ok f, fs, t, refl, (λ q. refl), partly)

  -- The script ends with each entry up to some point done, in the walk's order, and after success all
  -- of them: each Rust file has at the path that belongs to it exactly the lines of its text, as it
  -- stood when its turn came, that are not left out, with the paths renamed; and nothing else has
  -- changed. After an error or a panic the entry at which it stopped has changed its own copy at most.
  pub main-Ended :
      (fs : List (Result Error (DirEntry tree))) (w : World) → Ended fs (text w) (main tree fs w)
  unfolding main
  main-Ended [] w = λ q. refl
  main-Ended (err e ∷ fs) w = ([], err e, fs, text w, refl, (λ q. refl), (λ q. refl))
  main-Ended (ok f ∷ fs) w =
      Ended-next f fs (text w) (copy_entry tree f w) (copy_entry-After f (text w) w (λ q. refl))
        (main-Ended fs)
