-- ===== src/Expander/Files/Wrote.antt =====
-- What the loop over the test files has written when it ends (xtask/src/expander.rs).
use mathlib.Core.List.{append_assoc, append-nil}
use shakespeare.Prelude.{
  ◌≡◌, refl, sym, ◌∙◌, ap, subst, Bool, true, false, Option, some, List, [], ◌∷◌, ◌++◌, String,
  Result, ok, err,
}
use shakespeare.Macro.Naming.{Casing}
use shakespeare.Macro.Grouping.{GroupingMap}
use shakespeare.Expander.{SynItem, Toks, expand_test}
use shakespeare.Expander.Replace.{replace}
use shakespeare.Expander.Files.Steps.{
  Disk, Writes, Ends, and_then-Ends, returning-Quiet, or_panic-Quiet, format-Quiet, write-Ends,
  mkdir-Ends,
}
use shakespeare.Expander.Files.{
  Host, DirEntry, Step, is_a_rust_file, if_rust_file, expand_file, expanded, write_formatted,
  write_expanded, by_kind, expand_entry, visit, expand_all_tests,
}
use shakespeare.Effects.{Stop, continue_with, and_then, returning, pure, or_panic}

module _ (host : Host) (disk : Disk host) (casing : Casing) (grouping : GroupingMap)
    (parse_args : String → Option Bool) (print : SynItem → String) where
  open host use {World, Error, PathBuf}
  open disk use {writes}

  -- The texts that are written for a file, and where.
  pub data Output (f : DirEntry host) : Writes host disk → Type 0 where
    output :
        (p : PathBuf) (contents : String) (toks : Toks) (formatted : String) (w w' : World)
        → host.new_path f.path ≡ ok p
        → (host.read_to_string f.path w).0 ≡ ok contents
        → expand_test casing grouping parse_args print host.parse_file
            (replace "crate::" "crate::expanded::" contents)
          ≡ ok (some toks)
        → (host.format toks w').0 ≡ ok formatted
        → Output f ((p, formatted) ∷ [])

  -- What is written for each entry: a Rust file's output, and nothing for all others.
  pub data Wrote : List (Result Error (DirEntry host)) → Writes host disk → Type 0 where
    nothing : Wrote [] []
    passed :
        {fs : List (Result Error (DirEntry host))} {ws : Writes host disk} (f : DirEntry host)
        → is_a_rust_file host f ≡ some false
        → Wrote fs ws
        → Wrote (ok f ∷ fs) ws
    directory :
        {fs : List (Result Error (DirEntry host))} {ws : Writes host disk} (f : DirEntry host)
        → f.is_dir ≡ ok true
        → Wrote fs ws
        → Wrote (ok f ∷ fs) ws
    file :
        {fs : List (Result Error (DirEntry host))} {one ws : Writes host disk} (f : DirEntry host)
        → is_a_rust_file host f ≡ some true
        → f.is_dir ≡ ok false
        → Output f one
        → Wrote fs ws
        → Wrote (ok f ∷ fs) (one ++ ws)

  module _ (f : DirEntry host) where
    -- What is known of a text that has been read, and of the tokens it expands to.
    abbrev WasRead : String → Type 0
    WasRead contents = (w : World) × ((host.read_to_string f.path w).0 ≡ ok contents)

    abbrev WroteOne : Writes host disk → Type 0
    WroteOne ws = Wrote (ok f ∷ []) ws

    module _ (p : PathBuf) (at : host.new_path f.path ≡ ok p) where
      write_formatted-Ends :
          (contents : String) (toks : Toks) (w : World)
          → WasRead contents
          → expanded host casing grouping parse_args print contents ≡ ok (some toks)
          → Ends host disk
              (Output f)
              w
              (write_formatted host casing grouping parse_args print p toks w)
      write_formatted-Ends contents toks w (w', read) is =
          and_then-Ends host disk (λ s. (u : World) × ((host.format toks u).0 ≡ ok s)) (Output f) w
            (host.format toks) (λ s u. returning (host.write p s u)) (format-Quiet host disk toks w)
            (λ s w2 made.
              write-Ends host disk (Output f) p s w2
                (output p contents toks s w' made.0 at read is made.1))

      write_expanded-Ends :
          (contents : String) (w : World)
          → WasRead contents
          → Ends host disk
              (Output f)
              w
              (write_expanded host casing grouping parse_args print p contents w)
      write_expanded-Ends contents w read =
          let result = expanded host casing grouping parse_args print contents in
          and_then-Ends host disk (λ o. result ≡ ok o) (Output f) w (pure result)
            (λ o. and_then (or_panic o) (write_formatted host casing grouping parse_args print p))
            (returning-Quiet host disk (λ o. result ≡ ok o) w (result, w) refl (λ o is. is))
            (λ o w2 parsed.
              and_then-Ends host disk (λ toks. o ≡ some toks) (Output f) w2 (or_panic o)
                (write_formatted host casing grouping parse_args print p)
                (or_panic-Quiet host disk w2 o)
                (λ toks w3 is. write_formatted-Ends contents toks w3 read (parsed ∙ ap ok is)))

      expand_file-Ends :
          (w : World)
          → Ends host disk (Output f) w (expand_file host casing grouping parse_args print f p w)
      unfolding expand_file
      expand_file-Ends w =
          and_then-Ends host disk WasRead (Output f) w
            (λ u. returning (host.read_to_string f.path u))
            (write_expanded host casing grouping parse_args print p)
            (returning-Quiet host disk WasRead w (host.read_to_string f.path w)
              (disk.writes-read f.path w) (λ contents is. (w, is)))
            (λ contents w2 read. write_expanded-Ends contents w2 read)

      module _ (rust : is_a_rust_file host f ≡ some true) where
        as_file :
            (w : World) (r : Result (Stop Error) (Unit {0}) × World)
            → f.is_dir ≡ ok false
            → Ends host disk (Output f) w r
            → Ends host disk WroteOne w r
        as_file w (ok u, w') kind (ws, out, is) = (
          ws ++ [],
          file f rust kind out nothing,
          is ∙ ap (λ (l : Writes host disk). writes w ++ l) (sym (append-nil ws)),
        )
        as_file w (err e, w') kind is = is

        by_kind-Ends :
            (b : Bool) (w : World)
            → f.is_dir ≡ ok b
            → Ends host disk WroteOne w (by_kind host casing grouping parse_args print f p b w)
        by_kind-Ends true w kind = mkdir-Ends host disk WroteOne p w (directory f kind nothing)
        by_kind-Ends false w kind = as_file w _ kind (expand_file-Ends w)

    expand_entry-Ends :
        (w : World)
        → is_a_rust_file host f ≡ some true
        → Ends host disk WroteOne w (expand_entry host casing grouping parse_args print f w)
    unfolding expand_entry
    expand_entry-Ends w rust =
        and_then-Ends host disk (λ p. host.new_path f.path ≡ ok p) WroteOne w
          (pure (host.new_path f.path))
          (λ p. and_then (pure f.is_dir) (by_kind host casing grouping parse_args print f p))
          (returning-Quiet host disk (λ p. host.new_path f.path ≡ ok p) w (host.new_path f.path, w)
            refl (λ p is. is))
          (λ p w2 at.
            and_then-Ends host disk (λ b. f.is_dir ≡ ok b) WroteOne w2 (pure f.is_dir)
              (by_kind host casing grouping parse_args print f p)
              (returning-Quiet host disk (λ b. f.is_dir ≡ ok b) w2 (f.is_dir, w2) refl (λ b is. is))
              (λ b w3 kind. by_kind-Ends p at rust b w3 kind))

    if_rust_file-Ends :
        (b : Bool) (w : World)
        → is_a_rust_file host f ≡ some b
        → Ends host disk WroteOne w (if_rust_file host casing grouping parse_args print b f w)
    if_rust_file-Ends true w is = expand_entry-Ends w is
    if_rust_file-Ends false w is = ([], passed f is nothing, sym (append-nil (writes w)))

  visit-Ends :
      (f : Result Error (DirEntry host)) (w : World)
      → Ends host disk (Wrote (f ∷ [])) w (visit host casing grouping parse_args print f w)
  unfolding visit
  visit-Ends (err e) w = refl
  visit-Ends (ok f) w =
      and_then-Ends host disk (λ b. is_a_rust_file host f ≡ some b) (Wrote (ok f ∷ [])) w
        (or_panic (is_a_rust_file host f))
        (λ b. if_rust_file host casing grouping parse_args print b f)
        (or_panic-Quiet host disk w (is_a_rust_file host f))
        (λ b w2 is. if_rust_file-Ends f b w2 is)

  append-Wrote :
      {fs gs : List (Result Error (DirEntry host))} {ws xs : Writes host disk}
      → Wrote fs ws
      → Wrote gs xs
      → Wrote (fs ++ gs) (ws ++ xs)
  append-Wrote nothing q = q
  append-Wrote (passed f is p) q = passed f is (append-Wrote p q)
  append-Wrote (directory f is p) q = directory f is (append-Wrote p q)
  append-Wrote {gs = gs} {xs = xs} (file {fs = fs'} {one = one} {ws = ws} f rust is out p) q =
      subst (λ l. Wrote (ok f ∷ (fs' ++ gs)) l) (sym (append_assoc one ws xs))
        (file f rust is out (append-Wrote p q))

  -- What the loop has done when it ends, by its result.
  abbrev pub Done :
      List (Result Error (DirEntry host)) → World → Result (Stop Error) (Unit {0}) × World → Type 0
  Done fs w (r, w') =
      (visited rest : List (Result Error (DirEntry host))) × (ws : Writes host disk) × (fs
        ≡ visited ++ rest)
      × (Wrote visited ws × ((writes w' ≡ writes w ++ ws) × (r ≡ ok tt → rest ≡ [])))

  Done-behind :
      (f : Result Error (DirEntry host)) (fs : List (Result Error (DirEntry host))) (w w' : World)
      (one : Writes host disk) (r : Result (Stop Error) (Unit {0}) × World)
      → Wrote (f ∷ []) one
      → writes w' ≡ writes w ++ one
      → Done fs w' r
      → Done (f ∷ fs) w r
  Done-behind f fs w w' one (r, w'') wrote is (visited, rest, ws, parts, (more, (is', all))) = (
    f ∷ visited,
    rest,
    one ++ ws,
    ap (λ l. f ∷ l) parts,
    (
      append-Wrote wrote more,
      (is' ∙ (ap (λ (l : Writes host disk). l ++ ws) is ∙ append_assoc (writes w) one ws), all),
    ),
  )

  loop-Done :
      (f : Result Error (DirEntry host)) (fs : List (Result Error (DirEntry host))) (w : World)
      (r : Result (Stop Error) (Unit {0}) × World) (next : Unit {0} → Step host (Unit {0}))
      → Ends host disk (Wrote (f ∷ [])) w r
      → ((w' : World) → Done fs w' (next tt w'))
      → Done (f ∷ fs) w (continue_with r next)
  loop-Done f fs w (ok tt, w') next (one, wrote, is) rest =
      Done-behind f fs w w' one (next tt w') wrote is (rest w')
  loop-Done f fs w (err e, w') next is rest =
      ([], f ∷ fs, [], refl, (nothing, (is ∙ sym (append-nil (writes w)), λ o. absurd (cc o))))

  -- The loop ends with each entry up to some point visited, and after success all entries. It has
  -- written, in the entries' order, one file for each Rust file among those: at the path that belongs
  -- to it, what rustfmt gave for the expansion of its text with the crate's paths renamed; and for
  -- directories and other files nothing. There are no other writes, after an error or a panic either.
  pub expand_all_tests-Wrote :
      (fs : List (Result Error (DirEntry host))) (w : World)
      → Done fs w (expand_all_tests host casing grouping parse_args print fs w)
  unfolding expand_all_tests and_then
  expand_all_tests-Wrote [] w =
      ([], [], [], refl, (nothing, (sym (append-nil (writes w)), λ o. refl)))
  expand_all_tests-Wrote (f ∷ fs) w =
      loop-Done f fs w (visit host casing grouping parse_args print f w)
        (λ u. expand_all_tests host casing grouping parse_args print fs) (visit-Ends f w)
        (λ w'. expand_all_tests-Wrote fs w')
