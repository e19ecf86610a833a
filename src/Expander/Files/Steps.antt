-- ===== src/Expander/Files/Steps.antt =====
-- Steps that write files, and steps that write none (xtask/src/expander.rs).
use mathlib.Core.List.{append-nil}
use shakespeare.Prelude.{
  ◌≡◌, refl, sym, ◌∙◌, ap, Option, none, some, List, [], ◌∷◌, ◌++◌, String, Result, ok, err,
}
use shakespeare.Expander.{Toks}
use shakespeare.Expander.Files.{Host, Step}
use shakespeare.Effects.{Stop, continue_with, and_then, returning, unwrapping, or_panic}

-- The writes that have succeeded, in order.
pub record Disk (host : Host) : Type 0 where
  pub writes : host.World → List (host.PathBuf × String)
  pub writes-dir :
      (p : host.PathBuf) (w : host.World) → writes (host.create_dir_all p w).1 ≡ writes w
  pub writes-read :
      (p : host.PathBuf) (w : host.World) → writes (host.read_to_string p w).1 ≡ writes w
  pub writes-format : (t : Toks) (w : host.World) → writes (host.format t w).1 ≡ writes w
  pub writes-written :
      (p : host.PathBuf) (s : String) (w : host.World)
      → (host.write p s w).0 ≡ ok tt
      → writes (host.write p s w).1 ≡ writes w ++ (p, s) ∷ []
  pub writes-failed :
      (p : host.PathBuf) (s : String) (w : host.World) (e : host.Error)
      → (host.write p s w).0 ≡ err e
      → writes (host.write p s w).1 ≡ writes w

module _ (host : Host) (disk : Disk host) where
  open host use {World, Error, PathBuf}
  open disk use {writes}

  abbrev pub Writes : Type 0
  Writes = List (PathBuf × String)

  -- A step that writes nothing, and what holds of its value.
  abbrev pub Quiet : {A : Type 0} → (A → Type 0) → World → Result (Stop Error) A × World → Type 0
  Quiet P w (ok a, w') = P a × (writes w' ≡ writes w)
  Quiet P w (err e, w') = writes w' ≡ writes w

  -- A step that has written something that `Q` holds of, or has failed and written nothing.
  abbrev pub Ends : (Writes → Type 0) → World → Result (Stop Error) (Unit {0}) × World → Type 0
  Ends Q w (ok u, w') = (ws : Writes) × Q ws × (writes w' ≡ writes w ++ ws)
  Ends Q w (err e, w') = writes w' ≡ writes w

  Ends-moved :
      (Q : Writes → Type 0) (w w' : World) (r : Result (Stop Error) (Unit {0}) × World)
      → writes w' ≡ writes w
      → Ends Q w' r
      → Ends Q w r
  Ends-moved Q w w' (ok u, w'') same (ws, q, is) = (ws, q, is ∙ ap (λ (l : Writes). l ++ ws) same)
  Ends-moved Q w w' (err e, w'') same is = is ∙ same

  continue_with-Ends :
      {A : Type 0} (P : A → Type 0) (Q : Writes → Type 0) (w : World)
      (r : Result (Stop Error) A × World) (f : A → Step host (Unit {0}))
      → Quiet P w r
      → ((a : A) (w' : World) → P a → Ends Q w' (f a w'))
      → Ends Q w (continue_with r f)
  continue_with-Ends P Q w (ok a, w') f (p, same) next =
      Ends-moved Q w w' (f a w') same (next a w' p)
  continue_with-Ends P Q w (err e, w') f same next = same

  pub and_then-Ends :
      {A : Type 0} (P : A → Type 0) (Q : Writes → Type 0) (w : World) (step : Step host A)
      (f : A → Step host (Unit {0}))
      → Quiet P w (step w)
      → ((a : A) (w' : World) → P a → Ends Q w' (f a w'))
      → Ends Q w (and_then step f w)
  unfolding and_then
  and_then-Ends P Q w step f quiet next = continue_with-Ends P Q w (step w) f quiet next

  pub returning-Quiet :
      {A : Type 0} (P : A → Type 0) (w : World) (r : Result Error A × World)
      → writes r.1 ≡ writes w
      → ((a : A) → r.0 ≡ ok a → P a)
      → Quiet P w (returning r)
  returning-Quiet P w (ok a, w') same p = (p a refl, same)
  returning-Quiet P w (err e, w') same p = same

  pub or_panic-Quiet :
      {A : Type 0} (w : World) (o : Option A) → Quiet (λ a. o ≡ some a) w (or_panic o w)
  or_panic-Quiet w none = refl
  or_panic-Quiet w (some a) = (refl, refl)

  pub format-Quiet :
      (toks : Toks) (w : World)
      → Quiet (λ s. (w' : World) × ((host.format toks w').0 ≡ ok s)) w (host.format toks w)
  format-Quiet toks w = quiet (host.format toks w) refl
    where
      quiet :
          (r : Result (Stop Error) String × World)
          → host.format toks w ≡ r
          → Quiet (λ s. (w' : World) × ((host.format toks w').0 ≡ ok s)) w r
      quiet (ok s, w') is =
          ((w, ap (λ r. r.0) is), ap (λ r. writes r.1) (sym is) ∙ disk.writes-format toks w)
      quiet (err e, w') is = ap (λ r. writes r.1) (sym is) ∙ disk.writes-format toks w

  pub write-Ends :
      (Q : Writes → Type 0) (p : PathBuf) (s : String) (w : World)
      → Q ((p, s) ∷ [])
      → Ends Q w (returning (host.write p s w))
  write-Ends Q p s w q = ends (host.write p s w) refl
    where
      ends : (r : Result Error (Unit {0}) × World) → host.write p s w ≡ r → Ends Q w (returning r)
      ends (ok tt, w') is = (
        (p, s) ∷ [],
        q,
        ap (λ r. writes r.1) (sym is) ∙ disk.writes-written p s w (ap (λ r. r.0) is),
      )
      ends (err e, w') is =
          ap (λ r. writes r.1) (sym is) ∙ disk.writes-failed p s w e (ap (λ r. r.0) is)

  pub mkdir-Ends :
      (Q : Writes → Type 0) (p : PathBuf) (w : World)
      → Q []
      → Ends Q w (unwrapping (host.create_dir_all p w))
  mkdir-Ends Q p w q = ends (host.create_dir_all p w) (disk.writes-dir p w)
    where
      ends : (r : Result Error (Unit {0}) × World) → writes r.1 ≡ writes w → Ends Q w (unwrapping r)
      ends (ok u, w') same = ([], q, same ∙ sym (append-nil (writes w)))
      ends (err e, w') same = same
