-- ===== src/EventLoop/Handles/Fits.antt =====
-- What holds of those who keep an actor's shell (src/core/actor.rs, src/core/returnval.rs), and how the
-- loop's steps and one reference more or less keep it.
use shakespeare.Prelude.{
  ℕ, zero, suc, ◌+◌, ◌<◌, ◌≡◌, refl, ◌∙◌, ap, Bool, true, false, Option, none, some, List, [], ◌∷◌,
  ltb, if◌then◌else◌, Bool-cases, inl, inr, arith, length, All,
}
use shakespeare.Core.Context.{is_running}
use shakespeare.EventLoop.{
  Actor, Sys, Event, enter, receive, finish, timeout, push, clone_handle, drop_handle, elapse, step,
}
use shakespeare.EventLoop.RunsOut.{is_loop_or_time}
use shakespeare.EventLoop.Handles.{take_at, or_behind, Owned, with_sys}
use shakespeare.EventLoop.Handles.Turns.{is_panicked, is_broken, Went, internal-Went, has_left}

-- What is taken out of a list, and the rest, are what the list was.
module _ {A : Type 0} (P : A → Type 0) where
  abbrev pub Taken : List A → Option (A × List A) → Type 0
  Taken xs none = Unit
  Taken xs (some (y, ys)) = P y × All P ys × (length xs ≡ suc (length ys))

  or_behind-Taken :
      (x : A) (xs : List A) (o : Option (A × List A))
      → P x
      → Taken xs o
      → Taken (x ∷ xs) (or_behind x o)
  unfolding or_behind
  or_behind-Taken x xs none p h = tt
  or_behind-Taken x xs (some (y, ys)) p (q, qs, e) = (q, (p, qs), ap suc e)

  pub take_at-Taken : (k : ℕ) (xs : List A) → All P xs → Taken xs (take_at k xs)
  unfolding take_at
  take_at-Taken k [] h = tt
  take_at-Taken zero (x ∷ xs) (p, ps) = (p, ps, refl)
  take_at-Taken (suc k) (x ∷ xs) (p, ps) =
      or_behind-Taken x xs (take_at k xs) p (take_at-Taken k xs ps)

module _ (actor : Actor) where
  open actor use {State, Msg, Panic, performances}

  -- Those who hold the shell, beside the task.
  abbrev pub owners : Owned actor → ℕ
  owners o = o.handles + length o.pending

  abbrev pub IsNear : ℕ × Msg → Type 0
  IsNear p = p.0 < performances

  -- The references are counted; and while no handler has stopped the actor or has panicked, nothing is
  -- refused, and the loop has only ended when nobody holds the shell.
  pub record Fits (o : Owned actor) : Type 0 where
    pub count : o.sys.context.strong_count ≡ suc (owners o)
    pub near : All IsNear o.pending
    pub kept :
        is_broken actor o.sys ≡ false
        → (o.refused ≡ []) × (has_left actor o.sys.phase ≡ true → owners o ≡ 0)

  abbrev pub Keeps : Option (Owned actor) → Type 0
  Keeps none = Unit
  Keeps (some o) = Fits o

  pub Keeps-if :
      (b : Bool) (o : Option (Owned actor)) → (b ≡ true → Keeps o) → Keeps (if b then o else none)
  Keeps-if true o h = h refl
  Keeps-if false o h = tt

  not_broken :
      (s : Sys actor)
      → is_panicked actor s.phase ≡ false
      → s.context.running ≡ true
      → is_broken actor s ≡ false
  not_broken s calm r = rw (r, calm) refl

  pub running_of : (s : Sys actor) → is_broken actor s ≡ false → s.context.running ≡ true
  running_of s b = ground arith

  internal-Keeps :
      (r : Option (Sys actor)) (o : Owned actor)
      → Fits o
      → Went actor o.sys.phase o.sys.context r
      → Keeps (with_sys actor r o)
  unfolding with_sys is_running
  internal-Keeps none o h w = tt
  internal-Keeps (some t) o h (count, was, calm, ends) = record {
    count = count ∙ h.count;
    near = h.near;
    kept = λ b.
        let r = running_of t b in
        let quiet = h.kept (not_broken o.sys (calm (ground arith)) (was r)) in
        (
          quiet.0,
          λ over. elim (Bool-cases (has_left actor o.sys.phase)) [
            | inl before ↦ quiet.1 before
            | inr now ↦
                let off : is_running t.context ≡ false = ends over now b in
                let all = h.count in ground arith
          ],
        );
  }

  pub turn-Keeps :
      (e : Event actor) (o : Owned actor)
      → Fits o
      → is_loop_or_time actor e ≡ true
      → Keeps (with_sys actor (step actor e o.sys) o)
  unfolding step with_sys
  turn-Keeps enter o h l = internal-Keeps _ o h (internal-Went actor o.sys.phase enter o.sys)
  turn-Keeps (receive i) o h l =
      internal-Keeps _ o h (internal-Went actor o.sys.phase (receive i) o.sys)
  turn-Keeps finish o h l = internal-Keeps _ o h (internal-Went actor o.sys.phase finish o.sys)
  turn-Keeps timeout o h l = internal-Keeps _ o h (internal-Went actor o.sys.phase timeout o.sys)
  turn-Keeps elapse o h l = record { count = h.count; near = h.near; kept = h.kept }
  turn-Keeps (push i m) o h l = absurd (cc)
  turn-Keeps clone_handle o h l = absurd (cc)
  turn-Keeps drop_handle o h l = absurd (cc)

  -- One more reference, taken by someone who holds one.
  pub clone-Keeps :
      (o o' : Owned actor)
      → Fits o
      → All IsNear o'.pending
      → o'.refused ≡ o.refused
      → owners o' ≡ suc (owners o)
      → (has_left actor o.sys.phase ≡ true → 0 < owners o)
      → Keeps (with_sys actor (step actor clone_handle o.sys) o')
  unfolding step with_sys
  clone-Keeps o o' h near same more held = record {
    count = omega (arith, h.count, more);
    near = near;
    kept = λ b.
        let quiet = h.kept b in
        (same ∙ quiet.0, λ over. let none_left = quiet.1 over in absurd (omega (arith, held over)));
  }

  -- One reference less.
  pub drop-Keeps :
      (s : Sys actor) (o' : Owned actor)
      → s.context.strong_count ≡ suc (suc (owners o'))
      → All IsNear o'.pending
      → (is_broken actor s ≡ false
          → (o'.refused ≡ []) × (has_left actor s.phase ≡ true → owners o' ≡ 0))
      → Keeps (with_sys actor (step actor drop_handle s) o')
  unfolding step with_sys
  drop-Keeps s o' count near kept =
      let more : ltb 1 s.context.strong_count ≡ true = ground arith in
      rw more (record { count = omega (arith, count); near = near; kept = kept })
