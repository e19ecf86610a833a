-- ===== src/EventLoop/Handles/Runs.antt =====
-- What the holders of the shell (src/core/returnval.rs, src/sendable.rs) and the loop do together is a run
-- of the loop with its environment.
use shakespeare.Prelude.{
  ℕ, ◌+◌, ◌≡◌, refl, ◌∙◌, subst, Bool, true, false, ◌&&◌, Option, none, some, List, [], ◌∷◌, ◌++◌,
  ltb, if◌then◌else◌, Option-cases, Bool-cases, inl, inr, ap,
}
use shakespeare.EventLoop.{Actor, Sys, Event, push, clone_handle, drop_handle, step, run}
use shakespeare.EventLoop.RunsOut.{is_loop_or_time}
use shakespeare.EventLoop.Handles.{
  take_at, Owned, Act, turn, clone, release, borrow, call, give, deliver, shell_count, get_shell,
  is_handling, called, borrowed, with_sys, sent, sends, act, act_all,
}

module _ (actor : Actor) where
  open actor use {State, Msg, Panic, performances}

  abbrev pub IsRun : Sys actor → Sys actor → Type 0
  IsRun s t = (es : List (Event actor)) × (run actor es s ≡ some t)

  abbrev Runs : Sys actor → Option (Owned actor) → Type 0
  Runs s none = Unit
  Runs s (some o) = IsRun s o.sys

  Runs-if :
      (s : Sys actor) (b : Bool) (o : Option (Owned actor))
      → Runs s o
      → Runs s (if b then o else none)
  Runs-if s true o h = h
  Runs-if s false o h = tt

  run-step :
      (e : Event actor) (es : List (Event actor)) (s t u : Sys actor)
      → step actor e s ≡ some t
      → run actor es t ≡ some u
      → run actor (e ∷ es) s ≡ some u
  unfolding run
  run-step e es s t u on rest = rw (on, run) rest

  abbrev next_run : List (Event actor) → Option (Sys actor) → Option (Sys actor)
  next_run fs none = none
  next_run fs (some s) = run actor fs s

  run-append :
      (es fs : List (Event actor)) (s t : Sys actor)
      → run actor es s ≡ some t
      → run actor (es ++ fs) s ≡ run actor fs t
  unfolding run
  run-append [] fs s t first = ap (next_run fs) first
  run-append (e ∷ es) fs s t first = elim (Option-cases (step actor e s)) [
    | inl off ↦ absurd (cc (rw (off, run) at first))
    | inr (u, on) ↦ rw (on, run) (run-append es fs u t (rw (on, run) at first))
  ]

  pub IsRun-trans : (s t u : Sys actor) → IsRun s t → IsRun t u → IsRun s u
  IsRun-trans s t u (es, first) (fs, last) = (es ++ fs, run-append es fs s t first ∙ last)

  Runs-after : (s t : Sys actor) (o : Option (Owned actor)) → IsRun s t → Runs t o → Runs s o
  Runs-after s t none first h = tt
  Runs-after s t (some o) first h = IsRun-trans s t o.sys first h

  step-Runs :
      (e : Event actor) (s : Sys actor) (o : Owned actor) (r : Option (Sys actor))
      → step actor e s ≡ r
      → Runs s (with_sys actor r o)
  unfolding with_sys run
  step-Runs e s o none on = tt
  step-Runs e s o (some t) on = (e ∷ [], run-step e [] s t t on refl)

  sent-Runs :
      (i : ℕ) (m : Msg) (o : Owned actor) (r : Option (Sys actor))
      → step actor (push i m) o.sys ≡ r
      → Runs o.sys (sent actor m r o)
  unfolding sent run
  sent-Runs i m o none on = step-Runs drop_handle o.sys _ _ refl
  sent-Runs i m o (some t) on =
      Runs-after o.sys t _ (push i m ∷ [], run-step (push i m) [] o.sys t t on refl)
        (step-Runs drop_handle t o _ refl)

  sends-Runs :
      (r : Option ((ℕ × Msg) × List (ℕ × Msg))) (o : Owned actor) → Runs o.sys (sends actor r o)
  unfolding sends
  sends-Runs none o = tt
  sends-Runs (some ((i, m), rest)) o = sent-Runs i m (record o { pending = rest }) _ refl

  called-Runs : (i : ℕ) (m : Msg) (o : Owned actor) → Runs o.sys (called actor i m o)
  unfolding called get_shell with_sys
  called-Runs i m o = elim (Bool-cases (ltb 0 (shell_count actor o.sys))) [
    | inl alive ↦
        rw alive (step-Runs clone_handle o.sys (record o { pending = (i, m) ∷ o.pending }) _ refl)
    | inr dead ↦ rw dead tt
  ]

  act-Runs : (a : Act actor) (o : Owned actor) → Runs o.sys (act actor a o)
  unfolding act borrowed run
  act-Runs (turn e) o = Runs-if o.sys (is_loop_or_time actor e) _ (step-Runs e o.sys o _ refl)
  act-Runs clone o =
      Runs-if o.sys (ltb 0 o.handles) _
        (step-Runs clone_handle o.sys (record o { handles = o.handles + 1 }) _ refl)
  act-Runs release o = Runs-if o.sys (ltb 0 o.handles) _ (step-Runs drop_handle o.sys _ _ refl)
  act-Runs borrow o =
      Runs-if o.sys (is_handling actor o.sys.phase) _
        (step-Runs clone_handle o.sys (record o { handles = o.handles + 1 }) _ refl)
  act-Runs (call i m) o =
      Runs-if o.sys (ltb 0 o.handles && ltb i performances) _ (called-Runs i m o)
  act-Runs (give i m) o = Runs-if o.sys (ltb 0 o.handles && ltb i performances) _ ([], refl)
  act-Runs (deliver k) o = sends-Runs (take_at k o.pending) o

  pub act_all-IsRun :
      (acts : List (Act actor)) (o o' : Owned actor)
      → act_all actor acts o ≡ some o'
      → IsRun o.sys o'.sys
  unfolding act_all run
  act_all-IsRun [] o o' ran = subst (Runs o.sys) ran ([], refl)
  act_all-IsRun (a ∷ acts) o o' ran = elim (Option-cases (act actor a o)) [
    | inl off ↦ absurd (cc (rw (off, act_all) at ran))
    | inr (u, on) ↦
        IsRun-trans o.sys u.sys o'.sys (subst (Runs o.sys) on (act-Runs a o))
          (act_all-IsRun acts u o' (rw (on, act_all) at ran))
  ]
