-- ===== src/EventLoop/RunsOut.antt =====
-- The task of `start` comes to its end by its loop's steps and the passing of time.
use shakespeare.Prelude.{
  ℕ, zero, suc, ◌<◌, ◌≤◌, ◌≡◌, refl, Bool, true, false, some, List, [], ◌∷◌, arith, Bool-cases, inl,
  inr, subst, ◌∙◌, All,
}
use shakespeare.Core.Context.{Context, is_running}
use shakespeare.EventLoop.{
  Actor, Sys, Event, enter, receive, finish, timeout, push, clone_handle, drop_handle, elapse,
  start, step, run, is_over,
}
use shakespeare.EventLoop.Invariant.{Inv, start-Inv, step-Inv, run-Inv}
use shakespeare.EventLoop.Ends.{is_own, steps_left, own_step, internal-step, own-Falls, Falls}

module _ (actor : Actor) where
  open actor use {State, Msg, Panic}

  -- The loop's steps and the passing of time.
  abbrev pub is_loop_or_time : Event actor → Bool
  is_loop_or_time elapse = true
  is_loop_or_time e = is_own actor e

  -- A run to the end of the task, with time and the loop alone.
  abbrev pub RunsOut : Sys actor → Type 0
  RunsOut s =
      (es : List (Event actor)) × (t : Sys actor) × (run actor es s ≡ some t)
      × (is_over actor t.phase ≡ true)
      × All (λ e. is_loop_or_time e ≡ true) es

  own→loop : (e : Event actor) → is_own actor e ≡ true → is_loop_or_time e ≡ true
  own→loop elapse own = cc
  own→loop enter own = refl
  own→loop (receive i) own = refl
  own→loop finish own = refl
  own→loop timeout own = refl
  own→loop (push i m) own = own
  own→loop clone_handle own = own
  own→loop drop_handle own = own

  stopped-off : (c : Context) → c.running ≡ false → is_running c ≡ false
  unfolding is_running
  stopped-off c stopped = ground arith

  -- One more step of the loop.
  run_on :
      (s : Sys actor)
      → Inv actor s
      → s.context.running ≡ false
      → is_over actor s.phase ≡ false
      → (e : Event actor) × (u : Sys actor) × (is_own actor e ≡ true)
        × (step actor e s ≡ some u)
        × Inv actor u
        × (steps_left actor u < steps_left actor s)
        × (u.context.running ≡ false)
  run_on s inv stopped on =
      let (e, u, own, steps) = own_step actor s.phase s inv.waiting on stopped in
      let stepped = internal-step actor e s own ∙ steps in
      let (less, off', kept) =
        subst (Falls actor (steps_left actor s) s.context.running) stepped
          (own-Falls actor e s own (stopped-off s.context stopped)) in
      (e, u, own, stepped, step-Inv actor e s stepped inv, less, kept stopped)

  RunsOut-steps_left :
      (n : ℕ) (s : Sys actor)
      → Inv actor s
      → s.context.running ≡ false
      → steps_left actor s ≤ n
      → RunsOut s
  unfolding run
  RunsOut-steps_left zero s inv off h = elim (Bool-cases (is_over actor s.phase)) [
    | inl over ↦ ([], s, refl, over, tt)
    | inr on ↦
        let (e, u, own, stepped, inv', less, off') = run_on s inv off on in absurd (omega arith)
  ]
  RunsOut-steps_left (suc n) s inv off h = elim (Bool-cases (is_over actor s.phase)) [
    | inl over ↦ ([], s, refl, over, tt)
    | inr on ↦
        let (e, u, own, stepped, inv', less, off') = run_on s inv off on in
        let (es, t, ran, over, loops) = RunsOut-steps_left n u inv' off' (omega arith) in
        (e ∷ es, t, rw (stepped, run) ran, over, (own→loop e own, loops))
  ]

  -- A started actor that was stopped, after any history, runs to its end by the steps of the loop
  -- alone.
  pub RunsOut-run :
      (state : State) (es : List (Event actor)) (s : Sys actor)
      → run actor es (start actor state) ≡ some s
      → s.context.running ≡ false
      → RunsOut s
  RunsOut-run state es s ran off =
      RunsOut-steps_left (steps_left actor s) s
        (run-Inv actor es (start actor state) ran (start-Inv actor state)) off (omega arith)
