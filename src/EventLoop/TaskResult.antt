-- ===== src/EventLoop/TaskResult.antt =====
-- What the task of `start` returns, and what its exit handle yields
-- (shakespeare-macro/src/outputs/actor/spawning_function.rs, src/core/actor.rs).
use shakespeare.Prelude.{
  ◌≡◌, refl, true, false, Option, none, some, List, Result, ok, err, All, ◌∙◌,
}
use shakespeare.Futures.{Poll, pending, ready, Future, now, never}
use shakespeare.Core.Outcome.{Outcome, poll_exit}
use shakespeare.EventLoop.{
  Actor, Phase, checking, done, selecting, handling, exited, panicked, Sys, Event, start, run,
  is_over,
}
use shakespeare.EventLoop.RunsOut.{RunsOut-run, is_loop_or_time}

-- The actor's `stop` and `catch`, or what stands for them.
pub record Hooks (actor : Actor) : Type 1 where
  pub ExitType : Type 0
  pub PanicType : Type 0
  pub run_exit_handler : actor.State → ExitType
  pub run_panic_handler : actor.State → actor.Panic → PanicType

module _ (actor : Actor) (hooks : Hooks actor) (JoinError : Type 0) where
  open actor use {State, Msg, Panic}
  open hooks use {ExitType, PanicType, run_exit_handler, run_panic_handler}

  -- `match result`, after `catch_future`; `none` while the task still runs.
  unfoldable pub task_result : Phase Msg Panic → State → Option (Result PanicType ExitType)
  task_result (done none) state = some (ok (run_exit_handler state))
  task_result (done (some p)) state = some (err (run_panic_handler state p))
  task_result _ state = none

  -- The join handle of a task that runs, or has returned; it is not aborted.
  abbrev pub joining :
      Option (Result PanicType ExitType) → Future (Result JoinError (Result PanicType ExitType))
  joining none = never
  joining (some r) = now (ok r)

  -- A poll of the exit handle when the system is in a state.
  unfoldable pub poll_handle : Sys actor → Poll (Outcome ExitType PanicType)
  unfolding task_result poll_exit
  poll_handle s = (poll_exit (joining (task_result s.phase s.state))).0

  -- What the exit handle should say of a state.
  abbrev pub expected : Phase Msg Panic → State → Poll (Outcome ExitType PanicType)
  expected (done none) state = ready (Outcome.exit (run_exit_handler state))
  expected (done (some p)) state = ready (Outcome.panic (run_panic_handler state p))
  expected _ state = pending

  poll_handle-at :
      (p : Phase Msg Panic) (state : State)
      → (poll_exit (joining (task_result p state))).0 ≡ expected p state
  unfolding task_result poll_exit
  poll_handle-at (done none) state = refl
  poll_handle-at (done (some p)) state = refl
  poll_handle-at _ state = refl

  -- A poll of the exit handle, whose task is not aborted, never panics: it yields `Exit` with the value of the `stop` hook on the
  -- last state when the loop has ended and that hook too, `Panic` with the value of the `catch` hook on
  -- that state and the panic when a handler has panicked and that hook has ended, and is pending before.
  pub poll_handle-eq-expected : (s : Sys actor) → poll_handle s ≡ expected s.phase s.state
  unfolding poll_handle
  poll_handle-eq-expected s = poll_handle-at s.phase s.state

  expected-ready :
      (p : Phase Msg Panic) (state : State)
      → is_over actor p ≡ true
      → (o : Outcome ExitType PanicType) × (expected p state ≡ ready o)
  expected-ready (done none) state h = (_, refl)
  expected-ready (done (some p)) state h = (_, refl)
  expected-ready exited state h = absurd (cc)
  expected-ready (panicked p) state h = absurd (cc)
  expected-ready (checking k g) state h = absurd (cc)
  expected-ready (selecting g t) state h = absurd (cc)
  expected-ready (handling i m) state h = absurd (cc)

  -- A started actor that was stopped by a handler, after any history, comes by its loop's steps and
  -- the passing of time alone to a state in which its exit handle is ready.
  pub stopped_yields_outcome :
      (state : State) (es : List (Event actor)) (s : Sys actor)
      → run actor es (start actor state) ≡ some s
      → s.context.running ≡ false
      → (es' : List (Event actor)) × (t : Sys actor) × (o : Outcome ExitType PanicType) × (run actor
            es' s
          ≡ some t)
        × All (λ e. is_loop_or_time actor e ≡ true) es'
        × (poll_handle t ≡ ready o)
  stopped_yields_outcome state es s ran off =
      let (es', t, reached, over, own) = RunsOut-run actor state es s ran off in
      let (o, is) = expected-ready t.phase t.state over in
      (es', t, o, reached, own, poll_handle-eq-expected t ∙ is)
