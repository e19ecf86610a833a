-- ===== src/EventLoop/ExitValue.antt =====
-- What an actor's exit handle yields, and what becomes of the messages that it has accepted
-- (shakespeare-macro/src/outputs/actor/spawning_function.rs, src/core/actor.rs).
use mathlib.Core.List.{append-nil}
use shakespeare.Prelude.{ℕ, ◌≡◌, refl, ◌∙◌, Option, none, some, List, ◌++◌}
use shakespeare.Futures.{ready}
use shakespeare.Core.Outcome.{Outcome}
use shakespeare.EventLoop.{Actor, done, Sys, Event, start, run}
use shakespeare.EventLoop.Serial.{log, serial, of_queue, run-serial}
use shakespeare.EventLoop.TaskResult.{Hooks, poll_handle, poll_handle-eq-expected}

module _ (actor : Actor) (hooks : Hooks actor) (JoinError : Type 0) where
  open actor use {State, Msg, Panic}
  open hooks use {ExitType, PanicType, run_exit_handler, run_panic_handler}

  -- What the hook makes of a state, behind the loop's end or a panic.
  abbrev pub yielded : Option Panic → State → Outcome ExitType PanicType
  yielded none state = Outcome.exit (run_exit_handler state)
  yielded (some x) state = Outcome.panic (run_panic_handler state x)

  -- If the task of a started actor is done, in any history, then its exit handle yields `Exit` with the
  -- value of the `stop` hook, or `Panic` with that of the `catch` hook for a panic, on what the
  -- handlers that have run, one after the other, make of the first state, with what a handler that
  -- panicked has made of it. For each queue these handlers have had the messages that were accepted, in
  -- order, up to those that are still queued, which nobody gets.
  pub exit_value :
      (state : State) (es : List (Event actor)) (t : Sys actor) (x : Option Panic)
      → run actor es (start actor state) ≡ some t
      → t.phase ≡ done x
      → (poll_handle actor hooks JoinError t
          ≡ ready (yielded x (serial actor (log actor es (start actor state)) state)))
        × ((i : ℕ)
            → t.accepted i ≡ of_queue actor i (log actor es (start actor state)) ++ t.queues i)
  unfolding start
  exit_value state es t none ran over =
      let (is, handled) = run-serial actor state es t ran in
      (
        poll_handle-eq-expected actor hooks JoinError t ∙ rw (over, is) refl,
        λ i. handled i ∙ rw (over, append-nil) refl,
      )
  exit_value state es t (some x) ran over =
      let (is, handled) = run-serial actor state es t ran in
      (
        poll_handle-eq-expected actor hooks JoinError t ∙ rw (over, is) refl,
        λ i. handled i ∙ rw (over, append-nil) refl,
      )
