-- ===== src/Tests/Loop.antt =====
-- An actor with two performances that adds up what it is told, and runs of its event loop.
use shakespeare.EventLoop.ExitValue.{exit_value, yielded}
use shakespeare.EventLoop.Serial.{serial, log, of_queue, in_hand, run-serial}
use shakespeare.Prelude.{◌++◌}
use shakespeare.Prelude.{
  false_ne_true, ℕ, zero, suc, ◌+◌, ◌<◌, ◌≤◌, ◌≡◌, ◌≢◌, refl, Bool, true, false, Option, none, some,
  List, [], ◌∷◌, Result, ok, err, ◌==◌, if◌then◌else◌, arith, length, All, any_below, ap,
}
use shakespeare.Futures.{ready, pending}
use shakespeare.Core.Context.{Context, is_running}
use shakespeare.Core.Outcome.{Outcome}
use shakespeare.EventLoop.{
  Actor, Phase, Verb, nothing, stops, Sys, Event, enter, receive, finish, timeout, push,
  drop_handle, elapse, start, step, run, exited, done,
}
use shakespeare.EventLoop.Invariant.{Inv, step-Inv, start-Inv}
use shakespeare.EventLoop.Exit.{exit_drains}
use shakespeare.EventLoop.Races.{timeout_abandons, dropped_handle_hangs}
use shakespeare.EventLoop.Ends.{steps_left, own_steps_bounded}
use shakespeare.EventLoop.RunsOut.{is_loop_or_time}
use shakespeare.EventLoop.TaskResult.{Hooks, poll_handle, stopped_yields_outcome}

-- A message of 0 stops the actor, and 7 makes its handler panic.
abbrev pub add_up : ℕ → ℕ → Context → ℕ → Result (ℕ × ℕ) (ℕ × Verb)
add_up i total c zero = ok (total, stops)
add_up i total c (suc m) = if m == 6 then err (total + 7, total) else ok (total + suc m, nothing)

abbrev pub counter : Actor
counter = record { State = ℕ; Msg = ℕ; Panic = ℕ; performances = 2; perform = add_up }

abbrev counter_hooks : Hooks counter
counter_hooks = record {
  ExitType = ℕ;
  PanicType = ℕ;
  run_exit_handler = λ total. total;
  run_panic_handler = λ total p. total;
}

abbrev reached : Option (Sys counter) → Sys counter
reached none = start counter 0
reached (some s) = s

-- The actor is told 3 and 0, and before it has handled the 0 also 2 by the other performance.
abbrev pub stopped_by_message : List (Event counter)
stopped_by_message =
    push 0 3
    ∷ push 0 0
    ∷ enter
    ∷ enter
    ∷ enter
    ∷ receive 0
    ∷ finish
    ∷ enter
    ∷ enter
    ∷ enter
    ∷ receive 0
    ∷ push 1 2
    ∷ finish
    ∷ []

abbrev pub drained : List (Event counter)
drained = stopped_by_message ++ enter ∷ enter ∷ enter ∷ receive 1 ∷ finish ∷ []

abbrev at_stop : Sys counter
at_stop = reached (run counter stopped_by_message (start counter 0))

abbrev at_end : Sys counter
at_end = reached (run counter drained (start counter 0))

stopped_total : at_stop.state ≡ 3
unfolding run step start any_below is_running
stopped_total = refl

drained_total : at_end.state ≡ 5
unfolding run step start any_below is_running
drained_total = refl

abbrev sent_one : Sys counter
sent_one = reached (step counter (push 0 3) (start counter 0))

step-Inv_example : Inv counter sent_one
unfolding step start
step-Inv_example = step-Inv counter (push 0 3) (start counter 0) refl (start-Inv counter 0)

-- The preconditions of both branches, behind the last message.
abbrev last_round : List (Event counter)
last_round = enter ∷ enter ∷ []

abbrev at_last : Sys counter
at_last = reached (run counter last_round at_end)

abbrev after_end : Sys counter
after_end = reached (step counter enter at_last)

abbrev is_exited : Phase ℕ ℕ → Bool
is_exited exited = true
is_exited _ = false

not_exited : at_last.phase ≢ exited
unfolding run step start any_below is_running
not_exited e = false_ne_true (ap is_exited e)

exit_drains_example :
    (is_running after_end.context ≡ false)
    × ((i : ℕ)
        → i < 2
        → at_last.context.running ≡ false
        → (after_end.queues i ≡ []) × (after_end.taken i ≡ after_end.accepted i))
unfolding run step start any_below is_running
exit_drains_example =
    exit_drains counter 0 drained at_end last_round at_last enter after_end refl refl refl
      (tt, (tt, tt)) refl not_exited refl

timeout_abandons_example :
    (t : Sys counter) × (run counter
        (enter ∷ enter ∷ enter ∷ push 1 4 ∷ drop_handle ∷ elapse ∷ timeout ∷ finish ∷ [])
        (start counter 0)
      ≡ some t)
    × (t.phase ≡ done none)
    × (t.accepted 1 ≡ 4 ∷ [])
    × (t.taken 1 ≡ [])
timeout_abandons_example = timeout_abandons counter 0 1 4 (omega arith)

dropped_handle_hangs_example :
    (t : Sys counter) × (run counter (enter ∷ drop_handle ∷ enter ∷ enter ∷ []) (start counter 0)
      ≡ some t)
    × (t.context.strong_count ≡ 1)
    × ((es : List (Event counter)) (u : Sys counter)
        → All (λ e. is_loop_or_time counter e ≡ true) es
        → run counter es t ≡ some u
        → poll_handle counter counter_hooks (Unit {0}) u ≡ pending)
dropped_handle_hangs_example = dropped_handle_hangs counter counter_hooks (Unit {0}) 1 0 refl

-- What is left to the loop at the stop: it goes round once for the message 2, and exits.
abbrev rest : List (Event counter)
rest = enter ∷ enter ∷ enter ∷ receive 1 ∷ finish ∷ enter ∷ enter ∷ enter ∷ finish ∷ []

own_steps_bounded_example :
    length rest + steps_left counter (reached (run counter rest at_stop))
    ≤ steps_left counter at_stop
unfolding run step start any_below is_running
own_steps_bounded_example =
    own_steps_bounded counter rest at_stop (reached (run counter rest at_stop))
      (refl, (refl, (refl, (refl, (refl, (refl, (refl, (refl, (refl, tt))))))))) refl refl

stopped_yields_outcome_example :
    (es' : List (Event counter)) × (t : Sys counter) × (o : Outcome ℕ ℕ) × (run counter es' at_stop
      ≡ some t)
    × All (λ e. is_loop_or_time counter e ≡ true) es'
    × (poll_handle counter counter_hooks (Unit {0}) t ≡ ready o)
unfolding run step start any_below is_running
stopped_yields_outcome_example =
    stopped_yields_outcome counter counter_hooks (Unit {0}) 0 stopped_by_message at_stop refl refl

run-serial_example :
    (at_end.state ≡ serial counter (log counter drained (start counter 0)) 0)
    × ((i : ℕ)
        → at_end.accepted i
          ≡ (of_queue counter i (log counter drained (start counter 0))
              ++ in_hand counter at_end.phase i)
            ++ at_end.queues i)
unfolding run step start any_below is_running
run-serial_example = run-serial counter 0 drained at_end refl

abbrev ended : List (Event counter)
ended = drained ++ enter ∷ enter ∷ enter ∷ finish ∷ []

abbrev at_exit : Sys counter
at_exit = reached (run counter ended (start counter 0))

exit_value_example :
    (poll_handle counter counter_hooks (Unit {0}) at_exit
      ≡ ready (
          yielded counter counter_hooks
            (Unit {0})
            none
            (serial counter (log counter ended (start counter 0)) 0)))
    × ((i : ℕ)
        → at_exit.accepted i
          ≡ of_queue counter i (log counter ended (start counter 0)) ++ at_exit.queues i)
unfolding run step start any_below is_running
exit_value_example = exit_value counter counter_hooks (Unit {0}) 0 ended at_exit none refl refl

-- The message 7 makes a handler panic that has changed the state: the hook gets what it has made.
abbrev panics : List (Event counter)
panics = push 0 7 ∷ enter ∷ enter ∷ enter ∷ receive 0 ∷ finish ∷ finish ∷ []

abbrev at_panic : Sys counter
at_panic = reached (run counter panics (start counter 3))

caught : poll_handle counter counter_hooks (Unit {0}) at_panic ≡ ready (Outcome.panic 10)
unfolding run step start any_below is_running poll_handle
caught = refl
