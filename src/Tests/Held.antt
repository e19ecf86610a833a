-- ===== src/Tests/Held.antt =====
-- Those who hold the shell of the counter of Tests/Loop, and what they send.
use shakespeare.Prelude.{◌≡◌, refl, false, ◌&&◌, Option, none, some, List, [], ◌∷◌, ltb, any_below}
use shakespeare.Core.Context.{is_running}
use shakespeare.EventLoop.{enter, receive, finish, timeout, elapse, start, is_over, step, exited}
use shakespeare.EventLoop.Handles.{
  Owned, Act, turn, release, call, give, deliver, spawned, act, act_all,
}
use shakespeare.EventLoop.Handles.Runs.{IsRun}
use shakespeare.EventLoop.Handles.Fits.{owners}
use shakespeare.EventLoop.Handles.Kept.{has_next, acts-Accepted}
use shakespeare.Tests.Loop.{counter}

abbrev owned_or_start : Option (Owned counter) → Owned counter
owned_or_start none = spawned counter 0
owned_or_start (some o) = o

-- The only handle goes while a message is still in its envelope, and the timer elapses: the loop waits
-- for the message.
abbrev envelope_only : List (Act counter)
envelope_only =
    call 0 3
    ∷ release
    ∷ turn enter
    ∷ turn enter
    ∷ turn enter
    ∷ turn elapse
    ∷ turn timeout
    ∷ deliver 0
    ∷ turn enter
    ∷ []

abbrev delivered : Owned counter
delivered = owned_or_start (act_all counter envelope_only (spawned counter 0))

delivered_queue : delivered.sys.queues 0 ≡ 3 ∷ []
unfolding act_all step spawned start any_below is_running
delivered_queue = refl

-- The last holder hands its handle over with a message; behind that nothing holds the actor.
abbrev handed_over : List (Act counter)
handed_over =
    give 1 4
    ∷ deliver 0
    ∷ turn enter
    ∷ turn enter
    ∷ turn enter
    ∷ turn (receive 1)
    ∷ turn finish
    ∷ turn enter
    ∷ turn enter
    ∷ turn enter
    ∷ []

abbrev left : Owned counter
left = owned_or_start (act_all counter handed_over (spawned counter 0))

left_exited : (left.sys.phase ≡ exited) × (left.sys.state ≡ 4)
unfolding act_all step spawned start any_below is_running
left_exited = (refl, refl)

-- A message that stops the actor: what is sent behind its end is refused.
abbrev stopped_before : List (Act counter)
stopped_before =
    call 0 0
    ∷ deliver 0
    ∷ call 0 5
    ∷ turn enter
    ∷ turn enter
    ∷ turn enter
    ∷ turn (receive 0)
    ∷ turn finish
    ∷ turn enter
    ∷ turn enter
    ∷ turn enter
    ∷ turn finish
    ∷ deliver 0
    ∷ []

abbrev refusing : Owned counter
refusing = owned_or_start (act_all counter stopped_before (spawned counter 0))

refused_five : refusing.refused ≡ 5 ∷ []
unfolding act_all step spawned start any_below is_running
refused_five = refl

acts-Accepted_example :
    IsRun counter (start counter 0) delivered.sys
    × (delivered.refused ≡ [])
    × (is_running delivered.sys.context ≡ ltb 0 (owners counter delivered))
    × ((is_over counter delivered.sys.phase && ltb 0 (owners counter delivered)) ≡ false)
    × (has_next counter (act counter (call 1 2) delivered) ≡ (ltb 0 delivered.handles && ltb 1 2))
unfolding act_all step spawned start any_below is_running
acts-Accepted_example = acts-Accepted counter 0 envelope_only delivered 1 2 refl refl
