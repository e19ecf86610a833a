-- ===== src/Core/Outcome.antt =====
-- src/core/actor.rs: the exit value of an actor, and the future that yields it.
use shakespeare.Prelude.{Bool, false, Result, ok, err}
use shakespeare.Futures.{Poll, pending, ready, fault, Future, poll}

pub data Outcome (Exit Panic : Type 0) : Type 0 where
  exit : Exit → Outcome Exit Panic
  panic : Panic → Outcome Exit Panic

-- `PartialEq for Outcome`, over the tests of the two types.
unfoldable pub eq :
    {Exit Panic : Type 0}
    → (Exit → Exit → Bool)
    → (Panic → Panic → Bool)
    → Outcome Exit Panic
    → Outcome Exit Panic
    → Bool
eq e p (exit a) (exit b) = e a b
eq e p (panic a) (panic b) = p a b
eq e p _ _ = false

module _ {JoinError Exit Panic : Type 0} where
  -- The joined task's value; an aborted task is `unreachable!`, a panic.
  unfoldable pub outcome_of : Result JoinError (Result Panic Exit) → Poll (Outcome Exit Panic)
  outcome_of (ok (ok e)) = ready (exit e)
  outcome_of (ok (err f)) = ready (panic f)
  outcome_of (err e) = fault

  on_poll : Poll (Result JoinError (Result Panic Exit)) → Poll (Outcome Exit Panic)
  unfolding outcome_of
  on_poll pending = pending
  on_poll (ready result) = outcome_of result
  on_poll fault = fault

  -- `Future for ExitHandle`
  unfoldable pub poll_exit :
      Future (Result JoinError (Result Panic Exit))
      → Poll (Outcome Exit Panic) × Future (Result JoinError (Result Panic Exit))
  unfolding on_poll poll
  poll_exit handle = let (p, handle') = poll handle in (on_poll p, handle')
