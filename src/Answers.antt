-- ===== src/Answers.antt =====
-- The event loop with the dispatch methods that are generated for it: what
-- shakespeare-macro/src/outputs/actor/spawning_function.rs calls of
-- shakespeare-macro/src/outputs/performance/dispatch_core_fn.rs.
pub mod Served
use shakespeare.Prelude.{ℕ, Option, none, some, List, [], ◌∷◌, ◌++◌, String, Result, ok, err}
use shakespeare.Core.Context.{Context}
use shakespeare.Core.Role.{Roles, ReturnPath, ReturnEnvelope, Delivery}
use shakespeare.Macro.Syntax.{FunctionItem}
use shakespeare.Macro.Naming.{Casing, RoleName}
use shakespeare.Macro.Declarations.{Failure}
use shakespeare.Macro.Performance.{Arm, dispatch_cases}
use shakespeare.Macro.Performance.Dispatches.{Passed, Call, match_arms}
use shakespeare.EventLoop.{Actor, Verb}

-- What an actor's author writes: the performances, and what a method does when it is called, by
-- its renamed name: it gives a value and a new state, and may stop the context, or panics with the state
-- changed.
pub record Author : Type 1 where
  pub User : Type 0
  pub Value : Type 0
  pub Panic : Type 0
  pub performances : ℕ
  pub role : ℕ → RoleName
  pub handlers : ℕ → List FunctionItem
  pub method :
      String → List (Passed Value) → User → Context → Result (User × Panic) (Value × User × Verb)

-- A panic of a method, or a `match` without an arm, which Rust's compiler refuses.
pub data Stop (Panic : Type 0) : Type 0 where
  method : Panic → Stop Panic
  no_arm : Stop Panic

module _ (author : Author) where
  open author use {User, Value, Panic, performances, role, handlers}

  -- The roles by the number of their performance: a payload is a variant with its values, and a
  -- return payload a variant with its value.
  abbrev pub roles : Roles
  roles = record { Role = ℕ; Payload = λ i. String × List Value; Return = λ i. String × Value }

  -- `return_path.send(return_val)`, in the order of the calls.
  pub record Answer : Type 0 where
    pub return_path : ReturnPath roles (String × Value)
    pub return_val : String × Value

  abbrev pub State : Type 0
  State = User × List Answer

  abbrev pub answered :
      ReturnPath roles (String × Value)
      → String
      → List Answer
      → Result (User × Panic) (Value × User × Verb)
      → Result (State × Stop Panic) (State × Verb)
  answered path reply out (err (user, p)) = err ((user, out), Stop.method p)
  answered path reply out (ok (value, user, verb)) =
      ok ((user, out ++ record { return_path = path; return_val = (reply, value) } ∷ []), verb)

  abbrev pub answer_call :
      ReturnPath roles (String × Value)
      → State
      → Context
      → Option (Call Value)
      → Result (State × Stop Panic) (State × Verb)
  answer_call path st c none = err (st, no_arm)
  answer_call path (user, out) c (some call) =
      answered path call.reply out (author.method call.fn_name call.args user c)

  abbrev pub arms_of : Result Failure (List Arm) → List Arm
  arms_of (ok arms) = arms
  arms_of (err x) = []

  module _ (casing : Casing) where
    -- The dispatch method of a performance.
    unfoldable pub dispatch :
        ℕ → State → Context → ReturnEnvelope roles 0 → Result (State × Stop Panic) (State × Verb)
    dispatch i st context msg = answer_call msg.return_path st context (
        match_arms (arms_of (dispatch_cases casing (role i) (handlers i))) msg.payload.0
          msg.payload.1)

    -- The actor that `start` runs.
    abbrev pub running : Actor
    running = record {
      State = State;
      Msg = ReturnEnvelope roles 0;
      Panic = Stop Panic;
      performances = performances;
      perform = dispatch;
    }
