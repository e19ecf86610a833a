-- ===== src/EventLoop.antt =====
-- The event loop that `SpawningFunction::new` generates for `start`
-- (shakespeare-macro/src/outputs/actor/spawning_function.rs), as steps of the loop and of its
-- environment.
pub mod Channels
pub mod Handles
pub mod Invariant
pub mod Exit
pub mod Ends
pub mod RunsOut
pub mod Serial
pub mod Messages
pub mod TaskResult
pub mod ExitValue
pub mod Races
use shakespeare.Prelude.{
  ℕ, suc, ◌+◌, ◌-◌, Bool, true, false, not, ◌&&◌, ◌||◌, Option, none, some, List, [], ◌∷◌, ◌++◌,
  Result, ok, err, ltb, ◌==◌, if◌then◌else◌, any_below,
}
use shakespeare.Core.Context
use shakespeare.Core.Context.{Context, is_running}

abbrev pub update {ℓ} : {A : Type ℓ} → (ℕ → A) → ℕ → A → ℕ → A
update f i x j = if i == j then x else f j

abbrev pub is_empty : {A : Type 0} → List A → Bool
is_empty [] = true
is_empty (x ∷ xs) = false

-- Where the loop's task stands. `select!` evaluates the preconditions of its branches one after the
-- other: `checking k guards` is before that of branch `k`, with the values of those before it, and
-- `selecting guards timer` waits with the values of all. Behind the loop's end, or a panic that was
-- caught, a hook runs, and with its end the task is done.
pub data Phase (Msg Panic : Type 0) : Type 0 where
  checking : ℕ → (ℕ → Bool) → Phase Msg Panic
  selecting : (ℕ → Bool) → Bool → Phase Msg Panic
  handling : ℕ → Msg → Phase Msg Panic
  exited : Phase Msg Panic
  panicked : Panic → Phase Msg Panic
  done : Option Panic → Phase Msg Panic

-- The top of the loop.
abbrev pub top : {Msg Panic : Type 0} → Phase Msg Panic
top = checking 0 (λ _. false)

-- What a handler does with the context that it is given.
pub data Verb : Type 0 where
  nothing stops : Verb

-- What the generated code takes from the actor: a dispatch method for each performance. A handler
-- changes the state and may call `Context::stop`, or panics with the state changed.
pub record Actor : Type 1 where
  pub State : Type 0
  pub Msg : Type 0
  pub Panic : Type 0
  pub performances : ℕ
  pub perform : ℕ → State → Context → Msg → Result (State × Panic) (State × Verb)

module _ (actor : Actor) where
  open actor use {State, Msg, Panic, performances, perform}

  -- `accepted` and `taken` record the history of each queue, and the code does not read them.
  pub record Sys : Type 0 where
    pub state : State
    pub context : Context
    pub queues : ℕ → List Msg
    pub elapsed : Bool
    pub phase : Phase Msg Panic
    pub accepted : ℕ → List Msg
    pub taken : ℕ → List Msg

  -- The start of the task: the spawner's handle and the stored one, all queues empty.
  unfoldable pub start : State → Sys
  unfolding Context.new
  start state = record {
    state = state;
    context = Context.new 2;
    queues = λ _. [];
    elapsed = false;
    phase = top;
    accepted = λ _. [];
    taken = λ _. [];
  }

  pub data Event : Type 0 where
    -- the loop's own steps
    enter : Event
    receive : ℕ → Event
    -- a handler, or a hook, comes to its end
    finish : Event
    timeout : Event
    -- those of its environment
    push : ℕ → Msg → Event
    clone_handle : Event
    drop_handle : Event
    elapse : Event

  -- `!(output.is_empty()) || context.is_running()`
  abbrev pub guard : Context → (ℕ → List Msg) → ℕ → Bool
  guard context queues i = not (is_empty (queues i)) || is_running context

  -- Behind the last branch the timer's precondition is evaluated. `select!` with every branch disabled
  -- takes `else`, which breaks.
  pub enter_select : (ℕ → Bool) → Sys → Sys
  enter_select guards s =
      let timer = is_running s.context in
      if any_below performances guards || timer
      then record s { phase = selecting guards timer }
      else record s { phase = exited }

  -- The evaluation of one precondition.
  pub check_next : ℕ → (ℕ → Bool) → Sys → Sys
  unfolding enter_select
  check_next k guards s =
      if ltb k performances
      then record s { phase = checking (suc k) (update guards k (guard s.context s.queues k)) }
      else enter_select guards s

  -- A branch whose `recv` has a message resets the timer and calls the performance.
  pub take_from : ℕ → List Msg → Sys → Option Sys
  take_from i [] s = none
  take_from i (m ∷ rest) s = some (record s {
    queues = update s.queues i rest;
    elapsed = false;
    phase = handling i m;
    taken = update s.taken i (s.taken i ++ m ∷ []);
  })

  -- The timer's branch looks at the context again.
  pub on_timeout : Sys → Sys
  on_timeout s =
      if not (is_running s.context)
      then record s { phase = exited }
      else record s { elapsed = false; phase = top }

  abbrev pub obey : Verb → Context → Context
  obey nothing c = c
  obey stops c = Context.stop c

  pub after_perform : Result (State × Panic) (State × Verb) → Sys → Sys
  unfolding Context.stop
  after_perform (ok (state, verb)) s = record s {
    state = state;
    context = obey verb s.context;
    phase = top;
  }
  after_perform (err (state, panic)) s = record s { state = state; phase = panicked panic }

  -- The receivers live until the task is done, and a send behind that fails.
  abbrev pub is_over : Phase Msg Panic → Bool
  is_over (done _) = true
  is_over _ = false

  -- The loop's own steps; `none` is a step that is not enabled.
  pub internal : Phase Msg Panic → Event → Sys → Option Sys
  unfolding check_next take_from on_timeout after_perform
  internal (checking k guards) enter s = some (check_next k guards s)
  internal (selecting guards timer) (receive i) s =
      if ltb i performances && guards i then take_from i (s.queues i) s else none
  internal (selecting guards timer) timeout s =
      if timer && s.elapsed then some (on_timeout s) else none
  internal (handling i m) finish s = some (after_perform (perform i s.state s.context m) s)
  internal exited finish s = some (record s { phase = done none })
  internal (panicked x) finish s = some (record s { phase = done (some x) })
  internal _ _ s = none

  -- The last reference is the context's own, and is dropped only with the task.
  unfoldable pub step : Event → Sys → Option Sys
  unfolding internal Context.get_shell
  step (push i m) s =
      if ltb i performances && not (is_over s.phase)
      then some (record s {
        queues = update s.queues i (s.queues i ++ m ∷ []);
        accepted = update s.accepted i (s.accepted i ++ m ∷ []);
      })
      else none
  step clone_handle s = some (record s { context = Context.get_shell s.context })
  step drop_handle s =
      if ltb 1 s.context.strong_count
      then some
          (record s { context = record (s.context) { strong_count = s.context.strong_count - 1 } })
      else none
  step elapse s = some (record s { elapsed = true })
  step enter s = internal s.phase enter s
  step (receive i) s = internal s.phase (receive i) s
  step finish s = internal s.phase finish s
  step timeout s = internal s.phase timeout s

  unfoldable pub run : List Event → Sys → Option Sys
  run [] s = some s
  run (e ∷ es) s = elim (step e s) [ none ↦ none | some t ↦ run es t ]
