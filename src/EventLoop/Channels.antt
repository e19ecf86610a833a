-- ===== src/EventLoop/Channels.antt =====
-- The loop of `start` as it calls its channels (shakespeare-macro/src/outputs/actor), with the senders
-- in the shell's fields and the receivers in the loop's branches.
pub mod Related
pub mod Phases
pub mod Transfers
pub mod Simulates
pub mod Made
use shakespeare.Prelude.{
  ℕ, zero, suc, Bool, true, false, not, ◌&&◌, ◌||◌, Option, none, some, Result, ok, err, ltb,
  any_below, if◌then◌else◌, List, [], ◌∷◌, ◌-◌,
}
use shakespeare.Futures.{Poll, pending, ready, fault}
use shakespeare.Core.Context
use shakespeare.Core.Context.{Context, is_running}
use shakespeare.Core.Channel.{Channel}
use shakespeare.EventLoop.{
  Actor, Phase, checking, done, top, selecting, handling, exited, panicked, Verb, Event, enter,
  receive, finish, timeout, push, clone_handle, drop_handle, elapse, obey, update,
}

module _ (actor : Actor) (channel : Channel actor.Msg) where
  open actor use {State, Msg, Panic, performances, perform}
  open channel use {World, Sender, Receiver}

  pub record Task : Type 0 where
    pub world : World
    pub state : State
    pub context : Context
    pub elapsed : Bool
    pub phase : Phase Msg Panic

  -- `#(#queue_constructions)*`: the channels, one for each performance up to the last, in their order.
  unfoldable pub queue_constructions : ℕ → World → (ℕ → Sender × Receiver) × World
  queue_constructions zero w = let (ends, w') = channel.new w in (λ i. ends, w')
  queue_constructions (suc last) w =
      let (made, w') = queue_constructions last w in
      let (ends, w'') = channel.new w' in (update made (suc last) ends, w'')

  -- The start of the task, with its channels made.
  unfoldable pub started : World → State → Task
  unfolding Context.new
  started w state = record {
    world = w;
    state = state;
    context = Context.new 2;
    elapsed = false;
    phase = top;
  }

  -- The ends of the channels, in the order of the performances, and how the receivers go with the
  -- task: `drop` is Rust's, of what the task holds.
  module _ (input : ℕ → Sender) (output : ℕ → Receiver) (drop : Receiver → World → World) where
    pub drop_all : ℕ → World → World
    drop_all zero w = w
    drop_all (suc n) w = drop_all n (drop (output n) w)

    abbrev pub ended : Phase Msg Panic → Task → Task
    ended phase t = record t { phase = phase; world = drop_all performances t.world }

    -- `!(output.is_empty()) || context.is_running()`
    abbrev pub guard_of : Task → ℕ → Bool
    guard_of t i = not (channel.is_empty (output i) t.world) || is_running t.context

    pub enter_select : (ℕ → Bool) → Task → Task
    enter_select guards t =
        let timer = is_running t.context in
        if any_below performances guards || timer
        then record t { phase = selecting guards timer }
        else record t { phase = exited }

    pub check_next : ℕ → (ℕ → Bool) → Task → Task
    unfolding enter_select
    check_next k guards t =
        if ltb k performances
        then record t { phase = checking (suc k) (update guards k (guard_of t k)) }
        else enter_select guards t

    -- `Some(msg) = output.recv()`
    pub received : ℕ → Poll (Option Msg) × World → Task → Option Task
    received i (ready (some msg), w) t =
        some (record t { world = w; elapsed = false; phase = handling i msg })
    received i (ready none, w) t = none
    received i (pending, w) t = none
    received i (fault, w) t = none

    pub on_timeout : Task → Task
    on_timeout t =
        if not (is_running t.context)
        then record t { phase = exited }
        else record t { elapsed = false; phase = top }

    pub after_perform : Result (State × Panic) (State × Verb) → Task → Task
    unfolding Context.stop
    after_perform (ok (state, verb)) t = record t {
      state = state;
      context = obey actor verb t.context;
      phase = top;
    }
    after_perform (err (state, panic)) t = record t { state = state; phase = panicked panic }

    -- With the end of the hook the task drops what it holds.
    pub internal : Phase Msg Panic → Event actor → Task → Option Task
    unfolding check_next received on_timeout after_perform drop_all
    internal (checking k guards) enter t = some (check_next k guards t)
    internal (selecting guards timer) (receive i) t =
        if ltb i performances && guards i
        then received i (channel.recv (output i) t.world) t
        else none
    internal (selecting guards timer) timeout t =
        if timer && t.elapsed then some (on_timeout t) else none
    internal (handling i m) finish t = some (after_perform (perform i t.state t.context m) t)
    internal exited finish t = some (ended (done none) t)
    internal (panicked x) finish t = some (ended (done (some x)) t)
    internal _ _ t = none

    -- `self.field.send(payload)` of the shell.
    pub sent : Result channel.Error (Unit {0}) × World → Task → Option Task
    sent (ok u, w) t = some (record t { world = w })
    sent (err e, w) t = none

    unfoldable pub step : Event actor → Task → Option Task
    unfolding internal sent Context.get_shell
    step (push i m) t =
        if ltb i performances then sent (channel.send (input i) m t.world) t else none
    step clone_handle t = some (record t { context = Context.get_shell t.context })
    step drop_handle t =
        if ltb 1 t.context.strong_count
        then some (record t {
          context = record (t.context) { strong_count = t.context.strong_count - 1 };
        })
        else none
    step elapse t = some (record t { elapsed = true })
    step enter t = internal t.phase enter t
    step (receive i) t = internal t.phase (receive i) t
    step finish t = internal t.phase finish t
    step timeout t = internal t.phase timeout t

    unfoldable pub run : List (Event actor) → Task → Option Task
    unfolding step
    run [] t = some t
    run (e ∷ es) t = elim (step e t) [ none ↦ none | some u ↦ run es u ]
