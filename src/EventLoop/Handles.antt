-- ===== src/EventLoop/Handles.antt =====
-- Who holds references to an actor's shell, and what they send: ActorHandles in src/core/actor.rs, the
-- shell's getter in shakespeare-macro/src/outputs/actor/self_getter.rs, and what becomes of the `Arc`
-- of an envelope and of a task of src/sendable.rs.
pub mod Turns
pub mod Runs
pub mod Fits
pub mod Kept
use shakespeare.Prelude.{
  ℕ, zero, suc, ◌+◌, ◌-◌, Bool, true, false, ◌&&◌, Option, none, some, List, [], ◌∷◌, ◌++◌, ltb,
  if◌then◌else◌,
}
use shakespeare.EventLoop.{
  Actor, Phase, handling, Sys, Event, push, clone_handle, drop_handle, start, step, is_over,
}
use shakespeare.EventLoop.RunsOut.{is_loop_or_time}

module _ {A : Type 0} where
  pub or_behind : A → Option (A × List A) → Option (A × List A)
  or_behind x none = none
  or_behind x (some (y, ys)) = some (y, x ∷ ys)

  -- An item at a place, and the rest.
  pub take_at : ℕ → List A → Option (A × List A)
  unfolding or_behind
  take_at k [] = none
  take_at zero (x ∷ xs) = some (x, xs)
  take_at (suc k) (x ∷ xs) = or_behind x (take_at k xs)

module _ (actor : Actor) where
  open actor use {State, Msg, Panic, performances}

  -- An actor with those who hold its shell: handles, and messages that are still to be sent, each in
  -- an envelope, a future or a task that holds a reference of its own.
  pub record Owned : Type 0 where
    pub sys : Sys actor
    pub handles : ℕ
    pub pending : List (ℕ × Msg)
    -- the messages whose send has failed
    pub refused : List Msg

  pub data Act : Type 0 where
    -- a step of the loop, or time
    turn : Event actor → Act
    clone : Act
    release : Act
    -- `Context::get_shell` in a handler
    borrow : Act
    -- a method of the shell, which makes an envelope
    call : ℕ → Msg → Act
    -- `send_when_ready` with a handle, which goes to the task
    give : ℕ → Msg → Act
    -- an envelope or a task sends its message
    deliver : ℕ → Act

  -- `start` returns one handle.
  unfoldable pub spawned : State → Owned
  unfolding start
  spawned state = record { sys = start actor state; handles = 1; pending = []; refused = [] }

  -- With the end of the task the context's reference is gone.
  abbrev pub shell_count : Sys actor → ℕ
  shell_count s =
      if is_over actor s.phase then s.context.strong_count - 1 else s.context.strong_count

  -- `self.this.upgrade().expect("Dead actor?")`; `none` is the panic.
  pub get_shell : Sys actor → Option (Sys actor)
  unfolding step
  get_shell s = if ltb 0 (shell_count s) then step actor clone_handle s else none

  abbrev pub is_handling : Phase Msg Panic → Bool
  is_handling (handling i m) = true
  is_handling _ = false

  pub with_sys : Option (Sys actor) → Owned → Option Owned
  with_sys none o = none
  with_sys (some s) o = some (record o { sys = s })

  -- The send is done, and its reference is dropped.
  pub sent : Msg → Option (Sys actor) → Owned → Option Owned
  unfolding step with_sys
  sent m none o =
      with_sys (step actor drop_handle o.sys) (record o { refused = o.refused ++ m ∷ [] })
  sent m (some s) o = with_sys (step actor drop_handle s) o

  pub sends : Option ((ℕ × Msg) × List (ℕ × Msg)) → Owned → Option Owned
  unfolding sent
  sends none o = none
  sends (some ((i, m), rest)) o = sent m (step actor (push i m) o.sys) (record o { pending = rest })

  -- `Context::get_shell`, as a handler calls it.
  pub borrowed : Owned → Option Owned
  unfolding step with_sys
  borrowed o =
      if is_handling o.sys.phase
      then with_sys (step actor clone_handle o.sys) (record o { handles = o.handles + 1 })
      else none

  -- A method of the shell: `Envelope::new(payload, self.get_shell())`.
  pub called : ℕ → Msg → Owned → Option Owned
  unfolding get_shell with_sys
  called i m o = with_sys (get_shell o.sys) (record o { pending = (i, m) ∷ o.pending })

  -- A message's `send_when_ready(handle)`: the handle is the task's now.
  abbrev pub given : ℕ → Msg → Owned → Owned
  given i m o = record o { handles = o.handles - 1; pending = (i, m) ∷ o.pending }

  -- Each act is possible for those who hold what it needs.
  pub act : Act → Owned → Option Owned
  unfolding step with_sys borrowed called sends take_at
  act (turn e) o = if is_loop_or_time actor e then with_sys (step actor e o.sys) o else none
  act clone o =
      if ltb 0 o.handles
      then with_sys (step actor clone_handle o.sys) (record o { handles = o.handles + 1 })
      else none
  act release o =
      if ltb 0 o.handles
      then with_sys (step actor drop_handle o.sys) (record o { handles = o.handles - 1 })
      else none
  act borrow o = borrowed o
  act (call i m) o = if ltb 0 o.handles && ltb i performances then called i m o else none
  act (give i m) o = if ltb 0 o.handles && ltb i performances then some (given i m o) else none
  act (deliver k) o = sends (take_at k o.pending) o

  unfoldable pub act_all : List Act → Owned → Option Owned
  unfolding act
  act_all [] o = some o
  act_all (a ∷ acts) o = elim (act a o) [ none ↦ none | some o' ↦ act_all acts o' ]
