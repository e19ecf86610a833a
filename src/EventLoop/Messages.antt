-- ===== src/EventLoop/Messages.antt =====
-- What holds of every message that is pushed holds of every message that a handler gets
-- (shakespeare-macro/src/outputs/actor/spawning_function.rs).
use shakespeare.Prelude.{
  ℕ, ◌≡◌, refl, subst, Bool, true, false, Option, none, some, List, [], ◌∷◌, ◌++◌, Result, ok, err,
  if◌then◌else◌, ltb, ◌==◌, ◌&&◌, ◌||◌, not, arith, any_below, All, Bool-cases, Option-cases, inl,
  inr,
}
use shakespeare.Core.Context.{Context, is_running}
use shakespeare.EventLoop.{
  Actor, Phase, checking, done, selecting, handling, exited, panicked, Verb, Sys, Event, enter,
  receive, finish, timeout, push, clone_handle, drop_handle, elapse, step, run, update, is_over,
  check_next, enter_select, take_from, on_timeout, after_perform, internal,
}
use shakespeare.EventLoop.Serial.{Handled, handled_by, log}

module _ (actor : Actor) (Fits : ℕ → actor.Msg → Type 0) where
  abbrev pub PushFits : Event actor → Type 0
  PushFits (push i m) = Fits i m
  PushFits _ = Unit

  abbrev pub HandledFits : Handled actor → Type 0
  HandledFits h = Fits h.queue h.msg

-- `Expected` holds of the panics that handlers of such messages come to.
module _ (actor : Actor) (Fits : ℕ → actor.Msg → Type 0) (Expected : actor.Panic → Type 0)
    (expects : (i : ℕ) (m : actor.Msg)
      → Fits i m
      → (st : actor.State) (c : Context) (x : actor.State × actor.Panic)
      → actor.perform i st c m ≡ err x
      → Expected x.1) where
  open actor use {State, Msg, Panic, performances, perform}

  abbrev pub PhaseFits : Phase Msg Panic → Type 0
  PhaseFits (handling i m) = Fits i m
  PhaseFits (panicked x) = Expected x
  PhaseFits (done (some x)) = Expected x
  PhaseFits _ = Unit

  abbrev pub QueuesFit : (ℕ → List Msg) → Type 0
  QueuesFit q = (i : ℕ) → All (Fits i) (q i)

  abbrev pub SysFits : Sys actor → Type 0
  SysFits s = QueuesFit s.queues × PhaseFits s.phase

  abbrev OptFits : Option (Sys actor) → Type 0
  OptFits none = Unit
  OptFits (some t) = SysFits t

  OptFits-if : (b : Bool) (t : Sys actor) → SysFits t → OptFits (if b then some t else none)
  OptFits-if true t f = f
  OptFits-if false t f = tt

  All-snoc :
      (i : ℕ) (ms : List Msg) (m : Msg) → All (Fits i) ms → Fits i m → All (Fits i) (ms ++ m ∷ [])
  All-snoc i [] m all one = (one, tt)
  All-snoc i (n ∷ ms) m (first, all) one = (first, All-snoc i ms m all one)

  QueuesFit-update :
      (q : ℕ → List Msg) (i : ℕ) (ms : List Msg)
      → QueuesFit q
      → All (Fits i) ms
      → QueuesFit (update q i ms)
  QueuesFit-update q i ms fit all j = elim (Bool-cases (i == j)) [
    | inl same ↦ let is : i ≡ j = ground arith in rw same (subst (λ k. All (Fits k) ms) is all)
    | inr other ↦ rw other (fit j)
  ]

  take-Fits :
      (b : Bool) (i : ℕ) (q : List Msg) (s : Sys actor)
      → QueuesFit s.queues
      → All (Fits i) q
      → OptFits (if b then take_from actor i q s else none)
  unfolding take_from
  take-Fits false i q s fit all = tt
  take-Fits true i [] s fit all = tt
  take-Fits true i (m ∷ q) s fit (one, all) = (QueuesFit-update s.queues i q fit all, one)

  branch-Fits : (b : Bool) (t u : Sys actor) → SysFits t → SysFits u → SysFits (if b then t else u)
  branch-Fits true t u f g = f
  branch-Fits false t u f g = g

  perform-Fits :
      (r : Result (State × Panic) (State × Verb)) (s : Sys actor)
      → QueuesFit s.queues
      → ((x : State × Panic) → r ≡ err x → Expected x.1)
      → SysFits (after_perform actor r s)
  unfolding after_perform
  perform-Fits (ok (st, verb)) s fit e = (fit, tt)
  perform-Fits (err (st, x)) s fit e = (fit, e (st, x) refl)

  internal-Fits :
      (p : Phase Msg Panic) (e : Event actor) (s : Sys actor)
      → QueuesFit s.queues
      → PhaseFits p
      → OptFits (internal actor p e s)
  unfolding internal check_next enter_select on_timeout
  internal-Fits (checking k g) enter s fit p =
      branch-Fits (ltb k performances) _ _ (fit, tt)
        (branch-Fits (any_below performances g || is_running s.context) _ _ (fit, tt) (fit, tt))
  internal-Fits (selecting guards timer) (receive i) s fit p =
      take-Fits (ltb i performances && guards i) i (s.queues i) s fit (fit i)
  internal-Fits (selecting guards timer) timeout s fit p =
      OptFits-if (timer && s.elapsed) _
        (branch-Fits (not (is_running s.context)) _ _ (fit, tt) (fit, tt))
  internal-Fits (handling i m) finish s fit p =
      perform-Fits (perform i s.state s.context m) s fit (expects i m p s.state s.context)
  internal-Fits exited finish s fit p = (fit, tt)
  internal-Fits (panicked x) finish s fit p = (fit, p)
  internal-Fits _ _ s fit p = tt

  step-Fits :
      (e : Event actor) (s : Sys actor)
      → SysFits s
      → PushFits actor Fits e
      → OptFits (step actor e s)
  unfolding step
  step-Fits (push i m) s (fit, p) one =
      OptFits-if (ltb i performances && not (is_over actor s.phase)) _
        (QueuesFit-update s.queues i _ fit (All-snoc i (s.queues i) m (fit i) one), p)
  step-Fits clone_handle s f one = f
  step-Fits drop_handle s f one = OptFits-if (ltb 1 s.context.strong_count) _ f
  step-Fits elapse s f one = f
  step-Fits enter s (fit, p) one = internal-Fits s.phase enter s fit p
  step-Fits (receive i) s (fit, p) one = internal-Fits s.phase (receive i) s fit p
  step-Fits finish s (fit, p) one = internal-Fits s.phase finish s fit p
  step-Fits timeout s (fit, p) one = internal-Fits s.phase timeout s fit p

  handled-Fits :
      (e : Event actor) (p : Phase Msg Panic) (c : Context) (rest : List (Handled actor))
      → PhaseFits p
      → All (HandledFits actor Fits) rest
      → All (HandledFits actor Fits) (handled_by actor e p c ++ rest)
  handled-Fits finish (handling i m) c rest one all = (one, all)
  handled-Fits finish (checking k g) c rest one all = all
  handled-Fits finish (selecting g t) c rest one all = all
  handled-Fits finish (done x) c rest one all = all
  handled-Fits finish exited c rest one all = all
  handled-Fits finish (panicked x) c rest one all = all
  handled-Fits _ p c rest one all = all

  -- The messages that handlers get, and the panics that end the loop.
  pub run-Fits :
      (es : List (Event actor)) (s t : Sys actor)
      → run actor es s ≡ some t
      → SysFits s
      → All (PushFits actor Fits) es
      → All (HandledFits actor Fits) (log actor es s) × SysFits t
  unfolding run log
  run-Fits [] s t ran f all = (tt, subst OptFits ran f)
  run-Fits (e ∷ es) s t ran f (one, all) = elim (Option-cases (step actor e s)) [
    | inl stuck ↦ absurd (cc (rw (stuck, run) at ran))
    | inr (u, steps) ↦
        let (handled, fits) =
          run-Fits es u t (rw (steps, run) at ran) (subst OptFits steps (step-Fits e s f one))
            all in
        rw (steps, log) (handled-Fits e s.phase s.context (log actor es u) f.1 handled, fits)
  ]
