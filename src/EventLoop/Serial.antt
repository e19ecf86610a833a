-- ===== src/EventLoop/Serial.antt =====
-- The handlers of an actor run one at a time, for each queue in the order of its messages
-- (shakespeare-macro/src/outputs/actor/spawning_function.rs).
use mathlib.Core.List.{append_assoc, append-nil}
use shakespeare.Prelude.{
  ℕ, suc, ◌≡◌, refl, sym, ap, subst, ◌∙◌, Bool, true, false, Option, none, some, List, [], ◌∷◌,
  ◌++◌, Result, ok, err, if◌then◌else◌, ltb, ◌==◌, ◌&&◌, ◌||◌, not, arith, any_below, Bool-cases,
  Option-cases, inl, inr,
}
use shakespeare.Core.Context.{Context, is_running}
use shakespeare.EventLoop.Invariant.{run-Inv, start-Inv}
use shakespeare.EventLoop.{
  Actor, Phase, checking, selecting, handling, exited, panicked, done, Verb, Sys, Event, enter,
  receive, finish, timeout, push, clone_handle, drop_handle, elapse, start, step, run, update,
  is_over, guard, check_next, enter_select, take_from, on_timeout, after_perform, internal,
}

module _ (actor : Actor) where
  open actor use {State, Msg, Panic, performances, perform}

  -- A handler that has run, with the context that it was given.
  pub record Handled : Type 0 where
    pub queue : ℕ
    pub msg : Msg
    pub context : Context

  abbrev pub handled_by : Event actor → Phase Msg Panic → Context → List Handled
  handled_by finish (handling i m) c = record { queue = i; msg = m; context = c } ∷ []
  handled_by _ _ c = []

  -- The handlers that run to their end, or panic, in a sequence of steps.
  unfoldable pub log : List (Event actor) → Sys actor → List Handled
  log [] s = []
  log (e ∷ es) s = elim (step actor e s) [
    | none ↦ []
    | some t ↦ handled_by e s.phase s.context ++ log es t
  ]

  -- Handlers run one after the other; one that panics leaves the state as it is by then.
  abbrev pub state_after : Result (State × Panic) (State × Verb) → State → State
  state_after (ok (st, verb)) old = st
  state_after (err (st, p)) old = st

  abbrev pub serial : List Handled → State → State
  serial [] st = st
  serial (h ∷ hs) st = serial hs (state_after (perform h.queue st h.context h.msg) st)

  abbrev pub of_queue : ℕ → List Handled → List Msg
  of_queue i [] = []
  of_queue i (h ∷ hs) = if h.queue == i then h.msg ∷ of_queue i hs else of_queue i hs

  abbrev pub in_hand : Phase Msg Panic → ℕ → List Msg
  in_hand (handling j m) i = if j == i then m ∷ [] else []
  in_hand _ i = []

  -- What one step adds to the log, against the state and the messages taken.
  abbrev pub TakenBy : Sys actor → List Handled → Sys actor → Type 0
  TakenBy s hs t =
      (i : ℕ) (before : List Msg)
      → s.taken i ≡ before ++ in_hand s.phase i
      → t.taken i ≡ (before ++ of_queue i hs) ++ in_hand t.phase i

  abbrev pub Follows : Sys actor → List Handled → Option (Sys actor) → Type 0
  Follows s hs none = Unit
  Follows s hs (some t) = (t.state ≡ serial hs s.state) × TakenBy s hs t

  Follows-if :
      (s : Sys actor) (hs : List Handled) (b : Bool) (o : Option (Sys actor))
      → Follows s hs o
      → Follows s hs (if b then o else none)
  Follows-if s hs true o f = f
  Follows-if s hs false o f = tt

  -- A step that leaves the state, the phase and the messages taken.
  Follows-idle :
      (s : Sys actor) (b : Bool) (t : Sys actor)
      → t.state ≡ s.state
      → t.taken ≡ s.taken
      → t.phase ≡ s.phase
      → Follows s [] (if b then some t else none)
  Follows-idle s true t state taken phase = (state, λ i before e. rw (taken, phase, append-nil) e)
  Follows-idle s false t state taken phase = tt

  -- A step between phases with no message at hand.
  TakenBy-free :
      (s t : Sys actor)
      → t.taken ≡ s.taken
      → ((i : ℕ) → in_hand s.phase i ≡ [])
      → ((i : ℕ) → in_hand t.phase i ≡ [])
      → TakenBy s [] t
  TakenBy-free s t taken was is i before e =
      rw (taken, is i, append-nil) (e ∙ rw (was i, append-nil) refl)

  -- A state with the same actor's state and messages taken, and no message at hand.
  abbrev IsFree : Sys actor → Sys actor → Type 0
  IsFree s t = (t.state ≡ s.state) × (t.taken ≡ s.taken) × ((i : ℕ) → in_hand t.phase i ≡ [])

  Follows-branch :
      (s t u : Sys actor) (b : Bool)
      → ((i : ℕ) → in_hand s.phase i ≡ [])
      → IsFree s t
      → IsFree s u
      → Follows s [] (some (if b then t else u))
  Follows-branch s t u true free (state, taken, is) h = (state, TakenBy-free s t taken free is)
  Follows-branch s t u false free h (state, taken, is) = (state, TakenBy-free s u taken free is)

  enter-Follows :
      (g : ℕ → Bool) (s : Sys actor)
      → ((i : ℕ) → in_hand s.phase i ≡ [])
      → Follows s [] (some (enter_select actor g s))
  unfolding enter_select
  enter-Follows g s free =
      Follows-branch s _ _ (any_below performances g || is_running s.context) free
        (refl, refl, λ i. refl) (refl, refl, λ i. refl)

  check-Follows :
      (k : ℕ) (g : ℕ → Bool) (s : Sys actor)
      → ((i : ℕ) → in_hand s.phase i ≡ [])
      → Follows s [] (some (check_next actor k g s))
  unfolding check_next
  check-Follows k g s free = elim (Bool-cases (ltb k performances)) [
    | inl more ↦
        let next = checking (suc k) (update g k (guard actor s.context s.queues k)) in
        rw more (refl, TakenBy-free s (record s { phase = next }) refl free (λ i. refl))
    | inr last ↦ rw last (enter-Follows g s free)
  ]

  -- The end of a hook.
  hook-Follows :
      (x : Option Panic) (s : Sys actor)
      → ((i : ℕ) → in_hand s.phase i ≡ [])
      → Follows s [] (some (record s { phase = done x }))
  hook-Follows x s free = (refl, TakenBy-free s (record s { phase = done x }) refl free (λ i. refl))

  receive-Follows :
      (j : ℕ) (q : List Msg) (s : Sys actor)
      → ((i : ℕ) → in_hand s.phase i ≡ [])
      → Follows s [] (take_from actor j q s)
  unfolding take_from
  receive-Follows j [] s free = tt
  receive-Follows j (m ∷ q) s free = (
    refl,
    λ i before e.
        let now : s.taken i ≡ before = e ∙ rw (free i, append-nil) refl in
        elim (Bool-cases (j == i)) [
          | inl same ↦
              let is : j ≡ i = ground arith in
              rw same (ap (λ l. l ++ m ∷ []) (ap s.taken is ∙ now ∙ sym (append-nil before)))
          | inr other ↦ rw (other, append-nil, append-nil) now
        ],
  )

  timeout-Follows :
      (s : Sys actor)
      → ((i : ℕ) → in_hand s.phase i ≡ [])
      → Follows s [] (some (on_timeout actor s))
  unfolding on_timeout
  timeout-Follows s free =
      Follows-branch s _ _ (not (is_running s.context)) free (refl, refl, λ i. refl)
        (refl, refl, λ i. refl)

  after_perform-parts :
      (r : Result (State × Panic) (State × Verb)) (s : Sys actor)
      → ((after_perform actor r s).state ≡ state_after r s.state)
        × ((after_perform actor r s).taken ≡ s.taken)
        × ((i : ℕ) → in_hand (after_perform actor r s).phase i ≡ [])
  unfolding after_perform
  after_perform-parts (ok (st, verb)) s = (refl, refl, λ i. refl)
  after_perform-parts (err (st, p)) s = (refl, refl, λ i. refl)

  finish-Follows :
      (j : ℕ) (m : Msg) (s : Sys actor)
      → s.phase ≡ handling j m
      → Follows s
          (record { queue = j; msg = m; context = s.context } ∷ [])
          (some (after_perform actor (perform j s.state s.context m) s))
  finish-Follows j m s p =
      let (state, taken, free) = after_perform-parts (perform j s.state s.context m) s in
      (state, λ i before e. rw (taken, free i, append-nil) (e ∙ ap (λ q. before ++ in_hand q i) p))

  internal-Follows :
      (p : Phase Msg Panic) (e : Event actor) (s : Sys actor)
      → s.phase ≡ p
      → Follows s (handled_by e p s.context) (internal actor p e s)
  unfolding internal
  internal-Follows (checking k g) enter s q = check-Follows k g s (λ i. ap (λ r. in_hand r i) q)
  internal-Follows (selecting guards timer) (receive j) s q =
      Follows-if s [] (ltb j performances && guards j) _
        (receive-Follows j (s.queues j) s (λ i. ap (λ r. in_hand r i) q))
  internal-Follows (selecting guards timer) timeout s q =
      Follows-if s [] (timer && s.elapsed) _ (timeout-Follows s (λ i. ap (λ r. in_hand r i) q))
  internal-Follows (handling j m) finish s q = finish-Follows j m s q
  internal-Follows exited finish s q = hook-Follows none s (λ i. ap (λ r. in_hand r i) q)
  internal-Follows (panicked x) finish s q = hook-Follows (some x) s (λ i. ap (λ r. in_hand r i) q)
  internal-Follows _ _ s q = tt

  step-Follows :
      (e : Event actor) (s : Sys actor)
      → Follows s (handled_by e s.phase s.context) (step actor e s)
  unfolding step
  step-Follows (push i m) s =
      Follows-idle s (ltb i performances && not (is_over actor s.phase)) _ refl refl refl
  step-Follows clone_handle s = (refl, λ i before e. rw append-nil e)
  step-Follows drop_handle s = Follows-idle s (ltb 1 s.context.strong_count) _ refl refl refl
  step-Follows elapse s = (refl, λ i before e. rw append-nil e)
  step-Follows enter s = internal-Follows s.phase enter s refl
  step-Follows (receive i) s = internal-Follows s.phase (receive i) s refl
  step-Follows finish s = internal-Follows s.phase finish s refl
  step-Follows timeout s = internal-Follows s.phase timeout s refl

  serial-append :
      (hs ks : List Handled) (st : State) → serial (hs ++ ks) st ≡ serial ks (serial hs st)
  serial-append [] ks st = refl
  serial-append (h ∷ hs) ks st =
      serial-append hs ks (state_after (perform h.queue st h.context h.msg) st)

  of_queue-append :
      (i : ℕ) (hs ks : List Handled) → of_queue i (hs ++ ks) ≡ of_queue i hs ++ of_queue i ks
  of_queue-append i [] ks = refl
  of_queue-append i (h ∷ hs) ks = elim (Bool-cases (h.queue == i)) [
    | inl same ↦ rw (same, of_queue-append i hs ks) refl
    | inr other ↦ rw (other, of_queue-append i hs ks) refl
  ]

  pub run-Follows :
      (es : List (Event actor)) (s : Sys actor) (t : Sys actor)
      → run actor es s ≡ some t
      → Follows s (log es s) (some t)
  unfolding run log
  run-Follows [] s t e = subst (Follows s []) e (refl, λ i before h. rw append-nil h)
  run-Follows (e ∷ es) s t ran = elim (Option-cases (step actor e s)) [
    | inl stuck ↦ absurd (cc (rw (stuck, run) at ran))
    | inr (u, steps) ↦
        let hs = handled_by e s.phase s.context in
        let (state, taken) = subst (Follows s hs) steps (step-Follows e s) in
        let (state', taken') = run-Follows es u t (rw (steps, run) at ran) in
        rw (steps, log)
          (
            state' ∙ ap (serial (log es u)) state ∙ sym (serial-append hs (log es u) s.state),
            λ i before h.
                taken' i (before ++ of_queue i hs) (taken i before h)
                ∙ rw (of_queue-append i hs (log es u)) (
                    ap (λ l. l ++ in_hand t.phase i)
                      (append_assoc before (of_queue i hs) (of_queue i (log es u)))),
          )
  ]

  -- In every history of a started actor, the state is what its handlers make of the first state when
  -- they run one after the other, in the order in which they came to their ends, each with the
  -- context of that moment, where one that panics counts with what it has made of the state. The handlers of each queue have
  -- had the messages that were accepted there, in order: those behind are the one at hand, and those
  -- still queued.
  pub run-serial :
      (state : State) (es : List (Event actor)) (t : Sys actor)
      → run actor es (start actor state) ≡ some t
      → (t.state ≡ serial (log es (start actor state)) state)
        × ((i : ℕ)
            → t.accepted i
              ≡ (of_queue i (log es (start actor state)) ++ in_hand t.phase i) ++ t.queues i)
  unfolding start
  run-serial state es t ran =
      let (is, taken) = run-Follows es (start actor state) t ran in
      let inv = run-Inv actor es (start actor state) ran (start-Inv actor state) in
      (is, λ i. inv.fifo i ∙ ap (λ l. l ++ t.queues i) (taken i [] refl))
