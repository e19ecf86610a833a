-- ===== src/EventLoop/Invariant.antt =====
-- What holds of the event loop of `start` between any two steps, in any order.
use mathlib.Core.List.{append_assoc}
use shakespeare.Prelude.{
  ℕ, zero, suc, ◌+◌, ◌<◌, ◌≤◌, ◌≡◌, refl, Bool, true, false, Option, none, some, List, [], ◌∷◌,
  ◌++◌, arith, any_below, Bool-cases, inl, inr, Option-cases, ok, err, ltb, ◌-◌, ◌==◌, ◌||◌, ◌&&◌,
  not, if◌then◌else◌, Result, subst,
}
use shakespeare.Core.Context.{Context, is_running}
use shakespeare.EventLoop.{
  Actor, Phase, checking, done, selecting, handling, exited, panicked, Verb, nothing, stops, Sys,
  Event, enter, receive, finish, timeout, push, clone_handle, drop_handle, elapse, start, step, run,
  update, is_empty, guard, is_over, check_next, enter_select, take_from, on_timeout, after_perform,
  internal,
}

-- A test that holds of none of the first `n` numbers.
pub any_below-false : (n : ℕ) (f : ℕ → Bool) (i : ℕ) → any_below n f ≡ false → i < n → f i ≡ false
unfolding any_below
any_below-false zero f i h l = absurd (omega arith)
any_below-false (suc n) f i h l = ground (arith, any_below-false n f i)

pub any_below-true :
    (n : ℕ) (f : ℕ → Bool) → any_below n f ≡ true → (i : ℕ) × (i < n) × (f i ≡ true)
unfolding any_below
any_below-true zero f h = absurd (cc)
any_below-true (suc n) f h = elim (Bool-cases (f n)) [
  | inl yes' ↦ (n, omega arith, yes')
  | inr no' ↦ let (i, l, e) = any_below-true n f (rw no' at h) in (i, omega arith, e)
]

is_empty-append : {A : Type 0} (xs : List A) (y : A) → is_empty (xs ++ y ∷ []) ≡ false
is_empty-append [] y = refl
is_empty-append (x ∷ xs) y = refl

pub running_flag : (c : Context) → is_running c ≡ true → c.running ≡ true
unfolding is_running
running_flag c h = ground arith

module _ (actor : Actor) where
  open actor use {State, Msg, Panic, performances}

  -- With `stop` called, each branch that is on has a message.
  abbrev pub Fed : Context → (ℕ → List Msg) → (ℕ → Bool) → Type 0
  Fed c q guards = c.running ≡ false → (i : ℕ) → guards i ≡ true → is_empty (q i) ≡ false

  -- What a loop knows that evaluates preconditions, or waits: with the timer's branch on, nobody has
  -- called `stop`; without it, some branch is on; and with `stop` called, each branch that is on has
  -- a message.
  abbrev pub Waiting : Context → (ℕ → List Msg) → Phase Msg Panic → Type 0
  Waiting c q (checking k guards) = Fed c q guards
  Waiting c q (selecting guards true) = c.running ≡ true
  Waiting c q (selecting guards false) = (any_below performances guards ≡ true) × Fed c q guards
  Waiting c q _ = Unit

  pub record Inv (s : Sys actor) : Type 0 where
    pub fifo : (i : ℕ) → s.accepted i ≡ s.taken i ++ s.queues i
    pub waiting : Waiting s.context s.queues s.phase
    pub held : 1 ≤ s.context.strong_count

  pub start-Inv : (state : State) → Inv (start actor state)
  unfolding start
  start-Inv state = record { fifo = λ i. refl; waiting = λ r i g. cc; held = omega arith }

  is_empty-update_append :
      (q : ℕ → List Msg) (i : ℕ) (m : Msg) (j : ℕ)
      → is_empty (q j) ≡ false
      → is_empty (update q i (q i ++ m ∷ []) j) ≡ false
  is_empty-update_append q i m j h = ground (arith, is_empty-append (q i) m)

  Waiting-push :
      (c : Context) (q : ℕ → List Msg) (p : Phase Msg Panic) (i : ℕ) (m : Msg)
      → Waiting c q p
      → Waiting c (update q i (q i ++ m ∷ [])) p
  Waiting-push c q (selecting guards true) i m h = h
  Waiting-push c q (selecting guards false) i m h =
      (h.0, λ r j g. is_empty-update_append q i m j (h.1 r j g))
  Waiting-push c q (checking k guards) i m h = λ r j g. is_empty-update_append q i m j (h r j g)
  Waiting-push c q (done x) i m h = tt
  Waiting-push c q (handling j n) i m h = tt
  Waiting-push c q exited i m h = tt
  Waiting-push c q (panicked x) i m h = tt

  -- A step that is not enabled has no state to speak of.
  abbrev Keeps : Option (Sys actor) → Type 0
  Keeps none = Unit
  Keeps (some t) = Inv t

  Keeps-if : (b : Bool) (t : Sys actor) → Inv t → Keeps (if b then some t else none)
  Keeps-if true t h = h
  Keeps-if false t h = tt

  push-Keeps : (i : ℕ) (m : Msg) (s : Sys actor) → Inv s → Keeps (step actor (push i m) s)
  unfolding step
  push-Keeps i m s h = Keeps-if (ltb i performances && not (is_over actor s.phase)) _ (record {
    fifo = λ j. ground (arith, h.fifo j, append_assoc (s.taken j) (s.queues j) (m ∷ []));
    waiting = Waiting-push s.context s.queues s.phase i m h.waiting;
    held = h.held;
  })

  -- The number of handles matters to no fact about the wait.
  Waiting-strong_count :
      (c : Context) (n : ℕ) (q : ℕ → List Msg) (p : Phase Msg Panic)
      → Waiting c q p
      → Waiting (record c { strong_count = n }) q p
  Waiting-strong_count c n q (selecting guards true) h = h
  Waiting-strong_count c n q (selecting guards false) h = h
  Waiting-strong_count c n q (checking k guards) h = h
  Waiting-strong_count c n q (done x) h = tt
  Waiting-strong_count c n q (handling i m) h = tt
  Waiting-strong_count c n q exited h = tt
  Waiting-strong_count c n q (panicked x) h = tt

  handles-Keeps :
      (s : Sys actor) → Inv s → Keeps (step actor clone_handle s) × Keeps (step actor drop_handle s)
  unfolding step
  handles-Keeps s h = (
    record {
      fifo = h.fifo;
      waiting =
          Waiting-strong_count s.context (s.context.strong_count + 1) s.queues s.phase h.waiting;
      held = omega arith;
    },
    elim (Bool-cases (ltb 1 s.context.strong_count)) [
      | inl more ↦ rw more (record {
        fifo = h.fifo;
        waiting =
            Waiting-strong_count s.context (s.context.strong_count - 1) s.queues s.phase h.waiting;
        held = ground arith;
      })
      | inr last ↦ rw last tt
    ],
  )

  Waiting-enter :
      (c : Context) (q : ℕ → List Msg) (g : ℕ → Bool) (timer : Bool)
      → is_running c ≡ timer
      → (any_below performances g || timer) ≡ true
      → Fed c q g
      → Waiting c q (selecting g timer)
  Waiting-enter c q g true e h fed = running_flag c e
  Waiting-enter c q g false e h fed = (ground arith, fed)

  enter-Keeps :
      (g : ℕ → Bool) (s : Sys actor)
      → Inv s
      → Fed s.context s.queues g
      → Inv (enter_select actor g s)
  unfolding enter_select
  enter-Keeps g s h fed = elim (Bool-cases (any_below performances g || is_running s.context)) [
    | inl some_on ↦ rw some_on (record {
      fifo = h.fifo;
      waiting = Waiting-enter s.context s.queues g (is_running s.context) refl some_on fed;
      held = h.held;
    })
    | inr all_off ↦ rw all_off (record { fifo = h.fifo; waiting = tt; held = h.held })
  ]

  Fed-next :
      (c : Context) (q : ℕ → List Msg) (k : ℕ) (g : ℕ → Bool)
      → Fed c q g
      → Fed c q (update g k (guard actor c q k))
  unfolding is_running
  Fed-next c q k g fed r i on = elim (Bool-cases (k == i)) [
    | inl here ↦
        let is : k ≡ i = ground arith in
        let seen = rw here at on in subst (λ j. is_empty (q j) ≡ false) is (ground arith)
    | inr there ↦ fed r i (rw there at on)
  ]

  check-Keeps :
      (k : ℕ) (g : ℕ → Bool) (s : Sys actor)
      → Inv s
      → Fed s.context s.queues g
      → Inv (check_next actor k g s)
  unfolding check_next
  check-Keeps k g s h fed = elim (Bool-cases (ltb k performances)) [
    | inl more ↦
        rw more
          (record { fifo = h.fifo; waiting = Fed-next s.context s.queues k g fed; held = h.held })
    | inr last ↦ rw last (enter-Keeps g s h fed)
  ]

  take-Keeps :
      (i : ℕ) (q : List Msg) (s : Sys actor)
      → q ≡ s.queues i
      → Inv s
      → Keeps (take_from actor i q s)
  unfolding take_from
  take-Keeps i [] s e h = tt
  take-Keeps i (m ∷ rest) s e h = record {
    fifo = λ j. ground (arith, h.fifo j, append_assoc (s.taken j) (m ∷ []) rest);
    waiting = tt;
    held = h.held;
  }

  timeout-Keeps : (s : Sys actor) → Inv s → Inv (on_timeout actor s)
  unfolding on_timeout
  timeout-Keeps s h = elim (Bool-cases (not (is_running s.context))) [
    | inl over ↦ rw over (record { fifo = h.fifo; waiting = tt; held = h.held })
    | inr on ↦ rw on (record { fifo = h.fifo; waiting = λ r i g. cc; held = h.held })
  ]

  perform-Keeps :
      (r : Result (State × Panic) (State × Verb)) (s : Sys actor)
      → Inv s
      → Inv (after_perform actor r s)
  unfolding after_perform
  perform-Keeps (ok (state, nothing)) s h = record {
    fifo = h.fifo;
    waiting = λ r i g. cc;
    held = h.held;
  }
  perform-Keeps (ok (state, stops)) s h = record {
    fifo = h.fifo;
    waiting = λ r i g. cc;
    held = h.held;
  }
  perform-Keeps (err (state, x)) s h = record { fifo = h.fifo; waiting = tt; held = h.held }

  internal-Keeps :
      (p : Phase Msg Panic) (e : Event actor) (s : Sys actor)
      → Inv s
      → Waiting s.context s.queues p
      → Keeps (internal actor p e s)
  unfolding internal
  internal-Keeps (checking k g) enter s h w = check-Keeps k g s h w
  internal-Keeps (selecting guards timer) (receive i) s h w =
      elim (Bool-cases (ltb i performances && guards i)) [
        | inl on ↦ rw on (take-Keeps i (s.queues i) s refl h)
        | inr off ↦ rw off tt
      ]
  internal-Keeps (selecting guards timer) timeout s h w =
      Keeps-if (timer && s.elapsed) _ (timeout-Keeps s h)
  internal-Keeps (handling i m) finish s h w =
      perform-Keeps (actor.perform i s.state s.context m) s h
  internal-Keeps exited finish s h w = record { fifo = h.fifo; waiting = tt; held = h.held }
  internal-Keeps (panicked x) finish s h w = record { fifo = h.fifo; waiting = tt; held = h.held }
  internal-Keeps _ _ s h w = tt

  step-Keeps : (e : Event actor) (s : Sys actor) → Inv s → Keeps (step actor e s)
  unfolding step
  step-Keeps (push i m) s h = push-Keeps i m s h
  step-Keeps clone_handle s h = (handles-Keeps s h).0
  step-Keeps drop_handle s h = (handles-Keeps s h).1
  step-Keeps elapse s h = record { fifo = h.fifo; waiting = h.waiting; held = h.held }
  step-Keeps enter s h = internal-Keeps s.phase enter s h h.waiting
  step-Keeps (receive i) s h = internal-Keeps s.phase (receive i) s h h.waiting
  step-Keeps finish s h = internal-Keeps s.phase finish s h h.waiting
  step-Keeps timeout s h = internal-Keeps s.phase timeout s h h.waiting

  -- Every step, of the loop or of its environment, keeps the invariant: each queue holds what was
  -- accepted and not yet taken, in order; a loop that waits without its timer has some branch on; and
  -- once `stop` was called, each branch that is found to be on has a message.
  pub step-Inv :
      (e : Event actor) (s : Sys actor) {t : Sys actor} → step actor e s ≡ some t → Inv s → Inv t
  step-Inv e s eq h = subst Keeps eq (step-Keeps e s h)

  pub run-Inv :
      (es : List (Event actor)) (s : Sys actor) {t : Sys actor}
      → run actor es s ≡ some t
      → Inv s
      → Inv t
  unfolding run
  run-Inv [] s eq h = subst Keeps eq h
  run-Inv (e ∷ es) s eq h = elim (Option-cases (step actor e s)) [
    | inl off ↦ absurd (cc (rw (off, run) at eq))
    | inr (u, on) ↦ run-Inv es u (rw (on, run) at eq) (step-Inv e s on h)
  ]
