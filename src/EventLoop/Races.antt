-- ===== src/EventLoop/Races.antt =====
-- What a dropped handle can do to a loop that is about to wait, or waits
-- (shakespeare-macro/src/outputs/actor/spawning_function.rs).
use mathlib.Core.List.{append-nil}
use shakespeare.Prelude.{
  ℕ, zero, suc, ◌+◌, ◌<◌, ◌≡◌, refl, sym, ◌∙◌, ap, subst, Bool, true, false, ◌&&◌, Option, none,
  some, List, [], ◌∷◌, ◌++◌, ltb, ◌==◌, ◌||◌, any_below, Bool-cases, Option-cases, inl, inr, arith,
  All,
}
use shakespeare.Futures.{pending}
use shakespeare.Core.Context.{is_running}
use shakespeare.EventLoop.{
  Actor, Phase, checking, selecting, done, top, Sys, Event, enter, receive, finish, timeout, push,
  drop_handle, elapse, start, step, run, update, guard, check_next, enter_select, take_from,
  on_timeout, internal,
}
use shakespeare.EventLoop.RunsOut.{is_loop_or_time}
use shakespeare.EventLoop.TaskResult.{Hooks, poll_handle, poll_handle-eq-expected}

any_below-at : (n : ℕ) (f : ℕ → Bool) (i : ℕ) → i < n → f i ≡ true → any_below n f ≡ true
unfolding any_below
any_below-at zero f i l on = absurd (omega arith)
any_below-at (suc n) f i l on = elim (Bool-cases (f n)) [
  | inl here ↦ rw here refl
  | inr other ↦ elim (Bool-cases (i == n)) [
    | inl last ↦
        let is : i ≡ n = ground arith in absurd (cc (sym (subst (λ j. f j ≡ true) is on) ∙ other))
    | inr before ↦ rw other (any_below-at n f i (ground arith) on)
  ]
]

module _ (actor : Actor) where
  open actor use {State, Msg, Panic, performances}

  -- Evaluations of preconditions, one after the other.
  abbrev pub checks : ℕ → List (Event actor)
  checks zero = []
  checks (suc n) = enter ∷ checks n

  run-next :
      (e : Event actor) (es : List (Event actor)) (s t : Sys actor)
      → step actor e s ≡ some t
      → run actor (e ∷ es) s ≡ run actor es t
  unfolding run
  run-next e es s t on = rw (on, run) refl

  abbrev at : Phase Msg Panic → Sys actor → Sys actor
  at p s = record s { phase = p }

  step-check :
      (k : ℕ) (g : ℕ → Bool) (s : Sys actor)
      → k < performances
      → step actor enter (at (checking k g) s)
        ≡ some (at (checking (suc k) (update g k (guard actor s.context s.queues k))) s)
  unfolding step check_next
  step-check k g s l = let more : ltb k performances ≡ true = ground arith in rw more refl

  -- All the preconditions of the branches from `k` on, and what they leave of those before.
  run-checks :
      (n k : ℕ) (g : ℕ → Bool) (s : Sys actor) (es : List (Event actor))
      → k + n ≡ performances
      → (h : ℕ → Bool) × (run actor (checks n ++ es) (at (checking k g) s)
          ≡ run actor es (at (checking performances h) s))
        × ((i : ℕ) → i < k → h i ≡ g i)
  run-checks zero k g s es all =
      let is : k ≡ performances = omega (arith, all) in
      (g, ap (λ j. run actor es (at (checking j g) s)) is, λ i l. refl)
  run-checks (suc n) k g s es all =
      let next = update g k (guard actor s.context s.queues k) in
      let (h, ran, same) = run-checks n (suc k) next s es (omega (arith, all)) in
      (
        h,
        run-next enter (checks n ++ es) (at (checking k g) s) (at (checking (suc k) next) s)
              (step-check k g s (omega (arith, all)))
            ∙ ran,
        λ i l.
            same i (omega arith) ∙ (let other : (k == i) ≡ false = ground arith in rw other refl),
      )

  -- The whole of one `select!`'s preconditions.
  abbrev pub round : List (Event actor)
  round = checks (suc performances)

  checks-snoc : (n : ℕ) (es : List (Event actor)) → checks (suc n) ++ es ≡ checks n ++ enter ∷ es
  checks-snoc zero es = refl
  checks-snoc (suc n) es = ap (λ l. enter ∷ l) (checks-snoc n es)

  step-select :
      (g : ℕ → Bool) (s : Sys actor)
      → step actor enter (at (checking performances g) s) ≡ some (enter_select actor g s)
  unfolding step check_next enter_select
  step-select g s = let last : ltb performances performances ≡ false = ground arith in rw last refl

  select-running :
      (g : ℕ → Bool) (s : Sys actor)
      → is_running s.context ≡ true
      → enter_select actor g s ≡ at (selecting g true) s
  unfolding enter_select
  select-running g s on =
      let some_on : (any_below performances g || true) ≡ true = ground arith in
      rw (on, some_on) refl

  run-round :
      (s : Sys actor) (es : List (Event actor))
      → is_running s.context ≡ true
      → (h : ℕ → Bool) × (run actor (round ++ es) (at top s)
          ≡ run actor es (at (selecting h true) s))
  run-round s es on =
      let (h, ran, same) = run-checks performances 0 (λ _. false) s (enter ∷ es) (omega arith) in
      (
        h,
        ap (λ l. run actor l (at top s)) (checks-snoc performances es)
            ∙ (ran
                ∙ (run-next enter es (at (checking performances h) s) (enter_select actor h s)
                      (step-select h s)
                    ∙ ap (run actor es) (select-running h s on))),
      )

  -- The timer's branch breaks without looking at the queues. In every actor, a message that is
  -- pushed while the loop waits is accepted and never taken if the last outside handle is then
  -- dropped and the timer has elapsed before the loop's task is polled again.
  pub timeout_abandons :
      (state : State) (i : ℕ) (m : Msg)
      → i < performances
      → (t : Sys actor) × (run actor
            (round ++ push i m ∷ drop_handle ∷ elapse ∷ timeout ∷ finish ∷ [])
            (start actor state)
          ≡ some t)
        × (t.phase ≡ done none)
        × (t.accepted i ≡ m ∷ [])
        × (t.taken i ≡ [])
  unfolding run step start on_timeout is_running
  timeout_abandons state i m l =
      let rest = push i m ∷ drop_handle ∷ elapse ∷ timeout ∷ finish ∷ [] in
      let (h, ran) = run-round (start actor state) rest refl in
      (
        record {
          state = state;
          context = record { strong_count = 1; running = true };
          queues = update (λ _. []) i (m ∷ []);
          elapsed = true;
          phase = done none;
          accepted = update (λ _. []) i (m ∷ []);
          taken = λ _. [];
        },
        ran ∙ ground arith,
        refl,
        ground arith,
        refl,
      )

  -- A loop that waits, with branches for empty queues only, and without the timer's.
  abbrev pub IsHung : Sys actor → Type 0
  IsHung s = (g : ℕ → Bool) × (s.phase ≡ selecting g false) × ((i : ℕ) → s.queues i ≡ [])

  abbrev Hangs : Option (Sys actor) → Type 0
  Hangs none = Unit
  Hangs (some t) = IsHung t

  internal-Hangs :
      (p : Phase Msg Panic) (e : Event actor) (s : Sys actor) (g : ℕ → Bool)
      → p ≡ selecting g false
      → ((i : ℕ) → s.queues i ≡ [])
      → internal actor p e s ≡ none
  unfolding internal take_from
  internal-Hangs (selecting h true) e s g p empty = absurd (cc)
  internal-Hangs (selecting h false) (receive i) s g p empty =
      elim (Bool-cases (ltb i performances && h i)) [
        | inl on ↦ rw on (rw (empty i) refl)
        | inr off ↦ rw off refl
      ]
  internal-Hangs (selecting h false) timeout s g p empty = refl
  internal-Hangs (selecting h false) _ s g p empty = refl
  internal-Hangs _ e s g p empty = absurd (cc p)

  step-Hangs :
      (e : Event actor) (s : Sys actor)
      → is_loop_or_time actor e ≡ true
      → IsHung s
      → Hangs (step actor e s)
  unfolding step
  step-Hangs enter s own (g, p, empty) = rw (internal-Hangs s.phase enter s g p empty) tt
  step-Hangs (receive i) s own (g, p, empty) =
      rw (internal-Hangs s.phase (receive i) s g p empty) tt
  step-Hangs finish s own (g, p, empty) = rw (internal-Hangs s.phase finish s g p empty) tt
  step-Hangs timeout s own (g, p, empty) = rw (internal-Hangs s.phase timeout s g p empty) tt
  step-Hangs elapse s own h = h
  step-Hangs _ s own h = absurd (cc)

  run-IsHung :
      (es : List (Event actor)) (s : Sys actor) {t : Sys actor}
      → run actor es s ≡ some t
      → All (λ e. is_loop_or_time actor e ≡ true) es
      → IsHung s
      → IsHung t
  unfolding run
  run-IsHung [] s eq own h = subst Hangs eq h
  run-IsHung (e ∷ es) s eq (own, more) h = elim (Option-cases (step actor e s)) [
    | inl off ↦ absurd (cc (rw (off, run) at eq))
    | inr (u, on) ↦
        run-IsHung es u (rw (on, run) at eq) more (subst Hangs on (step-Hangs e s own h))
  ]

  select-hung :
      (g : ℕ → Bool) (s : Sys actor)
      → 0 < performances
      → g 0 ≡ true
      → is_running s.context ≡ false
      → enter_select actor g s ≡ at (selecting g false) s
  unfolding enter_select
  select-hung g s l on off = rw (any_below-at performances g 0 l on, off) refl

  -- The last handle is dropped while the preconditions are evaluated.
  abbrev pub dropped_between : List (Event actor)
  dropped_between = enter ∷ drop_handle ∷ checks performances

  dropped : State → Sys actor
  unfolding start
  dropped state = record (start actor state) {
    context = record { strong_count = 1; running = true };
  }

  step-drop :
      (g : ℕ → Bool) (state : State)
      → step actor drop_handle (at (checking 1 g) (start actor state))
        ≡ some (at (checking 1 g) (dropped state))
  unfolding step start dropped
  step-drop g state = refl

  run-dropped :
      (last : ℕ) (state : State)
      → performances ≡ suc last
      → (t : Sys actor) × (run actor dropped_between (start actor state) ≡ some t)
        × (t.context.strong_count ≡ 1)
        × IsHung t
  unfolding run dropped start is_running
  run-dropped last state is =
      let s = dropped state in
      let s0 = start actor state in
      let g : ℕ → Bool = update (λ _. false) 0 (guard actor s0.context s0.queues 0) in
      let first : run actor dropped_between s0
          ≡ run actor (drop_handle ∷ checks performances) (at (checking 1 g) s0) =
        run-next enter (drop_handle ∷ checks performances) s0 (at (checking 1 g) s0)
          (step-check 0 (λ _. false) s0 (omega (arith, is))) in
      let second : run actor (drop_handle ∷ checks performances) (at (checking 1 g) s0)
          ≡ run actor (checks performances) (at (checking 1 g) s) =
        run-next drop_handle (checks performances) (at (checking 1 g) s0) (at (checking 1 g) s)
          (step-drop g state) in
      let split : checks performances ≡ checks last ++ enter ∷ [] =
        ap checks is ∙ (sym (append-nil (checks (suc last))) ∙ checks-snoc last []) in
      let (h, ran, same) = run-checks last 1 g s (enter ∷ []) (omega (arith, is)) in
      let on : h 0 ≡ true = same 0 (omega arith) in
      let final : run actor (enter ∷ []) (at (checking performances h) s)
          ≡ some (at (selecting h false) s) =
        run-next enter [] (at (checking performances h) s) (enter_select actor h s)
          (step-select h s)
        ∙ ap (run actor []) (select-hung h s (omega (arith, is)) on refl) in
      (
        at (selecting h false) s,
        first ∙ (second ∙ (ap (λ l. run actor l (at (checking 1 g) s)) split ∙ (ran ∙ final))),
        refl,
        (h, refl, λ i. refl),
      )

  -- `select!` evaluates its preconditions one after the other. In every actor with a performance, if the
  -- one handle is dropped between those of the first branch and of the timer, then that branch is on and the
  -- timer's is not: whatever the loop then does and however much time passes, the exit handle stays
  -- pending, and with no handle left nobody can send the message that would end the wait.
  pub dropped_handle_hangs :
      (hooks : Hooks actor) (JoinError : Type 0) (last : ℕ) (state : State)
      → performances ≡ suc last
      → (t : Sys actor) × (run actor dropped_between (start actor state) ≡ some t)
        × (t.context.strong_count ≡ 1)
        × ((es : List (Event actor)) (u : Sys actor)
            → All (λ e. is_loop_or_time actor e ≡ true) es
            → run actor es t ≡ some u
            → poll_handle actor hooks JoinError u ≡ pending)
  dropped_handle_hangs hooks JoinError last state is =
      let (t, ran, count, hung) = run-dropped last state is in
      (
        t,
        ran,
        count,
        λ es u own went.
            let (g, p, empty) = run-IsHung es t went own hung in
            poll_handle-eq-expected actor hooks JoinError u ∙ rw p refl,
      )
