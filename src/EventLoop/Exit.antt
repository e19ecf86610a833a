-- ===== src/EventLoop/Exit.antt =====
-- When the event loop of `start` ends, and what it leaves in the queues.
use mathlib.Core.List.{append-nil}
use shakespeare.Prelude.{
  suc, ◌==◌, All, Option-cases, ℕ, ◌<◌, ◌≡◌, ◌≢◌, refl, Bool, true, false, Option, none, some, List,
  [], ◌∷◌, arith, any_below, Bool-cases, inl, inr, ok, err, ltb, ◌||◌, ◌&&◌, not, if◌then◌else◌,
  Result, subst, ap, sym, ◌∙◌,
}
use shakespeare.Core.Context.{Context, is_running}
use shakespeare.EventLoop.{
  Actor, Phase, checking, panicked, top, selecting, handling, exited, Verb, Sys, Event, enter,
  receive, finish, timeout, push, clone_handle, drop_handle, elapse, start, step, run, update,
  is_empty, guard, is_over, check_next, enter_select, take_from, on_timeout, after_perform,
  internal,
}
use shakespeare.EventLoop.Invariant.{Inv, any_below-false, start-Inv, step-Inv, run-Inv, Waiting}

-- An empty queue.
is_empty→nil : {A : Type 0} (xs : List A) → is_empty xs ≡ true → xs ≡ []
is_empty→nil [] h = refl
is_empty→nil (x ∷ xs) h = cc

module _ (actor : Actor) where
  open actor use {State, Msg, Panic, performances}

  -- While nothing is pushed, a queue whose branch was found to be off is empty.
  abbrev pub Seen : (ℕ → List Msg) → Phase Msg Panic → Type 0
  Seen q (checking k guards) =
      (i : ℕ) → i < k → i < performances → guards i ≡ false → is_empty (q i) ≡ true
  Seen q _ = Unit

  -- What holds of a state in which the loop has just ended.
  abbrev pub Ended : Sys actor → Option (Sys actor) → Type 0
  Ended s none = Unit
  Ended s (some t) =
      t.phase ≡ exited
      → (is_running t.context ≡ false)
        × (t.queues ≡ s.queues)
        × (Seen s.queues s.phase
            → (i : ℕ) → i < performances
            → s.context.running ≡ false
            → s.queues i ≡ [])

  Ended-if : (s t : Sys actor) (b : Bool) → Ended s (some t) → Ended s (if b then some t else none)
  Ended-if s t true h = h
  Ended-if s t false h = tt

  enter-Ended :
      (k : ℕ) (g : ℕ → Bool) (s : Sys actor)
      → s.phase ≡ checking k g
      → ltb k performances ≡ false
      → Ended s (some (enter_select actor g s))
  unfolding enter_select
  enter-Ended k g s p last = elim (Bool-cases (any_below performances g || is_running s.context)) [
    | inl some_on ↦ rw some_on (λ e. cc)
    | inr all_off ↦ rw all_off (λ e. (
      ground arith,
      refl,
      λ seen i l r.
          let off : g i ≡ false = ground (arith, any_below-false performances g i) in
          is_empty→nil (s.queues i) (subst (Seen s.queues) p seen i (ground arith) l off),
    ))
  ]

  check-Ended :
      (k : ℕ) (g : ℕ → Bool) (s : Sys actor)
      → s.phase ≡ checking k g
      → Ended s (some (check_next actor k g s))
  unfolding check_next
  check-Ended k g s p = elim (Bool-cases (ltb k performances)) [
    | inl more ↦ rw more (λ e. cc)
    | inr last ↦ rw last (enter-Ended k g s p last)
  ]

  timeout-Ended : (s : Sys actor) → s.context.running ≡ true → Ended s (some (on_timeout actor s))
  unfolding on_timeout
  timeout-Ended s r = elim (Bool-cases (not (is_running s.context))) [
    | inl over ↦ rw over (λ e. (ground arith, refl, λ seen i l f. cc))
    | inr on ↦ rw on (λ e. cc)
  ]

  take-Ended :
      (i : ℕ) (q : List Msg) (b : Bool) (s : Sys actor)
      → Ended s (if b then take_from actor i q s else none)
  unfolding take_from
  take-Ended i [] true s = tt
  take-Ended i (m ∷ q) true s = λ e. cc
  take-Ended i q false s = tt

  perform-Ended :
      (r : Result (State × Panic) (State × Verb)) (s : Sys actor)
      → Ended s (some (after_perform actor r s))
  unfolding after_perform
  perform-Ended (ok (state, verb)) s = λ e. cc
  perform-Ended (err (state, x)) s = λ e. cc

  internal-Ended :
      (p : Phase Msg Panic) (e : Event actor) (s : Sys actor)
      → s.phase ≡ p
      → Waiting actor s.context s.queues p
      → Ended s (internal actor p e s)
  unfolding internal
  internal-Ended (checking k g) enter s q w = check-Ended k g s q
  internal-Ended (selecting guards timer) (receive i) s q w =
      take-Ended i (s.queues i) (ltb i performances && guards i) s
  internal-Ended (selecting guards true) timeout s q w =
      Ended-if s (on_timeout actor s) s.elapsed (timeout-Ended s w)
  internal-Ended (selecting guards false) timeout s q w = tt
  internal-Ended (handling i m) finish s q w = perform-Ended (actor.perform i s.state s.context m) s
  internal-Ended exited finish s q w = λ e. cc
  internal-Ended (panicked x) finish s q w = λ e. cc
  internal-Ended _ _ s q w = tt

  pub step-Ended :
      (e : Event actor) (s : Sys actor) → Inv actor s → s.phase ≢ exited → Ended s (step actor e s)
  unfolding step
  step-Ended (push i m) s h running =
      Ended-if s _ (ltb i performances && not (is_over actor s.phase)) (λ e. absurd (running e))
  step-Ended clone_handle s h running = λ e. absurd (running e)
  step-Ended drop_handle s h running =
      Ended-if s _ (ltb 1 s.context.strong_count) (λ e. absurd (running e))
  step-Ended elapse s h running = λ e. absurd (running e)
  step-Ended enter s h running = internal-Ended s.phase enter s refl h.waiting
  step-Ended (receive i) s h running = internal-Ended s.phase (receive i) s refl h.waiting
  step-Ended finish s h running = internal-Ended s.phase finish s refl h.waiting
  step-Ended timeout s h running = internal-Ended s.phase timeout s refl h.waiting

  -- Nothing is pushed.
  abbrev pub IsQuiet : Event actor → Type 0
  IsQuiet (push i m) = ⊥
  IsQuiet _ = Unit

  abbrev Sees : Option (Sys actor) → Type 0
  Sees none = Unit
  Sees (some t) = Seen t.queues t.phase

  Sees-if : (b : Bool) (o : Option (Sys actor)) → Sees o → Sees (if b then o else none)
  Sees-if true o h = h
  Sees-if false o h = tt

  Seen-next :
      (c : Context) (q : ℕ → List Msg) (k : ℕ) (g : ℕ → Bool)
      → Seen q (checking k g)
      → Seen q (checking (suc k) (update g k (guard actor c q k)))
  Seen-next c q k g seen i l n off = elim (Bool-cases (k == i)) [
    | inl here ↦
        let is : k ≡ i = ground arith in
        let was = rw here at off in subst (λ j. is_empty (q j) ≡ true) is (ground arith)
    | inr there ↦ seen i (ground arith) n (rw there at off)
  ]

  enter-Sees : (g : ℕ → Bool) (s : Sys actor) → Sees (some (enter_select actor g s))
  unfolding enter_select
  enter-Sees g s = elim (Bool-cases (any_below performances g || is_running s.context)) [
    | inl on ↦ rw on tt
    | inr off ↦ rw off tt
  ]

  check-Sees :
      (k : ℕ) (g : ℕ → Bool) (s : Sys actor)
      → Seen s.queues (checking k g)
      → Sees (some (check_next actor k g s))
  unfolding check_next
  check-Sees k g s seen = elim (Bool-cases (ltb k performances)) [
    | inl more ↦ rw more (Seen-next s.context s.queues k g seen)
    | inr last ↦ rw last (enter-Sees g s)
  ]

  take-Sees : (i : ℕ) (q : List Msg) (s : Sys actor) → Sees (take_from actor i q s)
  unfolding take_from
  take-Sees i [] s = tt
  take-Sees i (m ∷ q) s = tt

  timeout-Sees : (s : Sys actor) → Sees (some (on_timeout actor s))
  unfolding on_timeout
  timeout-Sees s = elim (Bool-cases (not (is_running s.context))) [
    | inl over ↦ rw over tt
    | inr on ↦ rw on (λ i l. absurd (omega arith))
  ]

  perform-Sees :
      (r : Result (State × Panic) (State × Verb)) (s : Sys actor)
      → Sees (some (after_perform actor r s))
  unfolding after_perform
  perform-Sees (ok (state, verb)) s = λ i l. absurd (omega arith)
  perform-Sees (err (state, x)) s = tt

  internal-Sees :
      (p : Phase Msg Panic) (e : Event actor) (s : Sys actor)
      → Seen s.queues p
      → Sees (internal actor p e s)
  unfolding internal
  internal-Sees (checking k g) enter s seen = check-Sees k g s seen
  internal-Sees (selecting guards timer) (receive i) s seen =
      Sees-if (ltb i performances && guards i) _ (take-Sees i (s.queues i) s)
  internal-Sees (selecting guards timer) timeout s seen =
      Sees-if (timer && s.elapsed) _ (timeout-Sees s)
  internal-Sees (handling i m) finish s seen = perform-Sees (actor.perform i s.state s.context m) s
  internal-Sees exited finish s seen = tt
  internal-Sees (panicked x) finish s seen = tt
  internal-Sees _ _ s seen = tt

  step-Sees :
      (e : Event actor) (s : Sys actor) → IsQuiet e → Seen s.queues s.phase → Sees (step actor e s)
  unfolding step
  step-Sees (push i m) s quiet seen = absurd quiet
  step-Sees clone_handle s quiet seen = seen
  step-Sees drop_handle s quiet seen = Sees-if (ltb 1 s.context.strong_count) _ seen
  step-Sees elapse s quiet seen = seen
  step-Sees enter s quiet seen = internal-Sees s.phase enter s seen
  step-Sees (receive i) s quiet seen = internal-Sees s.phase (receive i) s seen
  step-Sees finish s quiet seen = internal-Sees s.phase finish s seen
  step-Sees timeout s quiet seen = internal-Sees s.phase timeout s seen

  run-Seen :
      (es : List (Event actor)) (s : Sys actor) {t : Sys actor}
      → run actor es s ≡ some t
      → All IsQuiet es
      → Seen s.queues s.phase
      → Seen t.queues t.phase
  unfolding run
  run-Seen [] s eq quiet seen = subst Sees eq seen
  run-Seen (e ∷ es) s eq (quiet, more) seen = elim (Option-cases (step actor e s)) [
    | inl off ↦ absurd (cc (rw (off, run) at eq))
    | inr (u, on) ↦
        run-Seen es u (rw (on, run) at eq) more (subst Sees on (step-Sees e s quiet seen))
  ]

  -- The step that ends the loop of a started actor, after any history of the loop and its
  -- environment, is taken only when the context is not running. If the actor was stopped, and nothing
  -- has been pushed since a time when the loop was at its top, then every queue is empty by then, and
  -- every message that it accepted was taken, in order.
  pub exit_drains :
      (state : State) (es : List (Event actor)) (r : Sys actor) (round : List (Event actor))
      (s : Sys actor) (e : Event actor) (t : Sys actor)
      → run actor es (start actor state) ≡ some r
      → r.phase ≡ top
      → run actor round r ≡ some s
      → All IsQuiet round
      → step actor e s ≡ some t
      → s.phase ≢ exited
      → t.phase ≡ exited
      → (is_running t.context ≡ false)
        × ((i : ℕ)
            → i < performances
            → s.context.running ≡ false
            → (t.queues i ≡ []) × (t.taken i ≡ t.accepted i))
  exit_drains state es r round s e t ran at_top went quiet stepped running over =
      let inv =
        run-Inv actor round r went
          (run-Inv actor es (start actor state) ran (start-Inv actor state)) in
      let inv' = step-Inv actor e s stepped inv in
      let seen =
        run-Seen round r went quiet
          (subst (Seen r.queues) (sym at_top) (λ i l. absurd (omega arith))) in
      let (off, queues, empty) = subst (Ended s) stepped (step-Ended e s inv running) over in
      (
        off,
        λ i l stopped.
            let nil : t.queues i ≡ [] =
              ap (λ (q : ℕ → List Msg). q i) queues ∙ empty seen i l stopped in
            (nil, sym (inv'.fifo i ∙ rw (nil, append-nil) refl)),
      )
