-- ===== src/EventLoop/Ends.antt =====
-- The event loop of `start` ends once its context is not running.
use shakespeare.Prelude.{
  ℕ, zero, suc, ◌+◌, ◌<◌, ◌≤◌, ◌≡◌, refl, Bool, true, false, Option, none, some, List, [], ◌∷◌,
  arith, any_below, Bool-cases, inl, inr, Option-cases, ok, err, ltb, ◌-◌, ◌||◌, ◌&&◌, Result,
  subst, ap, length, All,
}
use shakespeare.Core.Context.{is_running}
use shakespeare.EventLoop.{
  Actor, Phase, checking, done, selecting, handling, exited, panicked, Verb, nothing, stops, Sys,
  Event, enter, receive, finish, timeout, step, run, update, is_empty, is_over, enter_select,
  check_next, take_from, on_timeout, after_perform, internal,
}
use shakespeare.EventLoop.Invariant.{any_below-true, Waiting}

module _ {A : Type 0} where
  -- How many messages the first `n` queues hold.
  abbrev total : ℕ → (ℕ → List A) → ℕ
  total zero q = 0
  total (suc n) q = total n q + length (q n)

  total-update_above :
      (n : ℕ) (q : ℕ → List A) (i : ℕ) (l : List A) → n ≤ i → total n (update q i l) ≡ total n q
  total-update_above zero q i l h = refl
  total-update_above (suc n) q i l h = ground (arith, total-update_above n q i l)

  total-update :
      (n : ℕ) (q : ℕ → List A) (i : ℕ) (l : List A)
      → i < n
      → total n (update q i l) + length (q i) ≡ total n q + length l
  total-update zero q i l h = absurd (omega arith)
  total-update (suc n) q i l h = ground (arith, total-update n q i l, total-update_above n q i l)

module _ (actor : Actor) where
  open actor use {State, Msg, Panic, performances}

  -- The steps that the loop itself takes.
  abbrev pub is_own : Event actor → Bool
  is_own enter = true
  is_own (receive i) = true
  is_own finish = true
  is_own timeout = true
  is_own _ = false

  abbrev weight : Phase Msg Panic → ℕ
  weight (checking k guards) = (performances - k) + 3
  weight (selecting guards timer) = 2
  weight (handling i m) = performances + 4
  weight exited = 1
  weight (panicked x) = 1
  weight (done x) = 0

  -- The steps that messages take: the evaluation of the preconditions, and three more, for each.
  abbrev pub rounds : ℕ → ℕ
  rounds zero = 0
  rounds (suc n) = (performances + 3) + rounds n

  -- Those for each message in the queues, and those left for the message at hand or to the end.
  abbrev pub steps_left : Sys actor → ℕ
  steps_left s = rounds (total performances s.queues) + weight s.phase

  -- The steps left are fewer, and nothing makes a context run again.
  abbrev pub Falls : ℕ → Bool → Option (Sys actor) → Type 0
  Falls n b none = Unit
  Falls n b (some t) =
      (steps_left t < n) × (is_running t.context ≡ false) × (b ≡ false → t.context.running ≡ false)

  enter-Falls :
      (g : ℕ → Bool) (s : Sys actor) (n : ℕ)
      → is_running s.context ≡ false
      → rounds (total performances s.queues) + 3 ≤ n
      → Falls n s.context.running (some (enter_select actor g s))
  unfolding enter_select
  enter-Falls g s n off h = elim (Bool-cases (any_below performances g || is_running s.context)) [
    | inl some_on ↦ rw some_on (omega arith, off, λ r. r)
    | inr all_off ↦ rw all_off (omega arith, off, λ r. r)
  ]

  check-Falls :
      (k : ℕ) (g : ℕ → Bool) (s : Sys actor) (n : ℕ)
      → is_running s.context ≡ false
      → rounds (total performances s.queues) + ((performances - k) + 3) ≤ n
      → Falls n s.context.running (some (check_next actor k g s))
  unfolding check_next
  check-Falls k g s n off h = elim (Bool-cases (ltb k performances)) [
    | inl more ↦ let less : k < performances = ground arith in rw more (omega arith, off, λ r. r)
    | inr last ↦ rw last (enter-Falls g s n off (omega arith))
  ]

  take-Falls :
      (i : ℕ) (q : List Msg) (s : Sys actor) (n : ℕ)
      → q ≡ s.queues i
      → i < performances
      → is_running s.context ≡ false
      → rounds (total performances s.queues) + 2 ≤ n
      → Falls n s.context.running (take_from actor i q s)
  unfolding take_from
  take-Falls i [] s n e l off h = tt
  take-Falls i (m ∷ rest) s n e l off h =
      let one : total performances s.queues ≡ suc (total performances (update s.queues i rest)) =
        omega (arith, total-update performances s.queues i rest l, ap length e) in
      let all = rw one at h in (omega arith, off, λ r. r)

  timeout-Falls :
      (s : Sys actor) (n : ℕ)
      → is_running s.context ≡ false
      → rounds (total performances s.queues) + 2 ≤ n
      → Falls n s.context.running (some (on_timeout actor s))
  unfolding on_timeout
  timeout-Falls s n off h = rw off (omega arith, off, λ r. r)

  perform-Falls :
      (r : Result (State × Panic) (State × Verb)) (s : Sys actor) (n : ℕ)
      → is_running s.context ≡ false
      → rounds (total performances s.queues) + (performances + 4) ≤ n
      → Falls n s.context.running (some (after_perform actor r s))
  unfolding after_perform is_running
  perform-Falls (ok (state, nothing)) s n off h = (omega arith, off, λ r. r)
  perform-Falls (ok (state, stops)) s n off h = (omega arith, ground arith, λ r. refl)
  perform-Falls (err (state, x)) s n off h = (omega arith, off, λ r. r)

  internal-Falls :
      (p : Phase Msg Panic) (e : Event actor) (s : Sys actor)
      → p ≡ s.phase
      → is_running s.context ≡ false
      → Falls (steps_left s) s.context.running (internal actor p e s)
  unfolding internal
  internal-Falls (checking k g) enter s q off = check-Falls k g s _ off (omega (arith, ap weight q))
  internal-Falls (selecting guards timer) (receive i) s q off =
      elim (Bool-cases (ltb i performances && guards i)) [
        | inl on ↦
            rw on
              (take-Falls i (s.queues i) s _ refl (ground arith) off (omega (arith, ap weight q)))
        | inr no' ↦ rw no' tt
      ]
  internal-Falls (selecting guards timer) timeout s q off = elim (Bool-cases (timer && s.elapsed)) [
    | inl on ↦ rw on (timeout-Falls s _ off (omega (arith, ap weight q)))
    | inr no' ↦ rw no' tt
  ]
  internal-Falls (handling i m) finish s q off =
      perform-Falls (actor.perform i s.state s.context m) s _ off (omega (arith, ap weight q))
  internal-Falls exited finish s q off = (omega (arith, ap weight q), off, λ r. r)
  internal-Falls (panicked x) finish s q off = (omega (arith, ap weight q), off, λ r. r)
  internal-Falls _ _ s q off = tt

  pub own-Falls :
      (e : Event actor) (s : Sys actor)
      → is_own e ≡ true
      → is_running s.context ≡ false
      → Falls (steps_left s) s.context.running (step actor e s)
  unfolding step
  own-Falls enter s own off = internal-Falls s.phase enter s refl off
  own-Falls (receive i) s own off = internal-Falls s.phase (receive i) s refl off
  own-Falls finish s own off = internal-Falls s.phase finish s refl off
  own-Falls timeout s own off = internal-Falls s.phase timeout s refl off
  own-Falls _ s own off = absurd (cc)

  abbrev steps_after : Option (Sys actor) → ℕ
  steps_after none = 0
  steps_after (some t) = steps_left t

  -- From any state whose context is not running, every sequence of steps of the loop alone is
  -- finite: it has at most three steps and the evaluation of the branches' preconditions for each
  -- queued message, and those for the message at hand or to the end.
  pub own_steps_bounded :
      (es : List (Event actor)) (s t : Sys actor)
      → All (λ e. is_own e ≡ true) es
      → is_running s.context ≡ false
      → run actor es s ≡ some t
      → length es + steps_left t ≤ steps_left s
  unfolding run
  own_steps_bounded [] s t own off eq = omega (arith, ap steps_after eq)
  own_steps_bounded (e ∷ es) s t own off eq = elim (Option-cases (step actor e s)) [
    | inl none' ↦ absurd (cc (rw (none', run) at eq))
    | inr (u, on) ↦
        let (less, off', stopped) =
          subst (Falls (steps_left s) s.context.running) on (own-Falls e s (own.0) off) in
        omega (arith, own_steps_bounded es u t (own.1) off' (rw (on, run) at eq))
  ]

  take_from-some :
      (i : ℕ) (q : List Msg) (s : Sys actor)
      → is_empty q ≡ false
      → (t : Sys actor) × (take_from actor i q s ≡ some t)
  unfolding take_from
  take_from-some i [] s h = absurd (cc)
  take_from-some i (m ∷ rest) s h = (_, refl)

  -- With `stop` called, the own step that is always there.
  pub own_step :
      (p : Phase Msg Panic) (s : Sys actor)
      → Waiting actor s.context s.queues p
      → is_over actor p ≡ false
      → s.context.running ≡ false
      → (e : Event actor) × (t : Sys actor) × (is_own e ≡ true) × (internal actor p e s ≡ some t)
  unfolding internal
  own_step (checking k g) s w over stopped = (enter, _, refl, refl)
  own_step (selecting guards true) s w over stopped = absurd (cc)
  own_step (selecting guards false) s w over stopped =
      let (i, l, on) = any_below-true performances guards (w.0) in
      let (t, taken) = take_from-some i (s.queues i) s (w.1 stopped i on) in
      (receive i, t, refl, rw (on, taken) (ground arith))
  own_step (handling i m) s w over stopped = (finish, _, refl, refl)
  own_step exited s w over stopped = (finish, _, refl, refl)
  own_step (panicked x) s w over stopped = (finish, _, refl, refl)
  own_step (done x) s w over stopped = absurd (cc)

  pub internal-step :
      (e : Event actor) (s : Sys actor)
      → is_own e ≡ true
      → step actor e s ≡ internal actor s.phase e s
  unfolding step
  internal-step enter s own = refl
  internal-step (receive i) s own = refl
  internal-step finish s own = refl
  internal-step timeout s own = refl
  internal-step _ s own = absurd (cc)
