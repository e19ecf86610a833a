-- ===== src/EventLoop/Handles/Turns.antt =====
-- What a step of the loop in shakespeare-macro/src/outputs/actor/spawning_function.rs does to the count of
-- references to the shell, and when it ends.
use shakespeare.Prelude.{
  ℕ, ◌≡◌, refl, Bool, true, false, not, ◌&&◌, ◌||◌, Option, none, some, List, [], ◌∷◌, Result, ok,
  err, ltb, any_below, if◌then◌else◌, Bool-cases, inl, inr, arith,
}
use shakespeare.Core.Context.{Context, is_running}
use shakespeare.EventLoop.{
  Actor, Phase, checking, done, selecting, handling, exited, panicked, Verb, nothing, stops, Sys,
  Event, enter, receive, finish, timeout, is_over, check_next, enter_select, take_from, on_timeout,
  after_perform, internal,
}

module _ (actor : Actor) where
  open actor use {State, Msg, Panic, performances}

  abbrev pub is_panicked : Phase Msg Panic → Bool
  is_panicked (panicked x) = true
  is_panicked (done (some x)) = true
  is_panicked _ = false

  -- Whether the loop has come to its end.
  abbrev pub has_left : Phase Msg Panic → Bool
  has_left exited = true
  has_left (panicked x) = true
  has_left (done x) = true
  has_left _ = false

  -- A handler has stopped the actor, or has panicked.
  abbrev pub is_broken : Sys actor → Bool
  is_broken s = not s.context.running || is_panicked s.phase

  -- The count stays; a stopped context stays stopped, and a panic a panic; and the loop breaks only
  -- over a context that is not running.
  abbrev pub Went : Phase Msg Panic → Context → Option (Sys actor) → Type 0
  Went p c none = Unit
  Went p c (some t) =
      (t.context.strong_count ≡ c.strong_count)
      × (t.context.running ≡ true → c.running ≡ true)
      × (is_panicked t.phase ≡ false → is_panicked p ≡ false)
      × (has_left t.phase ≡ true
          → has_left p ≡ false
          → is_broken t ≡ false
          → is_running t.context ≡ false)

  Went-if :
      (p : Phase Msg Panic) (c : Context) (b : Bool) (o : Option (Sys actor))
      → Went p c o
      → Went p c (if b then o else none)
  Went-if p c true o h = h
  Went-if p c false o h = tt

  enter-Went :
      (k : ℕ) (h g : ℕ → Bool) (s : Sys actor)
      → Went (checking k h) s.context (some (enter_select actor g s))
  unfolding enter_select
  enter-Went k h g s = elim (Bool-cases (any_below performances g || is_running s.context)) [
    | inl some_on ↦ rw some_on (refl, λ r. r, λ p. refl, λ e f b. cc)
    | inr all_off ↦ rw all_off (refl, λ r. r, λ p. refl, λ e f b. ground arith)
  ]

  check-Went :
      (k : ℕ) (g : ℕ → Bool) (s : Sys actor)
      → Went (checking k g) s.context (some (check_next actor k g s))
  unfolding check_next
  check-Went k g s = elim (Bool-cases (ltb k performances)) [
    | inl more ↦ rw more (refl, λ r. r, λ p. refl, λ e f b. cc)
    | inr last ↦ rw last (enter-Went k g g s)
  ]

  take-Went :
      (g : ℕ → Bool) (b : Bool) (i : ℕ) (q : List Msg) (s : Sys actor)
      → Went (selecting g b) s.context (take_from actor i q s)
  unfolding take_from
  take-Went g b i [] s = tt
  take-Went g b i (m ∷ rest) s = (refl, λ r. r, λ p. refl, λ e f b. cc)

  timeout-Went :
      (g : ℕ → Bool) (b : Bool) (s : Sys actor)
      → Went (selecting g b) s.context (some (on_timeout actor s))
  unfolding on_timeout
  timeout-Went g b s = elim (Bool-cases (not (is_running s.context))) [
    | inl over ↦ rw over (refl, λ r. r, λ p. refl, λ e f b. ground arith)
    | inr on ↦ rw on (refl, λ r. r, λ p. refl, λ e f b. cc)
  ]

  perform-Went :
      (i : ℕ) (m : Msg) (r : Result (State × Panic) (State × Verb)) (s : Sys actor)
      → Went (handling i m) s.context (some (after_perform actor r s))
  unfolding after_perform
  perform-Went i m (ok (state, nothing)) s = (refl, λ r. r, λ p. refl, λ e f b. cc)
  perform-Went i m (ok (state, stops)) s = (refl, λ r. cc, λ p. refl, λ e f b. cc)
  perform-Went i m (err (state, x)) s = (refl, λ r. r, λ p. refl, λ e f b. ground arith)

  pub internal-Went :
      (p : Phase Msg Panic) (e : Event actor) (s : Sys actor)
      → Went p s.context (internal actor p e s)
  unfolding internal
  internal-Went (checking k g) enter s = check-Went k g s
  internal-Went (selecting g b) (receive i) s =
      Went-if (selecting g b) s.context (ltb i performances && g i) _
        (take-Went g b i (s.queues i) s)
  internal-Went (selecting g b) timeout s =
      Went-if (selecting g b) s.context (b && s.elapsed) _ (timeout-Went g b s)
  internal-Went (handling i m) finish s = perform-Went i m (actor.perform i s.state s.context m) s
  internal-Went exited finish s = (refl, λ r. r, λ p. refl, λ e f b. cc)
  internal-Went (panicked x) finish s = (refl, λ r. r, λ p. p, λ e f b. cc)
  internal-Went _ _ s = tt

  pub is_over-left : (p : Phase Msg Panic) → is_over actor p ≡ true → has_left p ≡ true
  is_over-left (done x) over = refl
  is_over-left _ over = absurd (cc)
