-- ===== src/EventLoop/Channels/Simulates.antt =====
-- The loop over its channels does what the loop over queues does
-- (shakespeare-macro/src/outputs/actor, src/tokio.rs).
use shakespeare.Prelude.{
  ◌⊎◌, ℕ, ◌≡◌, refl, sym, subst, true, false, ◌&&◌, ◌-◌, Option, none, some, List, [], ◌∷◌, ltb,
  Bool-cases, inl, inr, arith,
}
use shakespeare.Core.Channel.{Mpsc, tokio_unbounded}
use shakespeare.EventLoop
use shakespeare.EventLoop.{
  Actor, Phase, checking, done, top, selecting, handling, exited, panicked, Verb, Sys, Event, enter,
  receive, finish, timeout, push, clone_handle, drop_handle, elapse, obey, is_empty, guard, is_over,
  update,
}
use shakespeare.EventLoop.Channels
use shakespeare.EventLoop.Channels.{Task}
use shakespeare.EventLoop.Channels.Related.{
  TokioTask, Ends, channel_step, channel_run, SamePhase, tops, checks, dones, selects, handles,
  exits, panics, Holds, Related, Matches, Matches-if,
}
use shakespeare.EventLoop.Channels.Transfers.{take-Matches, push-Matches}
use shakespeare.EventLoop.Channels.Phases.{
  R, M, at, Held, check-Related, done-Related, timeout-Related, after-Related,
}

module _ (actor : Actor) (mpsc : Mpsc actor.Msg) (ends : Ends actor mpsc) where
  open actor use {State, Msg, Panic, performances}
  open mpsc use {World, UnboundedSender, UnboundedReceiver, receiver_of, is_open, has_sender, held}
  open ends use {input, output}

  -- One event of the loop over channels, against the same event of the loop over queues.
  abbrev StepMatches : Event actor → World → Phase Msg Panic → Sys actor → Type 0
  StepMatches e w p s =
      M actor mpsc ends (channel_step actor mpsc ends e (at actor mpsc ends w p s))
        (EventLoop.step actor e s)

  abbrev InternalMatches :
      Event actor → World → Phase Msg Panic → Phase Msg Panic → Sys actor → Type 0
  InternalMatches e w p q s =
      M actor mpsc ends
        (Channels.internal actor (tokio_unbounded mpsc) input output mpsc.drop p e
          (at actor mpsc ends w p s))
        (EventLoop.internal actor q e s)

  enter-Matches :
      {p q : Phase Msg Panic} (w : World) (s : Sys actor)
      → SamePhase actor mpsc ends p q
      → Held actor mpsc ends (is_over actor q) w s.queues
      → InternalMatches enter w p q s
  unfolding Channels.internal EventLoop.internal
  enter-Matches w s (checks {k = k} {g = g} {h = h} same) holds =
      check-Related actor mpsc ends k g h w (checking k g) s same holds
  enter-Matches w s (selects g) holds = tt
  enter-Matches w s handles holds = tt
  enter-Matches w s exits holds = tt
  enter-Matches w s panics holds = tt
  enter-Matches w s dones holds = tt

  receive-Matches :
      {p q : Phase Msg Panic} (i : ℕ) (w : World) (s : Sys actor)
      → SamePhase actor mpsc ends p q
      → Held actor mpsc ends (is_over actor q) w s.queues
      → InternalMatches (receive i) w p q s
  unfolding Channels.internal EventLoop.internal
  receive-Matches i w s (checks same) holds = tt
  receive-Matches i w s (selects {g = g} {h = h} {b = b} same) holds =
      Matches-if actor mpsc ends _ _ _ _ (tests (Bool-cases (ltb i performances))) (λ on.
        take-Matches actor mpsc ends i (s.queues i) w (selecting g b) s (ground arith) holds refl)
    where
      tests :
          (ltb i performances ≡ true) ⊎ (ltb i performances ≡ false)
          → (ltb i performances && g i) ≡ (ltb i performances && h i)
      tests (inl near) = rw near (same i (ground arith))
      tests (inr far) = rw far refl
  receive-Matches i w s handles holds = tt
  receive-Matches i w s exits holds = tt
  receive-Matches i w s panics holds = tt
  receive-Matches i w s dones holds = tt

  finish-Matches :
      {p q : Phase Msg Panic} (w : World) (s : Sys actor)
      → SamePhase actor mpsc ends p q
      → Held actor mpsc ends (is_over actor q) w s.queues
      → InternalMatches finish w p q s
  unfolding Channels.internal EventLoop.internal
  finish-Matches w s (checks same) holds = tt
  finish-Matches w s (selects g) holds = tt
  finish-Matches w s (handles {i = i} {m = m}) holds =
      after-Related actor mpsc ends (actor.perform i s.state s.context m) w (handling i m) s holds
  finish-Matches w s exits holds = done-Related actor mpsc ends none w exited s
  finish-Matches w s (panics {x = x}) holds = done-Related actor mpsc ends (some x) w (panicked x) s
  finish-Matches w s dones holds = tt

  timeout-Matches :
      {p q : Phase Msg Panic} (w : World) (s : Sys actor)
      → SamePhase actor mpsc ends p q
      → Held actor mpsc ends (is_over actor q) w s.queues
      → InternalMatches timeout w p q s
  unfolding Channels.internal EventLoop.internal
  timeout-Matches w s (checks same) holds = tt
  timeout-Matches w s (selects {g = g} {b = b} same) holds =
      Matches-if actor mpsc ends (b && s.elapsed) (b && s.elapsed)
        (some (
          Channels.on_timeout actor (tokio_unbounded mpsc) input output mpsc.drop
            (at actor mpsc ends w (selecting g b) s)))
        (some (EventLoop.on_timeout actor s)) refl
        (λ on. timeout-Related actor mpsc ends w (selecting g b) s holds)
  timeout-Matches w s handles holds = tt
  timeout-Matches w s exits holds = tt
  timeout-Matches w s panics holds = tt
  timeout-Matches w s dones holds = tt

  concrete-Matches :
      (e : Event actor) (w : World) (p : Phase Msg Panic) (s : Sys actor)
      → SamePhase actor mpsc ends p s.phase
      → Held actor mpsc ends (is_over actor s.phase) w s.queues
      → StepMatches e w p s
  unfolding Channels.step EventLoop.step
  concrete-Matches enter w p s same holds = enter-Matches w s same holds
  concrete-Matches (receive i) w p s same holds = receive-Matches i w s same holds
  concrete-Matches finish w p s same holds = finish-Matches w s same holds
  concrete-Matches timeout w p s same holds = timeout-Matches w s same holds
  concrete-Matches (push i m) w p s same holds = push-Matches actor mpsc ends i m w p s same holds
  concrete-Matches clone_handle w p s same holds = record {
    world = w;
    phase = p;
    is = refl;
    same_phase = same;
    holds = holds;
  }
  concrete-Matches drop_handle w p s same holds =
      let dropped = record s {
        context = record (s.context) { strong_count = s.context.strong_count - 1 };
      } in
      let more = ltb 1 s.context.strong_count in
      Matches-if actor mpsc ends more more (some (at actor mpsc ends w p dropped)) (some dropped)
        refl (λ on. record { world = w; phase = p; is = refl; same_phase = same; holds = holds })
  concrete-Matches elapse w p s same holds = record {
    world = w;
    phase = p;
    is = refl;
    same_phase = same;
    holds = holds;
  }

  step-Matches :
      (e : Event actor) (t : TokioTask actor mpsc) (s : Sys actor)
      → R actor mpsc ends t s
      → M actor mpsc ends (channel_step actor mpsc ends e t) (EventLoop.step actor e s)
  step-Matches e t s r =
      subst (λ u. M actor mpsc ends (channel_step actor mpsc ends e u) (EventLoop.step actor e s))
        (sym r.is) (concrete-Matches e r.world r.phase s r.same_phase r.holds)

  run-cons :
      (e : Event actor) (es : List (Event actor)) (a : Option (TokioTask actor mpsc))
      (b : Option (Sys actor)) (t : TokioTask actor mpsc) (s : Sys actor)
      → channel_step actor mpsc ends e t ≡ a
      → EventLoop.step actor e s ≡ b
      → M actor mpsc ends a b
      → ((u : TokioTask actor mpsc) (v : Sys actor)
          → R actor mpsc ends u v
          → M actor mpsc ends (channel_run actor mpsc ends es u) (EventLoop.run actor es v))
      → M actor mpsc ends (channel_run actor mpsc ends (e ∷ es) t) (EventLoop.run actor (e ∷ es) s)
  unfolding Channels.run EventLoop.run
  run-cons e es none none t s x y m next = rw (x, Channels.run) (rw (y, EventLoop.run) tt)
  run-cons e es (some u) (some v) t s x y m next =
      rw (x, Channels.run) (rw (y, EventLoop.run) (next u v m))
  run-cons e es none (some v) t s x y m next = absurd m
  run-cons e es (some u) none t s x y m next = absurd m

  -- From a task and a state that agree, the same sequences of events are possible, and lead to such again.
  run-Matches :
      (es : List (Event actor)) (t : TokioTask actor mpsc) (s : Sys actor)
      → Related actor mpsc ends t s
      → Matches actor mpsc ends (channel_run actor mpsc ends es t) (EventLoop.run actor es s)
  run-Matches [] t s r = unfold Channels.run EventLoop.run in r
  run-Matches (e ∷ es) t s r =
      run-cons e es _ _ t s refl refl (step-Matches e t s r) (run-Matches es)

  -- From the start of the task, with channels that are open and empty.
  pub started-Matches :
      (es : List (Event actor)) (w : World) (state : State)
      → Holds actor mpsc ends false w (λ i. [])
      → Matches actor mpsc ends
          (channel_run actor mpsc ends es (Channels.started actor (tokio_unbounded mpsc) w state))
          (EventLoop.run actor es (EventLoop.start actor state))
  started-Matches es w state fresh = run-Matches es _ _ agree
    where
      agree :
          Related actor mpsc ends
            (Channels.started actor (tokio_unbounded mpsc) w state)
            (EventLoop.start actor state)
      agree =
          unfold Channels.started EventLoop.start in
          record {
            world = w;
            phase = top;
            is = refl;
            same_phase = tops actor mpsc ends;
            holds = fresh;
          }
