-- ===== src/EventLoop/Channels/Phases.antt =====
-- The loop's own steps between its phases, over channels and over queues
-- (shakespeare-macro/src/outputs/actor/spawning_function.rs).
use shakespeare.Prelude.{
  ◌≡◌, ltb, ◌==◌, Bool-cases, inl, inr, arith, ℕ, ◌<◌, refl, ap, Bool, false, ◌||◌, Option, List,
  Result, ok, err,
}
use shakespeare.Core.Context.{is_running}
use shakespeare.Core.Channel.{Mpsc, tokio_unbounded}
use shakespeare.EventLoop
use shakespeare.EventLoop.{
  Actor, Phase, checking, done, top, selecting, handling, exited, panicked, Verb, Sys, Event, enter,
  receive, finish, timeout, push, clone_handle, drop_handle, elapse, obey, is_empty, guard, is_over,
  update,
}
use shakespeare.EventLoop.Channels
use shakespeare.EventLoop.Channels.{Task}
use shakespeare.EventLoop.Channels.Related.{
  any_below-cong, TokioTask, Ends, tops, checks, dones, selects, exits, panics, Holds, concrete,
  Related, Matches, Related-if, drop_all-closed, guard-same,
}

module _ (actor : Actor) (mpsc : Mpsc actor.Msg) (ends : Ends actor mpsc) where
  open actor use {State, Msg, Panic, performances}
  open mpsc use {World, UnboundedSender, UnboundedReceiver, receiver_of, is_open, has_sender, held}
  open ends use {input, output}

  abbrev pub R : TokioTask actor mpsc → Sys actor → Type 0
  R = Related actor mpsc ends

  abbrev pub M : Option (TokioTask actor mpsc) → Option (Sys actor) → Type 0
  M = Matches actor mpsc ends

  abbrev pub at : World → Phase Msg Panic → Sys actor → TokioTask actor mpsc
  at = concrete actor mpsc ends

  abbrev pub Held : Bool → World → (ℕ → List Msg) → Type 0
  Held = Holds actor mpsc ends

  -- The values of the preconditions agree.
  abbrev pub Same : (ℕ → Bool) → (ℕ → Bool) → Type 0
  Same g h = (i : ℕ) → i < performances → g i ≡ h i

  enter-Related :
      (g h : ℕ → Bool) (w : World) (p : Phase Msg Panic) (s : Sys actor)
      → Same g h
      → Held false w s.queues
      → R
          (Channels.enter_select actor (tokio_unbounded mpsc) input output mpsc.drop g (at w p s))
          (EventLoop.enter_select actor h s)
  unfolding Channels.enter_select EventLoop.enter_select
  enter-Related g h w p s same holds =
      Related-if actor mpsc ends _ _ _ _ _ _
        (ap (λ (b : Bool). b || is_running s.context) (any_below-cong performances g h same))
        (λ on. record {
          world = w;
          phase = selecting g (is_running s.context);
          is = refl;
          same_phase = selects same;
          holds = holds;
        })
        (λ off. record { world = w; phase = exited; is = refl; same_phase = exits; holds = holds })

  Same-next :
      (k : ℕ) (g h : ℕ → Bool) (w : World) (p : Phase Msg Panic) (s : Sys actor)
      → Same g h
      → Held false w s.queues
      → Same
          (update g k
            (Channels.guard_of actor (tokio_unbounded mpsc) input output mpsc.drop (at w p s) k))
          (update h k (guard actor s.context s.queues k))
  Same-next k g h w p s same holds i l = elim (Bool-cases (k == i)) [
    | inl here ↦
        let is : k ≡ i = ground arith in
        rw here (guard-same actor mpsc ends w p s k holds (omega (arith, is)))
    | inr there ↦ rw there (same i l)
  ]

  pub check-Related :
      (k : ℕ) (g h : ℕ → Bool) (w : World) (p : Phase Msg Panic) (s : Sys actor)
      → Same g h
      → Held false w s.queues
      → R
          (Channels.check_next actor (tokio_unbounded mpsc) input output mpsc.drop k g (at w p s))
          (EventLoop.check_next actor k h s)
  unfolding Channels.check_next EventLoop.check_next
  check-Related k g h w p s same holds = elim (Bool-cases (ltb k performances)) [
    | inl more ↦ rw more (record {
      world = w;
      phase = _;
      is = refl;
      same_phase = checks (Same-next k g h w p s same holds);
      holds = holds;
    })
    | inr last ↦ rw last (enter-Related g h w p s same holds)
  ]

  pub timeout-Related :
      (w : World) (p : Phase Msg Panic) (s : Sys actor)
      → Held false w s.queues
      → R
          (Channels.on_timeout actor (tokio_unbounded mpsc) input output mpsc.drop (at w p s))
          (EventLoop.on_timeout actor s)
  unfolding Channels.on_timeout EventLoop.on_timeout
  timeout-Related w p s holds =
      Related-if actor mpsc ends _ _ _ _ _ _ refl
        (λ off. record { world = w; phase = exited; is = refl; same_phase = exits; holds = holds })
        (λ on. record {
          world = w;
          phase = top;
          is = refl;
          same_phase = tops actor mpsc ends;
          holds = holds;
        })

  pub after-Related :
      (r : Result (State × Panic) (State × Verb)) (w : World) (p : Phase Msg Panic) (s : Sys actor)
      → Held false w s.queues
      → R
          (Channels.after_perform actor (tokio_unbounded mpsc) input output mpsc.drop r (at w p s))
          (EventLoop.after_perform actor r s)
  unfolding Channels.after_perform EventLoop.after_perform
  after-Related (ok (state, verb)) w p s holds = record {
    world = w;
    phase = top;
    is = refl;
    same_phase = tops actor mpsc ends;
    holds = holds;
  }
  after-Related (err (state, x)) w p s holds = record {
    world = w;
    phase = panicked x;
    is = refl;
    same_phase = panics;
    holds = holds;
  }

  -- At the end of the hook the receivers go.
  pub done-Related :
      (x : Option Panic) (w : World) (p : Phase Msg Panic) (s : Sys actor)
      → R
          (Channels.ended actor (tokio_unbounded mpsc) input output mpsc.drop (done x) (at w p s))
          (record s { phase = done x })
  done-Related x w p s = record {
    world = _;
    phase = done x;
    is = refl;
    same_phase = dones;
    holds = λ i l. drop_all-closed actor mpsc ends performances i w l;
  }
