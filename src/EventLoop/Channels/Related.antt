-- ===== src/EventLoop/Channels/Related.antt =====
-- When the loop over its channels (shakespeare-macro/src/outputs/actor, src/tokio.rs) agrees with the loop
-- over queues.
use shakespeare.Prelude.{
  ℕ, zero, suc, ◌<◌, ◌≡◌, refl, ◌∙◌, ap, Bool, true, false, not, ◌||◌, Option, none, some, List, [],
  ◌∷◌, ◌==◌, any_below, if◌then◌else◌, Bool-cases, inl, inr, arith,
}
use shakespeare.Core.Context.{is_running}
use shakespeare.Core.Channel.{Mpsc, nothing_held, tokio_unbounded}
use shakespeare.EventLoop.{
  Actor, Phase, checking, done, top, selecting, handling, exited, panicked, Sys, Event, is_empty,
  guard, is_over,
}
use shakespeare.EventLoop.Channels
use shakespeare.EventLoop.Channels.{Task}

nothing_held-is_empty : {A : Type 0} (xs : List A) → nothing_held xs ≡ is_empty xs
nothing_held-is_empty [] = refl
nothing_held-is_empty (x ∷ xs) = refl

pub any_below-cong :
    (n : ℕ) (f g : ℕ → Bool) → ((i : ℕ) → i < n → f i ≡ g i) → any_below n f ≡ any_below n g
unfolding any_below
any_below-cong zero f g h = refl
any_below-cong (suc n) f g h =
    rw (h n (omega arith), any_below-cong n f g (λ i l. h i (omega arith))) refl

module _ (actor : Actor) (mpsc : Mpsc actor.Msg) where
  open actor use {State, Msg, Panic, performances}
  open mpsc use {World, UnboundedSender, UnboundedReceiver, receiver_of, is_open, has_sender, held}

  abbrev pub TokioTask : Type 0
  TokioTask = Task actor (tokio_unbounded mpsc)

  -- The channels of an actor: each sender sends to the receiver at its place, and no two places have
  -- one receiver.
  pub record Ends : Type 0 where
    pub input : ℕ → UnboundedSender
    pub output : ℕ → UnboundedReceiver
    pub belongs : (i : ℕ) → i < performances → receiver_of (input i) ≡ output i
    pub apart : (i j : ℕ) → i < performances → j < performances → output i ≡ output j → i ≡ j

  module _ (ends : Ends) where
    open ends use {input, output}

    abbrev pub channel_step : Event actor → TokioTask → Option TokioTask
    channel_step = Channels.step actor (tokio_unbounded mpsc) input output mpsc.drop

    abbrev pub channel_run : List (Event actor) → TokioTask → Option TokioTask
    channel_run = Channels.run actor (tokio_unbounded mpsc) input output mpsc.drop

    abbrev pub Guards : Type 0
    Guards = ℕ → Bool

    -- The phases agree, their guards on the places of the performances.
    pub data SamePhase : Phase Msg Panic → Phase Msg Panic → Type 0 where
      checks :
          {k : ℕ} {g h : Guards}
          → ((i : ℕ) → i < performances → g i ≡ h i)
          → SamePhase (checking k g) (checking k h)
      selects :
          {g h : Guards} {b : Bool}
          → ((i : ℕ) → i < performances → g i ≡ h i)
          → SamePhase (selecting g b) (selecting h b)
      handles : {i : ℕ} {m : Msg} → SamePhase (handling i m) (handling i m)
      exits : SamePhase exited exited
      panics : {x : Panic} → SamePhase (panicked x) (panicked x)
      dones : {x : Option Panic} → SamePhase (done x) (done x)

    pub tops : SamePhase top top
    tops = checks (λ i l. refl)

    -- What the channels hold, before the task's end and behind it.
    abbrev pub Holds : Bool → World → (ℕ → List Msg) → Type 0
    Holds true w queues = (i : ℕ) → i < performances → is_open w (output i) ≡ false
    Holds false w queues =
        (i : ℕ)
        → i < performances
        → (held w (output i) ≡ queues i)
          × (is_open w (output i) ≡ true)
          × (has_sender w (output i) ≡ true)

    abbrev pub concrete : World → Phase Msg Panic → Sys actor → TokioTask
    concrete w p s = record {
      world = w;
      state = s.state;
      context = s.context;
      elapsed = s.elapsed;
      phase = p;
    }

    -- A task and a state of the loop over queues agree.
    pub record Related (t : TokioTask) (s : Sys actor) : Type 0 where
      pub world : World
      pub phase : Phase Msg Panic
      pub is : t ≡ concrete world phase s
      pub same_phase : SamePhase phase s.phase
      pub holds : Holds (is_over actor s.phase) world s.queues

    -- Either both have a next state, and these agree, or neither has one.
    abbrev pub Matches : Option TokioTask → Option (Sys actor) → Type 0
    Matches none none = Unit
    Matches (some t) (some s) = Related t s
    Matches _ _ = ⊥

    pub Related-if :
        (b c : Bool) (t t' : TokioTask) (s s' : Sys actor)
        → b ≡ c
        → (c ≡ true → Related t s)
        → (c ≡ false → Related t' s')
        → Related (if b then t else t') (if c then s else s')
    Related-if true true t t' s s' e x y = x refl
    Related-if false false t t' s s' e x y = y refl
    Related-if true false t t' s s' e x y = absurd (cc)
    Related-if false true t t' s s' e x y = absurd (cc)

    pub Matches-if :
        (b c : Bool) (t : Option TokioTask) (s : Option (Sys actor))
        → b ≡ c
        → (c ≡ true → Matches t s)
        → Matches (if b then t else none) (if c then s else none)
    Matches-if true true t s e x = x refl
    Matches-if false false t s e x = tt
    Matches-if true false t s e x = absurd (cc)
    Matches-if false true t s e x = absurd (cc)

    -- At its end the task drops every receiver.
    drop_all-still :
        (n : ℕ) (q : UnboundedReceiver) (w : World)
        → is_open w q ≡ false
        → is_open (Channels.drop_all actor (tokio_unbounded mpsc) input output mpsc.drop n w) q
          ≡ false
    unfolding Channels.drop_all
    drop_all-still zero q w e = e
    drop_all-still (suc n) q w e =
        drop_all-still n q (mpsc.drop (output n) w) (mpsc.drop-still (output n) q w e)

    pub drop_all-closed :
        (n i : ℕ) (w : World)
        → i < n
        → is_open
            (Channels.drop_all actor (tokio_unbounded mpsc) input output mpsc.drop n w)
            (output i)
          ≡ false
    unfolding Channels.drop_all
    drop_all-closed zero i w l = absurd (omega arith)
    drop_all-closed (suc n) i w l = elim (Bool-cases (i == n)) [
      | inl last ↦
          let is : i ≡ n = ground arith in
          rw is
            (drop_all-still n (output n) (mpsc.drop (output n) w) (mpsc.drop-closed (output n) w))
      | inr other ↦ drop_all-closed n i (mpsc.drop (output n) w) (ground arith)
    ]

    pub guard-same :
        (w : World) (p : Phase Msg Panic) (s : Sys actor) (i : ℕ)
        → Holds false w s.queues
        → i < performances
        → Channels.guard_of actor (tokio_unbounded mpsc) input output mpsc.drop (concrete w p s) i
          ≡ guard actor s.context s.queues i
    guard-same w p s i holds l =
        ap (λ (b : Bool). not b || is_running s.context)
          (mpsc.is_empty-held (output i) w
            ∙ (nothing_held-is_empty (held w (output i)) ∙ ap is_empty (holds i l).0))
