-- ===== src/EventLoop/Channels/Made.antt =====
-- The channels that `start` makes (shakespeare-macro/src/outputs/actor/spawning_function.rs), and the loop
-- over them.
use shakespeare.Prelude.{
  ℕ, zero, suc, ◌≤◌, ◌≡◌, sym, ◌∙◌, ap, true, List, [], ◌==◌, Bool-cases, inl, inr, arith,
  false_ne_true,
}
use shakespeare.Core.Channel.{Mpsc, tokio_unbounded}
use shakespeare.EventLoop
use shakespeare.EventLoop.{Actor, Event, update}
use shakespeare.EventLoop.Channels
use shakespeare.EventLoop.Channels.{queue_constructions}
use shakespeare.EventLoop.Channels.Related.{Ends, Matches, channel_run}
use shakespeare.EventLoop.Channels.Simulates.{started-Matches}

module _ (actor : Actor) (mpsc : Mpsc actor.Msg) where
  open actor use {State, Msg, performances}
  open mpsc use {
    World, UnboundedSender, UnboundedReceiver, unbounded_channel, receiver_of, is_made, is_open,
    has_sender, held,
  }

  abbrev pub Pair : Type 0
  Pair = UnboundedSender × UnboundedReceiver

  -- A channel with both ends, that nothing was sent on.
  pub record IsFresh (w : World) (p : Pair) : Type 0 where
    pub made : is_made w p.1 ≡ true
    pub belongs : receiver_of p.0 ≡ p.1
    pub empty : held w p.1 ≡ []
    pub open_ : is_open w p.1 ≡ true
    pub sender : has_sender w p.1 ≡ true

  IsFresh-new : (w : World) → IsFresh (unbounded_channel w).1 (unbounded_channel w).0
  IsFresh-new w =
      let (new, made, belongs, empty, open_, sender) = mpsc.new-fresh w in
      record { made = made; belongs = belongs; empty = empty; open_ = open_; sender = sender }

  IsFresh-later : (w : World) (p : Pair) → IsFresh w p → IsFresh (unbounded_channel w).1 p
  IsFresh-later w p h =
      let (made, held, open_, sender) = mpsc.new-keeps w p.1 h.made in
      record {
        made = made;
        belongs = h.belongs;
        empty = held ∙ h.empty;
        open_ = open_ ∙ h.open_;
        sender = sender ∙ h.sender;
      }

  apart-new : (w : World) (p : Pair) → IsFresh w p → p.1 ≡ (unbounded_channel w).0.1 → ⊥
  apart-new w p h e =
      let new = (mpsc.new-fresh w).0 in false_ne_true (sym new ∙ (ap (is_made w) (sym e) ∙ h.made))

  pub record AllMade (last : ℕ) (f : ℕ → Pair) (w : World) : Type 0 where
    pub fresh : (i : ℕ) → i ≤ last → IsFresh w (f i)
    pub apart : (i j : ℕ) → i ≤ last → j ≤ last → (f i).1 ≡ (f j).1 → i ≡ j

  one_more :
      (last : ℕ) (f : ℕ → Pair) (w : World)
      → AllMade last f w
      → AllMade (suc last) (update f (suc last) (unbounded_channel w).0) (unbounded_channel w).1
  one_more last f w h = record { fresh = fresh; apart = apart }
    where
      new : Pair
      new = (unbounded_channel w).0

      fresh : (i : ℕ) → i ≤ suc last → IsFresh (unbounded_channel w).1 (update f (suc last) new i)
      fresh i l = elim (Bool-cases (suc last == i)) [
        | inl here ↦ rw here (IsFresh-new w)
        | inr there ↦ rw there (IsFresh-later w (f i) (h.fresh i (ground arith)))
      ]

      apart :
          (i j : ℕ)
          → i ≤ suc last
          → j ≤ suc last
          → (update f (suc last) new i).1 ≡ (update f (suc last) new j).1
          → i ≡ j
      apart i j l k e = elim (Bool-cases (suc last == i)) [
        | inl here ↦ elim (Bool-cases (suc last == j)) [
          | inl too ↦ ground arith
          | inr other ↦
              absurd (apart-new w (f j) (h.fresh j (ground arith)) (sym (rw (here, other) at e)))
        ]
        | inr there ↦ elim (Bool-cases (suc last == j)) [
          | inl here ↦ absurd (apart-new w (f i) (h.fresh i (ground arith)) (rw (there, here) at e))
          | inr other ↦ h.apart i j (ground arith) (ground arith) (rw (there, other) at e)
        ]
      ]

  abbrev pub constructed : ℕ → World → (ℕ → Pair) × World
  constructed = queue_constructions actor (tokio_unbounded mpsc)

  pub constructed-AllMade :
      (last : ℕ) (w : World) → AllMade last (constructed last w).0 (constructed last w).1
  unfolding queue_constructions
  constructed-AllMade zero w = record {
    fresh = λ i l. IsFresh-new w;
    apart = λ i j l k e. omega arith;
  }
  constructed-AllMade (suc last) w =
      one_more last (constructed last w).0 (constructed last w).1 (constructed-AllMade last w)

  abbrev pub made_ends : (last : ℕ) → performances ≡ suc last → World → Ends actor mpsc
  made_ends last some_ w =
      let h = constructed-AllMade last w in
      record {
        input = λ i. ((constructed last w).0 i).0;
        output = λ i. ((constructed last w).0 i).1;
        belongs = λ i l. (h.fresh i (omega (arith, some_))).belongs;
        apart = λ i j l k e. h.apart i j (omega (arith, some_)) (omega (arith, some_)) e;
      }

  -- The loop of `start` over the channels that it makes, which are tokio's as these are documented
  -- (a new channel is empty and no other's, items keep their order, a send succeeds exactly while the
  -- receiver exists, and receiving waits while there is nothing and a sender exists), for an actor with
  -- some performance: from whatever channels are there before, a sequence of events of the loop and its
  -- environment is possible for it exactly if it is for the loop over queues. The two agree then on
  -- the actor's state, the context, the timer, the phase and, until the task's end, on what waits in the
  -- channel of each performance; behind that end, which is that of the stop or catch hook, all these
  -- receivers are gone.
  pub start-Matches :
      (last : ℕ) (some_ : performances ≡ suc last) (es : List (Event actor)) (w : World)
      (state : State)
      → Matches actor mpsc
          (made_ends last some_ w)
          (channel_run actor mpsc
            (made_ends last some_ w)
            es
            (Channels.started actor (tokio_unbounded mpsc) (constructed last w).1 state))
          (EventLoop.run actor es (EventLoop.start actor state))
  start-Matches last some_ es w state =
      let h = constructed-AllMade last w in
      started-Matches actor mpsc (made_ends last some_ w) es (constructed last w).1 state
        (λ i l. let one = h.fresh i (omega (arith, some_)) in (one.empty, one.open_, one.sender))
