-- ===== src/EventLoop/Channels/Transfers.antt =====
-- Receiving and sending, over channels and over queues
-- (shakespeare-macro/src/outputs/actor, src/tokio.rs).
use shakespeare.Prelude.{
  ◌⊎◌, ℕ, ◌<◌, ◌≡◌, refl, sym, ◌∙◌, ap, subst, true, false, Option, none, some, List, [], ◌∷◌, ◌++◌,
  Result, ok, err, ltb, ◌==◌, Bool-cases, inl, inr, arith,
}
use shakespeare.Futures.{Poll, pending, ready, fault}
use shakespeare.Core.Channel.{Mpsc, tokio_unbounded}
use shakespeare.EventLoop
use shakespeare.EventLoop.{
  Actor, Phase, top, selecting, handling, exited, panicked, Verb, Sys, Event, enter, receive,
  finish, timeout, push, clone_handle, drop_handle, elapse, obey, is_empty, guard, is_over, update,
}
use shakespeare.EventLoop.Channels
use shakespeare.EventLoop.Channels.{Task}
use shakespeare.EventLoop.Channels.Related.{TokioTask, Ends, channel_step, SamePhase, handles}
use shakespeare.EventLoop.Channels.Phases.{M, at, Held}

module _ (actor : Actor) (mpsc : Mpsc actor.Msg) (ends : Ends actor mpsc) where
  open actor use {State, Msg, Panic, performances}
  open mpsc use {World, UnboundedSender, UnboundedReceiver, receiver_of, is_open, has_sender, held}
  open ends use {input, output}

  -- Taking from the channel `i` what stands in front of it.
  received-waits :
      (i : ℕ) (r : Poll (Option Msg) × World) (t : TokioTask actor mpsc)
      → r.0 ≡ pending
      → Channels.received actor (tokio_unbounded mpsc) input output mpsc.drop i r t ≡ none
  unfolding Channels.received
  received-waits i (pending, w) t e = refl
  received-waits i (ready o, w) t e = absurd (cc)
  received-waits i (fault, w) t e = absurd (cc)

  received-next :
      (i : ℕ) (m : Msg) (r : Poll (Option Msg) × World) (t : TokioTask actor mpsc)
      → r.0 ≡ ready (some m)
      → Channels.received actor (tokio_unbounded mpsc) input output mpsc.drop i r t
        ≡ some (record t { world = r.1; elapsed = false; phase = handling i m })
  unfolding Channels.received
  received-next i m (pending, w) t e = absurd (cc)
  received-next i m (fault, w) t e = absurd (cc)
  received-next i m (ready none, w) t e = absurd (cc)
  received-next i m (ready (some n), w) t e = let is : n ≡ m = cc in rw is refl

  Held-recv :
      (i : ℕ) (m : Msg) (ms : List Msg) (w : World) (q : ℕ → List Msg)
      → i < performances
      → Held actor mpsc ends false w q
      → q i ≡ m ∷ ms
      → Held actor mpsc ends false (mpsc.recv (output i) w).1 (update q i ms)
  Held-recv i m ms w q l holds e j k =
      let (holds', open', sender') = holds j k in
      let (open'', sender'') = mpsc.recv-same (output i) w (output j) in
      (held_at (Bool-cases (i == j)), open'' ∙ open', sender'' ∙ sender')
    where
      held_at :
          ((i == j) ≡ true) ⊎ ((i == j) ≡ false)
          → held (mpsc.recv (output i) w).1 (output j) ≡ update q i ms j
      held_at (inl here) =
          let is : i ≡ j = ground arith in
          rw here (
            subst (λ n. held (mpsc.recv (output i) w).1 (output n) ≡ ms) is
              (mpsc.recv-next (output i) w m ms ((holds i l).0 ∙ e)).1)
      held_at (inr there) = rw there (
          mpsc.recv-other (output i) w (output j)
            (λ same. absurd (ground (arith, ends.apart j i k l same)))
          ∙ (holds j k).0)

  pub take-Matches :
      (i : ℕ) (ms : List Msg) (w : World) (p : Phase Msg Panic) (s : Sys actor)
      → i < performances
      → Held actor mpsc ends false w s.queues
      → s.queues i ≡ ms
      → M actor mpsc ends
          (Channels.received actor
            (tokio_unbounded mpsc)
            input
            output
            mpsc.drop
            i
            (mpsc.recv (output i) w)
            (at actor mpsc ends w p s))
          (EventLoop.take_from actor i ms s)
  unfolding EventLoop.take_from
  take-Matches i [] w p s l holds e =
      rw
        (received-waits i (mpsc.recv (output i) w) (at actor mpsc ends w p s)
          (mpsc.recv-waits (output i) w ((holds i l).0 ∙ e) (holds i l).2))
        tt
  take-Matches i (m ∷ ms) w p s l holds e =
      rw
        (received-next i m (mpsc.recv (output i) w) (at actor mpsc ends w p s)
          (mpsc.recv-next (output i) w m ms ((holds i l).0 ∙ e)).0)
        (record {
          world = (mpsc.recv (output i) w).1;
          phase = handling i m;
          is = refl;
          same_phase = handles;
          holds = Held-recv i m ms w s.queues l holds e;
        })

  sent-ok :
      (r : Result mpsc.SendError (Unit {0}) × World) (t : TokioTask actor mpsc)
      → r.0 ≡ ok tt
      → Channels.sent actor (tokio_unbounded mpsc) input output mpsc.drop r t
        ≡ some (record t { world = r.1 })
  unfolding Channels.sent
  sent-ok (ok u, w) t e = refl
  sent-ok (err x, w) t e = absurd (cc)

  sent-err :
      (r : Result mpsc.SendError (Unit {0}) × World) (t : TokioTask actor mpsc) (x : mpsc.SendError)
      → r.0 ≡ err x
      → Channels.sent actor (tokio_unbounded mpsc) input output mpsc.drop r t ≡ none
  unfolding Channels.sent
  sent-err (ok u, w) t x e = absurd (cc)
  sent-err (err y, w) t x e = refl

  Held-send :
      (i : ℕ) (m : Msg) (w : World) (q : ℕ → List Msg)
      → i < performances
      → Held actor mpsc ends false w q
      → Held actor mpsc ends false (mpsc.send (input i) m w).1 (update q i (q i ++ m ∷ []))
  Held-send i m w q l holds j k =
      let (holds', open', sender') = holds j k in
      let (open'', sender'') = mpsc.send-same (input i) m w (output j) in
      (held_at (Bool-cases (i == j)), open'' ∙ open', sender'' ∙ sender')
    where
      held_at :
          ((i == j) ≡ true) ⊎ ((i == j) ≡ false)
          → held (mpsc.send (input i) m w).1 (output j) ≡ update q i (q i ++ m ∷ []) j
      held_at (inl here) =
          let is : i ≡ j = ground arith in
          let own : is_open w (receiver_of (input i)) ≡ true =
            ap (is_open w) (ends.belongs i l) ∙ (holds i l).1 in
          let sent : held (mpsc.send (input i) m w).1 (output i) ≡ q i ++ m ∷ [] =
            subst (λ r. held (mpsc.send (input i) m w).1 r ≡ held w r ++ m ∷ []) (ends.belongs i l)
              (mpsc.send-open (input i) m w own).1
            ∙ ap (λ (ms : List Msg). ms ++ m ∷ []) (holds i l).0 in
          rw here (subst (λ n. held (mpsc.send (input i) m w).1 (output n) ≡ q i ++ m ∷ []) is sent)
      held_at (inr there) = rw there (
          mpsc.send-other (input i) m w (output j)
            (λ same. absurd (ground (arith, ends.apart j i k l (same ∙ ends.belongs i l))))
          ∙ (holds j k).0)

  pub push-Matches :
      (i : ℕ) (m : Msg) (w : World) (p : Phase Msg Panic) (s : Sys actor)
      → SamePhase actor mpsc ends p s.phase
      → Held actor mpsc ends (is_over actor s.phase) w s.queues
      → M actor mpsc ends
          (channel_step actor mpsc ends (push i m) (at actor mpsc ends w p s))
          (EventLoop.step actor (push i m) s)
  unfolding Channels.step EventLoop.step
  push-Matches i m w p s same holds = elim (Bool-cases (ltb i performances)) [
    | inr far ↦ rw far tt
    | inl near ↦
        let l : i < performances = ground arith in
        elim (Bool-cases (is_over actor s.phase)) [
          | inl over ↦
              let shut = subst (λ b. Held actor mpsc ends b w s.queues) over holds in
              let (x, failed) =
                mpsc.send-closed (input i) m w (ap (is_open w) (ends.belongs i l) ∙ shut i l) in
              rw (near, over)
                (rw (sent-err (mpsc.send (input i) m w) (at actor mpsc ends w p s) x failed) tt)
          | inr on ↦
              let held' = subst (λ b. Held actor mpsc ends b w s.queues) on holds in
              let (sends, appended) =
                mpsc.send-open (input i) m w (ap (is_open w) (ends.belongs i l) ∙ (held' i l).1) in
              rw (near, on)
                (rw (sent-ok (mpsc.send (input i) m w) (at actor mpsc ends w p s) sends) (record {
                  world = (mpsc.send (input i) m w).1;
                  phase = p;
                  is = refl;
                  same_phase = same;
                  holds =
                      subst
                        (λ b.
                          Held actor mpsc ends b (mpsc.send (input i) m w).1
                            (update s.queues i (s.queues i ++ m ∷ [])))
                        (sym on) (Held-send i m w s.queues l held');
                }))
        ]
  ]
