-- ===== src/Tests/Channels.antt =====
-- Channels over a map of queues, and a run of the loop over them, on the counter of Tests/Loop.
use shakespeare.Prelude.{
  ℕ, suc, ltb, ◌≡◌, ◌≢◌, refl, Bool, true, false, Option, none, some, List, [], ◌∷◌, ◌++◌, Result,
  ok, err, ◌==◌, if◌then◌else◌, Bool-cases, any_below, inl, inr, arith,
}
use shakespeare.Futures.{Poll, pending, ready}
use shakespeare.Core.Context.{is_running}
use shakespeare.Core.Channel.{Mpsc, nothing_held, tokio_unbounded}
use shakespeare.EventLoop
use shakespeare.EventLoop.{enter, finish, push, update}
use shakespeare.EventLoop.Channels
use shakespeare.EventLoop.Channels.Related.{Ends, Matches, channel_run}
use shakespeare.EventLoop.Channels.Made.{constructed, made_ends, start-Matches}
use shakespeare.Tests.Loop.{counter, stopped_by_message, drained}

-- A channel is a number, the next one that is free; it has a queue, and its receiver may be gone.
record Queues : Type 0 where
  next : ℕ
  held : ℕ → List ℕ
  is_open : ℕ → Bool

abbrev unbounded_channel : Queues → (ℕ × ℕ) × Queues
unbounded_channel w = (
  (w.next, w.next),
  record {
    next = suc w.next;
    held = update w.held w.next [];
    is_open = update w.is_open w.next true;
  },
)

abbrev send : ℕ → ℕ → Queues → Result ℕ (Unit {0}) × Queues
send s m w =
    if w.is_open s
    then (ok tt, record w { held = update w.held s (w.held s ++ m ∷ []) })
    else (err m, w)

abbrev poll_next : List ℕ → ℕ → Queues → Poll (Option ℕ) × Queues
poll_next [] r w = (pending, w)
poll_next (m ∷ ms) r w = (ready (some m), record w { held = update w.held r ms })

abbrev recv : ℕ → Queues → Poll (Option ℕ) × Queues
recv r w = poll_next (w.held r) r w

abbrev drop : ℕ → Queues → Queues
drop r w = record w { is_open = update w.is_open r false }

update-at : {A : Type 0} (f : ℕ → A) (i : ℕ) (x : A) → update f i x i ≡ x
update-at f i x = let here : (i == i) ≡ true = ground arith in rw here refl

update-apart : {A : Type 0} (f : ℕ → A) (i : ℕ) (x : A) (j : ℕ) → j ≢ i → update f i x j ≡ f j
update-apart f i x j apart = let other : (i == j) ≡ false = ground arith in rw other refl

send-open :
    (s m : ℕ) (w : Queues)
    → w.is_open s ≡ true
    → ((send s m w).0 ≡ ok tt) × ((send s m w).1.held s ≡ w.held s ++ m ∷ [])
send-open s m w on = rw on (refl, update-at w.held s _)

send-closed : (s m : ℕ) (w : Queues) → w.is_open s ≡ false → (x : ℕ) × ((send s m w).0 ≡ err x)
send-closed s m w off = rw off (m, refl)

send-other : (s m : ℕ) (w : Queues) (r : ℕ) → r ≢ s → (send s m w).1.held r ≡ w.held r
send-other s m w r apart = elim (Bool-cases (w.is_open s)) [
  | inl on ↦ rw on (update-apart w.held s _ r apart)
  | inr off ↦ rw off refl
]

send-same : (s m : ℕ) (w : Queues) (r : ℕ) → (send s m w).1.is_open r ≡ w.is_open r
send-same s m w r = elim (Bool-cases (w.is_open s)) [ inl on ↦ rw on refl | inr off ↦ rw off refl ]

recv-other :
    (ms : List ℕ) (r : ℕ) (w : Queues) (q : ℕ) → q ≢ r → (poll_next ms r w).1.held q ≡ w.held q
recv-other [] r w q apart = refl
recv-other (m ∷ ms) r w q apart = update-apart w.held r ms q apart

recv-same :
    (ms : List ℕ) (r : ℕ) (w : Queues) (q : ℕ) → (poll_next ms r w).1.is_open q ≡ w.is_open q
recv-same [] r w q = refl
recv-same (m ∷ ms) r w q = refl

drop-still : (r q : ℕ) (w : Queues) → w.is_open q ≡ false → update w.is_open r false q ≡ false
drop-still r q w off = elim (Bool-cases (r == q)) [
  | inl here ↦ rw here refl
  | inr there ↦ rw there off
]

next-free : (n : ℕ) → ltb n n ≡ false
next-free n = ground arith

next-made : (n : ℕ) → ltb n (suc n) ≡ true
next-made n = ground arith

made-later : (q n : ℕ) → ltb q n ≡ true → ltb q (suc n) ≡ true
made-later q n old = ground arith

made-apart : (q n : ℕ) → ltb q n ≡ true → q ≢ n
made-apart q n old e = ground arith

abbrev queues : Mpsc ℕ
queues = record {
  World = Queues;
  UnboundedSender = ℕ;
  UnboundedReceiver = ℕ;
  SendError = ℕ;
  unbounded_channel = unbounded_channel;
  send = send;
  recv = recv;
  is_empty = λ r w. nothing_held (w.held r);
  drop = drop;
  is_made = λ w r. ltb r w.next;
  receiver_of = λ s. s;
  is_open = λ w r. w.is_open r;
  has_sender = λ w r. true;
  held = λ w r. w.held r;
  new-fresh = λ w. (
    next-free w.next,
    next-made w.next,
    refl,
    update-at w.held w.next [],
    update-at w.is_open w.next true,
    refl,
  );
  new-keeps = λ w q old. (
    made-later q w.next old,
    update-apart w.held w.next [] q (made-apart q w.next old),
    update-apart w.is_open w.next true q (made-apart q w.next old),
    refl,
  );
  send-open = send-open;
  send-closed = send-closed;
  send-other = send-other;
  send-same = λ s m w r. (send-same s m w r, refl);
  recv-next = λ r w m ms e. rw e (refl, update-at w.held r ms);
  recv-waits = λ r w e on. rw e refl;
  recv-other = λ r w q apart. recv-other (w.held r) r w q apart;
  recv-same = λ r w q. (recv-same (w.held r) r w q, refl);
  is_empty-held = λ r w. refl;
  drop-closed = λ r w. update-at w.is_open r false;
  drop-still = drop-still;
}

-- Channels are there before.
abbrev before : Queues
before = record { next = 7; held = λ i. 1 ∷ []; is_open = λ i. true }

abbrev ends : Ends counter queues
ends = made_ends counter queues 1 refl before

abbrev began : Channels.Task counter (tokio_unbounded queues)
began = Channels.started counter (tokio_unbounded queues) (constructed counter queues 1 before).1 0

start-Matches_example :
    Matches counter queues ends
      (channel_run counter queues ends stopped_by_message began)
      (EventLoop.run counter stopped_by_message (EventLoop.start counter 0))
start-Matches_example = start-Matches counter queues 1 refl stopped_by_message before 0

-- The same events with the end of the loop: the task is over, it has added up 3 and 2, and a push to
-- it fails then.
abbrev total_of : Option (Channels.Task counter (tokio_unbounded queues)) → Option ℕ
total_of none = none
total_of (some t) = some t.state

ended_total :
    total_of (channel_run counter queues ends (drained ++ enter ∷ enter ∷ enter ∷ []) began)
    ≡ some 5
unfolding Channels.run Channels.started Channels.queue_constructions any_below is_running
ended_total = refl

-- Until the hook has ended, the receivers are there, and a push is accepted.
push_before_hook :
    total_of
      (channel_run counter queues ends (drained ++ enter ∷ enter ∷ enter ∷ push 0 4 ∷ []) began)
    ≡ some 5
unfolding Channels.run Channels.started Channels.queue_constructions any_below is_running
push_before_hook = refl

push_behind_end :
    total_of (
      channel_run counter queues ends
        (drained ++ enter ∷ enter ∷ enter ∷ finish ∷ push 0 4 ∷ [])
        began)
    ≡ none
unfolding Channels.run Channels.started Channels.queue_constructions any_below is_running
push_behind_end = refl
