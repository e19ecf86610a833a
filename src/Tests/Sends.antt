-- ===== src/Tests/Sends.antt =====
-- A runtime in which actor 0 receives and no other actor does, and runs of the sending code.
use shakespeare.Prelude.{
  false_ne_true, ℕ, ◌+◌, ◌≡◌, ◌≢◌, refl, ap, Bool, true, false, List, [], ◌∷◌, ◌++◌, Result, ok,
  err, ◌==◌, arith,
}
use shakespeare.Futures.{Poll, ready, Future, now, later, resolved}
use shakespeare.Core.Role.{
  Roles, Accepts, Emits, Addr, discard, mailbox, Delivery, Reply, Task, Runtime,
}
use shakespeare.Core.Caster.Await.{drive, awaiting, replied, drive-awaiting}
use shakespeare.Core.ReturnVal.{new, forward_to, bridge_to_rx_role, into_future, send}
use shakespeare.Core.ReturnVal.Sends.{
  Sent, SendsOnce, AwaitSends, forward_to-SendsOnce, into_future-AwaitSends,
}
use shakespeare.Sendable.{send_when_ready, run_task, feed, map_future}
use shakespeare.Sendable.Delivers.{resolving, send_when_ready-delivers, Feeds, feed-Feeds}

-- Two roles, `true` and `false`, with numbers for messages and replies.
abbrev numbers : Roles
numbers = record { Role = Bool; Payload = λ r. ℕ; Return = λ r. ℕ }

record Stage : Type 0 where
  sent : List (Delivery numbers)
  answered : List (Reply numbers)
  spawned : List (Task numbers)
  channels : ℕ

abbrev receives : Bool → Addr → Bool
receives r a = a == 0

abbrev put : Bool → Delivery numbers → Stage → Result ℕ (Unit {0}) × Stage
put true d s = (ok tt, record s { sent = s.sent ++ d ∷ [] })
put false d s = (err d.to, s)

put-open :
    (b : Bool) (d : Delivery numbers) (s : Stage)
    → b ≡ true
    → ((put b d s).0 ≡ ok tt) × ((put b d s).1.sent ≡ s.sent ++ d ∷ [])
put-open true d s e = (refl, refl)
put-open false d s e = absurd (cc)

put-closed :
    (b : Bool) (d : Delivery numbers) (s : Stage)
    → b ≡ false
    → ((x : ℕ) × ((put b d s).0 ≡ err x)) × ((put b d s).1.sent ≡ s.sent)
put-closed true d s e = absurd (cc)
put-closed false d s e = ((d.to, refl), refl)

abbrev staged : Runtime numbers
staged = record {
  World = Stage;
  SendError = ℕ;
  enqueue = λ r a e s. put (receives r a) (record { role = r; to = a; envelope = e }) s;
  reply = λ r c v s. (
    true,
    record s { answered = s.answered ++ record { role = r; channel = c; value = v } ∷ [] },
  );
  channel = λ s. (s.channels, record s { channels = s.channels + 1 });
  spawn = λ t s. record s { spawned = s.spawned ++ t ∷ [] };
  is_open = λ s r a. receives r a;
  delivered = λ s. s.sent;
  replies = λ s. s.answered;
  tasks = λ s. s.spawned;
  enqueue-open = λ r a e s o. put-open (receives r a) _ s o;
  enqueue-closed = λ r a e s c. put-closed (receives r a) _ s c;
  is_open-enqueue = λ r a e s r' a'. refl;
  delivered-channel = λ s. refl;
  is_open-channel = λ s r a. refl;
  delivered-spawn = λ t s. refl;
  is_open-spawn = λ t s r a. refl;
  tasks-spawn = λ t s. refl;
  delivered-reply = λ r c v s. refl;
}

abbrev empty_stage : Stage
empty_stage = record { sent = []; answered = []; spawned = []; channels = 0 }

abbrev plain : Accepts numbers true ℕ
plain = record { into_payload = λ n. n + 100 }

abbrev plain_reply : Emits numbers false ℕ
plain_reply = record { from_return_payload = λ n. n + 1 }

-- The send is ready at the second poll, and the answer 5 three polls later.
abbrev slow_send : Future (Result ℕ (Unit {0}))
slow_send = later (now (ok tt))

abbrev slow_answer : Future (Result (Unit {0}) ℕ)
slow_answer = later (later (now (ok 5)))

drive-awaiting_example :
    (drive (λ n. n + 1) 9 (awaiting (λ n. n + 1) slow_send slow_answer)).0
    ≡ replied (λ n. n + 1) (resolved slow_send) slow_answer
drive-awaiting_example = drive-awaiting (λ n. n + 1) 9 slow_send slow_answer (omega arith)

abbrev failed_send : Future (Result ℕ (Unit {0}))
failed_send = later (now (err 3))

abbrev is_sent : Poll (Result ℕ (Unit {0})) → Bool
is_sent (ready (ok x)) = true
is_sent _ = false

err_ne_ok : (x : Unit {0}) → resolved failed_send ≢ ready (ok x)
err_ne_ok x e = false_ne_true (ap is_sent e)

forward_to-SendsOnce_example :
    SendsOnce numbers staged empty_stage false 0
      (record {
        payload = 8;
        return_path = mailbox (bridge_to_rx_role numbers staged false true plain_reply plain 0);
      })
      (forward_to numbers staged false true plain_reply plain
        (new numbers staged false 8 0)
        0
        empty_stage)
    × Sent numbers staged empty_stage
        (send numbers staged false
          (mailbox (bridge_to_rx_role numbers staged false true plain_reply plain 0))
          41
          empty_stage)
        true
        0
        (record { payload = 142; return_path = discard })
forward_to-SendsOnce_example =
    forward_to-SendsOnce numbers staged false true plain_reply plain 8 0 0 empty_stage empty_stage
      41

into_future-AwaitSends_example :
    AwaitSends numbers staged empty_stage true 0 8
      (into_future numbers staged true (new numbers staged true 8 0) empty_stage)
      slow_answer
into_future-AwaitSends_example =
    into_future-AwaitSends numbers staged true 8 0 empty_stage slow_answer

abbrev slow_number : Future ℕ
slow_number = later (now 4)

send_when_ready-delivers_example :
    let t : Task numbers = record {
      role = true;
      actor = 0;
      future = map_future plain.into_payload slow_number;
    } in
    ((send_when_ready numbers staged true plain slow_number 0 empty_stage).sent ≡ [])
    × ((send_when_ready numbers staged true plain slow_number 0 empty_stage).spawned ≡ t ∷ [])
    × ((run_task numbers staged t empty_stage).sent
        ≡ resolving numbers staged empty_stage true 0 (ready 104))
send_when_ready-delivers_example =
    send_when_ready-delivers numbers staged true plain slow_number 0 empty_stage empty_stage

feed-Feeds_example :
    Feeds numbers staged true plain 3
      (1 ∷ 2 ∷ [])
      empty_stage
      false
      (feed numbers staged true plain 3 (1 ∷ 2 ∷ []) empty_stage)
feed-Feeds_example = feed-Feeds numbers staged true plain 3 (1 ∷ 2 ∷ []) empty_stage
