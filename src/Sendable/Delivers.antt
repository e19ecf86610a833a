-- ===== src/Sendable/Delivers.antt =====
-- What the tasks of src/sendable.rs put into an actor's queue.
use shakespeare.Prelude.{
  ◌≡◌, refl, ◌∙◌, Bool, true, false, List, [], ◌∷◌, ◌++◌, map, Bool-cases, inl, inr,
}
use shakespeare.Prelude.{if◌then◌else◌, Bool-cases, inl, inr}
use shakespeare.Futures.{Poll, pending, ready, fault, Future, now, later, never, finished, resolved}
use shakespeare.Core.Role.{Roles, Accepts, Addr, discard, ReturnEnvelope, Delivery, Task, Runtime}
use shakespeare.Sendable.{map_future, send_when_ready, run_task, feed}
use mathlib.Core.List.{append_assoc, append-nil}

module _ (roles : Roles) (rt : Runtime roles) where
  open roles use {Role, Payload}
  open rt use {World, SendError, enqueue, spawn, is_open, delivered, tasks}

  -- A message with no return path, as it stands in the queue.
  abbrev pub discarding : (r : Role) → Addr → Payload r → Delivery roles
  discarding r a p = record {
    role = r;
    to = a;
    envelope = record { payload = p; return_path = discard };
  }

  -- What a push to an actor leaves in its queue: the message, if the actor still receives.
  abbrev pub accepted : Bool → Delivery roles → List (Delivery roles)
  accepted receiving d = if receiving then d ∷ [] else []

  pub delivered-enqueue :
      (r : Role) (a : Addr) (e : ReturnEnvelope roles r) (w : World)
      → delivered (enqueue r a e w).1
        ≡ delivered w ++ accepted (is_open w r a) (record { role = r; to = a; envelope = e })
  delivered-enqueue r a e w = elim (Bool-cases (is_open w r a)) [
    | inl o ↦ rw o ((rt.enqueue-open r a e w o).1)
    | inr c ↦ rw c (rw append-nil ((rt.enqueue-closed r a e w c).1))
  ]

  -- The conversion of a future's output, as a poll sees it.
  abbrev pub map_poll : {A B : Type 0} → (A → B) → Poll A → Poll B
  map_poll f pending = pending
  map_poll f (ready a) = ready (f a)
  map_poll f fault = fault

  resolved-map_future :
      {A B : Type 0} (f : A → B) (t : Future A)
      → resolved (map_future f t) ≡ map_poll f (resolved t)
  unfolding map_future
  resolved-map_future f (now a) = refl
  resolved-map_future f (later t) = resolved-map_future f t
  resolved-map_future f never = refl
  resolved-map_future f finished = refl

  -- What a task leaves in the queue when its future comes to `p`.
  abbrev pub resolving : World → (r : Role) → Addr → Poll (Payload r) → List (Delivery roles)
  resolving w r a pending = []
  resolving w r a (ready p) = accepted (is_open w r a) (discarding r a p)
  resolving w r a fault = []

  pub delivered-run_task :
      (r : Role) (a : Addr) (f : Future (Payload r)) (w : World)
      → delivered (run_task roles rt (record { role = r; actor = a; future = f }) w)
        ≡ delivered w ++ resolving w r a (resolved f)
  unfolding run_task
  delivered-run_task r a (now p) w =
      delivered-enqueue r a (record { payload = p; return_path = discard }) w
  delivered-run_task r a (later f) w = delivered-run_task r a f w
  delivered-run_task r a never w = rw append-nil refl
  delivered-run_task r a finished w = rw append-nil refl

  -- `send_when_ready` delivers nothing at once and adds one task. Run to its end, the task delivers
  -- the converted output exactly if the future comes to one and the actor then receives.
  pub send_when_ready-delivers :
      {T : Type 0} (r : Role) (accepts : Accepts roles r T) (f : Future T) (a : Addr) (w w' : World)
      → let t : Task roles = record {
        role = r;
        actor = a;
        future = map_future accepts.into_payload f;
      } in
        (delivered (send_when_ready roles rt r accepts f a w) ≡ delivered w)
        × (tasks (send_when_ready roles rt r accepts f a w) ≡ tasks w ++ t ∷ [])
        × (delivered (run_task roles rt t w')
            ≡ delivered w' ++ resolving w' r a (map_poll accepts.into_payload (resolved f)))
  unfolding send_when_ready
  send_when_ready-delivers r accepts f a w w' =
      let t : Task roles = record {
        role = r;
        actor = a;
        future = map_future accepts.into_payload f;
      } in
      (
        rt.delivered-spawn t w,
        rt.tasks-spawn t w,
        rw (delivered-run_task r a (map_future accepts.into_payload f) w', resolved-map_future),
      )

  -- While the actor receives, the loop of `feed_to` delivers every item, in order.
  pub feed-open :
      {T : Type 0} (r : Role) (accepts : Accepts roles r T) (a : Addr) (stream : List T) (w : World)
      → is_open w r a ≡ true
      → (delivered (feed roles rt r accepts a stream w).0
          ≡ delivered w ++ map (λ m. discarding r a (accepts.into_payload m)) stream)
        × ((feed roles rt r accepts a stream w).1 ≡ [])
  unfolding feed
  feed-open r accepts a [] w o = (rw append-nil, refl)
  feed-open r accepts a (m ∷ stream) w o =
      let e : ReturnEnvelope roles r = record {
        payload = accepts.into_payload m;
        return_path = discard;
      } in
      let (sent, put) = rt.enqueue-open r a e w o in
      let w' = (enqueue r a e w).1 in
      let (all, none_left) = feed-open r accepts a stream w' (rt.is_open-enqueue r a e w r a ∙ o) in
      (rw (sent, feed) (all ∙ rw (put, append_assoc) refl), rw (sent, feed) none_left)

  -- Once the actor has stopped receiving, the first failed push ends the loop: nothing is
  -- delivered, and the items behind the first are left unread.
  pub feed-closed :
      {T : Type 0} (r : Role) (accepts : Accepts roles r T) (a : Addr) (m : T) (stream : List T)
      (w : World)
      → is_open w r a ≡ false
      → (delivered (feed roles rt r accepts a (m ∷ stream) w).0 ≡ delivered w)
        × ((feed roles rt r accepts a (m ∷ stream) w).1 ≡ stream)
  unfolding feed
  feed-closed r accepts a m stream w c =
      let e : ReturnEnvelope roles r = record {
        payload = accepts.into_payload m;
        return_path = discard;
      } in
      let ((x, failed), same) = rt.enqueue-closed r a e w c in
      (rw (failed, feed) same, rw (failed, feed) refl)

  -- What the loop delivers and leaves unread, by whether the actor receives.
  abbrev pub Feeds :
      {T : Type 0} (r : Role)
      → Accepts roles r T
      → Addr
      → List T
      → World
      → Bool
      → World × List T
      → Type 0
  Feeds r accepts a stream w true (w', unread) =
      (delivered w' ≡ delivered w ++ map (λ m. discarding r a (accepts.into_payload m)) stream)
      × (unread ≡ [])
  Feeds r accepts a [] w false (w', unread) = (delivered w' ≡ delivered w) × (unread ≡ [])
  Feeds r accepts a (m ∷ stream) w false (w', unread) =
      (delivered w' ≡ delivered w) × (unread ≡ stream)

  -- While the actor receives, the loop of `feed_to` delivers every item of the stream, in order. If it
  -- does not, the first failed push ends the loop: nothing is delivered, and the items behind the first
  -- are left unread.
  pub feed-Feeds :
      {T : Type 0} (r : Role) (accepts : Accepts roles r T) (a : Addr) (stream : List T) (w : World)
      → Feeds r accepts a stream w (is_open w r a) (feed roles rt r accepts a stream w)
  unfolding feed
  feed-Feeds r accepts a [] w = elim (Bool-cases (is_open w r a)) [
    | inl o ↦ rw o (rw append-nil refl, refl)
    | inr c ↦ rw c (refl, refl)
  ]
  feed-Feeds r accepts a (m ∷ stream) w = elim (Bool-cases (is_open w r a)) [
    | inl o ↦ rw o (feed-open r accepts a (m ∷ stream) w o)
    | inr c ↦ rw c (feed-closed r accepts a m stream w c)
  ]
