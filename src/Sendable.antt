-- ===== src/Sendable.antt =====
-- src/sendable.rs: sending the outcome of a future, or the items of a stream, from a new task.
pub mod Delivers
use shakespeare.Prelude.{List, [], ◌∷◌, Result, ok, err}
use shakespeare.Futures.{Poll, pending, ready, fault, Future, now, later, never, finished, resolved}
use shakespeare.Core.Role.{Roles, Accepts, Addr, discard, Task, Runtime}

unfoldable pub map_future : {A B : Type 0} → (A → B) → Future A → Future B
map_future f (now a) = now (f a)
map_future f (later t) = later (map_future f t)
map_future f never = never
map_future f finished = finished

module _ (roles : Roles) (rt : Runtime roles) where
  open roles use {Role, Payload}
  open rt use {World, SendError, enqueue, spawn}

  -- The spawned block awaits the future, converts its output and pushes it.
  unfoldable pub send_when_ready :
      {T : Type 0} (r : Role) → Accepts roles r T → Future T → Addr → World → World
  unfolding map_future
  send_when_ready r accepts f actor w =
      spawn (record { role = r; actor = actor; future = map_future accepts.into_payload f }) w

  -- The task run to its end; a future that never resolves, or panics, sends nothing.
  unfoldable pub run_task : Task roles → World → World
  run_task t w = elim (resolved t.future) [
    | pending ↦ w
    | ready payload ↦
        (enqueue t.role t.actor (record { payload = payload; return_path = discard }) w).1
    | fault ↦ w
  ]

  -- The loop of the task of `feed_to`, over the items that the stream yields, and the items that
  -- are left unread when it breaks.
  unfoldable pub feed :
      {T : Type 0} (r : Role) → Accepts roles r T → Addr → List T → World → World × List T
  feed r accepts actor [] w = (w, [])
  feed r accepts actor (msg ∷ stream) w =
      let (result, w') =
        enqueue r actor (record { payload = accepts.into_payload msg; return_path = discard }) w in
      elim result [ ok _ ↦ feed r accepts actor stream w' | err _ ↦ (w', stream) ]
