-- ===== src/Core/ReturnVal/Sends.antt =====
-- Each use of an `Envelope` (src/core/returnval.rs) sends its message once, with its return path.
use shakespeare.Prelude.{
  ◌≡◌, refl, ◌∙◌, Bool, true, false, Option, none, some, [], ◌∷◌, ◌++◌, Result, ok, err, Bool-cases,
  inl, inr,
}
use shakespeare.Futures.{Future, now}
use shakespeare.Core.Role.{
  Roles, Accepts, Emits, Addr, ReturnPath, discard, mailbox, immediate, ReturnEnvelope, Task,
  Runtime,
}
use shakespeare.Core.ReturnVal.{
  Unsent, new, ignore_return, forward_to, bridge_to_rx_role, into_future, start_sending, drop, send,
}
use shakespeare.Sendable.{run_task}
use shakespeare.Sendable.Delivers.{accepted, delivered-enqueue}

module _ (roles : Roles) (rt : Runtime roles) where
  open roles use {Role, Payload, Return}
  open rt use {World, SendError, enqueue, is_open, delivered, tasks}

  -- The queues of `w'` are those of `w` with `e` sent to the actor, if it then received.
  abbrev pub Sent : World → World → (r : Role) → Addr → ReturnEnvelope roles r → Type 0
  Sent w w' r a e =
      delivered w'
      ≡ delivered w ++ accepted roles rt (is_open w r a) (record { role = r; to = a; envelope = e })

  -- `Ok` if the actor received, `Err` if not.
  abbrev pub Reports : Bool → Result SendError (Unit {0}) → Type 0
  Reports true result = result ≡ ok tt
  Reports false result = (x : SendError) × (result ≡ err x)

  Reports-enqueue :
      (r : Role) (a : Addr) (e : ReturnEnvelope roles r) (w : World)
      → Reports (is_open w r a) (enqueue r a e w).0
  Reports-enqueue r a e w = elim (Bool-cases (is_open w r a)) [
    | inl o ↦ rw o ((rt.enqueue-open r a e w o).0)
    | inr c ↦ rw c ((rt.enqueue-closed r a e w c).0)
  ]

  -- What one send did: its result, and the queues after it.
  abbrev pub SendsOnce :
      World
      → (r : Role) → Addr
      → ReturnEnvelope roles r
      → Option (Result SendError (Unit {0}) × World)
      → Type 0
  SendsOnce w r a e none = ⊥
  SendsOnce w r a e (some (result, w')) = Reports (is_open w r a) result × Sent w w' r a e

  SendsOnce-enqueue :
      (r : Role) (a : Addr) (e : ReturnEnvelope roles r) (w : World)
      → SendsOnce w r a e (some (enqueue r a e w))
  SendsOnce-enqueue r a e w = (Reports-enqueue r a e w, delivered-enqueue roles rt r a e w)

  -- `ignore_return` of a new envelope never panics, sends its message once with the path
  -- `Discard` if the actor receives, and else reports the error and sends nothing.
  pub ignore_return-SendsOnce :
      (r : Role) (p : Payload r) (a : Addr) (w : World)
      → SendsOnce w r a
          (record { payload = p; return_path = discard })
          (ignore_return roles rt r (new roles rt r p a) w)
  unfolding ignore_return new
  ignore_return-SendsOnce r p a w = SendsOnce-enqueue r a _ w

  -- `forward_to` of a new envelope never panics, and sends its message once with a mailbox path if
  -- the actor receives, and else reports the error and sends nothing. When the first actor
  -- answers `v` along that path, in any later state, the recipient is sent the converted value
  -- once, with the path `Discard`, if it then receives.
  pub forward_to-SendsOnce :
      {T : Type 0} (r rx : Role) (emits : Emits roles r T) (accepts : Accepts roles rx T)
      (p : Payload r) (a recipient : Addr) (w later : World) (v : Return r)
      → let path : ReturnPath roles (Return r) =
          mailbox (bridge_to_rx_role roles rt r rx emits accepts recipient) in
        SendsOnce w r a
          (record { payload = p; return_path = path })
          (forward_to roles rt r rx emits accepts (new roles rt r p a) recipient w)
        × Sent later (send roles rt r path v later) rx recipient (record {
          payload = accepts.into_payload (emits.from_return_payload v);
          return_path = discard;
        })
  unfolding forward_to new send
  forward_to-SendsOnce r rx emits accepts p a recipient w later v =
      (SendsOnce-enqueue r a _ w, delivered-enqueue roles rt rx recipient _ later)

  -- What awaiting an envelope did: its channel, the queues before the first poll, and those after.
  abbrev pub AwaitSends :
      World
      → (r : Role) → Addr
      → Payload r
      → Option (Unsent roles rt r × World)
      → Future (Result (Unit {0}) (Return r))
      → Type 0
  AwaitSends w r a p none answer = ⊥
  AwaitSends w r a p (some (u, w')) answer =
      (u.channel ≡ (rt.channel w).0)
      × (delivered w' ≡ delivered w)
      × Sent w (start_sending roles rt r u answer w').1 r a
          (record { payload = p; return_path = immediate (rt.channel w).0 })

  -- `into_future` of a new envelope never panics, opens a channel and sends nothing. The first poll
  -- sends the message once, with the path `Immediate` to that channel, if the actor receives.
  pub into_future-AwaitSends :
      (r : Role) (p : Payload r) (a : Addr) (w : World)
      (answer : Future (Result (Unit {0}) (Return r)))
      → AwaitSends w r a p (into_future roles rt r (new roles rt r p a) w) answer
  unfolding into_future new start_sending
  into_future-AwaitSends r p a w answer = (
    refl,
    rt.delivered-channel w,
    delivered-enqueue roles rt r a _ (rt.channel w).1
        ∙ rw (rt.delivered-channel w, rt.is_open-channel w) refl,
  )

  -- A dropped envelope.
  abbrev pub DropSends : World → World → (r : Role) → Addr → Payload r → Option World → Type 0
  DropSends w later r a p none = ⊥
  DropSends w later r a p (some w') =
      let t : Task roles = record { role = r; actor = a; future = now p } in
      (delivered w' ≡ delivered w)
      × (tasks w' ≡ tasks w ++ t ∷ [])
      × Sent later (run_task roles rt t later) r a (record { payload = p; return_path = discard })

  -- Dropping a new envelope never panics, sends nothing at once and leaves one task. Whenever that task runs, it
  -- sends the message once with the path `Discard`, if the actor then receives.
  pub drop-DropSends :
      (r : Role) (p : Payload r) (a : Addr) (w later : World)
      → DropSends w later r a p (drop roles rt r (new roles rt r p a) w)
  unfolding drop new run_task
  drop-DropSends r p a w later =
      (rt.delivered-spawn _ w, rt.tasks-spawn _ w, delivered-enqueue roles rt r a _ later)
