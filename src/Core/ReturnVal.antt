-- ===== src/Core/ReturnVal.antt =====
-- src/core/returnval.rs: how a return value is sent on, and the four uses of an `Envelope`.
pub mod Sends
use shakespeare.Prelude.{ℕ, Option, none, some, Result}
use shakespeare.Futures.{Future, now}
use shakespeare.Sendable.{send_when_ready}
use shakespeare.Core.Role.{
  Roles, Accepts, Emits, Addr, Push, ReturnPath, discard, mailbox, immediate, ReturnEnvelope,
  Runtime,
}
use shakespeare.Core.Caster.{ReturnCaster}

-- `None.unwrap()` panics: `none` is a panic.
infixl 5 ◌>>=◌
abbrev pub ◌>>=◌ {ℓ κ} : {A : Type ℓ} {B : Type κ} → Option A → (A → Option B) → Option B
none >>= f = none
some a >>= f = f a

module _ (roles : Roles) (rt : Runtime roles) where
  open roles use {Role, Payload, Return}
  open rt use {World, SendError, enqueue, reply, channel, spawn}

  -- The callback of a mailbox path.
  unfoldable pub push : Push roles → World → World
  push p w =
      (enqueue p.role p.recipient (record { payload = p.payload; return_path = discard }) w).1

  -- `ReturnPath::create_immediate`
  unfoldable pub create_immediate : (r : Role) → World → ReturnPath roles (Return r) × ℕ × World
  create_immediate r w = let (c, w') = channel w in (immediate c, c, w')

  -- `ReturnPath::send`
  unfoldable pub send : (r : Role) → ReturnPath roles (Return r) → Return r → World → World
  unfolding push
  send r discard val w = w
  send r (mailbox callback) val w = push (callback val) w
  send r (immediate c) val w = (reply r c val w).1

  -- `Accepts<R::Payload> for R`
  abbrev pub accepts_payload : (r : Role) → Accepts roles r (Payload r)
  accepts_payload r = record { into_payload = λ t. t }

  -- `struct Envelope`: both fields are taken when it is used.
  pub record Envelope (r : Role) : Type 0 where
    pub val : Option (Payload r)
    pub dest : Option Addr

  unfoldable pub new : (r : Role) → Payload r → Addr → Envelope r
  new r val dest = record { val = some ((accepts_payload r).into_payload val); dest = some dest }

  -- The envelope is forgotten afterwards, so `drop` does not run for it.
  unfoldable pub unpack : (r : Role) → Envelope r → Option (Payload r × Addr)
  unpack r e = do val ← e.val; dest ← e.dest; some (val, dest)

  unfoldable pub ignore_return :
      (r : Role) → Envelope r → World → Option (Result SendError (Unit {0}) × World)
  unfolding unpack
  ignore_return r e w = do
    (payload, dest) ← unpack r e
    some (enqueue r dest (record { payload = payload; return_path = discard }) w)

  unfoldable pub bridge_to_rx_role :
      {T : Type 0} (r rx : Role)
      → Emits roles r T
      → Accepts roles rx T
      → Addr
      → Return r
      → Push roles
  bridge_to_rx_role r rx emits accepts recipient sender_payload = record {
    role = rx;
    recipient = recipient;
    payload = accepts.into_payload (emits.from_return_payload sender_payload);
  }

  unfoldable pub forward_to :
      {T : Type 0} (r rx : Role)
      → Emits roles r T
      → Accepts roles rx T
      → Envelope r
      → Addr
      → World
      → Option (Result SendError (Unit {0}) × World)
  unfolding unpack bridge_to_rx_role
  forward_to r rx emits accepts e recipient w = do
    (payload, original) ← unpack r e
    some (
        enqueue r original
          (record {
            payload = payload;
            return_path = mailbox (bridge_to_rx_role r rx emits accepts recipient);
          })
          w)

  -- `into_future`: the send has not begun, and begins with the first poll.
  pub record Unsent (r : Role) : Type 0 where
    pub dest : Addr
    pub envelope : ReturnEnvelope roles r
    pub channel : ℕ

  unfoldable pub into_future : (r : Role) → Envelope r → World → Option (Unsent r × World)
  unfolding unpack create_immediate
  into_future r e w = do
    (payload, dest) ← unpack r e
    let (return_path, recv_future, w') = create_immediate r w
    some (
      record {
        dest = dest;
        envelope = record { payload = payload; return_path = return_path };
        channel = recv_future;
      },
      w',
    )

  -- The first poll of `sending_fn` runs the send; `answer` is what the oneshot receiver will say.
  unfoldable pub start_sending :
      (r : Role)
      → Unsent r
      → Future (Result (Unit {0}) (Return r))
      → World
      → ReturnCaster SendError (Return r) × World
  start_sending r u answer w =
      let (sent, w') = enqueue r u.dest u.envelope w in
      (record { sender = some (now sent); recv_future = answer }, w')

  -- `Drop for Envelope`: `std::future::ready(val).send_when_ready(dest)`.
  unfoldable pub drop : (r : Role) → Envelope r → World → Option World
  unfolding send_when_ready
  drop r e w = do
    val ← e.val
    dest ← e.dest
    some (send_when_ready roles rt r (accepts_payload r) (now val) dest w)
