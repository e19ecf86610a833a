-- ===== src/Core/Role.antt =====
-- src/core/role.rs and the types of src/core/returnval.rs: roles, return paths, queued messages,
-- and what the runtime takes from tokio (src/tokio.rs): channels, replies and tasks.
use shakespeare.Prelude.{ℕ, ◌≡◌, Bool, true, false, List, [], ◌∷◌, ◌++◌, Result, ok, err}
use shakespeare.Futures.{Future}

-- `trait Role`: each role fixes the type of its messages and of its return payloads.
pub record Roles : Type 1 where
  pub Role : Type 0
  pub Payload : Role → Type 0
  pub Return : Role → Type 0

-- `Accepts<T>` and `Emits<T>`, as the values that their implementations provide.
pub record Accepts (roles : Roles) (r : roles.Role) (T : Type 0) : Type 0 where
  pub into_payload : T → roles.Payload r

pub record Emits (roles : Roles) (r : roles.Role) (T : Type 0) : Type 0 where
  pub from_return_payload : roles.Return r → T

-- An actor's address: what an `Arc<dyn Role>` points to.
abbrev pub Addr : Type 0
Addr = ℕ

module _ (roles : Roles) where
  open roles use {Role, Payload, Return}

  -- The action that a mailbox callback performs: a message pushed with the path `Discard`, the
  -- result of the push ignored.
  pub record Push : Type 0 where
    pub role : Role
    pub recipient : Addr
    pub payload : Payload role

  -- `enum ReturnPath`; the reply channel of `Immediate` is named by a number.
  pub data ReturnPath (Ret : Type 0) : Type 0 where
    discard : ReturnPath Ret
    mailbox : (Ret → Push) → ReturnPath Ret
    immediate : ℕ → ReturnPath Ret

  -- `struct ReturnEnvelope`
  pub record ReturnEnvelope (r : Role) : Type 0 where
    pub payload : Payload r
    pub return_path : ReturnPath (Return r)

  -- A message in an actor's queue.
  pub record Delivery : Type 0 where
    pub role : Role
    pub to : Addr
    pub envelope : ReturnEnvelope role

  -- A reply sent on a oneshot channel.
  pub record Reply : Type 0 where
    pub role : Role
    pub channel : ℕ
    pub value : Return role

  -- A task of `send_when_ready`: it sends what its future comes to.
  pub record Task : Type 0 where
    pub role : Role
    pub actor : Addr
    pub future : Future (Payload role)

  -- What the code calls of tokio, with what its documentation says: an unbounded send succeeds
  -- exactly while the receiver exists, and keeps the order; a spawned task is run later.
  pub record Runtime : Type 1 where
    pub World : Type 0
    pub SendError : Type 0
    pub enqueue : (r : Role) → Addr → ReturnEnvelope r → World → Result SendError (Unit {0}) × World
    pub reply : (r : Role) → ℕ → Return r → World → Bool × World
    pub channel : World → ℕ × World
    pub spawn : Task → World → World
    pub is_open : World → Role → Addr → Bool
    pub delivered : World → List Delivery
    pub replies : World → List Reply
    pub tasks : World → List Task
    pub enqueue-open :
        (r : Role) (a : Addr) (e : ReturnEnvelope r) (w : World)
        → is_open w r a ≡ true
        → ((enqueue r a e w).0 ≡ ok tt)
          × (delivered (enqueue r a e w).1
              ≡ delivered w ++ record { role = r; to = a; envelope = e } ∷ [])
    pub enqueue-closed :
        (r : Role) (a : Addr) (e : ReturnEnvelope r) (w : World)
        → is_open w r a ≡ false
        → ((x : SendError) × ((enqueue r a e w).0 ≡ err x))
          × (delivered (enqueue r a e w).1 ≡ delivered w)
    pub is_open-enqueue :
        (r : Role) (a : Addr) (e : ReturnEnvelope r) (w : World) (r' : Role) (a' : Addr)
        → is_open (enqueue r a e w).1 r' a' ≡ is_open w r' a'
    pub delivered-channel : (w : World) → delivered (channel w).1 ≡ delivered w
    pub is_open-channel :
        (w : World) (r : Role) (a : Addr) → is_open (channel w).1 r a ≡ is_open w r a
    pub delivered-spawn : (t : Task) (w : World) → delivered (spawn t w) ≡ delivered w
    pub is_open-spawn :
        (t : Task) (w : World) (r : Role) (a : Addr) → is_open (spawn t w) r a ≡ is_open w r a
    pub tasks-spawn : (t : Task) (w : World) → tasks (spawn t w) ≡ tasks w ++ t ∷ []
    pub delivered-reply :
        (r : Role) (c : ℕ) (v : Return r) (w : World) → delivered (reply r c v w).1 ≡ delivered w
