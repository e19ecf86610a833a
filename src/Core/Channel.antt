-- ===== src/Core/Channel.antt =====
-- The traits `Sender`, `Receiver` and `Channel` of src/core/role.rs, and their implementation by tokio's
-- unbounded channels in src/tokio.rs.
use shakespeare.Prelude.{
  ◌≡◌, ◌≢◌, Bool, true, false, Option, some, List, [], ◌∷◌, ◌++◌, Result, ok, err,
}
use shakespeare.Futures.{Poll, pending, ready}

-- `trait Channel` with its associated types; a receiver is polled for its next item.
pub record Channel (Item : Type 0) : Type 1 where
  pub World : Type 0
  pub Sender : Type 0
  pub Receiver : Type 0
  pub Error : Type 0
  pub new : World → (Sender × Receiver) × World
  pub send : Sender → Item → World → Result Error (Unit {0}) × World
  pub recv : Receiver → World → Poll (Option Item) × World
  pub is_empty : Receiver → World → Bool

abbrev pub nothing_held : {A : Type 0} → List A → Bool
nothing_held [] = true
nothing_held (x ∷ xs) = false

-- What the code takes of `tokio::sync::mpsc`, with what its documentation says: a send succeeds while
-- the receiver exists; items are received in the order in which they were sent; receiving waits while
-- there are none and a sender exists. A new channel is empty, and no other's.
pub record Mpsc (T : Type 0) : Type 1 where
  pub World : Type 0
  pub UnboundedSender : Type 0
  pub UnboundedReceiver : Type 0
  pub SendError : Type 0
  pub unbounded_channel : World → (UnboundedSender × UnboundedReceiver) × World
  pub send : UnboundedSender → T → World → Result SendError (Unit {0}) × World
  pub recv : UnboundedReceiver → World → Poll (Option T) × World
  pub is_empty : UnboundedReceiver → World → Bool
  pub drop : UnboundedReceiver → World → World
  -- whether a receiver was made before, the receiver that a sender sends to, whether it still exists,
  -- whether a sender of it does, and what it has to receive
  pub is_made : World → UnboundedReceiver → Bool
  pub receiver_of : UnboundedSender → UnboundedReceiver
  pub is_open : World → UnboundedReceiver → Bool
  pub has_sender : World → UnboundedReceiver → Bool
  pub held : World → UnboundedReceiver → List T
  pub new-fresh :
      (w : World)
      → let ((s, r), w') = unbounded_channel w in
        (is_made w r ≡ false)
        × (is_made w' r ≡ true)
        × (receiver_of s ≡ r)
        × (held w' r ≡ [])
        × (is_open w' r ≡ true)
        × (has_sender w' r ≡ true)
  pub new-keeps :
      (w : World) (q : UnboundedReceiver)
      → is_made w q ≡ true
      → let w' = (unbounded_channel w).1 in
        (is_made w' q ≡ true)
        × (held w' q ≡ held w q)
        × (is_open w' q ≡ is_open w q)
        × (has_sender w' q ≡ has_sender w q)
  pub send-open :
      (s : UnboundedSender) (m : T) (w : World)
      → is_open w (receiver_of s) ≡ true
      → ((send s m w).0 ≡ ok tt)
        × (held (send s m w).1 (receiver_of s) ≡ held w (receiver_of s) ++ m ∷ [])
  pub send-closed :
      (s : UnboundedSender) (m : T) (w : World)
      → is_open w (receiver_of s) ≡ false
      → (x : SendError) × ((send s m w).0 ≡ err x)
  pub send-other :
      (s : UnboundedSender) (m : T) (w : World) (r : UnboundedReceiver)
      → r ≢ receiver_of s
      → held (send s m w).1 r ≡ held w r
  pub send-same :
      (s : UnboundedSender) (m : T) (w : World) (r : UnboundedReceiver)
      → (is_open (send s m w).1 r ≡ is_open w r) × (has_sender (send s m w).1 r ≡ has_sender w r)
  pub recv-next :
      (r : UnboundedReceiver) (w : World) (m : T) (ms : List T)
      → held w r ≡ m ∷ ms
      → ((recv r w).0 ≡ ready (some m)) × (held (recv r w).1 r ≡ ms)
  pub recv-waits :
      (r : UnboundedReceiver) (w : World)
      → held w r ≡ []
      → has_sender w r ≡ true
      → (recv r w).0 ≡ pending
  pub recv-other :
      (r : UnboundedReceiver) (w : World) (q : UnboundedReceiver)
      → q ≢ r
      → held (recv r w).1 q ≡ held w q
  pub recv-same :
      (r : UnboundedReceiver) (w : World) (q : UnboundedReceiver)
      → (is_open (recv r w).1 q ≡ is_open w q) × (has_sender (recv r w).1 q ≡ has_sender w q)
  pub is_empty-held : (r : UnboundedReceiver) (w : World) → is_empty r w ≡ nothing_held (held w r)
  pub drop-closed : (r : UnboundedReceiver) (w : World) → is_open (drop r w) r ≡ false
  pub drop-still :
      (r q : UnboundedReceiver) (w : World) → is_open w q ≡ false → is_open (drop r w) q ≡ false

-- `impl Channel for TokioUnbounded`, with those of `RoleSender` and `RoleReceiver`, which forward.
abbrev pub tokio_unbounded : {T : Type 0} → Mpsc T → Channel T
tokio_unbounded mpsc = record {
  World = mpsc.World;
  Sender = mpsc.UnboundedSender;
  Receiver = mpsc.UnboundedReceiver;
  Error = mpsc.SendError;
  new = mpsc.unbounded_channel;
  send = mpsc.send;
  recv = mpsc.recv;
  is_empty = mpsc.is_empty;
}
