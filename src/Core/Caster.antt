-- ===== src/Core/Caster.antt =====
-- `ReturnCaster` of src/core/returnval.rs: the future behind an awaited envelope.
pub mod Await
use shakespeare.Prelude.{Option, none, some, Result, ok, err, Bool, true, false}
use shakespeare.Futures.{Poll, pending, ready, fault, Future, poll}

pub data EnvelopeErr (E : Type 0) : Type 0 where
  sending_error : E → EnvelopeErr E
  hangup : EnvelopeErr E

-- `PartialEq for EnvelopeErr`, over the test of the sender's errors.
unfoldable pub eq : {E : Type 0} → (E → E → Bool) → EnvelopeErr E → EnvelopeErr E → Bool
eq same (sending_error e) (sending_error f) = same e f
eq same hangup hangup = true
eq same _ _ = false

-- `E` is the sender's error, `R` the role's return payload; `Unit` is the receiver's `RecvError`.
pub record ReturnCaster (E R : Type 0) : Type 0 where
  pub sender : Option (Future (Result E (Unit {0})))
  pub recv_future : Future (Result (Unit {0}) R)

module _ {E R V : Type 0} (from_return_payload : R → V) where
  cast : Result (Unit {0}) R → Result (EnvelopeErr E) V
  cast (ok val) = ok (from_return_payload val)
  cast (err _) = err hangup

  -- `Poll::map` with `cast`.
  unfoldable pub cast_poll : Poll (Result (Unit {0}) R) → Poll (Result (EnvelopeErr E) V)
  unfolding cast
  cast_poll pending = pending
  cast_poll (ready result) = ready (cast result)
  cast_poll fault = fault

  poll_recv : ReturnCaster E R → Poll (Result (EnvelopeErr E) V) × ReturnCaster E R
  unfolding cast_poll poll
  poll_recv c = let (p, f) = poll c.recv_future in (cast_poll p, record c { recv_future = f })

  -- `ready!` returns early on a pending sender; a failed send is reported; a sent one is dropped.
  after_send :
      ReturnCaster E R
      → Poll (Result E (Unit {0})) × Future (Result E (Unit {0}))
      → Poll (Result (EnvelopeErr E) V) × ReturnCaster E R
  unfolding poll_recv
  after_send c (pending, f) = (pending, record c { sender = some f })
  after_send c (fault, f) = (fault, record c { sender = some f })
  after_send c (ready (err e), f) = (ready (err (sending_error e)), record c { sender = some f })
  after_send c (ready (ok _), f) = poll_recv (record c { sender = none })

  with_sender :
      Option (Future (Result E (Unit {0})))
      → ReturnCaster E R
      → Poll (Result (EnvelopeErr E) V) × ReturnCaster E R
  unfolding after_send
  with_sender none c = poll_recv c
  with_sender (some sender) c = after_send c (poll sender)

  -- `Future for ReturnCaster`
  unfoldable pub poll_caster : ReturnCaster E R → Poll (Result (EnvelopeErr E) V) × ReturnCaster E R
  unfolding with_sender
  poll_caster c = with_sender c.sender c
