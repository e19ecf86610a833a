-- ===== src/Core/Caster/Await.antt =====
-- Awaiting a `ReturnCaster` (src/core/returnval.rs): the executor polls it until it is ready.
use shakespeare.Prelude.{ℕ, zero, suc, ◌+◌, ◌≤◌, ◌≡◌, ◌≢◌, refl, none, some, Result, ok, err, arith}
use shakespeare.Futures.{
  Poll, pending, ready, fault, Future, now, later, never, finished, resolved, polls,
}
use shakespeare.Core.Caster.{ReturnCaster, EnvelopeErr, sending_error, cast_poll, poll_caster}

module _ {E R V : Type 0} (from_return_payload : R → V) where
  -- Up to `n` polls, and what they came to: `pending` if the value is still to come.
  unfoldable pub drive : ℕ → ReturnCaster E R → Poll (Result (EnvelopeErr E) V) × ReturnCaster E R
  drive zero c = (pending, c)
  drive (suc n) c =
      let (p, c') = poll_caster from_return_payload c in
      elim p [ pending ↦ drive n c' | ready v ↦ (ready v, c') | fault ↦ (fault, c') ]

  -- What the two futures amount to, in the order in which they are awaited.
  abbrev pub replied :
      Poll (Result E (Unit {0})) → Future (Result (Unit {0}) R) → Poll (Result (EnvelopeErr E) V)
  replied pending f = pending
  replied fault f = fault
  replied (ready (err e)) f = ready (err (sending_error e))
  replied (ready (ok _)) f = cast_poll from_return_payload (resolved f)

  abbrev pub awaiting :
      Future (Result E (Unit {0})) → Future (Result (Unit {0}) R) → ReturnCaster E R
  awaiting s f = record { sender = some s; recv_future = f }

  abbrev pub sent : Future (Result (Unit {0}) R) → ReturnCaster E R
  sent f = record { sender = none; recv_future = f }

  drive-sent :
      (n : ℕ) (f : Future (Result (Unit {0}) R))
      → polls f ≤ n
      → (drive n (sent f)).0 ≡ cast_poll from_return_payload (resolved f)
  unfolding drive poll_caster
  drive-sent zero (now a) h = absurd (omega arith)
  drive-sent zero (later f) h = absurd (omega arith)
  drive-sent zero never h = refl
  drive-sent zero finished h = absurd (omega arith)
  drive-sent (suc n) (now a) h = refl
  drive-sent (suc n) (later f) h = drive-sent n f (omega arith)
  drive-sent (suc n) never h = drive-sent n never (omega arith)
  drive-sent (suc n) finished h = refl

  drive-never :
      (n : ℕ) (f : Future (Result (Unit {0}) R)) → (drive n (awaiting never f)).0 ≡ pending
  unfolding drive poll_caster
  drive-never zero f = refl
  drive-never (suc n) f = drive-never n f

  -- As many polls of the awaited envelope as its two futures take together, or more, give what the
  -- futures amount to: the send's error, or else the cast reply or the hangup, and nothing while
  -- one of them is pending for ever.
  pub drive-awaiting :
      (n : ℕ) (s : Future (Result E (Unit {0}))) (f : Future (Result (Unit {0}) R))
      → polls s + polls f ≤ n
      → (drive n (awaiting s f)).0 ≡ replied (resolved s) f
  unfolding drive poll_caster
  drive-awaiting zero (now a) f h = absurd (omega arith)
  drive-awaiting zero (later s) f h = absurd (omega arith)
  drive-awaiting zero never f h = refl
  drive-awaiting zero finished f h = absurd (omega arith)
  drive-awaiting (suc n) (now (ok _)) f h = drive-sent (suc n) f (omega arith)
  drive-awaiting (suc n) (now (err e)) f h = refl
  drive-awaiting (suc n) (later s) f h = drive-awaiting n s f (omega arith)
  drive-awaiting (suc n) never f h = drive-never (suc n) f
  drive-awaiting (suc n) finished f h = refl

  -- If the send does not come to a success, then no number of polls touches the reply channel.
  pub drive-unsent :
      (n : ℕ) (s : Future (Result E (Unit {0}))) (f : Future (Result (Unit {0}) R))
      → ((x : Unit {0}) → resolved s ≢ ready (ok x))
      → (drive n (awaiting s f)).1.recv_future ≡ f
  unfolding drive poll_caster
  drive-unsent zero s f h = refl
  drive-unsent (suc n) (now (ok x)) f h = absurd (h x refl)
  drive-unsent (suc n) (now (err e)) f h = refl
  drive-unsent (suc n) (later s) f h = drive-unsent n s f h
  drive-unsent (suc n) never f h = drive-unsent n never f h
  drive-unsent (suc n) finished f h = refl
