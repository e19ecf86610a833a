-- ===== src/Futures.antt =====
-- Rust's futures, as the polls of src/core/returnval.rs and src/core/actor.rs see them.
use shakespeare.Prelude.{ℕ, suc}

-- `std::task::Poll`; `fault` is a poll that panics.
pub data Poll {ℓ} (A : Type ℓ) : Type ℓ where
  pending : Poll A
  ready : A → Poll A
  fault : Poll A

-- What a future answers to its next polls: pending, again and again or for ever, or its value.
-- A future that has given its value is `finished` and must not be polled again.
pub data Future {ℓ} (A : Type ℓ) : Type ℓ where
  now : A → Future A
  later : Future A → Future A
  never : Future A
  finished : Future A

unfoldable pub poll {ℓ} : {A : Type ℓ} → Future A → Poll A × Future A
poll (now a) = (ready a, finished)
poll (later f) = (pending, f)
poll never = (pending, never)
poll finished = (fault, finished)

-- What awaiting a future comes to (`pending`: it never does), and the polls that it takes.
abbrev pub resolved {ℓ} : {A : Type ℓ} → Future A → Poll A
resolved (now a) = ready a
resolved (later f) = resolved f
resolved never = pending
resolved finished = fault

abbrev pub polls {ℓ} : {A : Type ℓ} → Future A → ℕ
polls (now a) = 1
polls (later f) = suc (polls f)
polls never = 0
polls finished = 1
