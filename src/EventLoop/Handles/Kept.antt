-- ===== src/EventLoop/Handles/Kept.antt =====
-- A message whose sender holds the actor's shell (src/core/returnval.rs, src/sendable.rs) is not refused.
use shakespeare.Prelude.{
  ℕ, suc, ◌+◌, ◌-◌, ◌<◌, ◌≡◌, refl, subst, Bool, true, false, not, ◌&&◌, Option, none, some, List,
  [], ◌∷◌, ◌++◌, ltb, Bool-cases, Option-cases, inl, inr, arith, length, All,
}
use shakespeare.Core.Context.{is_running}
use shakespeare.EventLoop.{Actor, Phase, handling, push, start, step, is_over}
use shakespeare.EventLoop.RunsOut.{is_loop_or_time}
use shakespeare.EventLoop.Handles.{
  take_at, Owned, Act, turn, clone, release, borrow, call, give, deliver, spawned, shell_count,
  get_shell, is_handling, called, borrowed, with_sys, sent, sends, act, act_all,
}
use shakespeare.EventLoop.Handles.Fits.{
  Taken, take_at-Taken, owners, IsNear, Fits, Keeps, Keeps-if, running_of, turn-Keeps, clone-Keeps,
  drop-Keeps,
}
use shakespeare.EventLoop.Handles.Runs.{IsRun, act_all-IsRun}
use shakespeare.EventLoop.Handles.Turns.{has_left, is_over-left, is_broken}

module _ (actor : Actor) where
  open actor use {State, Msg, Panic, performances}

  push-Keeps :
      (i : ℕ) (m : Msg) (rest : List (ℕ × Msg)) (o : Owned actor)
      → Fits actor o
      → i < performances
      → All (IsNear actor) rest
      → length o.pending ≡ suc (length rest)
      → Keeps actor (sent actor m (step actor (push i m) o.sys) (record o { pending = rest }))
  unfolding step sent
  push-Keeps i m rest o h l near less = elim (Bool-cases (is_over actor o.sys.phase)) [
    | inl over ↦
        let off : (ltb i performances && not (is_over actor o.sys.phase)) ≡ false = ground arith in
        rw off (
          drop-Keeps actor o.sys (record o { pending = rest; refused = o.refused ++ m ∷ [] })
            (omega (arith, h.count, less)) near
            (λ b.
              let z = (h.kept b).1 (is_over-left actor o.sys.phase over) in absurd (omega arith)))
    | inr on ↦
        let open_ : (ltb i performances && not (is_over actor o.sys.phase)) ≡ true = ground arith in
        rw open_ (
          drop-Keeps actor _ (record o { pending = rest }) (omega (arith, h.count, less)) near
            (λ b. ((h.kept b).0, λ over. let z = (h.kept b).1 over in absurd (omega arith))))
  ]

  sends-Keeps :
      (o : Owned actor) (r : Option ((ℕ × Msg) × List (ℕ × Msg)))
      → Fits actor o
      → Taken (IsNear actor) o.pending r
      → Keeps actor (sends actor r o)
  unfolding sends
  sends-Keeps o none h taken = tt
  sends-Keeps o (some ((i, m), rest)) h (l, near, less) = push-Keeps i m rest o h l near less

  called-Keeps :
      (i : ℕ) (m : Msg) (o : Owned actor)
      → Fits actor o
      → 0 < o.handles
      → i < performances
      → Keeps actor (called actor i m o)
  unfolding called get_shell with_sys
  called-Keeps i m o h held l = elim (Bool-cases (ltb 0 (shell_count actor o.sys))) [
    | inl alive ↦ rw alive (
        clone-Keeps actor o (record o { pending = (i, m) ∷ o.pending }) h (l, h.near) refl
          (omega arith) (λ over. omega (arith, held)))
    | inr dead ↦ rw dead tt
  ]

  is_handling-on : (p : Phase Msg Panic) → is_handling actor p ≡ true → has_left actor p ≡ false
  is_handling-on (handling i m) on = refl
  is_handling-on _ on = absurd (cc)

  act-Keeps : (a : Act actor) (o : Owned actor) → Fits actor o → Keeps actor (act actor a o)
  unfolding act borrowed
  act-Keeps (turn e) o h = Keeps-if actor (is_loop_or_time actor e) _ (turn-Keeps actor e o h)
  act-Keeps clone o h = Keeps-if actor (ltb 0 o.handles) _ (λ held.
      clone-Keeps actor o (record o { handles = o.handles + 1 }) h h.near refl (omega arith)
        (λ over. ground arith))
  act-Keeps release o h = Keeps-if actor (ltb 0 o.handles) _ (λ held.
      let one : 0 < o.handles = ground arith in
      drop-Keeps actor o.sys (record o { handles = o.handles - 1 }) (omega (arith, h.count)) h.near
        (λ b. ((h.kept b).0, λ over. let z = (h.kept b).1 over in omega arith)))
  act-Keeps borrow o h = Keeps-if actor (is_handling actor o.sys.phase) _ (λ on.
      clone-Keeps actor o (record o { handles = o.handles + 1 }) h h.near refl (omega arith)
        (λ over. let live = is_handling-on o.sys.phase on in absurd (cc)))
  act-Keeps (call i m) o h =
      Keeps-if actor (ltb 0 o.handles && ltb i performances) _
        (λ on. called-Keeps i m o h (ground arith) (ground arith))
  act-Keeps (give i m) o h = Keeps-if actor (ltb 0 o.handles && ltb i performances) _ (λ on.
      let held : 0 < o.handles = ground arith in
      record {
        count = omega (arith, h.count, held);
        near = (ground arith, h.near);
        kept = λ b. ((h.kept b).0, λ over. let z = (h.kept b).1 over in absurd (omega arith));
      })
  act-Keeps (deliver k) o h =
      sends-Keeps o (take_at k o.pending) h (take_at-Taken (IsNear actor) k o.pending h.near)

  act_all-Fits :
      (acts : List (Act actor)) (o o' : Owned actor)
      → act_all actor acts o ≡ some o'
      → Fits actor o
      → Fits actor o'
  unfolding act_all
  act_all-Fits [] o o' ran h = subst (Keeps actor) ran h
  act_all-Fits (a ∷ acts) o o' ran h = elim (Option-cases (act actor a o)) [
    | inl off ↦ absurd (cc (rw (off, act_all) at ran))
    | inr (u, on) ↦
        act_all-Fits acts u o' (rw (on, act_all) at ran) (subst (Keeps actor) on (act-Keeps a o h))
  ]

  abbrev pub has_next : Option (Owned actor) → Bool
  has_next none = false
  has_next (some o) = true

  spawned-Fits : (state : State) → Fits actor (spawned actor state)
  unfolding spawned start
  spawned-Fits state = record { count = refl; near = tt; kept = λ b. (refl, λ over. absurd (cc)) }

  shell_count-positive :
      (o : Owned actor) → Fits actor o → 0 < o.handles → 0 < shell_count actor o.sys
  shell_count-positive o h held = elim (Bool-cases (is_over actor o.sys.phase)) [
    | inl over ↦ rw over (omega (arith, h.count))
    | inr on ↦ rw on (omega (arith, h.count))
  ]

  -- A call by a holder of the shell finds it alive.
  call-next :
      (i : ℕ) (m : Msg) (o : Owned actor)
      → Fits actor o
      → has_next (act actor (call i m) o) ≡ (ltb 0 o.handles && ltb i performances)
  unfolding act called get_shell with_sys step
  call-next i m o h = elim (Bool-cases (ltb 0 o.handles && ltb i performances)) [
    | inl on ↦
        let alive : ltb 0 (shell_count actor o.sys) ≡ true =
          let more = shell_count-positive o h (ground arith) in ground arith in
        rw (on, alive) refl
    | inr off ↦ rw off refl
  ]

  runs_for_owners :
      (o : Owned actor)
      → Fits actor o
      → is_broken actor o.sys ≡ false
      → (is_running o.sys.context ≡ ltb 0 (owners actor o))
        × ((is_over actor o.sys.phase && ltb 0 (owners actor o)) ≡ false)
  unfolding is_running
  runs_for_owners o h b =
      let r = running_of actor o.sys b in
      (
        let all = h.count in rw r (ground arith),
        elim (Bool-cases (is_over actor o.sys.phase)) [
          | inl over ↦ let z = (h.kept b).1 (is_over-left actor o.sys.phase over) in ground arith
          | inr on ↦ rw on refl
        ],
      )

  -- A shell is held by handles, and by each message on its way: in an envelope, in a future or in a
  -- task. Whatever the loop, time and the holders have done since the start, and in any order: the
  -- actor has made a run of the loop over queues with its environment. And as long as no handler has
  -- stopped the actor or has panicked, no send to it has failed; its context counts as running exactly
  -- if somebody holds the shell, and then the task is not over; and each holder of a handle can call a
  -- method of a role that the actor performs, since the shell that the call looks up is there.
  pub acts-Accepted :
      (state : State) (acts : List (Act actor)) (o : Owned actor) (i : ℕ) (m : Msg)
      → act_all actor acts (spawned actor state) ≡ some o
      → is_broken actor o.sys ≡ false
      → IsRun actor (start actor state) o.sys
        × (o.refused ≡ [])
        × (is_running o.sys.context ≡ ltb 0 (owners actor o))
        × ((is_over actor o.sys.phase && ltb 0 (owners actor o)) ≡ false)
        × (has_next (act actor (call i m) o) ≡ (ltb 0 o.handles && ltb i performances))
  unfolding spawned
  acts-Accepted state acts o i m ran b =
      let h = act_all-Fits acts (spawned actor state) o ran (spawned-Fits state) in
      let (running, on) = runs_for_owners o h b in
      (
        act_all-IsRun actor acts (spawned actor state) o ran,
        (h.kept b).0,
        running,
        on,
        call-next i m o h,
      )
