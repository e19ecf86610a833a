-- ===== src/Chat/Network.antt =====
-- The clients of examples/chat.rs in their event loops, as the server's calls find them.
pub mod Runs
pub mod Room
use shakespeare.Prelude.{
  ℕ, ◌+◌, ◌≡◌, ◌⊎◌, refl, sym, ◌∙◌, ap, subst, Bool, true, false, Option, none, some, List, [], ◌∷◌,
  ◌++◌, Result, ok, err, any_below, not, ◌||◌, ◌==◌, if◌then◌else◌, arith, Bool-cases, inl, inr,
}
use shakespeare.Core.Context.{Context, is_running}
use shakespeare.EventLoop.{
  Phase, top, checking, done, selecting, handling, exited, panicked, Verb, Sys, Event, push, enter,
  receive, finish, step, run, is_over, obey, is_empty, update, guard,
}
use shakespeare.Chat.{Line, Net}
use shakespeare.Chat.Client.{
  Codec, ClientState, NetClient, reads, writes, Decoded, line, max_line_length_exceeded, io,
  Unreachable, on_read, perform_net_client, send_out, client,
}
use shakespeare.Chat.Delivered.{Reception}

module _ (codec : Codec) where
  -- A client's loop between two messages: it is at its top with nothing queued.
  abbrev pub IsIdle : Sys (client codec) → Type 0
  IsIdle s = (s.phase ≡ top) × (s.queues 0 ≡ [])

  -- A message, and the loop's steps until it is handled.
  abbrev pub call : NetClient codec → List (Event (client codec))
  call m = push 0 m ∷ enter ∷ enter ∷ receive 0 ∷ finish ∷ []

  run-cons :
      (e : Event (client codec)) (es : List (Event (client codec))) (s t u : Sys (client codec))
      → step (client codec) e s ≡ some t
      → run (client codec) es t ≡ some u
      → run (client codec) (e ∷ es) s ≡ some u
  unfolding run
  run-cons e es s t u steps rest = rw (steps, run) rest

  abbrev pushed : NetClient codec → Sys (client codec) → Sys (client codec)
  pushed m s = record s {
    queues = update s.queues 0 (s.queues 0 ++ m ∷ []);
    accepted = update s.accepted 0 (s.accepted 0 ++ m ∷ []);
  }

  step-push :
      (m : NetClient codec) (s : Sys (client codec))
      → s.phase ≡ top
      → step (client codec) (push 0 m) s ≡ some (pushed m s)
  unfolding step
  step-push m s at_top = rw (at_top, step) refl

  -- The precondition of the one branch, and the timer's.
  abbrev first_guard : Sys (client codec) → ℕ → Bool
  first_guard s = update (λ _. false) 0 (guard (client codec) s.context s.queues 0)

  step-check :
      (s : Sys (client codec))
      → s.phase ≡ top
      → step (client codec) enter s ≡ some (record s { phase = checking 1 (first_guard s) })
  unfolding step
  step-check s at_top = rw (at_top, step) refl

  step-enter :
      (g : ℕ → Bool) (s : Sys (client codec))
      → s.phase ≡ checking 1 g
      → g 0 ≡ true
      → step (client codec) enter s ≡ some (record s { phase = selecting g (is_running s.context) })
  unfolding step any_below
  step-enter g s at on = rw (at, step) (rw on refl)

  step-receive :
      (m : NetClient codec) (g : ℕ → Bool) (b : Bool) (s : Sys (client codec))
      → s.phase ≡ selecting g b
      → g 0 ≡ true
      → s.queues 0 ≡ m ∷ []
      → step (client codec) (receive 0) s
        ≡ some (record s {
          queues = update s.queues 0 [];
          elapsed = false;
          phase = handling 0 m;
          taken = update s.taken 0 (s.taken 0 ++ m ∷ []);
        })
  unfolding step
  step-receive m g b s at on one = rw (at, step) (rw (on, one) refl)

  abbrev pub Handled : Type 0
  Handled = Result (ClientState codec × Unreachable codec) (ClientState codec × Verb)

  -- The state in which a handler leaves the loop.
  abbrev after : Handled → Sys (client codec) → Sys (client codec)
  after (ok (state, verb)) s = record s {
    state = state;
    context = obey (client codec) verb s.context;
    phase = top;
  }
  after (err (state, x)) s = record s { state = state; phase = panicked x }

  step-finish :
      (m : NetClient codec) (s : Sys (client codec)) (r : Handled)
      → s.phase ≡ handling 0 m
      → perform_net_client codec m s.state ≡ r
      → step (client codec) finish s ≡ some (after r s)
  unfolding step
  step-finish m s (ok (state, verb)) at e = rw (at, step) (rw e refl)
  step-finish m s (err (state, x)) at e = rw (at, step) (rw e refl)

  -- What a handler leaves, when no other message was queued.
  abbrev pub Left : Handled → Sys (client codec) → Type 0
  Left (ok (state, verb)) t = IsIdle t × (t.state ≡ state)
  Left (err (state, x)) t = (t.phase ≡ panicked x) × (t.state ≡ state)

  after-Left : (r : Handled) (s : Sys (client codec)) → s.queues 0 ≡ [] → Left r (after r s)
  after-Left (ok (state, verb)) s empty = ((refl, empty), refl)
  after-Left (err (state, x)) s empty = (refl, refl)

  abbrev taken_up : NetClient codec → Sys (client codec) → Sys (client codec)
  taken_up m s = record s {
    queues = update s.queues 0 [];
    elapsed = false;
    phase = handling 0 m;
    taken = update s.taken 0 (s.taken 0 ++ m ∷ []);
  }

  -- The loop after a message that found it between two messages.
  unfoldable pub handled : NetClient codec → Sys (client codec) → Sys (client codec)
  unfolding perform_net_client
  handled m s = after (perform_net_client codec m s.state) (taken_up m (pushed m s))

  pub handled-Left :
      (m : NetClient codec) (s : Sys (client codec))
      → Left (perform_net_client codec m s.state) (handled m s)
  unfolding handled
  handled-Left m s = after-Left (perform_net_client codec m s.state) (taken_up m (pushed m s)) refl

  pub run-handled :
      (m : NetClient codec) (s : Sys (client codec))
      → IsIdle s
      → run (client codec) (call m) s ≡ some (handled m s)
  unfolding run handled
  run-handled m s (at_top, empty) =
      let s1 = pushed m s in
      let one : s1.queues 0 ≡ m ∷ [] = ap (λ q. q ++ m ∷ []) empty in
      let g = first_guard s1 in
      let b = is_running s1.context in
      let s2 : Sys (client codec) = record s1 { phase = checking 1 g } in
      let s3 : Sys (client codec) = record s1 { phase = selecting g b } in
      let on : g 0 ≡ true =
        ap (λ (q : List (NetClient codec)). not (is_empty q) || is_running s1.context) one in
      let s4 = taken_up m s1 in
      let t = after (perform_net_client codec m s.state) s4 in
      run-cons (push 0 m) (enter ∷ enter ∷ receive 0 ∷ finish ∷ []) s s1 t (step-push m s at_top) (
        run-cons enter (enter ∷ receive 0 ∷ finish ∷ []) s1 s2 t (step-check s1 at_top) (
          run-cons enter (receive 0 ∷ finish ∷ []) s2 s3 t (step-enter g s2 refl on) (
            run-cons (receive 0) (finish ∷ []) s3 s4 t (step-receive m g b s3 refl on one)
              (run-cons finish [] s4 t t (step-finish m s4 _ refl refl) refl))))

  -- A client between two messages, or one whose loop has ended.
  abbrev pub Resting : Type 0
  Resting = (s : Sys (client codec)) × (IsIdle s ⊎ (is_over (client codec) s.phase ≡ true))

  -- A stopped client's loop goes on to its end, and its hook.
  abbrev pub settled : Bool → (t : Sys (client codec)) → IsIdle t → Resting
  settled true t idle = (t, inl idle)
  settled false t idle = (record t { phase = done none }, inr refl)

  step-exit :
      (g : ℕ → Bool) (t : Sys (client codec))
      → t.phase ≡ checking 1 g
      → g 0 ≡ false
      → is_running t.context ≡ false
      → step (client codec) enter t ≡ some (record t { phase = exited })
  unfolding step any_below
  step-exit g t at none_on off = rw (at, step) (rw (none_on, off) refl)

  step-hook :
      (x : Option (Unreachable codec)) (t : Sys (client codec))
      → (t.phase ≡ exited) × (x ≡ none)
        ⊎ ((y : Unreachable codec) × (t.phase ≡ panicked y) × (x ≡ some y))
      → step (client codec) finish t ≡ some (record t { phase = done x })
  unfolding step
  step-hook x t (inl (at, is)) = rw (at, step) (rw is refl)
  step-hook x t (inr (y, at, is)) = rw (at, step) (rw is refl)

  settled-state :
      (b : Bool) (t : Sys (client codec)) (idle : IsIdle t) → (settled b t idle).0.state ≡ t.state
  settled-state true t idle = refl
  settled-state false t idle = refl

  -- The steps by which a client settles.
  pub settled-run :
      (b : Bool) (t : Sys (client codec)) (idle : IsIdle t)
      → is_running t.context ≡ b
      → (es : List (Event (client codec))) × (run (client codec) es t ≡ some (settled b t idle).0)
  unfolding run
  settled-run true t idle e = ([], refl)
  settled-run false t (at_top, empty) e =
      let g = first_guard t in
      let t1 : Sys (client codec) = record t { phase = checking 1 g } in
      let t2 : Sys (client codec) = record t { phase = exited } in
      let t3 : Sys (client codec) = record t { phase = done none } in
      let off : g 0 ≡ false =
        ap (λ (q : List (NetClient codec)). not (is_empty q) || is_running t.context) empty ∙ e in
      (
        enter ∷ enter ∷ finish ∷ [],
        run-cons enter (enter ∷ finish ∷ []) t t1 t3 (step-check t at_top) (
            run-cons enter (finish ∷ []) t1 t2 t3 (step-exit g t1 refl off e)
              (run-cons finish [] t2 t3 t3 (step-hook none t2 (inl (refl, refl))) refl)),
      )

  -- Where a client rests when a handler has left it so; behind a panic its hook runs.
  abbrev pub rests : (r : Handled) (t : Sys (client codec)) → Left r t → Resting
  rests (ok (state, verb)) t (idle, e) = settled (is_running t.context) t idle
  rests (err (state, x)) t left = (record t { phase = done (some x) }, inr refl)

  pub rests-run :
      (r : Handled) (t : Sys (client codec)) (left : Left r t)
      → (es : List (Event (client codec))) × (run (client codec) es t ≡ some (rests r t left).0)
  unfolding run
  rests-run (ok (state, verb)) t (idle, e) = settled-run (is_running t.context) t idle refl
  rests-run (err (state, x)) t (at, e) =
      let u : Sys (client codec) = record t { phase = done (some x) } in
      (finish ∷ [], run-cons finish [] t u u (step-hook (some x) t (inr (x, at, refl))) refl)

  -- A line of its socket, which a client that goes on handles.
  unfoldable pub read : Decoded → Resting → Resting
  unfolding handled perform_net_client
  read d (s, inl idle) =
      rests (perform_net_client codec (reads d) s.state) (handled (reads d) s)
        (handled-Left (reads d) s)
  read d (s, inr over) = (s, inr over)

  unfoldable pub read_all : List Decoded → Resting → Resting
  unfolding read
  read_all [] c = c
  read_all (d ∷ ds) c = read_all ds (read d c)

  pub data Gone : Type 0 where
    gone : Gone

  -- What a client answers to a call of `send_out`: the handler's result, or nothing any more.
  unfoldable pub answer : Line → Resting → Result Gone (Result codec.IoError (Unit {0})) × Resting
  unfolding handled perform_net_client
  answer msg (s, inl idle) =
      let t = handled (writes msg) s in
      let (idle', state) = handled-Left (writes msg) s in
      (ok (send_out codec msg s.state).0, settled (is_running t.context) t idle')
  answer msg (s, inr over) = (err gone, (s, inr over))

  abbrev sink_of : Resting → codec.Sink
  sink_of c = c.0.state.net_out_stream

  abbrev KeepsSink : Handled → codec.Sink → Type 0
  KeepsSink (ok (state, verb)) sink = state.net_out_stream ≡ sink
  KeepsSink (err (state, x)) sink = state.net_out_stream ≡ sink

  on_read-KeepsSink :
      (d : Decoded) (s : ClientState codec) → KeepsSink (on_read codec d s) s.net_out_stream
  unfolding on_read
  on_read-KeepsSink (line msg) s = refl
  on_read-KeepsSink max_line_length_exceeded s = refl
  on_read-KeepsSink io s = refl

  rests-sink :
      (r : Handled) (sink : codec.Sink) (t : Sys (client codec)) (left : Left r t)
      → KeepsSink r sink
      → sink_of (rests r t left) ≡ sink
  rests-sink (ok (state, verb)) sink t (idle, e) kept =
      ap (λ (st : ClientState codec). st.net_out_stream)
        (settled-state (is_running t.context) t idle ∙ e)
      ∙ kept
  rests-sink (err (state, x)) sink t (over, e) kept =
      ap (λ (st : ClientState codec). st.net_out_stream) e ∙ kept

  read-sink : (d : Decoded) (c : Resting) → sink_of (read d c) ≡ sink_of c
  unfolding read perform_net_client
  read-sink d (s, inl idle) =
      rests-sink (perform_net_client codec (reads d) s.state) s.state.net_out_stream
        (handled (reads d) s) (handled-Left (reads d) s) (on_read-KeepsSink d s.state)
  read-sink d (s, inr over) = refl

  -- Nothing that a client reads goes out on its own socket.
  pub read_all-sink : (ds : List Decoded) (c : Resting) → sink_of (read_all ds c) ≡ sink_of c
  unfolding read_all
  read_all-sink [] c = refl
  read_all-sink (d ∷ ds) c = read_all-sink ds (read d c) ∙ read-sink d c
