-- ===== src/Chat/Connected.antt =====
-- Which clients the server starts, with which numbers and tasks (examples/chat.rs).
use mathlib.Core.List.{append_assoc, append-nil}
use Prim.Native.Nat.{◌%◌, ◌^◌}
use shakespeare.Prelude.{
  ℕ, suc, ◌+◌, ◌<◌, ◌≡◌, refl, sym, ◌∙◌, ap, Option, none, some, List, [], ◌∷◌, ◌++◌, arith,
  Bool-cases, inl, inr, length, length-append,
}
use shakespeare.Chat.{
  Text, wrote, has_entered, has_left, contains, insert, Net, Server, Task, feed, on_exit, Call,
  a_line, an_exit, a_socket, broadcast, new_client, send_msg, client_leaves, client_id_of, listen,
  perform, serve, on_some,
}
use shakespeare.Chat.Users.{length-remove_contained}
use shakespeare.Chat.Removes.{
  without, broadcast-Relayed, remove_client_listed, remove_client_unlisted,
}
use shakespeare.Chat.Announced.{Same, broadcast-Announced}

-- The number of the `k`-th client, counted from 0, in 64 bits.
abbrev pub nth_id : ℕ → ℕ
nth_id k = (k + 1) % 2 ^ 64

nth_id-next : (n : ℕ) → (nth_id n + 1) % 2 ^ 64 ≡ nth_id (n + 1)
nth_id-next n = omega arith

module _ (net : Net) where
  -- The numbers and the tasks of the clients for the sockets among some calls, from the client `k` on.
  abbrev pub ids_for : ℕ → List (Call net) → List ℕ
  ids_for k [] = []
  ids_for k (a_line i msg ∷ cs) = ids_for k cs
  ids_for k (an_exit outcome ∷ cs) = ids_for k cs
  ids_for k (a_socket tcp_client ∷ cs) = nth_id k ∷ ids_for (k + 1) cs

  abbrev pub tasks_for : ℕ → List (Call net) → List (Task net)
  tasks_for k [] = []
  tasks_for k (a_line i msg ∷ cs) = tasks_for k cs
  tasks_for k (an_exit outcome ∷ cs) = tasks_for k cs
  tasks_for k (a_socket tcp_client ∷ cs) = feed tcp_client k ∷ on_exit k ∷ tasks_for (k + 1) cs

  -- The counter has gone once over each client that was started.
  abbrev pub IsCounted : Server net → Type 0
  IsCounted s = s.id_counter ≡ nth_id (length s.started)

  -- What some calls start.
  abbrev pub Starts : List (Call net) → Server net → Server net → Type 0
  Starts cs s t =
      (t.started ≡ s.started ++ ids_for (length s.started) cs)
      × (t.tasks ≡ s.tasks ++ tasks_for (length s.started) cs)
      × IsCounted t

  Same-Starts : (s t : Server net) → IsCounted s → Same net s t → Starts [] s t
  Same-Starts s t counted (started, (tasks, counter)) = (
    started ∙ sym (append-nil s.started),
    tasks ∙ sym (append-nil s.tasks),
    counter ∙ (counted ∙ ap (λ (l : List ℕ). nth_id (length l)) (sym started)),
  )

  -- A broadcast starts nobody.
  broadcast-Same :
      (msg : Text) (user_id : Option ℕ) (fuel : ℕ) (s : Server net)
      → length s.users < fuel
      → (t : Server net) × (broadcast net fuel msg user_id s ≡ some t) × Same net s t
  broadcast-Same msg user_id fuel s few =
      let (t, ran, (gone, (ds, (printed, (leaving, same))))) =
        broadcast-Announced net fuel msg user_id s few in
      (t, ran, same)

  perform-Starts :
      (c : Call net) (s : Server net)
      → IsCounted s
      → (t : Server net) × (perform net c s ≡ some t) × Starts (c ∷ []) s t
  unfolding perform send_msg client_leaves listen new_client
  perform-Starts (a_line sender_id msg) s counted =
      let (t, ran, same) =
        broadcast-Same (wrote msg) (some sender_id) (suc (length s.users)) s (omega arith) in
      (t, ran, Same-Starts s t counted same)
  perform-Starts (an_exit outcome) s counted =
      let fuel = suc (length s.users) in
      let d = client_id_of net outcome in
      let works = broadcast-Relayed net fuel in
      elim (Bool-cases (contains d s.users)) [
        | inl is ↦
            let s' = without net d s in
            let (t, ran, same) =
              broadcast-Same (has_left d) none fuel s'
                (omega (arith, length-remove_contained d s.users is)) in
            (
              t,
              remove_client_listed net fuel (broadcast net fuel) works d s is ∙ ran,
              Same-Starts s t counted same,
            )
        | inr not_there ↦ (
          s,
          remove_client_unlisted net fuel (broadcast net fuel) works d s not_there,
          Same-Starts s s counted (refl, (refl, refl)),
        )
      ]
  perform-Starts (a_socket tcp_client) s counted =
      let id = s.id_counter in
      let (actor, started) =
        new_client net tcp_client id (record s { id_counter = (id + 1) % 2 ^ 64 }) in
      let s' = record started { users = insert id actor started.users } in
      let (t, ran, (started', (tasks', counter'))) =
        broadcast-Same (has_entered id) none (suc (length s'.users)) s' (omega arith) in
      (
        t,
        ran,
        (
          started' ∙ ap (λ (i : ℕ). s.started ++ i ∷ []) counted,
          tasks',
          counter'
              ∙ (ap (λ (i : ℕ). (i + 1) % 2 ^ 64) counted
                  ∙ (nth_id-next (length s.started)
                      ∙ ap nth_id
                          (sym (length-append s.started (id ∷ [])) ∙ sym (ap length started')))),
        ),
      )

  ids_for-append :
      (k : ℕ) (c : Call net) (cs : List (Call net))
      → ids_for k (c ∷ cs) ≡ ids_for k (c ∷ []) ++ ids_for (k + length (ids_for k (c ∷ []))) cs
  ids_for-append k (a_line i msg) cs = ap (λ n. ids_for n cs) (omega arith)
  ids_for-append k (an_exit outcome) cs = ap (λ n. ids_for n cs) (omega arith)
  ids_for-append k (a_socket tcp_client) cs = refl

  tasks_for-append :
      (k : ℕ) (c : Call net) (cs : List (Call net))
      → tasks_for k (c ∷ cs)
        ≡ tasks_for k (c ∷ []) ++ tasks_for (k + length (ids_for k (c ∷ []))) cs
  tasks_for-append k (a_line i msg) cs = ap (λ n. tasks_for n cs) (omega arith)
  tasks_for-append k (an_exit outcome) cs = ap (λ n. tasks_for n cs) (omega arith)
  tasks_for-append k (a_socket tcp_client) cs = refl

  Starts-cons :
      (c : Call net) (cs : List (Call net)) (s t u : Server net)
      → Starts (c ∷ []) s t
      → Starts cs t u
      → Starts (c ∷ cs) s u
  Starts-cons c cs s t u (started, tasks, counted) (started', tasks', counted') =
      let k = length s.started in
      let moved : length t.started ≡ k + length (ids_for k (c ∷ [])) =
        ap length started ∙ length-append s.started (ids_for k (c ∷ [])) in
      (
        started'
            ∙ (ap (λ (l : List ℕ). l ++ ids_for (length t.started) cs) started
                ∙ (append_assoc s.started (ids_for k (c ∷ [])) (ids_for (length t.started) cs)
                    ∙ ap (λ (l : List ℕ). s.started ++ l)
                        (ap (λ n. ids_for k (c ∷ []) ++ ids_for n cs) moved
                          ∙ sym (ids_for-append k c cs)))),
        tasks'
            ∙ (ap (λ (l : List (Task net)). l ++ tasks_for (length t.started) cs) tasks
                ∙ (append_assoc s.tasks (tasks_for k (c ∷ [])) (tasks_for (length t.started) cs)
                    ∙ ap (λ (l : List (Task net)). s.tasks ++ l)
                        (ap (λ n. tasks_for k (c ∷ []) ++ tasks_for n cs) moved
                          ∙ sym (tasks_for-append k c cs)))),
        counted',
      )

  -- From a server whose counter has gone once over each client that was started, any sequence of its
  -- messages is served to the end, and exactly one client is started for each connection among them,
  -- in their order: numbered on from those before, in 64 bits, with a task that feeds it the lines of
  -- its connection's socket and one that reports its exit. No other message starts anything.
  pub serve-Starts :
      (cs : List (Call net)) (s : Server net)
      → IsCounted s
      → (t : Server net) × (serve net cs s ≡ some t) × Starts cs s t
  unfolding serve
  serve-Starts [] s counted = (s, refl, Same-Starts s s counted (refl, (refl, refl)))
  serve-Starts (c ∷ cs) s counted =
      let (t, ran, (started, tasks, counted')) = perform-Starts c s counted in
      let (u, ran', starts) = serve-Starts cs t counted' in
      (
        u,
        ap (on_some net (serve net cs)) ran ∙ ran',
        Starts-cons c cs s t u (started, tasks, counted') starts,
      )
