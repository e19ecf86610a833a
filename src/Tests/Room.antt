-- ===== src/Tests/Room.antt =====
-- A chat room in which the socket of the second client fails, and a client that loses its socket.
use shakespeare.Prelude.{
  any_below, ℕ, ◌≡◌, refl, Bool, true, false, Option, none, some, List, [], ◌∷◌, ◌++◌, Result, ok,
  err, ◌==◌, if◌then◌else◌, arith, Bool-cases, inl, inr, ap,
}
use shakespeare.Futures.{ready}
use shakespeare.Core.Context.{is_running}
use shakespeare.Core.Outcome.{Outcome, exit}
use shakespeare.EventLoop.{Sys, Event, enter, receive, finish, push, start, step, run}
use shakespeare.EventLoop.TaskResult.{poll_handle}
use shakespeare.Chat.{
  wrote, has_entered, has_left, Line, from, alone, Net, Server, Call, a_line, an_exit, a_socket,
  serve, default_server, broadcast, client_leaves, contains, perform, listen, send_msg, new_client,
  remove_client, remove_all, announce, send_all, is_sent, insert, remove,
}
use shakespeare.Chat.Announced.{Announced, broadcast-Announced}
use shakespeare.Chat.Connected.{Starts, serve-Starts}
use shakespeare.Chat.Delivered.{Reception}
use shakespeare.Tests.Samples.{three_users, three_users-Inv}
use shakespeare.Chat.Told.{Told, ServerInv, serve-Told}
use shakespeare.Chat.Client.{
  Codec, ClientState, writes, client, client_hooks, perform_net_client, on_read, send_out,
}
use shakespeare.Chat.Client.Leaves.{stopped_client_leaves}

abbrev Sent : Type 0
Sent = List (ℕ × Line)

abbrev deliver : Bool → ℕ → Line → Sent → Result ℕ (Result ℕ (Unit {0})) × Sent
deliver true h line w = (ok (err 0), w)
deliver false h line w = (ok (ok tt), w ++ (h, line) ∷ [])

abbrev one_broken : Net
one_broken = record {
  World = Sent;
  SendError = ℕ;
  LinesCodecError = ℕ;
  Socket = ℕ;
  send_out = λ h line w. deliver (h == 1) h line w;
  visit = λ us. us;
  visit_count = λ i a us. refl;
}

abbrev lines_for : ℕ → Sent → List Line
lines_for h [] = []
lines_for h ((k, line) ∷ w) = let rest = lines_for h w in if k == h then line ∷ rest else rest

lines_for-own :
    (h : ℕ) (line : Line) (w : Sent)
    → lines_for h (w ++ (h, line) ∷ []) ≡ lines_for h w ++ line ∷ []
lines_for-own h line [] = let same : (h == h) ≡ true = ground arith in rw same refl
lines_for-own h line ((k, l) ∷ w) = elim (Bool-cases (k == h)) [
  | inl same ↦ rw same (ap (λ (ls : List Line). l ∷ ls) (lines_for-own h line w))
  | inr other ↦ rw other (lines_for-own h line w)
]

lines_for-other :
    (h k : ℕ) (line : Line) (w : Sent)
    → (k == h) ≡ false
    → lines_for k (w ++ (h, line) ∷ []) ≡ lines_for k w
lines_for-other h k line [] e = let other : (h == k) ≡ false = ground arith in rw other refl
lines_for-other h k line ((j, l) ∷ w) e = elim (Bool-cases (j == k)) [
  | inl same ↦ rw same (ap (λ (ls : List Line). l ∷ ls) (lines_for-other h k line w e))
  | inr other ↦ rw other (lines_for-other h k line w e)
]

deliver-sent :
    (b : Bool) (h : ℕ) (line : Line) (w : Sent)
    → (deliver b h line w).0 ≡ ok (ok tt)
    → lines_for h (deliver b h line w).1 ≡ lines_for h w ++ line ∷ []
deliver-sent false h line w e = lines_for-own h line w
deliver-sent true h line w e = absurd (cc e)

deliver-other :
    (b : Bool) (h k : ℕ) (line : Line) (w : Sent)
    → (k == h) ≡ false
    → lines_for k (deliver b h line w).1 ≡ lines_for k w
deliver-other false h k line w e = lines_for-other h k line w e
deliver-other true h k line w e = refl

abbrev counted : Reception one_broken
counted = record {
  received = λ w h. lines_for h w;
  received-sent = λ h line w e. deliver-sent (h == 1) h line w e;
  received-other = λ h k line w e. deliver-other (h == 1) h k line w e;
}

abbrev evening : List (Call one_broken)
evening =
    a_socket 0 ∷ a_socket 1 ∷ a_socket 2 ∷ a_line 1 "hello" ∷ an_exit (exit 3) ∷ a_line 1 "bye" ∷ []

abbrev empty_room : Server one_broken
empty_room = default_server one_broken []

abbrev reached : Option (Server one_broken) → Server one_broken
reached none = empty_room
reached (some s) = s

abbrev at_night : Server one_broken
at_night = reached (serve one_broken evening empty_room)

evening_printed :
    at_night.console
    ≡ alone (has_entered 1)
      ∷ alone (has_entered 2)
      ∷ alone (has_left 2)
      ∷ alone (has_entered 3)
      ∷ from 1 (wrote "hello")
      ∷ alone (has_left 3)
      ∷ from 1 (wrote "bye")
      ∷ []
unfolding serve perform listen send_msg client_leaves new_client remove_client remove_all announce
    send_all is_sent insert remove contains broadcast default_server
evening_printed = refl

abbrev full_room : Server one_broken
full_room = record {
  users = three_users;
  console = [];
  id_counter = 4;
  started = 1 ∷ 2 ∷ 3 ∷ [];
  tasks = [];
  world = [];
}

-- Of the three users only the first one stays.
full_room_at_night :
    (reached (serve one_broken (a_line 1 "bye" ∷ an_exit (exit 3) ∷ []) full_room)).users
    ≡ (1, 0) ∷ []
unfolding serve perform listen send_msg client_leaves new_client remove_client remove_all announce
    send_all is_sent insert remove contains broadcast default_server
full_room_at_night = refl

serve-Told_example :
    (t : Server one_broken) × (serve one_broken (a_line 1 "bye" ∷ an_exit (exit 3) ∷ []) full_room
      ≡ some t)
    × (Told one_broken counted full_room t × ServerInv one_broken counted t)
serve-Told_example =
    serve-Told one_broken counted (a_line 1 "bye" ∷ an_exit (exit 3) ∷ []) full_room three_users-Inv

broadcast-Announced_example :
    (t : Server one_broken) × (broadcast one_broken 4 (wrote "anyone?") none full_room ≡ some t)
    × Announced one_broken (alone (wrote "anyone?")) full_room t
unfolding insert remove
broadcast-Announced_example =
    broadcast-Announced one_broken 4 (wrote "anyone?") none full_room (omega arith)

serve-Starts_example :
    (t : Server one_broken) × (serve one_broken evening empty_room ≡ some t)
    × Starts one_broken evening empty_room t
unfolding default_server
serve-Starts_example = serve-Starts one_broken evening empty_room refl

abbrev broken_pipe : Codec
broken_pipe = record {
  Sink = List Line;
  IoError = ℕ;
  send = λ line sink. (err 32, sink);
  is_whitespace = λ c. false;
}

abbrev third : ClientState broken_pipe
third = record { id = 3; relayed = []; net_out_stream = [] }

abbrev a_lost_line : List (Event (client broken_pipe))
a_lost_line = push 0 (writes (alone (has_entered 4))) ∷ enter ∷ enter ∷ receive 0 ∷ finish ∷ []

abbrev client_at : Option (Sys (client broken_pipe)) → Sys (client broken_pipe)
client_at none = start (client broken_pipe) third
client_at (some s) = s

abbrev lost : Sys (client broken_pipe)
lost = client_at (run (client broken_pipe) a_lost_line (start (client broken_pipe) third))

stopped_client_leaves_example :
    (es' : List (Event (client broken_pipe))) × (t : Sys (client broken_pipe)) × (o : Outcome ℕ ℕ)
    × ((run (client broken_pipe) es' lost ≡ some t)
        × ((poll_handle (client broken_pipe) (client_hooks broken_pipe) ℕ t ≡ ready o)
            × ((server : Server one_broken)
                → (left : Server one_broken) × (client_leaves one_broken o server ≡ some left)
                  × ((contains 3 left.users ≡ false)
                      × (client_leaves one_broken o left ≡ some left)))))
unfolding run step start any_below is_running perform_net_client on_read send_out
stopped_client_leaves_example =
    stopped_client_leaves broken_pipe ℕ one_broken third a_lost_line lost refl refl
