-- ===== src/Tests/Clients.antt =====
-- A chat room of three clients in their event loops, of which the second one's socket is broken.
use shakespeare.Prelude.{
  String, ℕ, ◌+◌, ◌<◌, ◌≡◌, refl, Bool, true, false, some, List, [], ◌∷◌, ◌++◌, Result, ok, err,
  ◌==◌, if◌then◌else◌, inl, length,
}
use shakespeare.Core.Context.{is_running, stop}
use shakespeare.Core.Outcome.{exit}
use shakespeare.EventLoop.{start}
use shakespeare.Chat.{Line, Users, Server, Call, a_line, an_exit, a_socket, serve}
use shakespeare.Chat.Client.{Codec, Decoded, line, io, client}
use shakespeare.Chat.Told.{IsUser}
use shakespeare.Chat.Network.{Resting, read_all}
use shakespeare.Tests.Samples.{three_users, three_users-Inv}
use shakespeare.Chat.Network.Room.{Written, clients, on_sockets, lines_out, room_told}

-- A sink that is broken, or holds the lines that have gone out.
abbrev Sink : Type 0
Sink = Bool × List Line

abbrev put : Bool → Line → List Line → Result ℕ (Unit {0}) × Sink
put true msg out = (err 32, (true, out))
put false msg out = (ok tt, (false, out ++ msg ∷ []))

abbrev pipe : Codec
pipe = record {
  Sink = Sink;
  IoError = ℕ;
  send = λ msg sink. put sink.0 msg sink.1;
  is_whitespace = λ c. false;
}

put-sent :
    (b : Bool) (msg : Line) (out : List Line)
    → (put b msg out).0 ≡ ok tt
    → (put b msg out).1.1 ≡ out ++ msg ∷ []
put-sent false msg out e = refl
put-sent true msg out e = absurd (cc e)

abbrev lines : Written pipe
lines = record {
  written = λ sink. sink.1;
  written-sent = λ msg sink e. put-sent sink.0 msg sink.1 e;
}

-- What the sockets bring: the third client's has two lines before the first call, and fails then.
abbrev brings : ℕ → List (List Decoded)
brings h = if h == 2 then (line "hi" ∷ line "there" ∷ io ∷ []) ∷ [] else []

abbrev at_start : ℕ → Resting pipe × List (List Decoded)
unfolding start
at_start h = (
  (
    start (client pipe) (record { id = h + 1; relayed = []; net_out_stream = (h == 1, []) }),
    inl (refl, refl),
  ),
  brings h,
)

abbrev same_order : Users → Users
same_order us = us

abbrev room : Server (clients pipe lines ℕ same_order (λ i a us. refl))
room = record {
  users = three_users;
  console = [];
  id_counter = 4;
  started = 1 ∷ 2 ∷ 3 ∷ [];
  tasks = [];
  world = at_start;
}

abbrev evening : List (Call (clients pipe lines ℕ same_order (λ i a us. refl)))
evening = a_socket 0 ∷ a_line 1 "hello" ∷ an_exit (exit 3) ∷ a_line 1 "bye" ∷ []

-- The third client hands its two lines on, and is gone when the server calls it: the broken socket of
-- the second one has ended that client too.
abbrev third_read : List (ℕ × String)
third_read = (read_all pipe (line "hi" ∷ line "there" ∷ io ∷ []) (at_start 2).0).0.state.relayed

third_relays : third_read ≡ (3, "hi") ∷ (3, "there") ∷ []
unfolding read_all start is_running stop
third_relays = refl

room_told_example :
    (t : Server (clients pipe lines ℕ same_order (λ i a us. refl))) × (serve
        (clients pipe lines ℕ same_order (λ i a us. refl))
        evening
        room
      ≡ some t)
    × ((ls : List Line) × ((t.console ≡ room.console ++ ls)
          × ((i h : ℕ)
              → h < length room.started
              → IsUser
                  (clients pipe lines ℕ same_order (λ i a us. refl))
                  (on_sockets pipe lines ℕ same_order (λ i a us. refl))
                  i
                  h
                  t
              → lines_out pipe lines ℕ same_order (λ i a us. refl) (t.world h)
                ≡ lines_out pipe lines ℕ same_order (λ i a us. refl) (room.world h) ++ ls)))
room_told_example = room_told pipe lines ℕ same_order (λ i a us. refl) evening room three_users-Inv
