-- ===== src/Chat.antt =====
-- The chat room of examples/chat.rs: the server's state and its methods. Of the formatted strings the
-- model keeps what they are made of.
pub mod Users
pub mod Removes
pub mod Announced
pub mod Delivered
pub mod Invariant
pub mod Told
pub mod Connected
pub mod Startup
pub mod Network
pub mod Trim
pub mod Client
use shakespeare.Prelude.{
  ◌≡◌, ℕ, zero, suc, ◌+◌, ◌&&◌, ◌||◌, Bool, true, false, Option, none, some, List, [], ◌∷◌, ◌++◌,
  String, Result, ok, err, if◌then◌else◌, ◌==◌, length,
}
use Prim.Native.Nat.{◌%◌, ◌^◌}
use shakespeare.Core.Outcome.{Outcome, exit, panic}

-- The strings that the server passes on: what a client wrote, and its own announcements.
pub data Text : Type 0 where
  wrote : String → Text
  has_entered : ℕ → Text
  has_left : ℕ → Text

-- A line as it is printed and sent, `{id:>03}: {msg}` or the text alone.
pub data Line : Type 0 where
  from : ℕ → Text → Line
  alone : Text → Line

-- The `HashMap` from a client's number to the handle of its actor. A handle is the number of the
-- client in the order in which they were started.
abbrev pub Users : Type 0
Users = List (ℕ × ℕ)

unfoldable pub contains : ℕ → Users → Bool
contains i [] = false
contains i ((j, a) ∷ us) = i == j || contains i us

unfoldable pub remove : ℕ → Users → Users
remove i [] = []
remove i ((j, a) ∷ us) = if i == j then remove i us else (j, a) ∷ remove i us

unfoldable pub insert : ℕ → ℕ → Users → Users
insert i a us = (i, a) ∷ remove i us

-- How often an entry stands in the map.
unfoldable pub count : ℕ → ℕ → Users → ℕ
count i a [] = 0
count i a ((j, b) ∷ us) = (if i == j && a == b then 1 else 0) + count i a us

-- A call of `send_out` from outside: the message is sent to the client's actor, which may be gone,
-- and its answer awaited, which the socket and the actor's task decide.
pub record Net : Type 1 where
  pub World : Type 0
  pub SendError : Type 0
  pub LinesCodecError : Type 0
  pub Socket : Type 0
  pub send_out : ℕ → Line → World → Result SendError (Result LinesCodecError (Unit {0})) × World
  -- The order of an iteration over a map, which Rust leaves open.
  pub visit : Users → Users
  pub visit_count : (i a : ℕ) (us : Users) → count i a (visit us) ≡ count i a us

module _ (net : Net) where
  open net use {World, SendError, LinesCodecError, Socket, visit}

  -- What `Client::new` sets going: the lines of a socket are fed to a client, and its exit to the
  -- relay.
  pub data Task : Type 0 where
    feed : Socket → ℕ → Task
    on_exit : ℕ → Task

  -- `ServerState`, with the console, the counter of ids, the clients that were started (by their
  -- ids) with their tasks, and the world.
  pub record Server : Type 0 where
    pub users : Users
    pub console : List Line
    pub id_counter : ℕ
    pub started : List ℕ
    pub tasks : List Task
    pub world : World

  unfoldable pub default_server : World → Server
  default_server w = record {
    users = [];
    console = [];
    id_counter = 1;
    started = [];
    tasks = [];
    world = w;
  }

  unfoldable pub is_sent : Result SendError (Result LinesCodecError (Unit {0})) → Bool
  is_sent (ok (ok u)) = true
  is_sent (ok (err e)) = false
  is_sent (err e) = false

  -- The loop over the users: the numbers of those that could not be sent to.
  unfoldable pub send_all : Line → Users → World → List ℕ × World
  unfolding is_sent
  send_all line [] w = ([], w)
  send_all line ((id, user) ∷ us) w =
      let (msg_success, sent) = net.send_out user line w in
      let (dead, w') = send_all line us sent in
      (if is_sent msg_success then dead else id ∷ dead, w')

  abbrev pub line_of : Text → Option ℕ → Line
  line_of msg none = alone msg
  line_of msg (some id) = from id msg

  abbrev pub Broadcast : Type 0
  Broadcast = Text → Option ℕ → Server → Option Server

  unfoldable pub remove_client : Broadcast → ℕ → Server → Option Server
  remove_client again client_id s = elim (contains client_id s.users) [
    | true ↦ again (has_left client_id) none (record s { users = remove client_id s.users })
    | false ↦ some s
  ]

  abbrev pub on_some : (Server → Option Server) → Option Server → Option Server
  on_some f none = none
  on_some f (some s) = f s

  unfoldable pub remove_all : Broadcast → List ℕ → Server → Option Server
  unfolding remove_client
  remove_all again [] s = some s
  remove_all again (dead ∷ rest) s = on_some (remove_all again rest) (remove_client again dead s)

  -- What a broadcast does before it removes the dead clients.
  unfoldable pub announce : Line → Server → List ℕ × Server
  unfolding send_all
  announce line s =
      let (dead, w) = send_all line (visit s.users) s.world in
      (dead, record s { console = s.console ++ line ∷ []; world = w })

  -- `ServerState::broadcast`, on fuel for the depth of the calls by `remove_client`.
  unfoldable pub broadcast : ℕ → Broadcast
  unfolding remove_all announce
  broadcast zero msg user_id s = none
  broadcast (suc fuel) msg user_id s =
      let (dead, told) = announce (line_of msg user_id) s in remove_all (broadcast fuel) dead told

  -- The performances of the server; a broadcast among n users goes at most n calls deep.
  unfoldable pub send_msg : ℕ → String → Server → Option Server
  unfolding broadcast
  send_msg sender_id msg s = broadcast (suc (length s.users)) (wrote msg) (some sender_id) s

  abbrev pub client_id_of : Outcome ℕ ℕ → ℕ
  client_id_of (exit id) = id
  client_id_of (panic id) = id

  unfoldable pub client_leaves : Outcome ℕ ℕ → Server → Option Server
  unfolding broadcast remove_client
  client_leaves outcome s =
      remove_client (broadcast (suc (length s.users))) (client_id_of outcome) s

  -- `Client::new`
  unfoldable pub new_client : Socket → ℕ → Server → ℕ × Server
  new_client socket id s =
      let handle = length s.started in
      (
        handle,
        record s {
          started = s.started ++ id ∷ [];
          tasks = s.tasks ++ feed socket handle ∷ on_exit handle ∷ [];
        },
      )

  -- `usize` has 64 bits, and `fetch_add` wraps.
  unfoldable pub listen : Socket → Server → Option Server
  unfolding broadcast new_client insert
  listen tcp_client s =
      let id = s.id_counter in
      let (actor, s') = new_client tcp_client id (record s { id_counter = (id + 1) % 2 ^ 64 }) in
      let users = insert id actor s'.users in
      broadcast (suc (length users)) (has_entered id) none (record s' { users = users })

  -- The messages of the server's two roles.
  pub data Call : Type 0 where
    a_line : ℕ → String → Call
    an_exit : Outcome ℕ ℕ → Call
    a_socket : Socket → Call

  unfoldable pub perform : Call → Server → Option Server
  unfolding send_msg client_leaves listen
  perform (a_line sender_id msg) s = send_msg sender_id msg s
  perform (an_exit outcome) s = client_leaves outcome s
  perform (a_socket tcp_client) s = listen tcp_client s

  unfoldable pub serve : List Call → Server → Option Server
  unfolding perform
  serve [] s = some s
  serve (c ∷ cs) s = on_some (serve cs) (perform c s)
