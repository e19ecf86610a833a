-- ===== src/Chat/Startup.antt =====
-- `main` of examples/chat.rs: the accepted connections are fed to the server.
use mathlib.Core.List.{map-map}
use shakespeare.Prelude.{
  ◌≡◌, refl, sym, ◌∙◌, ap, true, some, List, [], ◌∷◌, ◌++◌, map, Result, ok, err,
}
use shakespeare.Core.Role.{Roles, Accepts, Addr, Runtime}
use shakespeare.Sendable.{feed}
use shakespeare.Sendable.Delivers.{discarding, feed-open}
use shakespeare.Chat.{Net, Server, Call, a_socket, serve, default_server}
use shakespeare.Chat.Connected.{Starts, serve-Starts}

-- `filter_map(|r| async { r.ok() })`
unfoldable pub client_stream :
    {IoError Socket : Type 0} → List (Result IoError Socket) → List Socket
client_stream [] = []
client_stream (ok tcp_client ∷ accepted) = tcp_client ∷ client_stream accepted
client_stream (err e ∷ accepted) = client_stream accepted

-- The server's roles; of their payloads the model has the calls that they stand for.
pub data ServerRole : Type 0 where
  room_server net_listener : ServerRole

module _ (net : Net) where
  abbrev pub server_roles : Roles
  server_roles = record { Role = ServerRole; Payload = λ r. Call net; Return = λ r. Unit {0} }

  abbrev pub accepts_socket : Accepts server_roles net_listener net.Socket
  accepts_socket = record { into_payload = a_socket }

  module _ (rt : Runtime server_roles) {IoError : Type 0} where
    open rt use {World, is_open, delivered}

    -- `client_stream.feed_to(message_handle as Arc<dyn NetListener>)`, run to its end.
    unfoldable pub main : Addr → List (Result IoError net.Socket) → World → World × List net.Socket
    unfolding client_stream feed
    main server accepted w =
        feed server_roles rt net_listener accepts_socket server (client_stream accepted) w

    -- A call of `listen` for each connection.
    abbrev pub connections : List (Result IoError net.Socket) → List (Call net)
    connections accepted = map (λ (s : net.Socket). a_socket s) (client_stream accepted)

    -- While the server receives, each connection that was accepted without an error becomes one message
    -- of the server, in order. Served from the empty room, these messages start one client each, with
    -- the connection's socket, in the same order.
    pub main-Starts :
        (server : Addr) (accepted : List (Result IoError net.Socket)) (w : World) (v : net.World)
        → is_open w net_listener server ≡ true
        → let calls = connections accepted in
          (delivered (main server accepted w).0
            ≡ delivered w ++ map (λ c. discarding server_roles rt net_listener server c) calls)
          × ((main server accepted w).1 ≡ [])
          × (t : Server net) × (serve net calls (default_server net v) ≡ some t)
          × Starts net calls (default_server net v) t
    unfolding main default_server
    main-Starts server accepted w v open_ =
        let calls = connections accepted in
        let (all, read) =
          feed-open server_roles rt net_listener accepts_socket server (client_stream accepted) w
            open_ in
        let (t, ran, starts) = serve-Starts net calls (default_server net v) refl in
        (
          all ∙ ap (λ l. delivered w ++ l) (sym (map-map _ _ (client_stream accepted))),
          read,
          t,
          ran,
          starts,
        )
