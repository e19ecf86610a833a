-- ===== src/Chat/Network/Room.antt =====
-- The chat room of examples/chat.rs with its clients' actors and their sockets.
use shakespeare.Prelude.{
  ℕ, ◌<◌, ◌≡◌, refl, ◌∙◌, ap, true, false, some, List, [], ◌∷◌, ◌++◌, Result, ok, err, ◌==◌, arith,
  inl, inr, length,
}
use shakespeare.Core.Context.{is_running}
use shakespeare.EventLoop.{update}
use shakespeare.Chat.{Line, Users, count, Net, Server, Call, serve}
use shakespeare.Chat.Client.{Codec, ClientState, Decoded, writes, send_out}
use shakespeare.Chat.Delivered.{Reception}
use shakespeare.Chat.Told.{ServerInv, IsUser, serve-Told}
use shakespeare.Chat.Network.{
  Resting, Gone, answer, read_all, settled-state, handled, handled-Left, read_all-sink,
}

-- The lines that have gone out on a socket: a send that succeeds adds its line.
pub record Written (codec : Codec) : Type 0 where
  pub written : codec.Sink → List Line
  pub written-sent :
      (line : Line) (sink : codec.Sink)
      → (codec.send line sink).0 ≡ ok tt
      → written (codec.send line sink).1 ≡ written sink ++ line ∷ []

module _ (codec : Codec) (sockets : Written codec) (Socket : Type 0) (visit : Users → Users)
    (visit_count : (i a : ℕ) (us : Users) → count i a (visit us) ≡ count i a us) where
  open sockets use {written}

  -- A client, and what its socket brings: the lines before the next call of the server, then those
  -- before the one after, and so on.
  abbrev pub Connected : Type 0
  Connected = Resting codec × List (List Decoded)

  abbrev pub next_lines : List (List Decoded) → List Decoded × List (List Decoded)
  next_lines [] = ([], [])
  next_lines (ds ∷ batches) = (ds, batches)

  -- A call of `send_out`, behind what the client reads before.
  unfoldable pub call_out :
      Line → Connected → Result (Gone codec) (Result codec.IoError (Unit {0})) × Connected
  unfolding answer read_all
  call_out msg (c, batches) =
      let (ds, later) = next_lines batches in
      let (r, c') = answer codec msg (read_all codec ds c) in (r, (c', later))

  -- The clients by their handles, those that are started later included.
  abbrev pub clients : Net
  clients = record {
    World = ℕ → Connected;
    SendError = Gone codec;
    LinesCodecError = codec.IoError;
    Socket = Socket;
    send_out = λ h line w. let (r, c) = call_out line (w h) in (r, update w h c);
    visit = visit;
    visit_count = visit_count;
  }

  abbrev pub lines_of : Resting codec → List Line
  lines_of c = written c.0.state.net_out_stream

  abbrev pub lines_out : Connected → List Line
  lines_out c = lines_of c.0

  abbrev inner :
      Result (Gone codec) (Result codec.IoError (Unit {0})) → Result codec.IoError (Unit {0})
  inner (ok r) = r
  inner (err g) = ok tt

  answer-sent :
      (line : Line) (c : Resting codec)
      → (answer codec line c).0 ≡ ok (ok tt)
      → lines_of (answer codec line c).1 ≡ lines_of c ++ line ∷ []
  unfolding answer send_out
  answer-sent line (s, inl idle) e =
      let t = handled codec (writes line) s in
      let (idle', state) = handled-Left codec (writes line) s in
      ap (λ (st : ClientState codec). written st.net_out_stream)
        (settled-state codec (is_running t.context) t idle' ∙ state)
      ∙ sockets.written-sent line s.state.net_out_stream (ap inner e)
  answer-sent line (s, inr over) e = absurd (cc e)

  call_out-sent :
      (line : Line) (c : Connected)
      → (call_out line c).0 ≡ ok (ok tt)
      → lines_out (call_out line c).1 ≡ lines_out c ++ line ∷ []
  unfolding call_out
  call_out-sent line (c, batches) e =
      answer-sent line (read_all codec (next_lines batches).0 c) e
      ∙ ap (λ sink. written sink ++ line ∷ []) (read_all-sink codec (next_lines batches).0 c)

  pub update_own : (w : ℕ → Connected) (h : ℕ) (c : Connected) → update w h c h ≡ c
  update_own w h c = let same : (h == h) ≡ true = ground arith in rw same refl

  pub lines_out-own :
      (h : ℕ) (line : Line) (w : ℕ → Connected)
      → (call_out line (w h)).0 ≡ ok (ok tt)
      → lines_out (update w h (call_out line (w h)).1 h) ≡ lines_out (w h) ++ line ∷ []
  lines_out-own h line w e =
      ap lines_out (update_own w h (call_out line (w h)).1) ∙ call_out-sent line (w h) e

  pub lines_out-other :
      (h k : ℕ) (w : ℕ → Connected) (c : Connected)
      → (k == h) ≡ false
      → lines_out (update w h c k) ≡ lines_out (w k)
  lines_out-other h k w c other = let e : (h == k) ≡ false = ground arith in rw e refl

  abbrev pub on_sockets : Reception clients
  on_sockets = record {
    received = λ w h. lines_out (w h);
    received-sent = λ h line w e. lines_out-own h line w e;
    received-other = λ h k line w other. lines_out-other h k w (call_out line (w h)).1 other;
  }

  -- The room with its clients, where the server's calls find each client's loop between two messages
  -- or at its end, each has read any lines of its socket in between, or has failed to, and the codec
  -- sends each line whole or fails: any sequence of the server's messages is served to the end, from a
  -- server in which each user's handle is that of the client started with the user's number. It prints
  -- some lines, and for whoever is a user at the end and had been started before, exactly these lines
  -- have gone out on its socket, in their order.
  pub room_told :
      (cs : List (Call clients)) (s : Server clients)
      → ServerInv clients on_sockets s
      → (t : Server clients) × (serve clients cs s ≡ some t)
        × ((lines : List Line) × ((t.console ≡ s.console ++ lines)
              × ((i h : ℕ)
                  → h < length s.started
                  → IsUser clients on_sockets i h t
                  → lines_out (t.world h) ≡ lines_out (s.world h) ++ lines)))
  room_told cs s inv =
      let (t, ran, (told, inv')) = serve-Told clients on_sockets cs s inv in
      (t, ran, (told.lines, (told.printed, told.got)))
