-- ===== src/Chat/Client.antt =====
-- The client of examples/chat.rs: its methods, its hooks, and its end.
pub mod Leaves
use Prim.Native.Char.{Char}
use shakespeare.Prelude.{
  ℕ, ◌&&◌, Bool, true, false, List, [], ◌∷◌, ◌++◌, String, Result, ok, err, if◌then◌else◌,
}
use shakespeare.EventLoop.{Actor, Verb, nothing, stops}
use shakespeare.EventLoop.TaskResult.{Hooks}
use shakespeare.Chat.{Line}
use shakespeare.Chat.Trim.{trim}

-- The socket's sink, with the codec's errors that the client tells apart; and Unicode's property
-- White_Space.
pub record Codec : Type 1 where
  pub Sink : Type 0
  pub IoError : Type 0
  pub send : Line → Sink → Result IoError (Unit {0}) × Sink
  pub is_whitespace : Char → Bool

-- A line as the codec gives it: `Result<String, LinesCodecError>`.
pub data Decoded : Type 0 where
  line : String → Decoded
  max_line_length_exceeded : Decoded
  io : Decoded

module _ (codec : Codec) where
  open codec use {Sink, IoError, is_whitespace}

  -- `ClientState`; of the relay the messages that it was sent.
  pub record ClientState : Type 0 where
    pub id : ℕ
    pub relayed : List (ℕ × String)
    pub net_out_stream : Sink

  -- A panic by `unreachable!`.
  pub data Unreachable : Type 0 where
    unreachable : Unreachable

  unfoldable pub on_read :
      Decoded → ClientState → Result (ClientState × Unreachable) (ClientState × Verb)
  unfolding trim
  on_read (line msg) s =
      ok (record s { relayed = s.relayed ++ (s.id, trim is_whitespace msg) ∷ [] }, nothing)
  on_read max_line_length_exceeded s = err (s, unreachable)
  on_read io s = ok (s, stops)

  unfoldable pub is_err : Result IoError (Unit {0}) → Bool
  is_err (ok u) = false
  is_err (err e) = true

  -- What the caller gets, and the state and what becomes of the context.
  unfoldable pub send_out : Line → ClientState → Result IoError (Unit {0}) × (ClientState × Verb)
  unfolding is_err
  send_out msg s =
      let (result, sink) = codec.send msg s.net_out_stream in
      (result, (record s { net_out_stream = sink }, if is_err result then stops else nothing))

  -- The messages of the role `NetClient`.
  pub data NetClient : Type 0 where
    reads : Decoded → NetClient
    writes : Line → NetClient

  unfoldable pub perform_net_client :
      NetClient → ClientState → Result (ClientState × Unreachable) (ClientState × Verb)
  unfolding on_read send_out
  perform_net_client (reads val) s = on_read val s
  perform_net_client (writes msg) s = ok (send_out msg s).1

  unfoldable pub stop : ClientState → ℕ
  stop s = s.id

  unfoldable pub catch : ClientState → Unreachable → ℕ
  catch s _ = s.id

  abbrev pub client : Actor
  client = record {
    State = ClientState;
    Msg = NetClient;
    Panic = Unreachable;
    performances = 1;
    perform = λ i s c msg. perform_net_client msg s;
  }

  abbrev pub client_hooks : Hooks client
  client_hooks = record {
    ExitType = ℕ;
    PanicType = ℕ;
    run_exit_handler = stop;
    run_panic_handler = catch;
  }
