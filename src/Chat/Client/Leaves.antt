-- ===== src/Chat/Client/Leaves.antt =====
-- From a client that stops to the server without it (examples/chat.rs).
use shakespeare.Prelude.{ℕ, ◌≡◌, refl, sym, ◌∙◌, ap, subst, false, none, some, List, [], ◌∷◌}
use shakespeare.Futures.{Poll, ready}
use shakespeare.Core.Outcome.{Outcome}
use shakespeare.EventLoop.{
  Phase, checking, done, selecting, handling, exited, panicked, Sys, Event, start, run,
}
use shakespeare.EventLoop.Serial.{Handled, serial, state_after, log, run-Follows}
use shakespeare.EventLoop.TaskResult.{
  poll_handle, poll_handle-eq-expected, expected, stopped_yields_outcome,
}
use shakespeare.Chat.{Net, Server, contains, client_leaves, client_id_of}
use shakespeare.Chat.Announced.{client_leaves_once}
use shakespeare.Chat.Client.{
  Codec, line, max_line_length_exceeded, io, ClientState, Unreachable, NetClient, reads, writes,
  on_read, send_out, perform_net_client, stop, catch, client, client_hooks,
}

module _ (codec : Codec) where
  -- No method changes the client's number.
  perform-id :
      (msg : NetClient codec) (s : ClientState codec)
      → (state_after (client codec) (perform_net_client codec msg s) s).id ≡ s.id
  unfolding perform_net_client on_read send_out
  perform-id (reads (line msg)) s = refl
  perform-id (reads max_line_length_exceeded) s = refl
  perform-id (reads io) s = refl
  perform-id (writes msg) s = refl

  serial-id :
      (hs : List (Handled (client codec))) (s : ClientState codec)
      → (serial (client codec) hs s).id ≡ s.id
  serial-id [] s = refl
  serial-id (h ∷ hs) s = serial-id hs _ ∙ perform-id h.msg s

  run-id :
      (es : List (Event (client codec))) (s t : Sys (client codec))
      → run (client codec) es s ≡ some t
      → t.state.id ≡ s.state.id
  run-id es s t ran =
      ap (λ (st : ClientState codec). st.id) (run-Follows (client codec) es s t ran).0
      ∙ serial-id (log (client codec) es s) s.state

  module _ (JoinError : Type 0) where
    abbrev YieldsId : Net → ℕ → Poll (Outcome ℕ ℕ) → Type 0
    YieldsId net id (ready o) = client_id_of net o ≡ id
    YieldsId net id _ = Unit

    expected-id :
        (net : Net) (p : Phase (NetClient codec) (Unreachable codec)) (s : ClientState codec)
        (o : Outcome ℕ ℕ)
        → expected (client codec) (client_hooks codec) JoinError p s ≡ ready o
        → client_id_of net o ≡ s.id
    unfolding stop catch
    expected-id net (done none) s o e = subst (YieldsId net s.id) e refl
    expected-id net (done (some x)) s o e = subst (YieldsId net s.id) e refl
    expected-id net exited s o e = absurd (cc)
    expected-id net (panicked x) s o e = absurd (cc)
    expected-id net (checking k g) s o e = absurd (cc)
    expected-id net (selecting g t) s o e = absurd (cc)
    expected-id net (handling i m) s o e = absurd (cc)

    -- A client that has been stopped, in any history, comes by its loop's steps and the passing of
    -- time alone to its end. What its exit handle then yields, when the server is told of it, leaves
    -- the server without the client, whatever the server's state, and a second report changes nothing.
    pub stopped_client_leaves :
        (net : Net) (state : ClientState codec) (es : List (Event (client codec)))
        (s : Sys (client codec))
        → run (client codec) es (start (client codec) state) ≡ some s
        → s.context.running ≡ false
        → (es' : List (Event (client codec))) × (t : Sys (client codec)) × (o : Outcome ℕ ℕ) × ((run
                (client codec)
                es'
                s
              ≡ some t)
            × ((poll_handle (client codec) (client_hooks codec) JoinError t ≡ ready o)
                × ((server : Server net)
                    → (left : Server net) × (client_leaves net o server ≡ some left)
                      × ((contains state.id left.users ≡ false)
                          × (client_leaves net o left ≡ some left)))))
    unfolding start
    stopped_client_leaves net state es s ran off =
        let (es', t, o, reached, own, is) =
          stopped_yields_outcome (client codec) (client_hooks codec) JoinError state es s ran off in
        let id : client_id_of net o ≡ state.id =
          expected-id net t.phase t.state o
            (sym (poll_handle-eq-expected (client codec) (client_hooks codec) JoinError t) ∙ is)
          ∙ (run-id es' s t reached ∙ run-id es (start (client codec) state) s ran) in
        (
          es',
          t,
          o,
          (
            reached,
            (
              is,
              λ server.
                  subst
                    (λ i.
                      (left : Server net) × (client_leaves net o server ≡ some left)
                      × ((contains i left.users ≡ false) × (client_leaves net o left ≡ some left)))
                    id (client_leaves_once net o o server refl),
            ),
          ),
        )
