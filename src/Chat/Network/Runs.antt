-- ===== src/Chat/Network/Runs.antt =====
-- What a client of examples/chat.rs does between and at the server's calls is a run of its event loop.
use shakespeare.Prelude.{refl, List, [], ◌∷◌, inl, inr}
use shakespeare.EventLoop.{Sys, run}
use shakespeare.EventLoop.Handles.Runs.{IsRun, IsRun-trans}
use shakespeare.Chat.{Line}
use shakespeare.Chat.Client.{Codec, Decoded, reads, writes, perform_net_client, client}
use shakespeare.Chat.Network.{
  Resting, Handled, Left, call, rests, handled, handled-Left, run-handled, rests-run, read,
  read_all, answer,
}

module _ (codec : Codec) where
  rests-IsRun :
      (r : Handled codec) (s t : Sys (client codec)) (left : Left codec r t)
      → IsRun (client codec) s t
      → IsRun (client codec) s (rests codec r t left).0
  rests-IsRun r s t left ran =
      IsRun-trans (client codec) s t (rests codec r t left).0 ran (rests-run codec r t left)

  read-IsRun : (d : Decoded) (c : Resting codec) → IsRun (client codec) c.0 (read codec d c).0
  unfolding read run
  read-IsRun d (s, inl idle) =
      rests-IsRun (perform_net_client codec (reads d) s.state) s (handled codec (reads d) s)
        (handled-Left codec (reads d) s) (call codec (reads d), run-handled codec (reads d) s idle)
  read-IsRun d (s, inr over) = ([], refl)

  -- The lines that a client reads.
  pub read_all-IsRun :
      (ds : List Decoded) (c : Resting codec) → IsRun (client codec) c.0 (read_all codec ds c).0
  unfolding read_all run
  read_all-IsRun [] c = ([], refl)
  read_all-IsRun (d ∷ ds) c =
      IsRun-trans (client codec) c.0 (read codec d c).0 _ (read-IsRun d c)
        (read_all-IsRun ds (read codec d c))

  -- A call of the server's.
  pub answer-IsRun :
      (line : Line) (c : Resting codec) → IsRun (client codec) c.0 (answer codec line c).1.0
  unfolding answer run
  answer-IsRun line (s, inl idle) =
      rests-IsRun (perform_net_client codec (writes line) s.state) s (handled codec (writes line) s)
        (handled-Left codec (writes line) s)
        (call codec (writes line), run-handled codec (writes line) s idle)
  answer-IsRun line (s, inr over) = ([], refl)
