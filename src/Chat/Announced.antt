-- ===== src/Chat/Announced.antt =====
-- What the server's methods print, and whom they remove (examples/chat.rs).
use mathlib.Core.List.{append_assoc, append-nil}
use shakespeare.Prelude.{
  ℕ, suc, ◌<◌, ◌≡◌, refl, sym, ◌∙◌, ap, true, false, Option, some, List, [], ◌∷◌, ◌++◌, map, length,
  arith,
}
use shakespeare.Core.Outcome.{Outcome}
use shakespeare.Chat.{
  Text, Line, Users, contains, remove, Net, Server, announce, line_of, broadcast, client_leaves,
  client_id_of,
}
use shakespeare.Chat.Removes.{
  Removes, done, leave, Relayed, AllGone, left, broadcast-Relayed, remove_client-Removes,
  remove_client_unlisted,
}

-- The users of the list go, one after the other, each of them while it is there.
pub data Departs : List ℕ → Users → Users → Type 0 where
  nobody : {us : Users} → Departs [] us us
  departs :
      {d : ℕ} {ds : List ℕ} {us us' : Users}
      → contains d us ≡ true
      → Departs ds (remove d us) us'
      → Departs (d ∷ ds) us us'

module _ (net : Net) where
  pub Removes-Departs :
      {ds : List ℕ} {s t : Server net} → Removes net ds s t → Departs ds s.users t.users
  unfolding announce
  Removes-Departs done = nobody
  Removes-Departs (leave is gone rest) = departs is (Removes-Departs rest)

  pub Removes-console :
      {ds : List ℕ} {s t : Server net}
      → Removes net ds s t
      → t.console ≡ s.console ++ map (left net) ds
  unfolding announce
  Removes-console {s = s} done = sym (append-nil s.console)
  Removes-console {s = s} (leave {d = d} {ds = ds} is gone rest) =
      Removes-console rest ∙ append_assoc s.console (left net d ∷ []) (map (left net) ds)

  -- What a broadcast leaves alone.
  abbrev pub Same : Server net → Server net → Type 0
  Same s t = (t.started ≡ s.started) × ((t.tasks ≡ s.tasks) × (t.id_counter ≡ s.id_counter))

  pub Removes-Same : {ds : List ℕ} {s t : Server net} → Removes net ds s t → Same s t
  unfolding announce
  Removes-Same done = (refl, (refl, refl))
  Removes-Same (leave is gone rest) = Removes-Same rest

  -- A line is printed, and then that users have left, each of whom was there and is removed; everyone
  -- the line could not be sent to is among them.
  abbrev pub Announced : Line → Server net → Server net → Type 0
  Announced line s t =
      AllGone net (announce net line s).0 t
      × ((ds : List ℕ) × ((t.console ≡ s.console ++ line ∷ map (left net) ds)
            × (Departs ds s.users t.users × Same s t)))

  pub Relayed-Announced :
      (line : Line) (s t : Server net) → Relayed net line s t → Announced line s t
  unfolding announce
  Relayed-Announced line s t (gone, (ds, removes)) = (
    gone,
    (
      ds,
      (
        Removes-console removes ∙ append_assoc s.console (line ∷ []) (map (left net) ds),
        (Removes-Departs removes, Removes-Same removes),
      ),
    ),
  )

  -- With fuel for more calls than there are users, a broadcast ends. It prints its line, behind the
  -- name of the user if there is one, and then of each user that it removes that the user has left,
  -- once. Everyone the line could not be sent to is removed, only users are, and nothing else
  -- changes but the world.
  pub broadcast-Announced :
      (fuel : ℕ) (msg : Text) (user_id : Option ℕ) (s : Server net)
      → length s.users < fuel
      → (t : Server net) × (broadcast net fuel msg user_id s ≡ some t)
        × Announced (line_of net msg user_id) s t
  broadcast-Announced fuel msg user_id s few =
      let (t, ran, relayed) = broadcast-Relayed net fuel msg user_id s few in
      (t, ran, Relayed-Announced (line_of net msg user_id) s t relayed)

  -- When a client is reported to have left, by its exit or by a panic, it is no user afterwards, whether
  -- it was one before or not, and a second report of it changes nothing.
  pub client_leaves_once :
      (outcome again : Outcome ℕ ℕ) (s : Server net)
      → client_id_of net again ≡ client_id_of net outcome
      → (t : Server net) × (client_leaves net outcome s ≡ some t)
        × ((contains (client_id_of net outcome) t.users ≡ false)
            × (client_leaves net again t ≡ some t))
  unfolding client_leaves
  client_leaves_once outcome again s same =
      let fuel = suc (length s.users) in
      let (t, ran, (gone, removed)) =
        remove_client-Removes net fuel (broadcast net fuel) (broadcast-Relayed net fuel)
          (client_id_of net outcome) s (omega arith) in
      (
        t,
        ran,
        (
          gone,
          remove_client_unlisted net (suc (length t.users)) (broadcast net (suc (length t.users)))
              (broadcast-Relayed net (suc (length t.users))) (client_id_of net again) t
              (ap (λ i. contains i t.users) same ∙ gone),
        ),
      )
