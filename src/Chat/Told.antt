-- ===== src/Chat/Told.antt =====
-- What the users of the chat room are told, over any sequence of the server's messages
-- (examples/chat.rs).
use mathlib.Core.List.{append_assoc, append-nil}
use Prim.Native.Nat.{◌%◌, ◌^◌}
use shakespeare.Prelude.{
  ℕ, suc, ◌+◌, ◌≤◌, ◌<◌, ◌≡◌, refl, sym, ◌∙◌, ap, none, some, List, [], ◌∷◌, ◌++◌, map, arith,
  Bool-cases, inl, inr, length, length-append,
}
use shakespeare.Chat.{
  wrote, has_entered, has_left, Line, Users, contains, remove, insert, count, Net, Server, Call,
  a_line, an_exit, a_socket, announce, broadcast, new_client, send_msg, client_leaves, client_id_of,
  listen, perform, serve, on_some,
}
use shakespeare.Chat.Users.{count-remove, count_contained, length-remove_contained}
use shakespeare.Chat.Removes.{
  Removes, done, leave, left, without, Relayed, broadcast-Relayed, remove_client_listed,
  remove_client_unlisted,
}
use shakespeare.Chat.Announced.{Removes-Same, Removes-console}
use shakespeare.Chat.Invariant.{Inv, Inv-Only, Inv-remove, Inv-insert}
use shakespeare.Chat.Delivered.{Reception, Removes-received, announce-Only}

module _ (net : Net) (reception : Reception net) where
  open reception use {received}

  abbrev pub IsUser : ℕ → ℕ → Server net → Type 0
  IsUser i h s = 1 ≤ count i h s.users

  abbrev pub ServerInv : Server net → Type 0
  ServerInv s = Inv s.started s.users

  Removes-Inv : {ds : List ℕ} {s t : Server net} → Removes net ds s t → ServerInv s → ServerInv t
  unfolding announce
  Removes-Inv done inv = inv
  Removes-Inv {s = s} (leave {d = d} is gone rest) inv =
      Removes-Inv rest (Inv-remove s.started s.users d inv)

  IsUser-without : (i h d : ℕ) (us : Users) → 1 ≤ count i h (remove d us) → 1 ≤ count i h us
  IsUser-without i h d us is = ground (arith, count-remove i h d us)

  IsUser-Removes :
      {ds : List ℕ} {s t : Server net} (i h : ℕ) → Removes net ds s t → IsUser i h t → IsUser i h s
  unfolding announce
  IsUser-Removes i h done is = is
  IsUser-Removes {s = s} i h (leave {d = d} listed gone rest) is =
      IsUser-without i h d s.users (IsUser-Removes i h rest is)

  -- What a method does from s to t: some lines are printed, and whoever is a user at the end and had
  -- been started before was one all along and has received these lines, in their order.
  pub record Told (s t : Server net) : Type 0 where
    pub lines : List Line
    pub printed : t.console ≡ s.console ++ lines
    pub more : length s.started ≤ length t.started
    pub stayed : (i h : ℕ) → h < length s.started → IsUser i h t → IsUser i h s
    pub got :
        (i h : ℕ)
        → h < length s.started
        → IsUser i h t
        → received t.world h ≡ received s.world h ++ lines

  Told-trans : {s t u : Server net} → Told s t → Told t u → Told s u
  Told-trans {s} {t} {u} p q = record {
    lines = p.lines ++ q.lines;
    printed =
        q.printed
        ∙ (ap (λ (ls : List Line). ls ++ q.lines) p.printed
            ∙ append_assoc s.console p.lines q.lines);
    more = omega (arith, p.more, q.more);
    stayed = λ i h old is. p.stayed i h old (q.stayed i h (omega (arith, p.more, old)) is);
    got = λ i h old is.
        let old' : h < length t.started = omega (arith, p.more, old) in
        q.got i h old' is
        ∙ (ap (λ (ls : List Line). ls ++ q.lines) (p.got i h old (q.stayed i h old' is))
            ∙ append_assoc (received s.world h) p.lines q.lines);
  }

  -- A broadcast tells its line, and each removal, all that stay.
  Relayed-got :
      (line : Line) (s t : Server net)
      → ServerInv s
      → (relayed : Relayed net line s t) → (i h : ℕ) → IsUser i h t
      → received t.world h ≡ received s.world h ++ line ∷ map (left net) relayed.1.0
  unfolding announce
  Relayed-got line s t inv (gone, (ds, removes)) i h is =
      let stays = count_contained i h t.users is in
      let only = Inv-Only s.started s.users i h inv (IsUser-Removes i h removes is) in
      Removes-received net reception i h removes only stays
      ∙ (ap (λ (ls : List Line). ls ++ map (left net) ds)
            (announce-Only net reception i h line s t only stays gone)
          ∙ append_assoc (received s.world h) (line ∷ []) (map (left net) ds))

  Relayed-printed :
      (line : Line) (s t : Server net) (relayed : Relayed net line s t)
      → t.console ≡ s.console ++ line ∷ map (left net) relayed.1.0
  unfolding announce
  Relayed-printed line s t (gone, (ds, removes)) =
      Removes-console net removes ∙ append_assoc s.console (line ∷ []) (map (left net) ds)

  -- Of a method that relays a line after it has changed the map of the users.
  Relayed-Told :
      (line : Line) (s s' t : Server net)
      → ServerInv s'
      → s'.console ≡ s.console
      → s'.world ≡ s.world
      → length s.started ≤ length s'.started
      → ((i h : ℕ) → h < length s.started → IsUser i h s' → IsUser i h s)
      → Relayed net line s' t
      → Told s t × ServerInv t
  unfolding announce
  Relayed-Told line s s' t inv console world more stayed relayed = (
    record {
      lines = line ∷ map (left net) relayed.1.0;
      printed =
          Relayed-printed line s' t relayed
          ∙ ap (λ (ls : List Line). ls ++ line ∷ map (left net) relayed.1.0) console;
      more = omega (arith, more, ap length (Removes-Same net relayed.1.1).0);
      stayed = λ i h old is. stayed i h old (IsUser-Removes i h relayed.1.1 is);
      got = λ i h old is.
          Relayed-got line s' t inv relayed i h is
          ∙ ap (λ w. received w h ++ line ∷ map (left net) relayed.1.0) world;
    },
    Removes-Inv relayed.1.1 inv,
  )

  -- Not a user that is there before: the one that is inserted.
  IsUser-insert :
      (i h id a : ℕ) (us : Users) → h < a → 1 ≤ count i h (insert id a us) → 1 ≤ count i h us
  unfolding insert count
  IsUser-insert i h id a us old is = ground (arith, count-remove i h id us)

  abbrev Serves : Call net → Server net → Type 0
  Serves c s = (t : Server net) × (perform net c s ≡ some t) × (Told s t × ServerInv t)

  Told-refl : (s : Server net) → Told s s
  Told-refl s = record {
    lines = [];
    printed = sym (append-nil s.console);
    more = omega arith;
    stayed = λ i h old is. is;
    got = λ i h old is. sym (append-nil (received s.world h));
  }

  pub perform-Told : (c : Call net) (s : Server net) → ServerInv s → Serves c s
  unfolding perform send_msg client_leaves listen new_client
  perform-Told (a_line sender_id msg) s inv =
      let (t, ran, relayed) =
        broadcast-Relayed net (suc (length s.users)) (wrote msg) (some sender_id) s (omega arith) in
      (t, ran, Relayed-Told _ s s t inv refl refl (omega arith) (λ i h old is. is) relayed)
  perform-Told (an_exit outcome) s inv =
      let fuel = suc (length s.users) in
      let d = client_id_of net outcome in
      let works = broadcast-Relayed net fuel in
      elim (Bool-cases (contains d s.users)) [
        | inl is ↦
            let s' = without net d s in
            let (t, ran, relayed) =
              works (has_left d) none s' (omega (arith, length-remove_contained d s.users is)) in
            (
              t,
              remove_client_listed net fuel (broadcast net fuel) works d s is ∙ ran,
              Relayed-Told _ s s' t (Inv-remove s.started s.users d inv) refl refl (omega arith)
                  (λ i h old is. IsUser-without i h d s.users is) relayed,
            )
        | inr not_there ↦ (
          s,
          remove_client_unlisted net fuel (broadcast net fuel) works d s not_there,
          (Told-refl s, inv),
        )
      ]
  perform-Told (a_socket tcp_client) s inv =
      let id = s.id_counter in
      let (actor, started) =
        new_client net tcp_client id (record s { id_counter = (id + 1) % 2 ^ 64 }) in
      let s' = record started { users = insert id actor started.users } in
      let (t, ran, relayed) =
        broadcast-Relayed net (suc (length s'.users)) (has_entered id) none s' (omega arith) in
      (
        t,
        ran,
        Relayed-Told _ s s' t (Inv-insert s.started s.users id inv) refl refl
            (omega (arith, length-append s.started (id ∷ [])))
            (λ i h old is. IsUser-insert i h id (length s.started) s.users old is) relayed,
      )

  -- Where a client receives each line that is sent to it with success, and no other: any sequence of
  -- the server's messages is served to the end, from a server in which each user's handle is that of
  -- the client started with the user's number. It prints some lines, and whoever is a user at the
  -- end and had been started before was a user at the start and has received exactly these lines in
  -- between, in their order. At the end handles are again those of their users.
  pub serve-Told :
      (cs : List (Call net)) (s : Server net)
      → ServerInv s
      → (t : Server net) × (serve net cs s ≡ some t) × (Told s t × ServerInv t)
  unfolding serve
  serve-Told [] s inv = (s, refl, (Told-refl s, inv))
  serve-Told (c ∷ cs) s inv =
      let (t, ran, (told, inv')) = perform-Told c s inv in
      let (u, ran', (told', inv'')) = serve-Told cs t inv' in
      (u, ap (on_some net (serve net cs)) ran ∙ ran', (Told-trans told told', inv''))
