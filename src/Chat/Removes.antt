-- ===== src/Chat/Removes.antt =====
-- What a broadcast comes to: one announcement after the other (examples/chat.rs).
use shakespeare.Prelude.{
  ℕ, zero, suc, ◌<◌, ◌≤◌, ◌≡◌, refl, ◌∙◌, true, false, Option, none, some, List, [], ◌∷◌, ◌++◌,
  length, arith, Bool-cases, inl, inr, All,
}
use shakespeare.Chat.{
  Text, has_left, Line, contains, remove, Net, Server, announce, line_of, Broadcast, remove_client,
  remove_all, broadcast,
}
use shakespeare.Chat.Users.{length-remove_contained, contains-remove_same, contains-remove}

module _ (net : Net) where
  -- The server without a user.
  abbrev pub without : ℕ → Server net → Server net
  without d s = record s { users = remove d s.users }

  abbrev pub left : ℕ → Line
  left d = line_of net (has_left d) none

  abbrev pub AllGone : List ℕ → Server net → Type 0
  AllGone dead t = All (λ i. contains i t.users ≡ false) dead

  -- The users of the list are removed and announced, one after the other; whoever cannot be told
  -- is gone at the end.
  pub data Removes : List ℕ → Server net → Server net → Type 0 where
    done : {s : Server net} → Removes [] s s
    leave :
        {d : ℕ} {ds : List ℕ} {s t : Server net}
        → contains d s.users ≡ true
        → AllGone (announce net (left d) (without d s)).0 t
        → Removes ds (announce net (left d) (without d s)).1 t
        → Removes (d ∷ ds) s t

  -- A line is announced, and then all those removed that could not be told of it.
  abbrev pub Relayed : Line → Server net → Server net → Type 0
  Relayed line s t =
      AllGone (announce net line s).0 t × ((ds : List ℕ) × Removes ds (announce net line s).1 t)

  pub contains-Removes :
      {ds : List ℕ} {s t : Server net} (i : ℕ)
      → Removes ds s t
      → contains i s.users ≡ false
      → contains i t.users ≡ false
  unfolding announce
  contains-Removes i done c = c
  contains-Removes {s = s} i (leave {d = d} is gone rest) c =
      contains-Removes i rest (contains-remove i d s.users c)

  pub AllGone-Removes :
      {ds : List ℕ} {s t : Server net} (dead : List ℕ)
      → Removes ds s t
      → AllGone dead s
      → AllGone dead t
  AllGone-Removes [] r gone = tt
  AllGone-Removes (i ∷ dead) r (one, gone) = (contains-Removes i r one, AllGone-Removes dead r gone)

  length-Removes :
      {ds : List ℕ} {s t : Server net} → Removes ds s t → length t.users ≤ length s.users
  unfolding announce
  length-Removes done = omega arith
  length-Removes {s = s} (leave {d = d} is gone rest) =
      omega (arith, length-Removes rest, length-remove_contained d s.users is)

  append-Removes :
      {ds es : List ℕ} {s t u : Server net}
      → Removes ds s t
      → Removes es t u
      → Removes (ds ++ es) s u
  append-Removes done q = q
  append-Removes (leave is gone rest) q =
      leave is (AllGone-Removes _ q gone) (append-Removes rest q)

  -- Whether a broadcast works among fewer than n users.
  abbrev Works : ℕ → Broadcast net → Type 0
  Works n again =
      (msg : Text) (user_id : Option ℕ) (s : Server net)
      → length s.users < n
      → (t : Server net) × (again msg user_id s ≡ some t) × Relayed (line_of net msg user_id) s t

  module _ (n : ℕ) (again : Broadcast net) (works : Works n again) where
    Removed : List ℕ → Server net → Server net → Type 0
    Removed dead s t = AllGone dead t × ((ds : List ℕ) × Removes ds s t)

    pub remove_client_listed :
        (d : ℕ) (s : Server net)
        → contains d s.users ≡ true
        → remove_client net again d s ≡ again (has_left d) none (without d s)
    unfolding remove_client
    remove_client_listed d s is = rw (is, remove_client) refl

    pub remove_client_unlisted :
        (d : ℕ) (s : Server net) → contains d s.users ≡ false → remove_client net again d s ≡ some s
    unfolding remove_client
    remove_client_unlisted d s not_there = rw (not_there, remove_client) refl

    pub remove_client-Removes :
        (d : ℕ) (s : Server net)
        → length s.users ≤ n
        → (t : Server net) × (remove_client net again d s ≡ some t)
          × ((contains d t.users ≡ false) × ((ds : List ℕ) × Removes ds s t))
    unfolding announce
    remove_client-Removes d s few = elim (Bool-cases (contains d s.users)) [
      | inl is ↦
          let (t, ran, (gone, (ds, removes))) =
            works (has_left d) none (without d s)
              (omega (arith, length-remove_contained d s.users is)) in
          (
            t,
            remove_client_listed d s is ∙ ran,
            (
              contains-Removes d removes (contains-remove_same d s.users),
              (d ∷ ds, leave is gone removes),
            ),
          )
      | inr not_there ↦ (s, remove_client_unlisted d s not_there, (not_there, ([], done)))
    ]

    pub remove_all-Removes :
        (dead : List ℕ) (s : Server net)
        → length s.users ≤ n
        → (t : Server net) × (remove_all net again dead s ≡ some t)
          × (AllGone dead t × ((ds : List ℕ) × Removes ds s t))
    unfolding remove_all
    remove_all-Removes [] s few = (s, refl, (tt, ([], done)))
    remove_all-Removes (d ∷ dead) s few =
        let (t, ran, (one, (ds, removes))) = remove_client-Removes d s few in
        let (u, ran', (gone, (es, removes'))) =
          remove_all-Removes dead t (omega (arith, length-Removes removes)) in
        (
          u,
          rw (ran) ran',
          ((contains-Removes d removes' one, gone), (ds ++ es, append-Removes removes removes')),
        )

  -- Fuel for more calls than there are users suffices: the broadcast ends, and what it comes to is that
  -- the line is printed and sent to each user, and after that users are removed and announced one by
  -- one, among them everyone who could not be told of the line or of a removal.
  pub broadcast-Relayed :
      (fuel : ℕ) (msg : Text) (user_id : Option ℕ) (s : Server net)
      → length s.users < fuel
      → (t : Server net) × (broadcast net fuel msg user_id s ≡ some t)
        × Relayed (line_of net msg user_id) s t
  unfolding broadcast announce
  broadcast-Relayed zero msg user_id s few = absurd (omega arith)
  broadcast-Relayed (suc fuel) msg user_id s few =
      let (dead, told) = announce net (line_of net msg user_id) s in
      remove_all-Removes fuel (broadcast net fuel) (broadcast-Relayed fuel) dead told (omega arith)
