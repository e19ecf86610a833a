-- ===== src/Chat/Delivered.antt =====
-- What the users that stay have received (examples/chat.rs).
use mathlib.Core.List.{append_assoc, append-nil}
use shakespeare.Prelude.{
  ℕ, ◌≡◌, refl, sym, ◌∙◌, ap, subst, Bool, true, false, List, [], ◌∷◌, ◌++◌, map, if◌then◌else◌,
  ◌==◌, arith, Bool-cases, inl, inr, All, Result, ok, err,
}
use shakespeare.Chat.{
  Line, Users, contains, remove, count, Net, Server, is_sent, send_all, announce,
}
use shakespeare.Chat.Users.{contains-remove_same, count-remove}
use shakespeare.Chat.Removes.{Removes, done, leave, AllGone, left, without, contains-Removes}

-- What a client has received: a line that was sent to it, as the last one, and no other line.
pub record Reception (net : Net) : Type 0 where
  pub received : net.World → ℕ → List Line
  pub received-sent :
      (h : ℕ) (line : Line) (w : net.World)
      → (net.send_out h line w).0 ≡ ok (ok tt)
      → received (net.send_out h line w).1 h ≡ received w h ++ line ∷ []
  pub received-other :
      (h k : ℕ) (line : Line) (w : net.World)
      → (k == h) ≡ false
      → received (net.send_out h line w).1 k ≡ received w k

-- The handle belongs to one user, who stands in the map once; or to none.
abbrev pub Only : ℕ → ℕ → Users → Type 0
Only i h us = (j : ℕ) → count j h us ≡ (if j == i then 1 else 0)

abbrev pub Nobody : ℕ → Users → Type 0
Nobody h us = (j : ℕ) → count j h us ≡ 0

Only-behind : (i h j a : ℕ) (us : Users) → (h == a) ≡ false → Only i h ((j, a) ∷ us) → Only i h us
unfolding count
Only-behind i h j a us e only k = ground (arith, only k)

Nobody-behind :
    (i h j a : ℕ) (us : Users) → (h == a) ≡ true → Only i h ((j, a) ∷ us) → (j ≡ i) × Nobody h us
unfolding count
Nobody-behind i h j a us e only =
    let is : j ≡ i = ground (arith, only j) in (is, λ k. ground (arith, only k))

Nobody-first : (h j a : ℕ) (us : Users) → Nobody h ((j, a) ∷ us) → ((h == a) ≡ false) × Nobody h us
unfolding count
Nobody-first h j a us free = (ground (arith, free j), λ k. ground (arith, free k))

module _ (net : Net) (reception : Reception net) where
  open net use {World, SendError, LinesCodecError}
  open reception use {received}

  is_sent-ok :
      (r : Result SendError (Result LinesCodecError (Unit {0})))
      → is_sent net r ≡ true
      → r ≡ ok (ok tt)
  unfolding is_sent
  is_sent-ok (ok (ok tt)) e = refl
  is_sent-ok (ok (err x)) e = absurd (cc)
  is_sent-ok (err x) e = absurd (cc)

  send_all-Nobody :
      (h : ℕ) (line : Line) (us : Users) (w : World)
      → Nobody h us
      → received (send_all net line us w).1 h ≡ received w h
  unfolding send_all
  send_all-Nobody h line [] w free = refl
  send_all-Nobody h line ((j, a) ∷ us) w free =
      let (other, rest) = Nobody-first h j a us free in
      send_all-Nobody h line us (net.send_out a line w).1 rest
      ∙ reception.received-other a h line w other

  All-dead :
      (b : Bool) (kept : ℕ → Bool) (i : ℕ) (dead : List ℕ)
      → All (λ j. kept j ≡ false) (if b then dead else i ∷ dead)
      → All (λ j. kept j ≡ false) dead
  All-dead true kept i dead all = all
  All-dead false kept i dead all = all.1

  Only-nothing : (i h : ℕ) → ¬ Only i h []
  unfolding count
  Only-nothing i h only = ground (arith, only i)

  -- The one user of a handle that the loop does not count among the dead.
  send_all-Only :
      (kept : ℕ → Bool) (i h : ℕ)
      → kept i ≡ true
      → (line : Line) (us : Users) (w : World) → Only i h us
      → All (λ j. kept j ≡ false) (send_all net line us w).0
      → received (send_all net line us w).1 h ≡ received w h ++ line ∷ []
  unfolding send_all
  send_all-Only kept i h stays line [] w only all = absurd (Only-nothing i h only)
  send_all-Only kept i h stays line ((j, a) ∷ us) w only all =
      let (r, sent) = net.send_out a line w in
      let dead = (send_all net line us sent).0 in
      elim (Bool-cases (h == a)) [
        | inl own ↦
            let (is, rest) = Nobody-behind i h j a us own only in
            let eq : h ≡ a = ground arith in
            elim (Bool-cases (is_sent net r)) [
              | inl got ↦
                  send_all-Nobody h line us sent rest
                  ∙ subst (λ k. received sent k ≡ received w k ++ line ∷ []) (sym eq)
                      (reception.received-sent a line w (is_sent-ok r got))
              | inr lost ↦
                  let (gone, more) =
                    subst (λ (b : Bool). All (λ k. kept k ≡ false) (if b then dead else j ∷ dead))
                      lost all in
                  absurd (cc)
            ]
        | inr other ↦
            send_all-Only kept i h stays line us sent (Only-behind i h j a us other only)
              (All-dead (is_sent net r) kept j dead all)
            ∙ ap (λ (ls : List Line). ls ++ line ∷ []) (reception.received-other a h line w other)
      ]

  pub announce-Only :
      (i h : ℕ) (line : Line) (s t : Server net)
      → Only i h s.users
      → contains i t.users ≡ true
      → AllGone net (announce net line s).0 t
      → received (announce net line s).1.world h ≡ received s.world h ++ line ∷ []
  unfolding announce
  announce-Only i h line s t only stays gone =
      send_all-Only (λ j. contains j t.users) i h stays line (net.visit s.users) s.world
        (λ j. net.visit_count j h s.users ∙ only j) gone

  Only-without : (i h d : ℕ) (us : Users) → (i == d) ≡ false → Only i h us → Only i h (remove d us)
  Only-without i h d us other only j = count-remove j h d us ∙ ground (arith, only j)

  pub Removes-received :
      {ds : List ℕ} {s t : Server net} (i h : ℕ)
      → Removes net ds s t
      → Only i h s.users
      → contains i t.users ≡ true
      → received t.world h ≡ received s.world h ++ map (left net) ds
  unfolding announce
  Removes-received {s = s} i h done only stays = sym (append-nil (received s.world h))
  Removes-received {s = s} {t = t} i h (leave {d = d} {ds = ds} is gone rest) only stays =
      elim (Bool-cases (i == d)) [
        | inl own ↦
            let eq : i ≡ d = ground arith in
            let out : contains i (remove d s.users) ≡ false =
              subst (λ k. contains k (remove d s.users) ≡ false) (sym eq)
                (contains-remove_same d s.users) in
            absurd (cc (contains-Removes net i rest out))
        | inr other ↦
            let only' = Only-without i h d s.users other only in
            Removes-received i h rest only' stays
            ∙ (ap (λ (ls : List Line). ls ++ map (left net) ds)
                  (announce-Only i h (left net d) (without net d s) t only' stays gone)
                ∙ append_assoc (received s.world h) (left net d ∷ []) (map (left net) ds))
      ]
