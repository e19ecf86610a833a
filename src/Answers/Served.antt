-- ===== src/Answers/Served.antt =====
-- Each message that an actor gets is a call of the method it was made by, and its result goes out on
-- its return path (shakespeare-macro/src/outputs/performance, with the event loop of `start`).
use mathlib.Core.List.{append_assoc, append-nil}
use shakespeare.Prelude.{
  ℕ, ◌≡◌, ◌≢◌, sym, ap, subst, ◌∙◌, true, some, List, [], ◌∷◌, ◌++◌, String, Result, ok, err, All,
  length, Result-cases, inl, inr,
}
use shakespeare.Core.Context.{Context}
use shakespeare.Core.Role.{ReturnEnvelope}
use shakespeare.Macro.Syntax.{FunctionItem}
use shakespeare.Macro.Naming.{Casing, payload_path}
use shakespeare.Macro.Signatures.{variant_text}
use shakespeare.Macro.Signatures.Arity.{IsMethod}
use shakespeare.Macro.Performance.{sending_method, dispatch_cases}
use shakespeare.Macro.Performance.Dispatches.{
  Call, no_variant, match_arms, own_call, sent_message_dispatched,
}
use shakespeare.EventLoop.{Verb, Event, Sys, panicked, done, start, run}
use shakespeare.EventLoop.Serial.{Handled, log, serial, state_after, run-serial}
use shakespeare.EventLoop.Messages.{PushFits, PhaseFits, run-Fits}
use shakespeare.Answers.{
  Author, Stop, no_arm, State, Answer, roles, answered, answer_call, arms_of, dispatch, running,
}

module _ (author : Author) (casing : Casing) where
  open author use {User, Value, Panic, performances, role, handlers}

  -- A message that a sending method of a performance makes, on any return path.
  pub record Meant (i : ℕ) (msg : ReturnEnvelope (roles author) 0) : Type 0 where
    pub method : FunctionItem
    pub vals : List Value
    pub before : List FunctionItem
    pub behind : List FunctionItem
    pub declared : handlers i ≡ before ++ method ∷ behind
    pub distinct : no_variant casing (variant_text casing method.sig) before ≡ true
    pub variant :
        msg.payload.0 ≡ (sending_method casing (payload_path (role i)) (role i) method).variant
    pub values : msg.payload.1 ≡ vals
    pub count :
        length (sending_method casing (payload_path (role i)) (role i) method).message ≡ length vals

  -- The call of the author's method for a message.
  abbrev pub meant_call : (i : ℕ) (msg : ReturnEnvelope (roles author) 0) → Meant i msg → Call Value
  meant_call i msg m = own_call casing (role i) m.method m.vals

  abbrev pub called : Call Value → User → Context → Result (User × Panic) (Value × User × Verb)
  called call user c = author.method call.fn_name call.args user c

  -- The calls for a sequence of messages, one after the other: the state before and after, and the
  -- answers. A call that panics gives no answer, and leaves what it has made of the state.
  pub data Served
      : List (Handled (running author casing)) → User → User → List (Answer author) → Type 0 where
    nil : {u : User} → Served [] u u []
    answer :
        {hs : List (Handled (running author casing))} {u u' u'' : User} {out : List (Answer author)}
        (h : Handled (running author casing)) (m : Meant h.queue h.msg) (v : Value) (verb : Verb)
        → called (meant_call h.queue h.msg m) u h.context ≡ ok (v, u', verb)
        → Served hs u' u'' out
        → Served (h ∷ hs) u u'' (
            record {
              return_path = h.msg.return_path;
              return_val = ((meant_call h.queue h.msg m).reply, v);
            }
            ∷ out)
    fail :
        {hs : List (Handled (running author casing))} {u u' u'' : User} {out : List (Answer author)}
        (h : Handled (running author casing)) (m : Meant h.queue h.msg) (p : Panic)
        → called (meant_call h.queue h.msg m) u h.context ≡ err (u', p)
        → Served hs u' u'' out
        → Served (h ∷ hs) u u'' out

  module _ (methods : (i : ℕ) → All (λ f. IsMethod f.sig.inputs) (handlers i)) where
    -- The arm that a message finds.
    match_arms-Meant :
        (i : ℕ) (msg : ReturnEnvelope (roles author) 0) (m : Meant i msg)
        → match_arms
            (arms_of author (dispatch_cases casing (role i) (handlers i)))
            msg.payload.0
            msg.payload.1
          ≡ some (meant_call i msg m)
    match_arms-Meant i msg m =
        let fits =
          subst (λ hs. All (λ (f : FunctionItem). IsMethod f.sig.inputs) hs) m.declared
            (methods i) in
        let (arms, made, matched) =
          sent_message_dispatched casing (role i) (payload_path (role i)) m.before m.behind m.method
            m.vals fits m.distinct m.count in
        rw (m.variant, m.values) (rw (m.declared) (rw made matched))

    dispatch-Meant :
        (i : ℕ) (msg : ReturnEnvelope (roles author) 0) (m : Meant i msg) (st : State author)
        (c : Context)
        → dispatch author casing i st c msg
          ≡ answered author msg.return_path
              (meant_call i msg m).reply
              st.1
              (called (meant_call i msg m) st.0 c)
    unfolding dispatch
    dispatch-Meant i msg m st c =
        ap (answer_call author msg.return_path st c) (match_arms-Meant i msg m)

    -- A panic of the actor comes from the author's method.
    abbrev pub IsAuthors : Stop Panic → Type 0
    IsAuthors (Stop.method p) = Unit
    IsAuthors no_arm = ⊥

    answered-IsAuthors :
        (msg : ReturnEnvelope (roles author) 0) (reply : String) (out : List (Answer author))
        (r : Result (User × Panic) (Value × User × Verb)) (x : State author × Stop Panic)
        → answered author msg.return_path reply out r ≡ err x
        → IsAuthors x.1
    answered-IsAuthors msg reply out (ok (v, u, verb)) x e = absurd (cc e)
    answered-IsAuthors msg reply out (err (u, p)) x e = subst OnPanic e tt
      where
        OnPanic : Result (State author × Stop Panic) (State author × Verb) → Type 0
        OnPanic (ok r) = Unit
        OnPanic (err y) = IsAuthors y.1

    dispatch-IsAuthors :
        (i : ℕ) (msg : ReturnEnvelope (roles author) 0)
        → Meant i msg
        → (st : State author) (c : Context) (x : State author × Stop Panic)
        → dispatch author casing i st c msg ≡ err x
        → IsAuthors x.1
    dispatch-IsAuthors i msg m st c x e =
        answered-IsAuthors msg (meant_call i msg m).reply st.1 (called (meant_call i msg m) st.0 c)
          x (sym (dispatch-Meant i msg m st c) ∙ e)

    -- What the serial run of the handlers leaves, against the calls.
    abbrev ServedTo :
        List (Handled (running author casing)) → User → List (Answer author) → State author → Type 0
    ServedTo hs u out t = (more : List (Answer author)) × (t.1 ≡ out ++ more) × Served hs u t.0 more

    ServedTo-serial :
        (hs : List (Handled (running author casing))) (u : User) (out : List (Answer author))
        → All (λ h. Meant h.queue h.msg) hs
        → ServedTo hs u out (serial (running author casing) hs (u, out))
    ServedTo-serial [] u out all = ([], sym (append-nil out), nil)
    ServedTo-serial (h ∷ hs) u out (m, all) =
        let After = λ (r : Result (State author × Stop Panic) (State author × Verb)).
          ServedTo (h ∷ hs) u out
            (serial (running author casing) hs (state_after (running author casing) r (u, out))) in
        let path = h.msg.return_path in
        let put = answered author path (meant_call h.queue h.msg m).reply out in
        elim (Result-cases (called (meant_call h.queue h.msg m) u h.context)) [
          | inl ((v, u', verb), ran) ↦
              let reply = (meant_call h.queue h.msg m).reply in
              let one : Answer author = record { return_path = path; return_val = (reply, v) } in
              let (more, is, served) = ServedTo-serial hs u' (out ++ one ∷ []) all in
              subst After (sym (dispatch-Meant h.queue h.msg m (u, out) h.context ∙ ap put ran))
                (one ∷ more, is ∙ append_assoc out (one ∷ []) more, answer h m v verb ran served)
          | inr ((u', p), failed) ↦
              let (more, is, served) = ServedTo-serial hs u' out all in
              subst After (sym (dispatch-Meant h.queue h.msg m (u, out) h.context ∙ ap put failed))
                (more, is, fail h m p failed served)
        ]

    -- In every history of a started actor whose performances hold methods only, and in which each
    -- pushed message was made by a sending method of its performance, each message that was handled
    -- was one call of that method, under its new name and with the message's values, the calls were
    -- made one after the other, and the answers are their values, under the method's variant, each
    -- sent once on the return path of its message, in that order. No message finds no arm.
    pub answers-Served :
        (u : User) (es : List (Event (running author casing))) (t : Sys (running author casing))
        → run (running author casing) es (start (running author casing) (u, [])) ≡ some t
        → All (PushFits (running author casing) Meant) es
        → Served
            (log (running author casing) es (start (running author casing) (u, [])))
            u
            t.state.0
            t.state.1
          × (t.phase ≢ panicked no_arm)
          × (t.phase ≢ done (some no_arm))
    unfolding start
    answers-Served u es t ran pushes =
        let began = start (running author casing) (u, []) in
        let (handled, fits) =
          run-Fits (running author casing) Meant IsAuthors dispatch-IsAuthors es began t ran
            (λ i. tt, tt) pushes in
        let (more, is, served) =
          ServedTo-serial (log (running author casing) es began) u [] handled in
        let now = (run-serial (running author casing) (u, []) es t ran).0 in
        (
          subst (λ (st : State author). Served (log (running author casing) es began) u st.0 st.1)
              (sym now)
              (subst
                (λ out.
                  Served (log (running author casing) es began) u
                    (serial (running author casing) (log (running author casing) es began)
                      (u, [])).0
                    out)
                (sym is) served),
          λ p.
              subst (PhaseFits (running author casing) Meant IsAuthors dispatch-IsAuthors) p fits.1,
          λ p.
              subst (PhaseFits (running author casing) Meant IsAuthors dispatch-IsAuthors) p fits.1,
        )
