-- ===== src/Tests/Answered.antt =====
-- An actor whose two methods are dispatched to: one adds a number up and answers with the total, the
-- other panics.
use shakespeare.Prelude.{
  ℕ, ◌+◌, ◌≡◌, ◌≢◌, refl, Option, none, some, List, [], ◌∷◌, String, Result, ok, err, any_below,
}
use shakespeare.Core.Context.{is_running}
use shakespeare.Core.Role.{ReturnEnvelope, ReturnPath, discard, immediate}
use shakespeare.Macro.Signatures.{
  payload_pattern, method_call_pattern, remove_context_param, variant_text, has_context_input,
  extract_input_type_vector,
}
use shakespeare.Macro.Performance.{sending_method, dispatch_cases, dispatch_case}
use shakespeare.Macro.Performance.Dispatches.{Passed, value, the_context, match_arms}
use shakespeare.EventLoop.{
  Verb, nothing, Event, push, enter, receive, finish, panicked, done, Sys, start, step, run,
}
use shakespeare.EventLoop.Serial.{log}
use shakespeare.Answers.{Author, roles, running, no_arm, dispatch}
use shakespeare.Answers.Served.{Meant, Served, answers-Served}
use shakespeare.Tests.Samples.{same_case, path_of, speak, bow, item_of}

abbrev summed : List (Passed ℕ) → ℕ → ℕ
summed [] total = total
summed (the_context ∷ args) total = summed args total
summed (value n ∷ args) total = summed args (total + n)

abbrev add_or_panic : List (Passed ℕ) → ℕ → Result (ℕ × ℕ) (ℕ × ℕ × Verb)
add_or_panic [] total = err (total, total)
add_or_panic (a ∷ args) total = let now = summed (a ∷ args) total in ok (now, now, nothing)

abbrev adder : Author
adder = record {
  User = ℕ;
  Value = ℕ;
  Panic = ℕ;
  performances = 1;
  role = λ i. path_of "Actor";
  handlers = λ i. item_of bow ∷ item_of speak ∷ [];
  method = λ name args total c. add_or_panic args total;
}

abbrev told : ReturnPath (roles adder) (String × ℕ) → ReturnEnvelope (roles adder) 0
told path = record { payload = ("Speak", 4 ∷ 1 ∷ []); return_path = path }

abbrev bowing : ReturnEnvelope (roles adder) 0
bowing = record { payload = ("Bow", []); return_path = discard }

abbrev conversation : List (Event (running adder same_case))
conversation =
    push 0 (told (immediate 3))
    ∷ push 0 (told (immediate 7))
    ∷ push 0 bowing
    ∷ enter
    ∷ enter
    ∷ receive 0
    ∷ finish
    ∷ enter
    ∷ enter
    ∷ receive 0
    ∷ finish
    ∷ enter
    ∷ enter
    ∷ receive 0
    ∷ finish
    ∷ finish
    ∷ []

abbrev began : Sys (running adder same_case)
began = start (running adder same_case) (0, [])

abbrev reached : Option (Sys (running adder same_case)) → Sys (running adder same_case)
reached none = began
reached (some s) = s

abbrev ended : Sys (running adder same_case)
ended = reached (run (running adder same_case) conversation began)

told-Meant : (path : ReturnPath (roles adder) (String × ℕ)) → Meant adder same_case 0 (told path)
unfolding variant_text sending_method
told-Meant path = record {
  method = item_of speak;
  vals = 4 ∷ 1 ∷ [];
  before = item_of bow ∷ [];
  behind = [];
  declared = refl;
  distinct = refl;
  variant = refl;
  values = refl;
  count = refl;
}

bowing-Meant : Meant adder same_case 0 bowing
unfolding variant_text sending_method
bowing-Meant = record {
  method = item_of bow;
  vals = [];
  before = [];
  behind = item_of speak ∷ [];
  declared = refl;
  distinct = refl;
  variant = refl;
  values = refl;
  count = refl;
}

-- The panic of `bow` ends the actor, with the answers to both other messages sent.
ended_state : ended.state ≡ (
  10,
  record { return_path = immediate 3; return_val = ("Speak", 5) }
      ∷ record { return_path = immediate 7; return_val = ("Speak", 10) }
      ∷ [],
)
unfolding run step start any_below is_running dispatch match_arms dispatch_cases dispatch_case
    payload_pattern method_call_pattern remove_context_param variant_text has_context_input
    extract_input_type_vector
ended_state = refl

answers-Served_example :
    Served adder same_case
      (log (running adder same_case) conversation began)
      0
      ended.state.0
      ended.state.1
    × (ended.phase ≢ panicked no_arm)
    × (ended.phase ≢ done (some no_arm))
unfolding run step start any_below is_running dispatch match_arms dispatch_cases dispatch_case
    payload_pattern method_call_pattern remove_context_param variant_text has_context_input
    extract_input_type_vector
answers-Served_example =
    answers-Served adder same_case (λ i. (tt, (tt, tt))) 0 conversation ended refl
      (
        told-Meant (immediate 3),
        (
          told-Meant (immediate 7),
          (
            bowing-Meant,
            (tt, (tt, (tt, (tt, (tt, (tt, (tt, (tt, (tt, (tt, (tt, (tt, (tt, tt))))))))))))),
          ),
        ),
      )
