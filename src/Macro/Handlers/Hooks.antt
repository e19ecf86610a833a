-- ===== src/Macro/Handlers/Hooks.antt =====
-- Which functions become an actor's hooks
-- (shakespeare-macro/src/data/handler_functions.rs, shakespeare-macro/src/declarations/actor.rs).
use shakespeare.Prelude.{
  ◌≡◌, refl, false, Option, none, some, List, [], ◌∷◌, String, str_eq, str_eq_iff, if◌then◌else◌,
  Bool-cases, inl, inr, subst, sym, ap, ◌∙◌,
}
use shakespeare.Macro.Syntax.{Ty, unit, FunctionItem}
use shakespeare.Macro.Signatures.{extract_return_type}
use shakespeare.Macro.Handlers.{
  HandlerFunctions, add, exit_return, panic_return, any_send, return_or,
}

-- The last function of a name.
abbrev pub last_named : String → List FunctionItem → Option FunctionItem → Option FunctionItem
last_named name [] found = found
last_named name (f ∷ fs) found =
    last_named name fs (if str_eq f.sig.ident name then some f else found)

-- The handlers after all functions were added.
abbrev pub add_all : List FunctionItem → HandlerFunctions → HandlerFunctions
add_all [] h = h
add_all (f ∷ fs) h = add_all fs (add f h).0

-- The type that a hook's value has, or that stands for a hook that is not there.
abbrev pub hook_type : Ty → Option FunctionItem → Ty
hook_type missing none = missing
hook_type missing (some f) = extract_return_type f.sig

add-stored :
    (f : FunctionItem) (h : HandlerFunctions)
    → ((add f h).0.exit ≡ (if str_eq f.sig.ident "stop" then some f else h.exit))
      × ((add f h).0.panic ≡ (if str_eq f.sig.ident "catch" then some f else h.panic))
unfolding add
add-stored f h = elim (Bool-cases (str_eq f.sig.ident "stop")) [
  | inl stop ↦
      let other : str_eq f.sig.ident "catch" ≡ false =
        subst (λ n. str_eq n "catch" ≡ false) (sym ((str_eq_iff f.sig.ident "stop").0 stop)) refl in
      rw (stop, other) (refl, refl)
  | inr other ↦ elim (Bool-cases (str_eq f.sig.ident "catch")) [
    | inl catch ↦ rw (other, catch) (refl, refl)
    | inr neither ↦ rw (other, neither) (refl, refl)
  ]
]

add_all-stored :
    (fs : List FunctionItem) (h : HandlerFunctions)
    → ((add_all fs h).exit ≡ last_named "stop" fs h.exit)
      × ((add_all fs h).panic ≡ last_named "catch" fs h.panic)
add_all-stored [] h = (refl, refl)
add_all-stored (f ∷ fs) h =
    let (exit, panic) = add_all-stored fs (add f h).0 in
    let (stop, catch) = add-stored f h in
    (exit ∙ ap (last_named "stop" fs) stop, panic ∙ ap (last_named "catch" fs) catch)

return_type_of :
    (h : HandlerFunctions)
    → (exit_return h ≡ hook_type unit h.exit) × (panic_return h ≡ hook_type any_send h.panic)
unfolding exit_return panic_return extract_return_type
return_type_of h = (at h.exit unit, at h.panic any_send)
  where
    at : (o : Option FunctionItem) (missing : Ty) → return_or missing o ≡ hook_type missing o
    at none missing = refl
    at (some f) missing = refl

-- The hooks that are stored, and the types that the shell gets by them.
pub hooks_of_functions :
    (fs : List FunctionItem) (h : HandlerFunctions)
    → ((add_all fs h).exit ≡ last_named "stop" fs h.exit)
      × ((add_all fs h).panic ≡ last_named "catch" fs h.panic)
      × (exit_return (add_all fs h) ≡ hook_type unit (last_named "stop" fs h.exit))
      × (panic_return (add_all fs h) ≡ hook_type any_send (last_named "catch" fs h.panic))
hooks_of_functions fs h =
    let (exit, panic) = add_all-stored fs h in
    let (e, p) = return_type_of (add_all fs h) in
    (exit, panic, e ∙ ap (hook_type unit) exit, p ∙ ap (hook_type any_send) panic)
