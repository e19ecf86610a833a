-- ===== src/Macro/Entry/Expansion.antt =====
-- What the macro `actor` expands to (shakespeare-macro/src/lib.rs).
use shakespeare.Prelude.{
  ◌≡◌, Bool, Option, none, some, List, [], ◌∷◌, ◌++◌, map, String, Result, ok, err, All,
}
use shakespeare.Macro.Naming.{Casing}
use shakespeare.Macro.Grouping.{GroupingMap}
use shakespeare.Macro.Declarations.{Failure, error, panic}
use shakespeare.Macro.ActorDecl.{ActorDecl}
use shakespeare.Macro.ActorOutput.{ActorOutput, new_actor_output}
use shakespeare.Macro.Entry.{Part, item, compile_error, hooks, Tokens, Syn}
use shakespeare.Macro.RoleOutput.{RoleOutput}

-- The actor's hooks are printed for its state type.
abbrev HasState : Result Failure ActorDecl → Type 0
HasState (err x) = Unit
HasState (ok a) = a.handlers.state_name ≡ some a.data_item.ident

-- What an actor's output takes over from its declaration.
abbrev TakesOver : ActorDecl → Result Failure ActorOutput → Type 0
TakesOver a (err x) = Unit
TakesOver a (ok o) =
    (o.data_item ≡ a.data_item)
    × ((o.getter_for ≡ a.actor_name) × ((o.handlers ≡ a.handlers) × (o.misc ≡ a.misc)))

-- A part that is generated for a performance or a role.
abbrev IsGenerated : Part → Type 0
IsGenerated (Part.actor_impl p) = Unit
IsGenerated (Part.dispatch_fn f) = Unit
IsGenerated (Part.payload_enum p) = Unit
IsGenerated (Part.return_payload_enum p) = Unit
IsGenerated (Part.trait_definition attrs vis methods) = Unit
IsGenerated (Part.role_impl payload return_) = Unit
IsGenerated _ = ⊥

-- The tokens for a failure.
abbrev pub Fails : Failure → Option Tokens → Type 0
Fails (error ms) ts = ts ≡ some (compile_error ms ∷ [])
Fails panic ts = ts ≡ none

-- The tokens for an accepted module, when what is generated for it could be made or not.
abbrev pub Prints : ActorDecl → Result Failure ActorOutput → Option Tokens → Type 0
Prints a (err x) ts = Fails x ts
Prints a (ok o) ts =
    (rest : Tokens) × All IsGenerated rest
    × (ts
        ≡ some (
            Part.actor_struct o.actor_struct
            ∷ Part.data_item a.data_item
            ∷ Part.getter_for a.actor_name
            ∷ Part.spawning_function o.spawning_function
            ∷ hooks a.data_item.ident a.handlers.panic a.handlers.exit
            ∷ (rest ++ map item a.misc)))

module _ (syn : Syn) (casing : Casing) (grouping : GroupingMap)
    (parse_args : String → Option Bool) where
  -- The tokens for what `ActorDecl::new` makes of the module.
  abbrev pub Expands : Result Failure ActorDecl → Option Tokens → Type 0
  Expands (err x) ts = Fails x ts
  Expands (ok a) ts = Prints a (new_actor_output casing grouping a) ts
