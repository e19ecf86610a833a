-- ===== src/Tests/Samples.antt =====
-- Methods, names and a state type for the tests of the macros, and the users of a chat room.
use shakespeare.Prelude.{true, none, List, [], ◌∷◌, String, arith}
use shakespeare.Macro.Syntax.{
  reference, tuple, nil, cons, named, SynPath, FnArg, receiver, typed, ReturnType, default, returns,
  Signature, FunctionItem, ItemData,
}
use shakespeare.Macro.Naming.{Casing}
use shakespeare.Macro.Declarations.{PerformanceDecl}
use shakespeare.Chat.{Users, insert, count}
use shakespeare.Chat.Invariant.{Inv, Inv-insert}

abbrev pub same_case : Casing
same_case = record {
  snake = λ s. s;
  upper_camel = λ s. s;
  is_ident = λ s. true;
  is_expression = λ s. true;
}

abbrev pub path_of : String → SynPath
path_of name = record { leading = []; last = record { ident = name; arguments = "" } }

abbrev pub method : String → List FnArg → ReturnType → Signature
method name inputs output = record {
  asyncness = true;
  ident = name;
  generics = [];
  inputs = receiver "&mut self" ∷ inputs;
  output = output;
}

-- `async fn speak(&mut self, ctx: &mut Context<Self>, line: String, loud: bool) -> u8`
abbrev pub speak : Signature
speak =
    method "Speak"
      (typed "ctx" (reference none true (named "Context<Self>"))
        ∷ typed "line" (named "String")
        ∷ typed "loud" (named "bool")
        ∷ [])
      (returns (named "u8"))

-- `async fn bow(&mut self)`
abbrev pub bow : Signature
bow = method "Bow" [] default

-- `async fn play(&mut self, pair: (String, bool))`
abbrev pub play : Signature
play =
    method "Play" (typed "pair" (tuple (cons (named "String") (cons (named "bool") nil))) ∷ [])
      default

abbrev pub item_of : Signature → FunctionItem
item_of sig = record { attrs = []; sig = sig; block = "{}" }

abbrev pub state : ItemData
state = record { ident = "State"; body = "{}" }

abbrev pub both_methods : PerformanceDecl
both_methods = record { role_name = path_of "Actor"; handlers = item_of speak ∷ item_of bow ∷ [] }

nobody-Inv : Inv [] []
unfolding count
nobody-Inv i h = (omega arith, λ one. absurd (omega (arith, one)))

-- Three users of a chat room, with the handles 0, 1 and 2.
abbrev pub three_users : Users
three_users = insert 3 2 (insert 2 1 (insert 1 0 []))

pub three_users-Inv : Inv (1 ∷ 2 ∷ 3 ∷ []) three_users
three_users-Inv =
    Inv-insert (1 ∷ 2 ∷ []) (insert 2 1 (insert 1 0 [])) 3
      (Inv-insert (1 ∷ []) (insert 1 0 []) 2 (Inv-insert [] [] 1 nobody-Inv))
