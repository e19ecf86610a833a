-- ===== src/Macro/Handlers.antt =====
-- shakespeare-macro/src/data/handler_functions.rs: the actor's `stop` and `catch` functions.
pub mod Hooks
use shakespeare.Prelude.{Bool, true, false, Option, none, some, String, str_eq, if◌then◌else◌}
use shakespeare.Macro.Syntax.{Ty, named, unit, FunctionItem, ReturnType, default, returns}
use shakespeare.Macro.Signatures.{output_type}

pub record HandlerFunctions : Type 0 where
  pub state_name : Option String
  pub panic : Option FunctionItem
  pub exit : Option FunctionItem

unfoldable pub new : HandlerFunctions
new = record { state_name = none; panic = none; exit = none }

unfoldable pub set_data_name : String → HandlerFunctions → HandlerFunctions
set_data_name name h = record h { state_name = some name }

-- Whether the function is a hook, which is then stored in place of an earlier one.
unfoldable pub add : FunctionItem → HandlerFunctions → HandlerFunctions × Bool
add fun h =
    if str_eq fun.sig.ident "stop"
    then (record h { exit = some fun }, true)
    else if str_eq fun.sig.ident "catch"
    then (record h { panic = some fun }, true)
    else (h, false)

abbrev name_of : Option FunctionItem → Option String
name_of none = none
name_of (some f) = some f.sig.ident

unfoldable pub exit_name : HandlerFunctions → Option String
exit_name h = name_of h.exit

unfoldable pub panic_name : HandlerFunctions → Option String
panic_name h = name_of h.panic

-- `FuncReturnType`, with the type that stands for a hook that is not there.
unfoldable pub return_or : Ty → Option FunctionItem → Ty
unfolding output_type
return_or missing none = missing
return_or missing (some f) = output_type f.sig.output

unfoldable pub exit_return : HandlerFunctions → Ty
unfolding return_or
exit_return h = return_or unit h.exit

abbrev pub any_send : Ty
any_send = named "std::boxed::Box<dyn std::any::Any + std::marker::Send>"

unfoldable pub panic_return : HandlerFunctions → Ty
unfolding return_or
panic_return h = return_or any_send h.panic
