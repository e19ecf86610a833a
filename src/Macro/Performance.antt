-- ===== src/Macro/Performance.antt =====
-- shakespeare-macro/src/outputs/performance: what is generated for a performance.
pub mod Dispatches
pub mod Interface
pub mod Accepted
use shakespeare.Prelude.{
  ℕ, zero, suc, Bool, true, false, ◌&&◌, Option, none, some, List, [], ◌∷◌, ◌++◌, map, String,
  str_eq, ◌==◌, length, Result, ok, err, ◌>>=◌, if◌then◌else◌,
}
use shakespeare.Macro.Syntax.{
  Ty, named, SynPath, Attribute, GenericParam, Signature, FunctionItem, ItemImpl,
}
use shakespeare.Macro.Naming.{
  Casing, RoleName, payload_path, method_name, sender_method_name, make_method_name,
}
use shakespeare.Macro.Signatures.{
  remove_context_param, extract_return_type, variant_text, enum_variant_name, typed_inputs,
  payload_pattern, Argument, context, numbered, method_call_pattern,
}
use shakespeare.Macro.Declarations.{
  Failure, error, panic, internal_error, PerformanceDecl, new_performance, empty_performance,
  no_role_name, unsupported_self_type,
}

-- The method of the actor's shell that makes an envelope: `fn ident(&self, params)`, whose message
-- is a tuple of the parameters' patterns under the variant.
pub record SendingMethod : Type 0 where
  pub attrs : List Attribute
  pub ident : String
  pub params : List (String × Ty)
  pub envelope_of : RoleName × Ty
  pub payload_type : SynPath
  pub variant : String
  pub message : List String

pub record ActorPerf : Type 0 where
  pub role_name : RoleName
  pub methods : List SendingMethod
  pub enqueues_by : String

-- An arm of the dispatch method's `match`: the variant, the names for its payload, and the call of
-- the renamed handler, under the same variant of the return payload.
pub record Arm : Type 0 where
  pub variant : String
  pub pattern_ : List ℕ
  pub fn_name : String
  pub args : List Argument
  pub awaits : Bool

pub record DispatchFunction : Type 0 where
  pub method : String
  pub arms : List Arm
  pub renamed_handlers : List FunctionItem

pub record PerfDispatch : Type 0 where
  pub actor_impl : ActorPerf
  pub dispatch_fn : DispatchFunction

module _ (casing : Casing) where
  -- What `create_sending_method` quotes.
  unfoldable pub sending_method : SynPath → RoleName → FunctionItem → SendingMethod
  unfolding remove_context_param typed_inputs extract_return_type variant_text
  sending_method payload_type role_name fun =
      let params = typed_inputs (remove_context_param fun.sig).inputs in
      record {
        attrs = fun.attrs;
        ident = fun.sig.ident;
        params = params;
        envelope_of = (role_name, extract_return_type fun.sig);
        payload_type = payload_type;
        variant = variant_text casing fun.sig;
        message = map (λ (p : String × Ty). p.0) params;
      }

  -- The message's patterns stand as a tuple expression.
  abbrev pub all_expressions : List String → Bool
  all_expressions [] = true
  all_expressions (p ∷ ps) = casing.is_expression p && all_expressions ps

  abbrev pub quoted : SendingMethod → Result Failure SendingMethod
  quoted m = if all_expressions m.message then ok m else err (error (internal_error ∷ []))

  -- `create_sending_method`: the variant's name can panic, and the parsing of what is quoted can fail.
  unfoldable pub create_sending_method :
      SynPath → RoleName → FunctionItem → Result Failure SendingMethod
  unfolding sending_method enum_variant_name
  create_sending_method payload_type role_name fun = elim (enum_variant_name casing fun.sig) [
    | none ↦ err panic
    | some variant_name ↦ quoted (sending_method payload_type role_name fun)
  ]

  -- `map_or_bail!`
  unfoldable pub sending_methods :
      SynPath → RoleName → List FunctionItem → Result Failure (List SendingMethod)
  unfolding create_sending_method
  sending_methods payload_type role_name [] = ok []
  sending_methods payload_type role_name (h ∷ hs) =
      create_sending_method payload_type role_name h >>= λ m.
      sending_methods payload_type role_name hs >>= λ ms. ok (m ∷ ms)

  -- `ActorPerf::new`
  unfoldable pub new_actor_perf : SynPath → RoleName → List FunctionItem → Result Failure ActorPerf
  unfolding sending_methods sender_method_name
  new_actor_perf payload_type role_name handlers =
      sending_methods payload_type role_name handlers >>= λ methods. ok (record {
        role_name = role_name;
        methods = methods;
        enqueues_by = sender_method_name casing role_name;
      })

  abbrev pub arm_of :
      RoleName → FunctionItem → Option (List ℕ) → Option (List Argument) → Result Failure Arm
  arm_of role_name fun (some names) (some args) = ok (record {
    variant = variant_text casing fun.sig;
    pattern_ = names;
    fn_name = make_method_name casing role_name fun.sig.ident;
    args = args;
    awaits = fun.sig.asyncness;
  })
  arm_of role_name fun _ _ = err panic

  -- `dispatch_case`; the subtraction of the patterns can overflow, which panics. The variants' names
  -- have been made for the sending methods before, and are identifiers.
  unfoldable pub dispatch_case : RoleName → FunctionItem → Result Failure Arm
  dispatch_case role_name fun =
      arm_of role_name fun (payload_pattern fun.sig) (method_call_pattern fun.sig)

  -- `map_or_bail!`
  unfoldable pub dispatch_cases : RoleName → List FunctionItem → Result Failure (List Arm)
  dispatch_cases role_name [] = ok []
  dispatch_cases role_name (h ∷ hs) =
      dispatch_case role_name h >>= λ arm. dispatch_cases role_name hs >>= λ arms. ok (arm ∷ arms)

  -- The handler under its new name, hidden from the documentation.
  unfoldable pub rename_handler : RoleName → Attribute → FunctionItem → FunctionItem
  rename_handler role_name hide_doc h = record {
    attrs = h.attrs ++ hide_doc ∷ [];
    sig = record (h.sig) { ident = make_method_name casing role_name h.sig.ident };
    block = h.block;
  }

  abbrev pub hide_doc : Attribute
  hide_doc = record {
    path = record { leading = []; last = record { ident = "doc"; arguments = "" } };
    args = "hidden";
  }

  -- `DispatchFunction::new`
  unfoldable pub new_dispatch : RoleName → List FunctionItem → Result Failure DispatchFunction
  unfolding rename_handler method_name
  new_dispatch role_name handlers = dispatch_cases role_name handlers >>= λ arms. ok (record {
    method = method_name casing role_name;
    arms = arms;
    renamed_handlers = map (rename_handler role_name hide_doc) handlers;
  })

  -- `PerfDispatch::new`; an empty performance generates nothing.
  abbrev pub for_handlers : RoleName → List FunctionItem → Result Failure (Option PerfDispatch)
  for_handlers role_name [] = ok none
  for_handlers role_name handlers =
      new_actor_perf (payload_path role_name) role_name handlers >>= λ actor_impl.
      new_dispatch role_name handlers >>= λ dispatch_fn.
      ok (some (record { actor_impl = actor_impl; dispatch_fn = dispatch_fn }))

  unfoldable pub new_perf_dispatch : PerformanceDecl → Result Failure (Option PerfDispatch)
  unfolding new_dispatch new_actor_perf
  new_perf_dispatch perf = for_handlers perf.role_name perf.handlers

  -- `make_performance` of lib.rs; the block's self type must be a path.
  abbrev pub some_dispatch : Option PerfDispatch → Result Failure PerfDispatch
  some_dispatch (some pd) = ok pd
  some_dispatch none = err (error (empty_performance ∷ []))

  abbrev pub standalone : Option SynPath → Ty → ItemImpl → Result Failure PerfDispatch
  standalone none self_ty imp = err (error (no_role_name ∷ []))
  standalone (some role_name) (named path) imp =
      new_performance role_name imp >>= λ decl. new_perf_dispatch decl >>= some_dispatch
  standalone (some role_name) _ imp = err (error (unsupported_self_type ∷ []))

  unfoldable pub make_performance : ItemImpl → Result Failure PerfDispatch
  unfolding new_perf_dispatch
  make_performance imp = standalone imp.trait_ imp.self_ty imp
