-- ===== src/Macro/Naming.antt =====
-- shakespeare-macro/src/data/role_name.rs and the name builders beside it: the names that are
-- generated for a role.
use Prim.Native.String.{◌++◌}
use text.Mathlib.TextLemmas.{append_assoc, append_cancel_right}
use shakespeare.Prelude.{Bool, ◌≡◌, refl, sym, ap, String}
use shakespeare.Macro.Syntax.{SynPath}

-- What the code takes from the crate `convert_case`, and what quote and syn say of a text: whether
-- `format_ident!` takes it, which panics otherwise, and whether it parses as an expression. The names
-- that are made for roles and renamed handlers are taken to be identifiers.
pub record Casing : Type 0 where
  pub snake : String → String
  pub upper_camel : String → String
  pub is_ident : String → Bool
  pub is_expression : String → Bool

abbrev pub RoleName : Type 0
RoleName = SynPath

unfoldable pub path_leaf : RoleName → String
path_leaf r = r.last.ident

-- The arguments of the last segment stay.
unfoldable pub map_path_leaf : SynPath → (String → String) → SynPath
map_path_leaf p f = record p { last = record (p.last) { ident = f p.last.ident } }

unfoldable pub payload_path : RoleName → SynPath
unfolding map_path_leaf
payload_path r = map_path_leaf r (λ data_name. data_name ++ "Payload")

unfoldable pub return_payload_path : RoleName → SynPath
unfolding map_path_leaf
return_payload_path r = map_path_leaf r (λ p. p ++ "ReturnPayload")

module _ (casing : Casing) where
  open casing use {snake}

  unfoldable pub queue_name : RoleName → String
  unfolding path_leaf
  queue_name r = snake (path_leaf r)

  unfoldable pub method_name : RoleName → String
  unfolding path_leaf
  method_name r = snake ("perform_" ++ path_leaf r)

  unfoldable pub sender_method_name : RoleName → String
  unfolding queue_name
  sender_method_name r = "push_to_" ++ queue_name r

  -- `make_method_name` of outputs/performance/dispatch_core_fn.rs
  unfoldable pub make_method_name : RoleName → String → String
  unfolding path_leaf
  make_method_name r name = snake (path_leaf r ++ ("_" ++ name))

-- A path is known by its leading segments and the parts of its last.
SynPath-eq :
    (p q : SynPath)
    → p.leading ≡ q.leading
    → p.last.ident ≡ q.last.ident
    → p.last.arguments ≡ q.last.arguments
    → p ≡ q
SynPath-eq p q a b c = λ i. record { leading = a i; last = record { ident = b i; arguments = c i } }

-- Two roles whose payload enums have one path are one role, and so for their return payloads.
pub payload_path_injective :
    (p q : RoleName)
    → (payload_path p ≡ payload_path q → p ≡ q)
      × (return_payload_path p ≡ return_payload_path q → p ≡ q)
unfolding payload_path return_payload_path
payload_path_injective p q = (
  λ e.
      SynPath-eq p q (ap (λ (x : SynPath). x.leading) e)
        (append_cancel_right _ _ "Payload" (ap (λ (x : SynPath). x.last.ident) e))
        (ap (λ (x : SynPath). x.last.arguments) e),
  λ e.
      SynPath-eq p q (ap (λ (x : SynPath). x.leading) e)
        (append_cancel_right _ _ "ReturnPayload" (ap (λ (x : SynPath). x.last.ident) e))
        (ap (λ (x : SynPath). x.last.arguments) e),
)

-- The return payload enum of every role has the path of the payload enum of the role whose name is
-- that role's with `Return` behind it: the two roles cannot stand in one module.
pub payload_path_collides :
    (r : RoleName)
    → return_payload_path r ≡ payload_path (map_path_leaf r (λ name. name ++ "Return"))
unfolding payload_path return_payload_path map_path_leaf
payload_path_collides r =
    SynPath-eq _ _ refl (sym (append_assoc r.last.ident "Return" "Payload")) refl
