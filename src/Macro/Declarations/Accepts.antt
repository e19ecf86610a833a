-- ===== src/Macro/Declarations/Accepts.antt =====
-- Which performances are accepted (shakespeare-macro/src/declarations/performance.rs).
use shakespeare.Prelude.{
  ◌≡◌, ◌↔◌, refl, true, false, List, [], ◌∷◌, ok, All, Result-cases, inl, inr, arith,
}
use shakespeare.Macro.Syntax.{SynPath, FunctionItem, ItemImpl}
use shakespeare.Macro.Declarations.{
  functions, has_type_params, starts_with_receiver, check_handler, check_handlers, new_performance,
  PerformanceDecl,
}

-- A method that a performance may have.
abbrev pub IsHandler : FunctionItem → Type 0
IsHandler h = (has_type_params h.sig.generics ≡ false) × (starts_with_receiver h.sig.inputs ≡ true)

check_handler_iff : (h : FunctionItem) → (check_handler h ≡ ok tt) ↔ IsHandler h
unfolding check_handler
check_handler_iff h = (λ e. ground arith, λ e. ground arith)

pub check_handlers_iff : (hs : List FunctionItem) → (check_handlers hs ≡ ok tt) ↔ All IsHandler hs
unfolding check_handlers
check_handlers_iff [] = (λ e. tt, λ e. refl)
check_handlers_iff (h ∷ hs) = (
  λ e. ground (arith, check_handler_iff h, check_handlers_iff hs),
  λ (first, rest). rw ((check_handler_iff h).1 first) ((check_handlers_iff hs).1 rest),
)

-- `PerformanceDecl::new` accepts an impl block exactly when each of its methods has a self-receiver
-- and no generic type parameter, and then has its methods, in order, and the role's name.
pub new_performance_iff :
    (role : SynPath) (imp : ItemImpl) (d : PerformanceDecl)
    → (new_performance role imp ≡ ok d) ↔ (
        All IsHandler (functions imp.items)
        × (d ≡ record { role_name = role; handlers = functions imp.items }))
unfolding new_performance
new_performance_iff role imp d = (
  λ e. elim (Result-cases (check_handlers (functions imp.items))) [
    | inl (u, checked) ↦
        ((check_handlers_iff (functions imp.items)).0 checked, cc (rw checked at e))
    | inr (x, failed) ↦ absurd (cc (rw failed at e))
  ],
  λ (all, is). rw ((check_handlers_iff (functions imp.items)).1 all, is),
)
