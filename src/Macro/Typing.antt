-- ===== src/Macro/Typing.antt =====
-- Rust's typing rules, as far as the code that the macros generate for a role and its performances
-- needs them (shakespeare-macro/src/outputs): tuples of names, patterns, variants, and calls.
pub mod Roles
pub mod Scopes
pub mod Performances
use shakespeare.Prelude.{
  ◌≡◌, ◌≢◌, ◌⊎◌, inl, inr, refl, ap, List, [], ◌∷◌, map, String, All, Listed, ℕ,
}
use shakespeare.Macro.Syntax.{Ty, FnArg, FunctionItem}
use shakespeare.Macro.Signatures.{Argument, context, numbered, typed_inputs, extract_return_type}
use shakespeare.Macro.RoleOutput.{
  parenthesised, AcceptsImpl, PayloadEnum, EmitsImpl, ReturnPayload, RoleOutput,
}
use shakespeare.Macro.Performance.{SendingMethod, Arm, DispatchFunction, PerfDispatch}

-- A name has a type in a scope; one in front hides those of its name behind it.
abbrev pub Bound : {N : Type 0} → N → Ty → List (N × Ty) → Type 0
Bound x t [] = ⊥
Bound x t ((y, u) ∷ scope) = ((y ≡ x) × (u ≡ t)) ⊎ ((y ≢ x) × Bound x t scope)

abbrev pub AllBound : {N : Type 0} → List (N × Ty) → List N → List Ty → Type 0
AllBound scope [] [] = Unit
AllBound scope (x ∷ xs) (t ∷ ts) = Bound x t scope × AllBound scope xs ts
AllBound scope _ _ = ⊥

-- The expression `(x, y, …)`, where one name is only in parentheses.
pub record IsTuple {N : Type 0} (scope : List (N × Ty)) (names : List N) (t : Ty) : Type 0 where
  pub members : List Ty
  pub bound : AllBound scope names members
  pub whole : t ≡ parenthesised members

-- The scope that a pattern's names make, each with its type.
abbrev pub scope_of : {N : Type 0} → List N → List Ty → List (N × Ty)
scope_of (x ∷ xs) (t ∷ ts) = (x, t) ∷ scope_of xs ts
scope_of _ _ = []

abbrev pub SameLength : {N : Type 0} → List N → List Ty → Type 0
SameLength [] [] = Unit
SameLength (x ∷ xs) (t ∷ ts) = SameLength xs ts
SameLength _ _ = ⊥

-- The pattern `(x, y, …)` against a value of a type, and the scope that it makes.
pub record IsPattern {N : Type 0} (names : List N) (t : Ty) (scope : List (N × Ty)) : Type 0 where
  pub members : List Ty
  pub whole : t ≡ parenthesised members
  pub fits : SameLength names members
  pub makes : scope ≡ scope_of names members

-- A call's arguments against the declared types, where the context has a type of its own.
abbrev pub AllPassed : Ty → List (ℕ × Ty) → List Argument → List Ty → Type 0
AllPassed c scope [] [] = Unit
AllPassed c scope (context ∷ as') (t ∷ ts) = (t ≡ c) × AllPassed c scope as' ts
AllPassed c scope (numbered i ∷ as') (t ∷ ts) = Bound i t scope × AllPassed c scope as' ts
AllPassed c scope _ _ = ⊥

-- `into_payload` of an implementation of `Accepts` makes a variant of the enum, of the value.
abbrev pub AcceptsTyped : PayloadEnum → AcceptsImpl → Type 0
AcceptsTyped e impl = Listed (impl.variant, impl.accepted) e.variants

-- Each alternative of the pattern in `from_return_payload` binds a value of the type returned.
abbrev pub EmitsTyped : ReturnPayload → EmitsImpl → Type 0
EmitsTyped e impl = All (λ (v : String). Listed (v, impl.typ) e.variants) impl.variants

pub record RoleTyped (out : RoleOutput) : Type 0 where
  pub accepts : All (AcceptsTyped out.payload_enum) out.payload_enum.impls
  pub emits : All (EmitsTyped out.return_payload_enum) out.return_payload_enum.impls
  -- What the trait's methods promise can be cast to: there is an implementation of `Emits`.
  pub castable :
      All
        (λ m. (impl : _) × Listed impl out.return_payload_enum.impls × (impl.typ ≡ m.envelope_of.1))
        out.trait_methods

-- The body of a sending method: its message is of a variant's type, the envelope is for the role,
-- and the type that it promises can be cast to.
pub record SendTyped (out : RoleOutput) (m : SendingMethod) : Type 0 where
  pub message_type : Ty
  pub message : IsTuple m.params m.message message_type
  pub variant : Listed (m.variant, message_type) out.payload_enum.variants
  pub enum_ : m.payload_type ≡ out.role_payload
  pub impl : EmitsImpl
  pub castable : Listed impl out.return_payload_enum.impls
  pub promised : impl.typ ≡ m.envelope_of.1

-- An arm: its pattern is of its variant's type, its call is of a renamed handler with arguments of
-- the declared types, and the handler's value, awaited if need be, is of the reply's variant.
pub record ArmTyped (c : Ty) (out : RoleOutput) (d : DispatchFunction) (arm : Arm) : Type 0 where
  pub payload_type : Ty
  pub scope : List (ℕ × Ty)
  pub handler : FunctionItem
  pub variant : Listed (arm.variant, payload_type) out.payload_enum.variants
  pub pattern_ : IsPattern arm.pattern_ payload_type scope
  pub defined : Listed handler d.renamed_handlers
  pub name : arm.fn_name ≡ handler.sig.ident
  pub passed :
      AllPassed c scope arm.args (map (λ (p : String × Ty). p.1) (typed_inputs handler.sig.inputs))
  pub awaited : arm.awaits ≡ handler.sig.asyncness
  pub reply : Listed (arm.variant, extract_return_type handler.sig) out.return_payload_enum.variants

-- What is generated for a performance, against what is generated for its role; the last is that
-- the `match` leaves out no variant.
pub record PerfTyped (c : Ty) (out : RoleOutput) (pd : PerfDispatch) : Type 0 where
  pub sends : All (SendTyped out) pd.actor_impl.methods
  pub arms : All (ArmTyped c out pd.dispatch_fn) pd.dispatch_fn.arms
  pub exhaustive :
      map (λ (p : String × Ty). p.0) out.payload_enum.variants
      ≡ map (λ (a : Arm). a.variant) pd.dispatch_fn.arms
