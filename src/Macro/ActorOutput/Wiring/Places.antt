-- ===== src/Macro/ActorOutput/Wiring/Places.antt =====
-- The channels of a performance by its place (shakespeare-macro/src/outputs/actor).
use Prim.Native.String.{String, ◌++◌ as joined}
use text.Mathlib.TextLemmas
use text.Mathlib.TextPositions.{eq_refl}
use shakespeare.Prelude.{
  ℕ, zero, suc, ◌+◌, ◌≡◌, ◌≢◌, refl, sym, ap, ◌∙◌, subst, Option, some, List, [], ◌∷◌, map, All,
  arith,
}
use shakespeare.Macro.Naming.{Casing, queue_name, sender_method_name}
use shakespeare.Macro.Declarations.{PerformanceDecl}
use shakespeare.Macro.Performance.Dispatches.{get_elem?}
use shakespeare.Macro.ActorOutput.{Construction, FieldValue, sender_method, input_name, output_name}
use shakespeare.Macro.ActorOutput.Wiring.Texts.{different, input-ne-output}
use shakespeare.Macro.ActorOutput.Wiring.{Scope, construct, variable, field_channel, method_channel}

-- Names that differ from one another.
abbrev pub Differ : List String → Type 0
Differ [] = Unit
Differ (x ∷ xs) = All (λ y. x ≢ y) xs × Differ xs

module _ (casing : Casing) where
  abbrev pub constructions_of : List PerformanceDecl → List Construction
  constructions_of perfs =
      map
        (λ (perf : PerformanceDecl). record {
          input = input_name casing perf;
          output = output_name casing perf;
          role = perf.role_name;
        })
        perfs

  abbrev pub queue_of : PerformanceDecl → String
  queue_of perf = queue_name casing perf.role_name

  -- A variable that no later statement binds.
  Unbound : String → List PerformanceDecl → Type 0
  Unbound x ps = All (λ p. (x ≢ input_name casing p) × (x ≢ output_name casing p)) ps

  variable-construct :
      (x : String) (k : ℕ) (ps : List PerformanceDecl) (scope : Scope)
      → Unbound x ps
      → variable x (construct k (constructions_of ps) scope) ≡ variable x scope
  unfolding construct variable Unbound
  variable-construct x k [] scope n = refl
  variable-construct x k (p ∷ ps) scope ((n, m), ns) =
      variable-construct x (suc k) ps _ ns ∙ rw (different _ _ m) (rw (different _ _ n) refl)

  input-Unbound :
      (p : PerformanceDecl) (ps : List PerformanceDecl)
      → All (λ y. queue_of p ≢ y) (map queue_of ps)
      → Unbound (input_name casing p) ps
  unfolding Unbound
  input-Unbound p [] d = tt
  input-Unbound p (q ∷ ps) (n, d) = (
    (
      λ e. n (TextLemmas.append_cancel_right _ _ "_input" e),
      input-ne-output (queue_of p) (queue_of q),
    ),
    input-Unbound p ps d,
  )

  output-Unbound :
      (p : PerformanceDecl) (ps : List PerformanceDecl)
      → All (λ y. queue_of p ≢ y) (map queue_of ps)
      → Unbound (output_name casing p) ps
  unfolding Unbound
  output-Unbound p [] d = tt
  output-Unbound p (q ∷ ps) (n, d) = (
    (
      λ e. input-ne-output (queue_of q) (queue_of p) (sym e),
      λ e. n (TextLemmas.append_cancel_right _ _ "_output" e),
    ),
    output-Unbound p ps d,
  )

  -- Both ends of the channel `n` of a performance.
  abbrev pub BothEnds : PerformanceDecl → Scope → ℕ → Type 0
  BothEnds p scope n =
      (variable (input_name casing p) scope ≡ some n)
      × (variable (output_name casing p) scope ≡ some n)

  own_ends :
      (k : ℕ) (p : PerformanceDecl) (ps : List PerformanceDecl) (scope : Scope)
      → All (λ y. queue_of p ≢ y) (map queue_of ps)
      → BothEnds p (construct k (constructions_of (p ∷ ps)) scope) k
  unfolding construct variable
  own_ends k p ps scope d =
      let apart = different _ _ (input-ne-output (queue_of p) (queue_of p)) in
      (
        variable-construct (input_name casing p) (suc k) ps _ (input-Unbound p ps d)
            ∙ rw apart (rw (eq_refl (input_name casing p)) refl),
        variable-construct (output_name casing p) (suc k) ps _ (output-Unbound p ps d)
            ∙ rw (eq_refl (output_name casing p)) refl,
      )

  pub ends_in_scope :
      (k i : ℕ) (p : PerformanceDecl) (ps : List PerformanceDecl) (scope : Scope)
      → Differ (map queue_of ps)
      → get_elem? ps i ≡ some p
      → BothEnds p (construct k (constructions_of ps) scope) (k + i)
  unfolding construct
  ends_in_scope k i p [] scope d e = absurd (cc)
  ends_in_scope k zero p (q ∷ ps) scope (d, ds) e =
      let here : k ≡ k + 0 = omega arith in
      let is : q ≡ p = cc in
      subst (λ x. BothEnds x (construct k (constructions_of (q ∷ ps)) scope) (k + 0)) is
        (subst (λ n. BothEnds q (construct k (constructions_of (q ∷ ps)) scope) n) here
          (own_ends k q ps scope d))
  ends_in_scope k (suc i) p (q ∷ ps) scope (d, ds) e =
      subst (λ n. BothEnds p (construct k (constructions_of (q ∷ ps)) scope) n) (omega arith)
        (ends_in_scope (suc k) i p ps _ ds e)

  differs_at :
      (x : String) (i : ℕ) (p : PerformanceDecl) (ps : List PerformanceDecl)
      → All (λ y. x ≢ y) (map queue_of ps)
      → get_elem? ps i ≡ some p
      → queue_of p ≢ x
  differs_at x i p [] d e is = cc
  differs_at x zero p (q ∷ ps) (n, d) e is =
      let same : q ≡ p = cc in n (sym is ∙ ap queue_of (sym same))
  differs_at x (suc i) p (q ∷ ps) (n, d) e is = differs_at x i p ps d e is

  abbrev pub fields_of : List PerformanceDecl → List FieldValue
  fields_of ps =
      map
        (λ (perf : PerformanceDecl). record {
          name = queue_of perf;
          value = input_name casing perf;
        })
        ps

  pub field_at :
      (scope : Scope) (i : ℕ) (p : PerformanceDecl) (ps : List PerformanceDecl)
      → Differ (map queue_of ps)
      → get_elem? ps i ≡ some p
      → field_channel scope (fields_of ps) (queue_of p) ≡ variable (input_name casing p) scope
  unfolding field_channel
  field_at scope i p [] d e = absurd (cc)
  field_at scope zero p (q ∷ ps) (d, ds) e =
      let is : q ≡ p = cc in rw is (rw (eq_refl (queue_of p)) refl)
  field_at scope (suc i) p (q ∷ ps) (d, ds) e =
      rw (different _ _ (differs_at (queue_of q) i p ps d e)) (field_at scope i p ps ds e)

  pub method_at :
      (fields : String → Option ℕ) (i : ℕ) (p : PerformanceDecl) (ps : List PerformanceDecl)
      → Differ (map queue_of ps)
      → get_elem? ps i ≡ some p
      → method_channel fields
          (map (sender_method casing) ps)
          (sender_method_name casing p.role_name)
        ≡ fields (queue_of p)
  unfolding method_channel sender_method sender_method_name
  method_at fields i p [] d e = absurd (cc)
  method_at fields zero p (q ∷ ps) (d, ds) e =
      let is : q ≡ p = cc in rw is (rw (eq_refl (joined "push_to_" (queue_of p))) refl)
  method_at fields (suc i) p (q ∷ ps) (d, ds) e =
      let apart : joined "push_to_" (queue_of p) ≢ joined "push_to_" (queue_of q) = λ is.
        differs_at (queue_of q) i p ps d e (TextLemmas.append_cancel_left "push_to_" _ _ is) in
      rw (different _ _ apart) (method_at fields i p ps ds e)
