-- ===== src/Core/Shown.antt =====
-- What `Debug` prints of the values of src/core, and when values are equal.
use Prim.Native.String.{◌++◌}
use shakespeare.Prelude.{◌≡◌, ◌↔◌, refl, ap, Bool, true, String}
use shakespeare.Core.Outcome
use shakespeare.Core.Outcome.{Outcome, exit, panic}
use shakespeare.Core.Caster
use shakespeare.Core.Caster.{EnvelopeErr, sending_error, hangup, ReturnCaster}
use shakespeare.Core.Role.{Roles, ReturnPath, discard, mailbox, immediate, ReturnEnvelope}

unfoldable pub show_outcome : {Exit Panic : Type 0} → Outcome Exit Panic → String
show_outcome (exit e) = "ActorOutcome::Exit"
show_outcome (panic p) = "ActorOutcome::Panic"

unfoldable pub show_return_path : (roles : Roles) {Ret : Type 0} → ReturnPath roles Ret → String
show_return_path roles discard = "<ReturnPath::Discard>"
show_return_path roles (mailbox callback) = "<ReturnPath::Mailbox>"
show_return_path roles (immediate sender) = "<ReturnPath::Immediate>"

unfoldable pub show_return_envelope :
    (roles : Roles) (r : roles.Role) → ReturnEnvelope roles r → String
show_return_envelope roles r e = "<ReturnEnvelope>"

-- The name of a role is that of its type; the field is printed as a string, in quotes.
unfoldable pub show_envelope_err : {E : Type 0} → String → EnvelopeErr E → String
show_envelope_err role (sending_error e) = "EnvelopeErr<" ++ (role ++ ">(\"SendingError\")")
show_envelope_err role hangup = "EnvelopeErr<" ++ (role ++ ">(\"Hangup\")")

unfoldable pub show_return_caster : {E R : Type 0} → String → String → ReturnCaster E R → String
show_return_caster role value c = "ReturnCaster<" ++ (role ++ (", " ++ (value ++ ">")))

module _ {A : Type 0} (same : A → A → Bool)
    (same_iff : (a b : A) → (same a b ≡ true) ↔ (a ≡ b)) where
  -- Errors of awaited envelopes are equal by their test exactly if they are equal, for senders' errors
  -- of which that holds.
  pub eq_iff : (x y : EnvelopeErr A) → (Caster.eq same x y ≡ true) ↔ (x ≡ y)
  unfolding Caster.eq
  eq_iff (sending_error a) (sending_error b) =
      (λ e. ap sending_error ((same_iff a b).0 e), λ e. (same_iff a b).1 (ap (error_or a) e))
    where
      error_or : A → EnvelopeErr A → A
      error_or z (sending_error e) = e
      error_or z hangup = z
  eq_iff hangup hangup = (λ e. refl, λ e. refl)
  eq_iff (sending_error a) hangup = (λ e. absurd (cc e), λ e. absurd (cc e))
  eq_iff hangup (sending_error b) = (λ e. absurd (cc e), λ e. absurd (cc e))

module _ {A B : Type 0} (same : A → A → Bool) (same_iff : (a b : A) → (same a b ≡ true) ↔ (a ≡ b))
    (same' : B → B → Bool) (same'_iff : (a b : B) → (same' a b ≡ true) ↔ (a ≡ b)) where
  -- Outcomes are equal by their test exactly if they are equal, for values of which that holds.
  pub outcome-eq_iff : (x y : Outcome A B) → (Outcome.eq same same' x y ≡ true) ↔ (x ≡ y)
  unfolding Outcome.eq
  outcome-eq_iff (exit a) (exit b) =
      (λ e. ap exit ((same_iff a b).0 e), λ e. (same_iff a b).1 (ap (value_or a) e))
    where
      value_or : A → Outcome A B → A
      value_or z (exit v) = v
      value_or z (panic v) = z
  outcome-eq_iff (panic a) (panic b) =
      (λ e. ap panic ((same'_iff a b).0 e), λ e. (same'_iff a b).1 (ap (value_or a) e))
    where
      value_or : B → Outcome A B → B
      value_or z (exit v) = z
      value_or z (panic v) = v
  outcome-eq_iff (exit a) (panic b) = (λ e. absurd (cc e), λ e. absurd (cc e))
  outcome-eq_iff (panic a) (exit b) = (λ e. absurd (cc e), λ e. absurd (cc e))
