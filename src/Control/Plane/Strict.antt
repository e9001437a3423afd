-- ===== src/Control/Plane/Strict.antt =====
-- internal/control/control.go: a rule that passes the validations in strict mode is one that the active
-- contract accepts.
use echo_mcp.Prelude.{String, ◌≡◌, refl, ◌⊎◌, inl, inr, false, Option, some, List, Bool-cases}
use echo_mcp.Failure.{Failure, ok, err, Result-cases, ◌>>=◌, ◌>>◌}
use echo_mcp.State.{ResponseRule}
use echo_mcp.Contract.Document.{Codec}
use echo_mcp.Contract.Rule.{validate_response_rule}
use echo_mcp.Control.Mode.{mode_strict, normalize_validation_mode}
use echo_mcp.Control.Manager.{ActiveContract, BehaviorValidationOverride}
use echo_mcp.Control.Validation.{
  effective_mode, verdict, validate_in_mode, validate_active, validate_rule,
}
use echo_mcp.Control.Plane.{LocalPlane, validated, extra_validation}

module _ (codec : Codec) where
  -- A strict check that passed is the contract's own.
  strict-ok :
      (a : ActiveContract) (rule : ResponseRule) (override : BehaviorValidationOverride)
      (warnings : List String)
      → validate_in_mode codec a rule override mode_strict ≡ ok warnings
      → validate_response_rule codec a.openapi rule ≡ ok tt
  unfolding validate_in_mode verdict
  strict-ok a rule override warnings h =
      elim (Result-cases (validate_response_rule codec a.openapi rule)) [
        | inl (tt, e) ↦ e
        | inr (e, bad) ↦ absurd (strict-verdict e h bad)
      ]
    where
      strict-verdict :
          (e : Failure)
          → verdict mode_strict (validate_response_rule codec a.openapi rule) ≡ ok warnings
          → validate_response_rule codec a.openapi rule ≡ err e
          → ⊥
      strict-verdict e k bad = cc (k, bad)

  pub effective_mode-strict :
      (a : ActiveContract) (override : BehaviorValidationOverride)
      → a.validation_mode ≡ mode_strict
      → (override.mode_set ≡ false) ⊎ (normalize_validation_mode override.mode ≡ ok mode_strict)
      → effective_mode a override ≡ ok mode_strict
  unfolding effective_mode
  effective_mode-strict a override e (inl unset) = rw (unset, e) refl
  effective_mode-strict a override e (inr strict) = elim (Bool-cases override.mode_set) [
    | inl h ↦ rw (h) strict
    | inr h ↦ rw (h, e) refl
  ]

  validate_active-mode :
      (a : ActiveContract) (o : Option ActiveContract) (rule : ResponseRule)
      (override : BehaviorValidationOverride) (mode : String)
      → o ≡ some a
      → effective_mode a override ≡ ok mode
      → validate_active codec o rule override ≡ validate_in_mode codec a rule override mode
  unfolding validate_active
  validate_active-mode a o rule override mode e f = rw (e, f) refl

  pub validated-strict :
      (p : LocalPlane) (a : ActiveContract) (rule : ResponseRule)
      (override : BehaviorValidationOverride) (warnings : List String)
      → p.contract_manager.active ≡ some a
      → effective_mode a override ≡ ok mode_strict
      → validated codec p rule override ≡ ok warnings
      → validate_response_rule codec a.openapi rule ≡ ok tt
  unfolding validated validate_rule
  validated-strict p a rule override warnings e f h =
      elim (Result-cases (validate_in_mode codec a rule override mode_strict)) [
        | inl (w, k) ↦ strict-ok a rule override w k
        | inr (g, k) ↦ absurd (refused g k h)
      ]
    where
      refused :
          (g : Failure)
          → validate_in_mode codec a rule override mode_strict ≡ err g
          → (do
            w ← validate_active codec p.contract_manager.active rule override
            extra_validation p.validator rule
            ok w)
            ≡ ok warnings
          → ⊥
      refused g k h =
          cc (validate_active-mode a p.contract_manager.active rule override mode_strict e f, k, h)
