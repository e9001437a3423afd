-- ===== src/Control/Construct/Fresh.antt =====
-- internal/control/control.go: which rules a plane from a constructor stores.
use echo_mcp.Prelude.{
  ◌≡◌, refl, ap, ◌↔◌, ◌∙◌, inl, inr, Bool, true, false, Option, none, some, List, [], String,
  if◌then◌else◌,
}
use echo_mcp.Failure.{Result, ok, err, is_ok, ◌>>=◌, ◌>>◌}
use echo_mcp.State.{ResponseRule, Store, configure_response_rule as store_rule}
use echo_mcp.Contract.Document.{OpenApiContract, Codec}
use echo_mcp.Contract.Rule.{validate_response_rule}
use echo_mcp.Control.Files.{Files}
use echo_mcp.Control.Mode.{mode_strict, mode_named, normalize_validation_mode}
use echo_mcp.Control.Manager.{
  Time, ActiveContract, new_contract_manager, new_contract_manager_with_contract, no_override,
}
use echo_mcp.Control.Validation.{
  effective_mode, validate_rule, validate_active, validate_in_mode, verdict,
}
use echo_mcp.Control.Plane.{
  LocalPlane, extra_validation, validated, store_if_valid, configure_response_rule_with_validation,
  without_warnings, configure_response_rule,
}
use echo_mcp.Control.Construct.{
  ResponseRuleValidator, openapi_contract, another, validator_method, Sender,
  new_with_webhook_sender, new_with_contract_manager_and_validator,
}

-- What the validator says, where there is one.
unfoldable pub said : Codec → Option ResponseRuleValidator → ResponseRule → Result (Unit {0})
said codec none rule = ok tt
said codec (some validator) rule = validator_method codec validator rule

normalize-strict : normalize_validation_mode mode_strict ≡ ok mode_strict
unfolding normalize_validation_mode mode_named echo_mcp.Prelude.to_lower echo_mcp.Prelude.trim_space
normalize-strict = refl

module _ (files : Files) (codec : Codec) (now : Time) (store : Option Store)
    (sender : Option Sender) (rule : ResponseRule) where
  abbrev fresh : Option ResponseRuleValidator → LocalPlane
  fresh validator = new_with_webhook_sender files codec now store validator sender

  is_ok-then : (r : Result (Unit {0})) (w : List String) → is_ok (r >> ok w) ≡ is_ok r
  is_ok-then (ok tt) w = refl
  is_ok-then (err e) w = refl

  is_ok-strict :
      (r : Result (Unit {0}))
      → is_ok (do w ← verdict mode_strict r; extra_validation none rule; ok w) ≡ is_ok r
  unfolding verdict extra_validation
  is_ok-strict (ok tt) = refl
  is_ok-strict (err e) = refl

  -- The contract becomes the active one, in strict mode.
  judged-contract :
      (c : OpenApiContract)
      → is_ok (validated codec (fresh (some (openapi_contract (some c)))) rule no_override)
        ≡ is_ok (validate_response_rule codec c rule)
  unfolding new_with_webhook_sender new_with_contract_manager_and_validator
      new_contract_manager_with_contract validated validate_rule validate_active effective_mode
      validate_in_mode
  judged-contract c = rw (normalize-strict) (is_ok-strict (validate_response_rule codec c rule))

  judged-said :
      (validator : Option ResponseRuleValidator)
      → is_ok (validated codec (fresh validator) rule no_override)
        ≡ is_ok (said codec validator rule)
  unfolding new_with_webhook_sender new_with_contract_manager_and_validator validated validate_rule
      validate_active extra_validation said validator_method new_contract_manager
      new_contract_manager_with_contract
  judged-said none = refl
  judged-said (some (another f)) = is_ok-then (f rule) []
  judged-said (some (openapi_contract none)) = refl
  judged-said (some (openapi_contract (some c))) = judged-contract c

  kept-said :
      (p : LocalPlane) (r : Result (List String))
      → (is_ok (without_warnings (store_if_valid p rule r)).0 ≡ is_ok r)
        × ((without_warnings (store_if_valid p rule r)).1.store
            ≡ (if is_ok r then store_rule p.store rule else p.store))
  unfolding store_if_valid
  kept-said p (ok w) = (refl, refl)
  kept-said p (err e) = (refl, refl)

-- The contract that is active: the validator's, in strict mode, if it is one.
abbrev pub IsGiven : Option ResponseRuleValidator → Option ActiveContract → Type 0
IsGiven none active = active ≡ none
IsGiven (some (another f)) active = active ≡ none
IsGiven (some (openapi_contract none)) active = active ≡ none
IsGiven (some (openapi_contract (some c))) active =
    (a : ActiveContract) × (active ≡ some a) × (a.openapi ≡ c) × (a.validation_mode ≡ mode_strict)

fresh-IsGiven :
    (files : Files) (codec : Codec) (now : Time) (store : Option Store)
    (validator : Option ResponseRuleValidator) (sender : Option Sender)
    → IsGiven validator
        (new_with_webhook_sender files codec now store validator sender).contract_manager.active
unfolding new_with_webhook_sender new_with_contract_manager_and_validator new_contract_manager
    new_contract_manager_with_contract
fresh-IsGiven files codec now store none sender = refl
fresh-IsGiven files codec now store (some (another f)) sender = refl
fresh-IsGiven files codec now store (some (openapi_contract none)) sender = refl
fresh-IsGiven files codec now store (some (openapi_contract (some c))) sender =
    rw (normalize-strict) (_, refl, refl, refl)

-- On a plane of NewWithWebhookSender, whatever its store and sender, configuring a rule succeeds and
-- stores the rule exactly if the validator that was passed accepts it, whether that is a contract,
-- or another validator; with no validator every rule is stored. A rule that is refused leaves the
-- store as it was. A contract that was passed is the plane's active contract, in strict mode; else
-- no contract is active.
pub configure_response_rule-said :
    (files : Files) (codec : Codec) (now : Time) (store : Option Store)
    (validator : Option ResponseRuleValidator) (sender : Option Sender) (rule : ResponseRule)
    → let p = new_with_webhook_sender files codec now store validator sender in
      IsGiven validator p.contract_manager.active
      × (is_ok (configure_response_rule codec p rule).0 ≡ is_ok (said codec validator rule))
      × ((configure_response_rule codec p rule).1.store
          ≡ (if is_ok (said codec validator rule) then store_rule p.store rule else p.store))
unfolding configure_response_rule configure_response_rule_with_validation
configure_response_rule-said files codec now store validator sender rule =
    let p = new_with_webhook_sender files codec now store validator sender in
    let same = judged-said files codec now store sender rule validator in
    let kept = kept-said files codec now store sender rule p (validated codec p rule no_override) in
    (
      fresh-IsGiven files codec now store validator sender,
      kept.0 ∙ same,
      kept.1 ∙ ap (λ b. if b then store_rule p.store rule else p.store) same,
    )
