-- ===== src/Control/Construct.antt =====
-- internal/control/control.go: the constructors of LocalPlane. A nil pointer or interface is `none`.
pub mod Fresh
use echo_mcp.Prelude.{String, Option, none, some}
use echo_mcp.Failure.{Result, ok, err}
use echo_mcp.State.{ResponseRule, Store, new as new_store}
use echo_mcp.Webhook.{Event, Delivery}
use echo_mcp.Contract.Document.{OpenApiContract, Codec}
use echo_mcp.Contract.Rule.{validate_response_rule}
use echo_mcp.Control.Files.{Files}
use echo_mcp.Control.Mode.{mode_strict}
use echo_mcp.Control.Manager.{
  Time, ContractManager, new_contract_manager, new_contract_manager_with_contract,
}
use echo_mcp.Control.Plane.{LocalPlane}

-- The implementations of the interface that a caller can pass: an *OpenAPIContract, whose pointer may
-- be nil, or another one.
pub data ResponseRuleValidator : Type 0 where
  openapi_contract : Option OpenApiContract → ResponseRuleValidator
  another : (ResponseRule → Result (Unit {0})) → ResponseRuleValidator

-- The validator's method; that of a nil *OpenAPIContract accepts every rule.
unfoldable pub validator_method : Codec → ResponseRuleValidator → ResponseRule → Result (Unit {0})
validator_method codec (openapi_contract none) rule = ok tt
validator_method codec (openapi_contract (some c)) rule = validate_response_rule codec c rule
validator_method codec (another f) rule = f rule

abbrev pub Sender : Type 0
Sender = Event → Result Delivery

abbrev methods : Codec → Option ResponseRuleValidator → Option (ResponseRule → Result (Unit {0}))
methods codec none = none
methods codec (some validator) = some (validator_method codec validator)

abbrev given_or {ℓ} : {A : Type ℓ} → Option A → A → A
given_or none default = default
given_or (some a) default = a

unfoldable pub new_with_contract_manager_and_validator :
    Files
    → Codec
    → Option Store
    → Option ContractManager
    → Option ResponseRuleValidator
    → Option Sender
    → LocalPlane
new_with_contract_manager_and_validator files codec store manager validator webhook_sender =
    record {
      store = given_or store new_store;
      validator = methods codec validator;
      contract_manager = given_or manager (new_contract_manager files);
      webhook_sender = webhook_sender;
    }

abbrev pub new_with_contract_manager :
    Files → Codec → Option Store → Option ContractManager → Option Sender → LocalPlane
new_with_contract_manager files codec store manager webhook_sender =
    new_with_contract_manager_and_validator files codec store manager none webhook_sender

-- The manager of a contract, or, if there is an error, no manager and the validator beside it.
abbrev managed :
    ResponseRuleValidator
    → Result ContractManager
    → Option ContractManager × Option ResponseRuleValidator
managed validator (ok manager) = (some manager, none)
managed validator (err e) = (none, some validator)

-- The type assertion on the validator.
abbrev manager_and_validator :
    Files
    → Time
    → Option ResponseRuleValidator
    → Option ContractManager × Option ResponseRuleValidator
manager_and_validator files now none = (some (new_contract_manager files), none)
manager_and_validator files now (some (another f)) =
    (some (new_contract_manager files), some (another f))
manager_and_validator files now (some (openapi_contract c)) =
    managed (openapi_contract c) (new_contract_manager_with_contract files now "" c mode_strict now)

unfoldable pub new_with_webhook_sender :
    Files → Codec → Time → Option Store → Option ResponseRuleValidator → Option Sender → LocalPlane
new_with_webhook_sender files codec now store validator webhook_sender =
    let m = manager_and_validator files now validator in
    new_with_contract_manager_and_validator files codec store m.0 m.1 webhook_sender

abbrev pub new_with_validator :
    Files → Codec → Time → Option Store → Option ResponseRuleValidator → LocalPlane
new_with_validator files codec now store validator =
    new_with_webhook_sender files codec now store validator none

abbrev pub new : Files → Codec → Time → Option Store → LocalPlane
new files codec now store = new_with_validator files codec now store none
