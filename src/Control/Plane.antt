-- ===== src/Control/Plane.antt =====
-- internal/control/control.go and adapter.go: the control plane over the store and the manager.
pub mod Calls
pub mod Looks
pub mod Strict
pub mod Enforced
pub mod Loading
use echo_mcp.Prelude.{
  String, Bool, true, false, not, ◌&&◌, ◌||◌, Option, none, some, List, [], ◌∷◌, ◌==◌, ℤ, is_some,
  if◌then◌else◌,
}
use echo_mcp.Failure.{Failure, plain, Result, ok, err, ◌>>=◌, ◌>>◌}
use echo_mcp.State.{
  ResponseRule, WebhookDeliveryObservation, Store, reset as reset_store,
  configure_response_rule as store_rule, has_response_rule, record_webhook_delivery_observation,
}
use echo_mcp.Webhook.{Event, Delivery}
use echo_mcp.Contract.Document.{Codec}
use echo_mcp.Control.Files.{Files}
use echo_mcp.Control.Mode.{mode_off}
use echo_mcp.Control.Manager.{
  Time, ActiveContract, ContractManager, LoadCommand, LoadResult, BehaviorValidationOverride,
  no_override, UnloadResult, ensure_contract_root, load_openapi_contract, unload_openapi_contract,
}
use echo_mcp.Control.Status.{ContractStatus, status}
use echo_mcp.Control.Validation.{validate_rule}

-- The validator is the optional one beside the contract manager, and the sender is the optional
-- webhook sender (Webhook.send).
pub record LocalPlane : Type 0 where
  pub store : Store
  pub validator : Option (ResponseRule → Result (Unit {0}))
  pub contract_manager : ContractManager
  pub webhook_sender : Option (Event → Result Delivery)

-- What each operation leaves: its result and the plane.
abbrev pub Outcome : Type 0 → Type 0
Outcome A = Result A × LocalPlane

unfoldable pub extra_validation :
    Option (ResponseRule → Result (Unit {0})) → ResponseRule → Result (Unit {0})
extra_validation none rule = ok tt
extra_validation (some validator) rule = validator rule

-- The two validations in their order: the warnings of the first.
unfoldable pub validated :
    Codec → LocalPlane → ResponseRule → BehaviorValidationOverride → Result (List String)
validated codec p rule override = do
  warnings ← validate_rule codec p.contract_manager rule override
  extra_validation p.validator rule
  ok warnings

unfoldable pub store_if_valid :
    LocalPlane → ResponseRule → Result (List String) → Outcome (List String)
store_if_valid p rule (err e) = (err e, p)
store_if_valid p rule (ok warnings) = (ok warnings, record p { store = store_rule p.store rule })

unfoldable pub configure_response_rule_with_validation :
    Codec → LocalPlane → ResponseRule → BehaviorValidationOverride → Outcome (List String)
configure_response_rule_with_validation codec p rule override =
    store_if_valid p rule (validated codec p rule override)

abbrev pub without_warnings : Outcome (List String) → Outcome (Unit {0})
without_warnings (err e, p) = (err e, p)
without_warnings (ok warnings, p) = (ok tt, p)

unfoldable pub configure_response_rule : Codec → LocalPlane → ResponseRule → Outcome (Unit {0})
configure_response_rule codec p rule =
    without_warnings (configure_response_rule_with_validation codec p rule no_override)

abbrev pub with_manager {ℓ} : {A : Type ℓ} → LocalPlane → A × ContractManager → A × LocalPlane
with_manager p (a, m) = (a, record p { contract_manager = m })

unfoldable pub load : Files → Codec → Time → LocalPlane → LoadCommand → Outcome LoadResult
load files codec now p command =
    with_manager p
      (load_openapi_contract files codec now p.contract_manager command (has_response_rule p.store))

-- Status ensures the manager's root first.
unfoldable pub contract_status : Files → LocalPlane → ContractStatus × LocalPlane
contract_status files p =
    let m = ensure_contract_root files p.contract_manager in
    (status m, record p { contract_manager = m })

unfoldable pub unload : LocalPlane → Bool → Outcome UnloadResult
unload p force =
    with_manager p (unload_openapi_contract p.contract_manager force (has_response_rule p.store))

unfoldable pub contract_validation_active : Files → LocalPlane → Bool × LocalPlane
contract_validation_active files p =
    let s = contract_status files p in
    (is_some p.validator || (s.0.active && not (s.0.validation_mode == mode_off)), s.1)

abbrev pub delivery_observation : Delivery → WebhookDeliveryObservation
delivery_observation delivery = record {
  event_id = delivery.event_id;
  endpoint_name = delivery.endpoint_name;
  method = delivery.method;
  outcome = delivery.outcome;
  status_code = delivery.status_code;
  error = delivery.error;
}

unfoldable pub record_delivery : LocalPlane → Result Delivery → Outcome WebhookDeliveryObservation
record_delivery p (err e) = (err e, p)
record_delivery p (ok delivery) = (
  ok (delivery_observation delivery),
  record p { store = record_webhook_delivery_observation p.store (delivery_observation delivery) },
)

abbrev pub sent : Option (Event → Result Delivery) → Event → Result Delivery
sent none event = err (plain "no application webhook endpoint is configured")
sent (some sender) event = sender event

unfoldable pub send_webhook_event : LocalPlane → Event → Outcome WebhookDeliveryObservation
send_webhook_event p event = record_delivery p (sent p.webhook_sender event)

unfoldable pub reset : LocalPlane → LocalPlane
reset p = record p { store = reset_store p.store }

-- adapter.go: the rule's identifier is reported when it is configured.
unfoldable pub adapter_configure_response_rule : Codec → LocalPlane → ResponseRule → Outcome String
adapter_configure_response_rule codec p rule =
    let r = configure_response_rule codec p rule in (r.0 >> ok rule.id, r.1)
