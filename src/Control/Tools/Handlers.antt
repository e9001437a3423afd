-- ===== src/Control/Tools/Handlers.antt =====
-- internal/control/mcp_server.go: the handlers of the MCP tools. A handler answers its output, with
-- the mark of an error that is reported in it, or a protocol error, which is `err`; and it leaves a
-- plane.
use echo_mcp.Prelude.{String, Bool, true, false, none, List, [], ◌∷◌, ◌++◌, length}
use echo_mcp.Failure.{Result, ok, err}
use echo_mcp.State.{WebhookDeliveryObservation}
use echo_mcp.Contract.Document.{Codec}
use echo_mcp.Control.Files.{Files}
use echo_mcp.Control.Manager.{Time, LoadCommand, LoadResult, UnloadResult}
use echo_mcp.Control.Status.{ContractStatus}
use echo_mcp.Control.Plane.{
  LocalPlane, Outcome, configure_response_rule_with_validation, load, contract_status, unload,
  send_webhook_event, reset,
}
use echo_mcp.Control.Tools.Inputs.{
  ConfigureBehaviorInput, SendWebhookEventInput, validate_configure_behavior, rule_of,
  configure_behavior_validation_override, validate_send_webhook_event, event_of,
}
use echo_mcp.Control.Tools.Outputs.{
  ConfigureBehaviorOutput, LoadOpenApiContractOutput, GetContractStatusOutput,
  UnloadOpenApiContractOutput, ResetOutput, SendWebhookEventOutput, GetObservationsOutput,
  apply_validation_disclosure, configure_behavior_output_from_error, load_openapi_contract_output,
  load_openapi_contract_output_from_error, unload_openapi_contract_output,
  unload_openapi_contract_output_from_error,
}
use echo_mcp.Control.Tools.Reports.{contract_status_output, observation_outputs, delivery_outputs}
use echo_mcp.Control.Tools.Guidance.{
  configure_behavior_warnings, configure_behavior_guidance, webhook_delivery_warnings,
  observation_guidance,
}

-- What a handler returns without a protocol error; IsError is false in a nil result.
pub record ToolAnswer (A : Type 0) : Type 0 where
  pub is_error : Bool
  pub output : A

abbrev pub done : {A : Type 0} → A → ToolAnswer A
done output = record { is_error = false; output = output }

abbrev pub failed : {A : Type 0} → A → ToolAnswer A
failed output = record { is_error = true; output = output }

abbrev pub Handled : Type 0 → Type 0
Handled A = Result (ToolAnswer A) × LocalPlane

-- The output for a rule that was stored, before the disclosure.
abbrev configured_output : String → List String → List String → ConfigureBehaviorOutput
configured_output behavior_id warnings guidance = record {
  configured = true;
  behavior_id = behavior_id;
  warnings = warnings;
  guidance = guidance;
  suggested_next_actions =
      "Run the application test normally." ∷ "Call get_observations to inspect data-plane evidence."
      ∷ [];
  validation_scope = "";
  validation_capabilities = none;
  validation_mode_description = "";
  error = "";
  code = "";
  diagnostics = [];
}

-- From the call of ConfigureResponseRuleWithValidation on.
unfoldable pub report_configured :
    Files → String → Outcome (List String) → Handled ConfigureBehaviorOutput
report_configured files behavior_id (err e, p) =
    let s = contract_status files p in
    (ok (failed (configure_behavior_output_from_error e s.0)), s.1)
report_configured files behavior_id (ok validation_warnings, p) =
    let warnings = configure_behavior_warnings files p in
    let guidance = configure_behavior_guidance files warnings.1 in
    let s = contract_status files guidance.1 in
    (
      ok (
          done (
            apply_validation_disclosure
              (configured_output behavior_id (validation_warnings ++ warnings.0) guidance.0) s.0)),
      s.1,
    )

abbrev pub configure_checked :
    Files
    → Codec
    → LocalPlane
    → ConfigureBehaviorInput
    → Result (Unit {0})
    → Handled ConfigureBehaviorOutput
configure_checked files codec p input (err e) = (err e, p)
configure_checked files codec p input (ok checked) = report_configured files input.behavior_id (
    configure_response_rule_with_validation codec p (rule_of input)
      (configure_behavior_validation_override input.validation_mode input.validation_reason))

unfoldable pub configure_behavior :
    Files → Codec → LocalPlane → ConfigureBehaviorInput → Handled ConfigureBehaviorOutput
configure_behavior files codec p input =
    configure_checked files codec p input (validate_configure_behavior input)

abbrev pub load_answer : Result LoadResult → ToolAnswer LoadOpenApiContractOutput
load_answer (ok result) = done (load_openapi_contract_output result)
load_answer (err e) = failed (load_openapi_contract_output_from_error e)

unfoldable pub load_openapi_contract_tool :
    Files → Codec → Time → LocalPlane → LoadCommand → Handled LoadOpenApiContractOutput
load_openapi_contract_tool files codec now p command =
    let r = load files codec now p command in (ok (load_answer r.0), r.1)

unfoldable pub get_contract_status_tool :
    Files → (Time → String) → LocalPlane → Handled GetContractStatusOutput
get_contract_status_tool files format p =
    let s = contract_status files p in (ok (done (contract_status_output format s.0)), s.1)

abbrev unload_answer : Result UnloadResult → ToolAnswer UnloadOpenApiContractOutput
unload_answer (ok result) = done (unload_openapi_contract_output result)
unload_answer (err e) = failed (unload_openapi_contract_output_from_error e)

unfoldable pub unload_openapi_contract_tool :
    LocalPlane → Bool → Handled UnloadOpenApiContractOutput
unload_openapi_contract_tool p force = let r = unload p force in (ok (unload_answer r.0), r.1)

abbrev pub reset_output : ContractStatus → ResetOutput
reset_output status = record {
  reset = true;
  cleared = "behavior" ∷ "observations" ∷ "webhook_deliveries" ∷ [];
  contract_active = status.active;
  contract_id = status.contract_id;
  suggested_next_actions = "Configure the next behavior or webhook scenario." ∷ [];
}

-- The plane's Reset returns no error.
unfoldable pub reset_tool : Files → LocalPlane → Handled ResetOutput
reset_tool files p = let s = contract_status files (reset p) in (ok (done (reset_output s.0)), s.1)

abbrev pub sent_output : WebhookDeliveryObservation → SendWebhookEventOutput
sent_output delivery = record {
  attempted = true;
  event_id = delivery.event_id;
  endpoint_name = delivery.endpoint_name;
  delivery = record {
    outcome = delivery.outcome;
    status_code = delivery.status_code;
    error = delivery.error;
  };
  warnings = webhook_delivery_warnings delivery.outcome;
  suggested_next_actions =
      "Assert application behavior normally."
      ∷ "Call get_observations to inspect webhook delivery evidence." ∷ [];
}

abbrev pub sent_answer : Outcome WebhookDeliveryObservation → Handled SendWebhookEventOutput
sent_answer (err e, p) = (err e, p)
sent_answer (ok delivery, p) = (ok (done (sent_output delivery)), p)

abbrev pub send_checked :
    LocalPlane → SendWebhookEventInput → Result (Unit {0}) → Handled SendWebhookEventOutput
send_checked p input (err e) = (err e, p)
send_checked p input (ok checked) = sent_answer (send_webhook_event p (event_of input))

unfoldable pub send_webhook_event_tool :
    LocalPlane → SendWebhookEventInput → Handled SendWebhookEventOutput
send_webhook_event_tool p input = send_checked p input (validate_send_webhook_event input)

unfoldable pub get_observations : LocalPlane → GetObservationsOutput
get_observations p = record {
  observations = observation_outputs p.store.observations;
  webhook_deliveries = delivery_outputs p.store.webhook_deliveries;
  guidance = observation_guidance (length p.store.observations) (length p.store.webhook_deliveries);
}
