-- ===== src/Control/Tools/Reports.antt =====
-- internal/control/mcp_server.go: the outputs of the tools that only report.
use echo_mcp.Prelude.{String, none, List, [], ◌∷◌, false, true, ltb, if◌then◌else◌}
use echo_mcp.State.{Observation, WebhookDeliveryObservation}
use echo_mcp.Control.Manager.{Time}
use echo_mcp.Control.Status.{ContractStatus}
use echo_mcp.Control.Tools.Inputs.{outcome_http_response}
use echo_mcp.Control.Tools.Capabilities.{validation_capabilities_output_from_domain}
use echo_mcp.Control.Tools.Outputs.{
  GetContractStatusOutput, ObservationOutput, WebhookDeliveryObservationOutput,
}

-- The zero value of getContractStatusOutput with the four fields of an inactive status.
abbrev inactive_output : ContractStatus → GetContractStatusOutput
inactive_output status = record {
  active = false;
  message = status.message;
  contract_id = "";
  source_path = "";
  openapi_version = "";
  operations_count = 0;
  schemas_count = 0;
  loaded_at = "";
  validation_mode = "";
  validation_scope = "";
  validation_capabilities = none;
  validation_mode_description = "";
  unsupported_features = [];
  contract_root_configured = status.contract_root_configured;
  contract_root_source = status.contract_root_source;
}

abbrev loaded_at_text : (Time → String) → Time → String
loaded_at_text format loaded_at = if ltb 0 loaded_at then format loaded_at else ""

-- `format` prints a time in the layout of RFC 3339 with nanoseconds.
unfoldable pub contract_status_output : (Time → String) → ContractStatus → GetContractStatusOutput
contract_status_output format status =
    if status.active
    then record {
      active = true;
      message = "";
      contract_id = status.contract_id;
      source_path = status.source_path;
      openapi_version = status.openapi_version;
      operations_count = status.operations_count;
      schemas_count = status.schemas_count;
      loaded_at = loaded_at_text format status.loaded_at;
      validation_mode = status.validation_mode;
      validation_scope = status.validation_scope;
      validation_capabilities =
          validation_capabilities_output_from_domain status.validation_capabilities;
      validation_mode_description = status.validation_mode_description;
      unsupported_features = status.unsupported_features;
      contract_root_configured = status.contract_root_configured;
      contract_root_source = status.contract_root_source;
    }
    else inactive_output status

abbrev pub observation_output : Observation → ObservationOutput
observation_output o = record {
  method = o.request_method;
  path = o.request_path;
  matched_behavior_id = o.matched_rule_id;
  matched_on = "method" ∷ "path" ∷ [];
  outcome_type = outcome_http_response;
  status_code = o.outcome_status_code;
}

-- The loop over the observations.
unfoldable pub observation_outputs : List Observation → List ObservationOutput
observation_outputs [] = []
observation_outputs (o ∷ os) = observation_output o ∷ observation_outputs os

abbrev pub delivery_output : WebhookDeliveryObservation → WebhookDeliveryObservationOutput
delivery_output d = record {
  event_id = d.event_id;
  endpoint_name = d.endpoint_name;
  method = d.method;
  outcome = d.outcome;
  status_code = d.status_code;
  error = d.error;
}

-- The loop over the webhook deliveries.
unfoldable pub delivery_outputs :
    List WebhookDeliveryObservation → List WebhookDeliveryObservationOutput
delivery_outputs [] = []
delivery_outputs (d ∷ ds) = delivery_output d ∷ delivery_outputs ds
