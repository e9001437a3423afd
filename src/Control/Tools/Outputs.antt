-- ===== src/Control/Tools/Outputs.antt =====
-- internal/control/mcp_server.go: the outputs of the MCP tools. A nil pointer is `none`.
use echo_mcp.Prelude.{ℕ, String, Bool, false, Option, none, List, [], ℤ, if◌then◌else◌}
use echo_mcp.Failure.{Failure}
use echo_mcp.Contract.Load.{Counts}
use echo_mcp.Control.Manager.{LoadResult, UnloadResult}
use echo_mcp.Control.Status.{ContractStatus}
use echo_mcp.Control.Tools.Errors.{tool_error_from_error}
use echo_mcp.Control.Tools.Capabilities.{
  ValidationCapabilitiesOutput, validation_capabilities_output_from_domain,
}

pub record ConfigureBehaviorOutput : Type 0 where
  pub configured : Bool
  pub behavior_id : String
  pub warnings : List String
  pub guidance : List String
  pub suggested_next_actions : List String
  pub validation_scope : String
  pub validation_capabilities : Option ValidationCapabilitiesOutput
  pub validation_mode_description : String
  pub error : String
  pub code : String
  pub diagnostics : List String

pub record LoadOpenApiContractOutput : Type 0 where
  pub loaded : Bool
  pub contract_id : String
  pub source_path : String
  pub openapi_version : String
  pub operations_count : ℕ
  pub schemas_count : ℕ
  pub validation_mode : String
  pub validation_scope : String
  pub validation_capabilities : Option ValidationCapabilitiesOutput
  pub validation_mode_description : String
  pub unsupported_features : Counts
  pub warnings : List String
  pub suggested_next_actions : List String
  pub error : String
  pub code : String
  pub diagnostics : List String

pub record GetContractStatusOutput : Type 0 where
  pub active : Bool
  pub message : String
  pub contract_id : String
  pub source_path : String
  pub openapi_version : String
  pub operations_count : ℕ
  pub schemas_count : ℕ
  pub loaded_at : String
  pub validation_mode : String
  pub validation_scope : String
  pub validation_capabilities : Option ValidationCapabilitiesOutput
  pub validation_mode_description : String
  pub unsupported_features : Counts
  pub contract_root_configured : Bool
  pub contract_root_source : String

pub record UnloadOpenApiContractOutput : Type 0 where
  pub unloaded : Bool
  pub previous_contract_id : String
  pub suggested_next_actions : List String
  pub error : String
  pub code : String
  pub diagnostics : List String

pub record ResetOutput : Type 0 where
  pub reset : Bool
  pub cleared : List String
  pub contract_active : Bool
  pub contract_id : String
  pub suggested_next_actions : List String

pub record WebhookDeliveryOutput : Type 0 where
  pub outcome : String
  pub status_code : ℤ
  pub error : String

pub record SendWebhookEventOutput : Type 0 where
  pub attempted : Bool
  pub event_id : String
  pub endpoint_name : String
  pub delivery : WebhookDeliveryOutput
  pub warnings : List String
  pub suggested_next_actions : List String

-- The request, the selection and the outcome of the source are parts of one record here.
pub record ObservationOutput : Type 0 where
  pub method : String
  pub path : String
  pub matched_behavior_id : String
  pub matched_on : List String
  pub outcome_type : String
  pub status_code : ℤ

pub record WebhookDeliveryObservationOutput : Type 0 where
  pub event_id : String
  pub endpoint_name : String
  pub method : String
  pub outcome : String
  pub status_code : ℤ
  pub error : String

pub record GetObservationsOutput : Type 0 where
  pub observations : List ObservationOutput
  pub webhook_deliveries : List WebhookDeliveryObservationOutput
  pub guidance : List String

-- The output is given, and the pointer to it is never nil.
unfoldable pub apply_validation_disclosure :
    ConfigureBehaviorOutput → ContractStatus → ConfigureBehaviorOutput
apply_validation_disclosure output status =
    if status.active
    then record output {
      validation_scope = status.validation_scope;
      validation_capabilities =
          validation_capabilities_output_from_domain status.validation_capabilities;
      validation_mode_description = status.validation_mode_description;
    }
    else output

-- The output of a failure, before the disclosure.
abbrev undisclosed : Failure → ConfigureBehaviorOutput
undisclosed e =
    let tool_error = tool_error_from_error e in
    record {
      configured = false;
      behavior_id = "";
      warnings = [];
      guidance = [];
      suggested_next_actions = [];
      validation_scope = "";
      validation_capabilities = none;
      validation_mode_description = "";
      error = tool_error.error;
      code = tool_error.code;
      diagnostics = tool_error.diagnostics;
    }

abbrev pub configure_behavior_output_from_error : Failure → ContractStatus → ConfigureBehaviorOutput
configure_behavior_output_from_error e status = apply_validation_disclosure (undisclosed e) status

abbrev pub load_openapi_contract_output_from_error : Failure → LoadOpenApiContractOutput
load_openapi_contract_output_from_error e =
    let tool_error = tool_error_from_error e in
    record {
      loaded = false;
      contract_id = "";
      source_path = "";
      openapi_version = "";
      operations_count = 0;
      schemas_count = 0;
      validation_mode = "";
      validation_scope = "";
      validation_capabilities = none;
      validation_mode_description = "";
      unsupported_features = [];
      warnings = [];
      suggested_next_actions = [];
      error = tool_error.error;
      code = tool_error.code;
      diagnostics = tool_error.diagnostics;
    }

abbrev pub load_openapi_contract_output : LoadResult → LoadOpenApiContractOutput
load_openapi_contract_output result = record {
  loaded = result.loaded;
  contract_id = result.contract_id;
  source_path = result.source_path;
  openapi_version = result.openapi_version;
  operations_count = result.operations_count;
  schemas_count = result.schemas_count;
  validation_mode = result.validation_mode;
  validation_scope = result.validation_scope;
  validation_capabilities =
      validation_capabilities_output_from_domain result.validation_capabilities;
  validation_mode_description = result.validation_mode_description;
  unsupported_features = result.unsupported_features;
  warnings = result.warnings;
  suggested_next_actions = result.suggested_next_actions;
  error = "";
  code = "";
  diagnostics = [];
}

abbrev pub unload_openapi_contract_output_from_error : Failure → UnloadOpenApiContractOutput
unload_openapi_contract_output_from_error e =
    let tool_error = tool_error_from_error e in
    record {
      unloaded = false;
      previous_contract_id = "";
      suggested_next_actions = [];
      error = tool_error.error;
      code = tool_error.code;
      diagnostics = tool_error.diagnostics;
    }

abbrev pub unload_openapi_contract_output : UnloadResult → UnloadOpenApiContractOutput
unload_openapi_contract_output result = record {
  unloaded = result.unloaded;
  previous_contract_id = result.previous_contract_id;
  suggested_next_actions = result.suggested_next_actions;
  error = "";
  code = "";
  diagnostics = [];
}
