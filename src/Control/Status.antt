-- ===== src/Control/Status.antt =====
-- internal/control/contract_manager.go: what (*ContractManager).Status reports. A nil manager is not
-- modelled; a map is copied as itself.
use echo_mcp.Prelude.{ℕ, String, Bool, true, false, Option, none, some, []}
use echo_mcp.Contract.Load.{Counts}
use echo_mcp.Control.Root.{contract_root_source_working_directory}
use echo_mcp.Control.Mode.{
  ValidationCapabilities, current_validation_capabilities, validation_scope_partial,
  validation_mode_description_text,
}
use echo_mcp.Control.Manager.{Time, ActiveContract, ContractManager}

pub record ContractStatus : Type 0 where
  pub active : Bool
  pub message : String
  pub contract_id : String
  pub source_path : String
  pub openapi_version : String
  pub operations_count : ℕ
  pub schemas_count : ℕ
  pub loaded_at : Time
  pub validation_mode : String
  pub validation_scope : String
  pub validation_capabilities : ValidationCapabilities
  pub validation_mode_description : String
  pub unsupported_features : Counts
  pub contract_root_configured : Bool
  pub contract_root_source : String

-- Go's zero value of the capabilities.
abbrev pub no_capabilities : ValidationCapabilities
no_capabilities = record {
  method_path = false;
  response_status = false;
  response_content_type = false;
  response_body = false;
  inline_json_response_schema = false;
  request_body = false;
  request_query = false;
  request_headers = false;
  path_parameter_schema = false;
  ref_resolution = false;
  local_ref_resolution = false;
  remote_ref_resolution = false;
  arrays = false;
  enum = false;
  all_of = false;
  one_of = false;
  any_of = false;
  nullable = false;
  additional_properties = false;
  additional_properties_schema = false;
  open_api31 = false;
  yaml = false;
  remote_fetch = false;
}

-- The function inactiveContractStatus, of the fields it leaves zero as well.
abbrev inactive_contract_status : ContractStatus
inactive_contract_status = record {
  active = false;
  message = "No OpenAPI contract is currently loaded.";
  contract_id = "";
  source_path = "";
  openapi_version = "";
  operations_count = 0;
  schemas_count = 0;
  loaded_at = 0;
  validation_mode = "";
  validation_scope = "";
  validation_capabilities = no_capabilities;
  validation_mode_description = "";
  unsupported_features = [];
  contract_root_configured = false;
  contract_root_source = contract_root_source_working_directory;
}

unfoldable pub status_of : ContractManager → Option ActiveContract → ContractStatus
status_of m none = record inactive_contract_status {
  contract_root_configured = m.contract_root.configured;
  contract_root_source = m.contract_root.source;
}
status_of m (some a) = record {
  active = true;
  message = "";
  contract_id = a.contract_id;
  source_path = a.openapi.metadata.source_path;
  openapi_version = a.openapi.metadata.openapi_version;
  operations_count = a.openapi.metadata.operations_count;
  schemas_count = a.openapi.metadata.schemas_count;
  loaded_at = a.loaded_at;
  validation_mode = a.validation_mode;
  validation_scope = validation_scope_partial;
  validation_capabilities = current_validation_capabilities;
  validation_mode_description = validation_mode_description_text;
  unsupported_features = a.openapi.metadata.unsupported_feature_counts;
  contract_root_configured = m.contract_root.configured;
  contract_root_source = m.contract_root.source;
}

-- Status, on a manager whose root is ensured.
unfoldable pub status : ContractManager → ContractStatus
status m = status_of m m.active
