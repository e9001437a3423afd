-- ===== src/Control/Tools/Capabilities.antt =====
-- internal/control/mcp_server.go: the capabilities as the tools report them.
use echo_mcp.Prelude.{Bool, Option, some}
use echo_mcp.Control.Mode.{ValidationCapabilities}

pub record ValidationCapabilitiesOutput : Type 0 where
  pub method_path : Bool
  pub response_status : Bool
  pub response_content_type : Bool
  pub response_body : Bool
  pub inline_json_response_schema : Bool
  pub request_body : Bool
  pub request_query : Bool
  pub request_headers : Bool
  pub path_parameter_schema : Bool
  pub ref_resolution : Bool
  pub local_ref_resolution : Bool
  pub remote_ref_resolution : Bool
  pub arrays : Bool
  pub enum : Bool
  pub all_of : Bool
  pub one_of : Bool
  pub any_of : Bool
  pub nullable : Bool
  pub additional_properties : Bool
  pub additional_properties_schema : Bool
  pub open_api31 : Bool
  pub yaml : Bool
  pub remote_fetch : Bool

-- The pointer is never nil.
abbrev pub validation_capabilities_output_from_domain :
    ValidationCapabilities → Option ValidationCapabilitiesOutput
validation_capabilities_output_from_domain capabilities = some (record {
  method_path = capabilities.method_path;
  response_status = capabilities.response_status;
  response_content_type = capabilities.response_content_type;
  response_body = capabilities.response_body;
  inline_json_response_schema = capabilities.inline_json_response_schema;
  request_body = capabilities.request_body;
  request_query = capabilities.request_query;
  request_headers = capabilities.request_headers;
  path_parameter_schema = capabilities.path_parameter_schema;
  ref_resolution = capabilities.ref_resolution;
  local_ref_resolution = capabilities.local_ref_resolution;
  remote_ref_resolution = capabilities.remote_ref_resolution;
  arrays = capabilities.arrays;
  enum = capabilities.enum;
  all_of = capabilities.all_of;
  one_of = capabilities.one_of;
  any_of = capabilities.any_of;
  nullable = capabilities.nullable;
  additional_properties = capabilities.additional_properties;
  additional_properties_schema = capabilities.additional_properties_schema;
  open_api31 = capabilities.open_api31;
  yaml = capabilities.yaml;
  remote_fetch = capabilities.remote_fetch;
})
