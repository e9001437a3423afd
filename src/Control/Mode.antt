-- ===== src/Control/Mode.antt =====
-- internal/control/contract_manager.go: validation modes, contract identifiers and capabilities.
use echo_mcp.Prelude.{
  String, Bool, true, false, ◌||◌, [], ◌∷◌, ◌==◌, to_lower, trim_space, quote, trim_suffix, ◌+s◌,
  if◌then◌else◌,
}
use echo_mcp.Failure.{operation_error, Result, ok, err}
use echo_mcp.Control.Files.{Files}

abbrev pub validation_scope_partial : String
validation_scope_partial = "partial"

abbrev pub validation_mode_description_text : String
validation_mode_description_text =
    "strict means strict enforcement of the validation capabilities currently supported by Echo MCP. It is not full OpenAPI validation."

abbrev pub mode_strict : String
mode_strict = "strict"

abbrev pub mode_warn : String
mode_warn = "warn"

abbrev pub mode_off : String
mode_off = "off"

-- The switch, on the mode in lower case without the spaces around it.
unfoldable pub mode_named : String → Result String
mode_named name =
    if name == ""
    then ok mode_strict
    else if name == mode_strict
    then ok mode_strict
    else if name == mode_warn
    then ok mode_warn
    else if name == mode_off
    then ok mode_off
    else err (
        operation_error (record {
          code = "invalid_validation_mode";
          message =
              "validation_mode must be one of "
              +s quote mode_strict
              +s ", "
              +s quote mode_warn
              +s ", or "
              +s quote mode_off;
          diagnostics = "Supported validation modes: strict, warn, off." ∷ [];
        }))

unfoldable pub normalize_validation_mode : String → Result String
normalize_validation_mode mode = mode_named (to_lower (trim_space mode))

-- strings.TrimSuffix(base, ext), for a suffix that is there.
unfoldable pub without_extension : String → String → String
without_extension base ext = if ext == "" then base else trim_suffix base ext

abbrev or_fallback : String → String
or_fallback base = if base == "" || base == "." then "openapi-contract" else base

unfoldable pub default_contract_id : Files → String → String → String
default_contract_id files contract_id source_path =
    if trim_space contract_id == ""
    then or_fallback
        (without_extension (files.base source_path) (files.ext (files.base source_path)))
    else trim_space contract_id

pub record ValidationCapabilities : Type 0 where
  pub method_path : Bool
  pub response_status : Bool
  pub response_content_type : Bool
  pub response_body : Bool
  pub inline_json_response_schema : Bool
  pub request_body : Bool
  pub request_query : Bool
  pub request_headers : Bool
  pub path_parameter_schema : Bool
  pub ref_resolution : Bool
  pub local_ref_resolution : Bool
  pub remote_ref_resolution : Bool
  pub arrays : Bool
  pub enum : Bool
  pub all_of : Bool
  pub one_of : Bool
  pub any_of : Bool
  pub nullable : Bool
  pub additional_properties : Bool
  pub additional_properties_schema : Bool
  pub open_api31 : Bool
  pub yaml : Bool
  pub remote_fetch : Bool

abbrev pub current_validation_capabilities : ValidationCapabilities
current_validation_capabilities = record {
  method_path = true;
  response_status = true;
  response_content_type = true;
  response_body = true;
  inline_json_response_schema = true;
  request_body = false;
  request_query = false;
  request_headers = false;
  path_parameter_schema = false;
  ref_resolution = true;
  local_ref_resolution = true;
  remote_ref_resolution = false;
  arrays = true;
  enum = true;
  all_of = false;
  one_of = false;
  any_of = false;
  nullable = true;
  additional_properties = true;
  additional_properties_schema = false;
  open_api31 = false;
  yaml = false;
  remote_fetch = false;
}
