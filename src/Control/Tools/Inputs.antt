-- ===== src/Control/Tools/Inputs.antt =====
-- internal/control/mcp_server.go: the inputs of the MCP tools and their checks.
use echo_mcp.Prelude.{
  String, not, ◌||◌, Option, none, some, ◌==◌, ◌+s◌, ℤ, int_lt, int_gt, quote, trim_space,
  if◌then◌else◌,
}
use echo_mcp.Failure.{plain, Result, ok, err}
use echo_mcp.Json.{Fields}
use echo_mcp.State.{ResponseRule}
use echo_mcp.Webhook.{Event}
use echo_mcp.Control.Manager.{BehaviorValidationOverride}

pub record ConfigureBehaviorInput : Type 0 where
  pub behavior_id : String
  pub method : String
  pub path : String
  pub outcome_type : String
  pub status_code : ℤ
  pub content_type : String
  pub body : String
  pub validation_mode : String
  pub validation_reason : String

abbrev pub outcome_http_response : String
outcome_http_response = "http_response"

unfoldable pub validate_configure_behavior : ConfigureBehaviorInput → Result (Unit {0})
validate_configure_behavior input =
    if trim_space input.behavior_id == ""
    then err (plain "behavior_id is required")
    else if trim_space input.method == ""
    then err (plain "match.method is required")
    else if trim_space input.path == ""
    then err (plain "match.path is required")
    else if not (input.outcome_type == outcome_http_response)
    then err (plain ("outcome.type must be " +s quote outcome_http_response))
    else if int_lt input.status_code 100 || int_gt input.status_code 999
    then err (plain "outcome.status_code must be a valid HTTP status code")
    else ok tt

unfoldable pub configure_behavior_validation_override : String → String → BehaviorValidationOverride
configure_behavior_validation_override mode reason = record {
  mode = trim_space mode;
  reason = trim_space reason;
  mode_set = not (trim_space mode == "");
}

abbrev pub rule_of : ConfigureBehaviorInput → ResponseRule
rule_of input = record {
  id = input.behavior_id;
  method = input.method;
  path = input.path;
  status_code = input.status_code;
  content_type = input.content_type;
  body = input.body;
}

pub record SendWebhookEventInput : Type 0 where
  pub event_id : String
  pub endpoint_name : String
  pub body : Option Fields

abbrev pub check_body : Option Fields → Result (Unit {0})
check_body none = err (plain "request.body is required")
check_body (some body) = ok tt

unfoldable pub validate_send_webhook_event : SendWebhookEventInput → Result (Unit {0})
validate_send_webhook_event input =
    if trim_space input.event_id == ""
    then err (plain "event_id is required")
    else if trim_space input.endpoint_name == ""
    then err (plain "endpoint_name is required")
    else check_body input.body

abbrev pub event_of : SendWebhookEventInput → Event
event_of input = record {
  event_id = input.event_id;
  endpoint_name = input.endpoint_name;
  body = input.body;
}
