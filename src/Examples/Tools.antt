-- ===== src/Examples/Tools.antt =====
-- internal/control/mcp_server.go: calls of the tools on the planes of Examples/Planes.
use echo_mcp.Prelude.{
  String, ◌≡◌, refl, ◌↔◌, inl, inr, In, Bool, true, false, Option, none, some, List, [], ◌∷◌, ◌++◌,
  pos, is_some, not,
}
use echo_mcp.Failure.{plain, is_ok, ok}
use echo_mcp.Json.{Fields}
use echo_mcp.State.{Store, new}
use echo_mcp.HttpServer.{handle_data_plane, not_implemented_calls}
use echo_mcp.Control.Manager.{Time}
use echo_mcp.Control.Plane.{LocalPlane, validated}
use echo_mcp.Control.Validation.{validate_rule}
use echo_mcp.Control.Tools.Inputs.{
  ConfigureBehaviorInput, SendWebhookEventInput, rule_of, validate_configure_behavior,
}
use echo_mcp.Control.Tools.Outputs.{
  ConfigureBehaviorOutput, GetContractStatusOutput, ResetOutput, SendWebhookEventOutput,
}
use echo_mcp.Control.Tools.Guidance.{manual_mock_warning, manual_guidance}
use echo_mcp.Control.Tools.Handlers.{
  done, configure_behavior, unload_openapi_contract_tool, load_openapi_contract_tool,
  get_contract_status_tool, reset_tool, send_webhook_event_tool, get_observations,
}
use echo_mcp.Control.Tools.Evidence.{IsServed, configure_behavior-get_observations}
use echo_mcp.Control.Tools.Answers.{Answered, configure_behavior-Answered}
use echo_mcp.Control.Tools.Repeated.{reset_tool-again}
use echo_mcp.Control.Tools.Lifecycle.{LoadFollowed, load_openapi_contract-unload_openapi_contract}
use echo_mcp.Control.Tools.Deliveries.{Ends, send_webhook_event-get_observations}
use echo_mcp.Control.Tools.Checked.{IsComplete, validate_configure_behavior_iff}
use echo_mcp.Control.Tools.Shown.{IsToolRule}
use echo_mcp.Control.Tools.Registered.{
  configure_behavior_registration, unload_openapi_contract_registration,
}
use echo_mcp.Control.Tools.Hints.{configure_behavior-replaces}
use echo_mcp.Control.Guidance.Resources.{
  ResourceDefinition, guidance_resources, manual_mock_resource, read_resource,
}
use echo_mcp.Control.Guidance.Found.{read_resource_unique}
use echo_mcp.Examples.Documents.{codec, user_rule}
use echo_mcp.Examples.Planes.{files, root, strict_plane, command}

abbrev pub input : ConfigureBehaviorInput
input = record {
  behavior_id = "user";
  method = "GET";
  path = "/users/7";
  outcome_type = "http_response";
  status_code = pos 200;
  content_type = "application/json";
  body = "body";
  validation_mode = "";
  validation_reason = "";
}

abbrev free_plane : LocalPlane
free_plane = record strict_plane {
  contract_manager = record { active = none; contract_root = root };
}

abbrev configured_plane : LocalPlane
configured_plane = record free_plane { store = record new { response_rule = some user_rule } }

abbrev configured_answer : ConfigureBehaviorOutput
configured_answer = record {
  configured = true;
  behavior_id = "user";
  warnings = manual_mock_warning ∷ [];
  guidance = manual_guidance;
  suggested_next_actions =
      "Run the application test normally." ∷ "Call get_observations to inspect data-plane evidence."
      ∷ [];
  validation_scope = "";
  validation_capabilities = none;
  validation_mode_description = "";
  error = "";
  code = "";
  diagnostics = [];
}

configured :
    configure_behavior files codec free_plane input
    ≡ (ok (done configured_answer), configured_plane)
unfolding configure_behavior echo_mcp.Control.Tools.Inputs.validate_configure_behavior
    echo_mcp.Prelude.trim_space echo_mcp.Control.Plane.configure_response_rule_with_validation
    echo_mcp.Control.Plane.store_if_valid echo_mcp.Control.Plane.validated validate_rule
    echo_mcp.Control.Validation.validate_active echo_mcp.Control.Plane.extra_validation
    echo_mcp.Control.Tools.Handlers.report_configured
    echo_mcp.Control.Tools.Guidance.configure_behavior_guidance
    echo_mcp.Control.Tools.Outputs.apply_validation_disclosure
    echo_mcp.Control.Plane.contract_validation_active
    echo_mcp.Control.Tools.Guidance.configure_behavior_warnings
    echo_mcp.State.configure_response_rule echo_mcp.Control.Plane.contract_status
    echo_mcp.Control.Status.status echo_mcp.Control.Status.status_of
    echo_mcp.Control.Manager.ensure_contract_root
configured = refl

configure_behavior-get_observations_example :
    IsServed files codec free_plane input
      (handle_data_plane configured_plane.store "GET" "/users/7").0
      (handle_data_plane configured_plane.store "GET" "/users/7").1
configure_behavior-get_observations_example =
    configure_behavior-get_observations files codec free_plane configured_plane input
      configured_answer configured

configure_behavior-Answered_example : Answered files codec strict_plane input
configure_behavior-Answered_example = configure_behavior-Answered files codec strict_plane input

abbrev format : Time → String
format t = "2026-01-01T00:00:00Z"

load_openapi_contract-unload_openapi_contract_example :
    LoadFollowed files codec format free_plane
      (load_openapi_contract_tool files codec 5 free_plane command)
load_openapi_contract-unload_openapi_contract_example =
    load_openapi_contract-unload_openapi_contract files codec format 5 free_plane command

reset_tool-again_example :
    ((method path : String)
      → handle_data_plane (reset_tool files configured_plane).1.store method path
        ≡ (not_implemented_calls, (reset_tool files configured_plane).1.store))
    × ((get_observations (reset_tool files configured_plane).1).observations ≡ [])
    × ((get_observations (reset_tool files configured_plane).1).webhook_deliveries ≡ [])
    × ((reset_tool files configured_plane).1.contract_manager.active ≡ none)
    × ((o : ResetOutput) × ((reset_tool files configured_plane).0 ≡ ok (done o))
        × (o.contract_active ≡ false))
    × ((reset_tool files (reset_tool files configured_plane).1).0
        ≡ (reset_tool files configured_plane).0)
reset_tool-again_example = reset_tool-again files configured_plane

abbrev event_input : SendWebhookEventInput
event_input = record { event_id = "e1"; endpoint_name = "app"; body = some Fields.end }

abbrev sending_plane : LocalPlane
sending_plane = record free_plane {
  webhook_sender = some (λ event. ok (record {
    event_id = event.event_id;
    endpoint_name = event.endpoint_name;
    method = "POST";
    outcome = "response_received";
    status_code = pos 204;
    error = "";
  }));
}

send_webhook_event-get_observations_example :
    Ends sending_plane event_input (send_webhook_event_tool sending_plane event_input)
send_webhook_event-get_observations_example =
    send_webhook_event-get_observations sending_plane event_input

validate_configure_behavior_iff_example :
    validate_configure_behavior input ≡ ok tt ↔ IsComplete input
validate_configure_behavior_iff_example = validate_configure_behavior_iff input

configure_behavior-replaces_example :
    (configure_behavior_registration.destructive_hint ≡ some false)
    × (unload_openapi_contract_registration.destructive_hint ≡ some false)
    × (configured_plane.store.response_rule ≡ some user_rule)
    × ((unload_openapi_contract_tool configured_plane true).1.contract_manager.active ≡ none)
configure_behavior-replaces_example =
    configure_behavior-replaces files codec free_plane configured_plane input configured_answer
      configured

abbrev resource : ResourceDefinition
resource = manual_mock_resource

read_resource_unique_example :
    (read_resource plain resource "echo://guides/manual-mock"
      ≡ ok (record {
        uri = "echo://guides/manual-mock";
        mime_type = "text/markdown";
        text = resource.text;
      }))
    × ((c : ResourceDefinition) (uri : String)
        → In c guidance_resources
        → is_ok (read_resource plain c uri) ≡ true
        → is_ok (read_resource plain resource uri) ≡ true
        → c ≡ resource)
read_resource_unique_example = read_resource_unique plain resource (inr (inr (inl refl)))

-- The input makes the rule of the user contract.
pub made : IsToolRule user_rule
unfolding validate_configure_behavior echo_mcp.Prelude.trim_space
made = (input, refl, refl)
