-- ===== src/Control/Tools/Registered.antt =====
-- internal/control/mcp_server.go: the tools as they are registered, with the hints of their annotations.
use echo_mcp.Prelude.{String, Bool, true, false, Option, none, some}
use echo_mcp.Control.Guidance.Texts.{
  configure_behavior_description, load_openapi_contract_description,
  get_contract_status_description, unload_openapi_contract_description, reset_description,
  send_webhook_event_description, get_observations_description,
}

-- A nil pointer is `none`.
pub record Tool : Type 0 where
  pub name : String
  pub description : String
  pub title : String
  pub read_only_hint : Bool
  pub destructive_hint : Option Bool
  pub idempotent_hint : Bool
  pub open_world_hint : Option Bool

abbrev pub configure_behavior_registration : Tool
configure_behavior_registration = record {
  name = "configure_behavior";
  description = configure_behavior_description;
  title = "Configure REST Behavior";
  read_only_hint = false;
  destructive_hint = some false;
  idempotent_hint = false;
  open_world_hint = some false;
}

abbrev pub load_openapi_contract_registration : Tool
load_openapi_contract_registration = record {
  name = "load_openapi_contract";
  description = load_openapi_contract_description;
  title = "Load OpenAPI Contract";
  read_only_hint = false;
  destructive_hint = some false;
  idempotent_hint = false;
  open_world_hint = some false;
}

abbrev pub get_contract_status_registration : Tool
get_contract_status_registration = record {
  name = "get_contract_status";
  description = get_contract_status_description;
  title = "Get Contract Status";
  read_only_hint = true;
  destructive_hint = none;
  idempotent_hint = true;
  open_world_hint = some false;
}

abbrev pub unload_openapi_contract_registration : Tool
unload_openapi_contract_registration = record {
  name = "unload_openapi_contract";
  description = unload_openapi_contract_description;
  title = "Unload OpenAPI Contract";
  read_only_hint = false;
  destructive_hint = some false;
  idempotent_hint = false;
  open_world_hint = some false;
}

abbrev pub reset_registration : Tool
reset_registration = record {
  name = "reset";
  description = reset_description;
  title = "Reset Echo MCP State";
  read_only_hint = false;
  destructive_hint = some true;
  idempotent_hint = true;
  open_world_hint = some false;
}

abbrev pub send_webhook_event_registration : Tool
send_webhook_event_registration = record {
  name = "send_webhook_event";
  description = send_webhook_event_description;
  title = "Send Webhook Event";
  read_only_hint = false;
  destructive_hint = some false;
  idempotent_hint = false;
  open_world_hint = some false;
}

abbrev pub get_observations_registration : Tool
get_observations_registration = record {
  name = "get_observations";
  description = get_observations_description;
  title = "Get Observations";
  read_only_hint = true;
  destructive_hint = none;
  idempotent_hint = true;
  open_world_hint = some false;
}
