-- ===== src/Control/Tools/Hints.antt =====
-- internal/control/mcp_server.go: the tools beside the hints of their annotations.
use echo_mcp.Prelude.{none, String, ◌≡◌, refl, ap, Bool, true, false, some}
use echo_mcp.Failure.{ok}
use echo_mcp.State.{reset as reset_store, configure_response_rule as store_rule}
use echo_mcp.Contract.Document.{Codec}
use echo_mcp.Control.Files.{Files}
use echo_mcp.Control.Manager.{Time, LoadCommand}
use echo_mcp.Control.Plane.{LocalPlane, reset}
use echo_mcp.Control.Plane.Looks.{IsSameState}
use echo_mcp.Control.Tools.Inputs.{ConfigureBehaviorInput, SendWebhookEventInput}
use echo_mcp.Control.Tools.Outputs.{ConfigureBehaviorOutput}
use echo_mcp.Control.Tools.Registered.{
  Tool, configure_behavior_registration, load_openapi_contract_registration,
  get_contract_status_registration, unload_openapi_contract_registration, reset_registration,
  send_webhook_event_registration, get_observations_registration,
}
use echo_mcp.Control.Tools.Handlers.{
  done, configure_behavior, load_openapi_contract_tool, get_contract_status_tool,
  unload_openapi_contract_tool, reset_tool, send_webhook_event_tool, get_observations,
}
use echo_mcp.Control.Tools.Evidence.{configured-stored}
use echo_mcp.Control.Tools.Lifecycle.{unload-forced}

pub data ToolCall : Type 0 where
  call_configure : ConfigureBehaviorInput → ToolCall
  call_load : Time → LoadCommand → ToolCall
  call_status : ToolCall
  call_unload : Bool → ToolCall
  call_reset : ToolCall
  call_send : SendWebhookEventInput → ToolCall
  call_get : ToolCall

abbrev pub tool_of : ToolCall → Tool
tool_of (call_configure input) = configure_behavior_registration
tool_of (call_load now command) = load_openapi_contract_registration
tool_of call_status = get_contract_status_registration
tool_of (call_unload force) = unload_openapi_contract_registration
tool_of call_reset = reset_registration
tool_of (call_send input) = send_webhook_event_registration
tool_of call_get = get_observations_registration

module _ (files : Files) (codec : Codec) (format : Time → String) where
  -- The plane after a call of a tool.
  unfoldable pub after : LocalPlane → ToolCall → LocalPlane
  after p (call_configure input) = (configure_behavior files codec p input).1
  after p (call_load now command) = (load_openapi_contract_tool files codec now p command).1
  after p call_status = (get_contract_status_tool files format p).1
  after p (call_unload force) = (unload_openapi_contract_tool p force).1
  after p call_reset = (reset_tool files p).1
  after p (call_send input) = (send_webhook_event_tool p input).1
  after p call_get = p

  -- Two planes that the tools and requests cannot tell apart by their rule, evidence and contract.
  pub record IsAlike (p q : LocalPlane) : Type 0 where
    pub rule : q.store.response_rule ≡ p.store.response_rule
    pub shown : get_observations q ≡ get_observations p
    pub active : q.contract_manager.active ≡ p.contract_manager.active

  -- The hints of a call.
  pub record IsHinted (p : LocalPlane) (c : ToolCall) : Type 0 where
    pub read_only : (tool_of c).read_only_hint ≡ true → IsSameState p (after p c)
    pub idempotent : (tool_of c).idempotent_hint ≡ true → IsAlike (after p c) (after (after p c) c)

-- configure_behavior and unload_openapi_contract have a destructive hint of false, and yet do more than
-- add: a configure_behavior that reports success replaces the rule by its input's, and a forced
-- unload_openapi_contract after it leaves no active contract, whatever rule and contract there were.
pub configure_behavior-replaces :
    (files : Files) (codec : Codec) (p q : LocalPlane) (input : ConfigureBehaviorInput)
    (out : ConfigureBehaviorOutput)
    → configure_behavior files codec p input ≡ (ok (done out), q)
    → (configure_behavior_registration.destructive_hint ≡ some false)
      × (unload_openapi_contract_registration.destructive_hint ≡ some false)
      × (q.store.response_rule
          ≡ some (record {
            id = input.behavior_id;
            method = input.method;
            path = input.path;
            status_code = input.status_code;
            content_type = input.content_type;
            body = input.body;
          }))
      × ((unload_openapi_contract_tool q true).1.contract_manager.active ≡ none)
unfolding store_rule
configure_behavior-replaces files codec p q input out h = (
  refl,
  refl,
  ap (λ s. s.response_rule) (configured-stored files codec p input q out h).0,
  ap (λ r. r.1.contract_manager.active) (unload-forced files codec (λ t. "") q),
)
