-- ===== src/Command.antt =====
-- cmd/echo-mcp/main.go: what the process makes of its environment before the two servers run. Logging
-- is left out; an error with which the process exits is `err`.
pub mod Started
use echo_mcp.Prelude.{String, Bool, false, Option, none, some, ◌==◌, if◌then◌else◌}
use echo_mcp.Failure.{Result, ok, err, ◌>>=◌}
use echo_mcp.State.{Store, new as new_store}
use echo_mcp.Webhook.{Url, Client, Endpoints, load_endpoint_from_environment, send}
use echo_mcp.Contract.Document.{Codec}
use echo_mcp.Control.Files.{Files}
use echo_mcp.Control.Mode.{mode_strict}
use echo_mcp.Control.Manager.{
  Time, ContractManager, LoadCommand, LoadResult, new_contract_manager_with_contract_root,
  load_openapi_contract,
}
use echo_mcp.Control.Plane.{LocalPlane}
use echo_mcp.Control.Construct.{Sender, new_with_contract_manager}

abbrev pub default_http_addr : String
default_http_addr = ":8080"

abbrev pub env_http_addr : String
env_http_addr = "ECHO_MCP_HTTP_ADDR"

abbrev pub env_openapi_file : String
env_openapi_file = "ECHO_MCP_OPENAPI_FILE"

abbrev pub env_contract_root : String
env_contract_root = "ECHO_MCP_CONTRACT_ROOT"

unfoldable pub http_addr_from_environment : (String → String) → String
http_addr_from_environment getenv =
    if getenv env_http_addr == "" then default_http_addr else getenv env_http_addr

abbrev pub startup_command : String → LoadCommand
startup_command path = record {
  path = path;
  contract_id = "";
  validation_mode = mode_strict;
  force = false;
}

-- The result is only logged.
abbrev pub loaded_manager : Result LoadResult × ContractManager → Result ContractManager
loaded_manager (err e, manager) = err e
loaded_manager (ok result, manager) = ok manager

unfoldable pub load_startup_contract :
    Files → Codec → Time → (String → String) → ContractManager → Result ContractManager
load_startup_contract files codec now getenv manager =
    if getenv env_openapi_file == ""
    then ok manager
    else loaded_manager (
        load_openapi_contract files codec now manager (startup_command (getenv env_openapi_file))
          false)

unfoldable pub load_contract_manager_from_environment :
    Files → Codec → Time → (String → String) → Result ContractManager
load_contract_manager_from_environment files codec now getenv = do
  manager ←
      new_contract_manager_with_contract_root files (getenv env_contract_root) env_contract_root
  load_startup_contract files codec now getenv manager

-- NewSender, with the client of its default timeout.
abbrev sender_of : Client → Endpoints → Option Sender
sender_of client none = none
sender_of client (some endpoint) = some (send client (some endpoint))

unfoldable pub load_webhook_sender :
    (String → Result Url) → Client → (String → String) → Result (Option Sender)
load_webhook_sender parse client getenv = do
  endpoints ← load_endpoint_from_environment parse getenv
  ok (sender_of client endpoints)

-- What the two servers are started with: they share the store of the plane.
pub record Servers : Type 0 where
  pub control_plane : LocalPlane
  pub http_addr : String

unfoldable pub start :
    Files → Codec → (String → Result Url) → Client → Time → (String → String) → Result Servers
start files codec parse client now getenv = do
  contract_manager ← load_contract_manager_from_environment files codec now getenv
  webhook_sender ← load_webhook_sender parse client getenv
  ok (record {
    control_plane =
        new_with_contract_manager files codec (some new_store) (some contract_manager)
          webhook_sender;
    http_addr = http_addr_from_environment getenv;
  })
