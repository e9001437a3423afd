-- ===== src/Control/Guidance/Texts.antt =====
-- internal/control/mcp_guidance.go: the server's instructions and the descriptions of the tools.
use echo_mcp.Prelude.{String}

abbrev pub server_instructions : String
server_instructions =
    "Echo MCP is a controllable API simulation server.\nMCP is the control plane for configuring behavior and reading observations; REST data plane and webhook HTTP calls are used by the application under test.\nManual mock behavior is useful for quick exploration, but manual mocks are not contract-validated.\nIf provider contract fidelity matters, use the runtime contract-backed workflow when available and inspect validation_capabilities.\nValidation mode strict means strict enforcement of the validation capabilities currently supported by Echo MCP. It is not full OpenAPI validation.\nRecommended first steps:\n1. inspect available tools\n2. inspect guidance prompts/resources if available\n3. choose manual_mock, hybrid_validation, or contract_first based on project needs\n4. obtain or locate the local OpenAPI contract when contract fidelity matters\n5. call load_openapi_contract\n6. call get_contract_status\n7. call configure_behavior\n8. run the application test through the REST data plane\n9. use reset between scenarios without unloading the active contract\n10. use unload_openapi_contract only when switching contract contexts\n\nEcho MCP performs partial response validation for supported OpenAPI 3.0 JSON capabilities; it does not generate behavior from OpenAPI and is not fully OpenAPI-first by itself."

abbrev pub configure_behavior_description : String
configure_behavior_description =
    "Configure one REST data-plane response rule.\n\nWhat it does: stores one method/path/status/body rule used by the REST data plane, either as manual mock behavior or partially contract-validated behavior.\nWhen to use: use for quick manual mock simulation, exploration, or after load_openapi_contract in a contract-backed workflow.\nWhen not to use: do not use this alone to prove provider contract fidelity or to send webhook events.\nContract note: manual mock is still allowed. If contract fidelity matters, call load_openapi_contract first. If a contract is active, configured behavior is validated unless explicitly skipped, using partial response validation for supported OpenAPI 3.0 JSON capabilities. Skipping validation requires a reason.\nValidation mode strict means strict enforcement of the validation capabilities currently supported by Echo MCP. It is not full OpenAPI validation.\nCommon next steps: run the application test normally, then call get_observations for data-plane evidence."

abbrev pub load_openapi_contract_description : String
load_openapi_contract_description =
    "Load one local OpenAPI contract into Echo MCP runtime state.\n\nWhat it does: reads a local file only in MVP, activates one generic OpenAPI contract, and enables partial contract-backed validation for configured REST response behavior.\nWhen to use: use after starting Echo MCP and before configure_behavior when provider contract fidelity matters.\nWhen not to use: does not fetch remote URLs, does not upload or mutate contract files, does not add provider-specific logic, and does not make Echo MCP fully OpenAPI-first by itself.\nContract note: generic OpenAPI, not Stripe-specific. Loading validates configured response behavior only for supported capabilities; Echo MCP does not generate mock behavior from the contract.\nPath note: paths must resolve under the configured contract root. Set ECHO_MCP_CONTRACT_ROOT to choose the root; when unset, Echo MCP uses the process working directory.\nValidation mode strict means strict enforcement of the validation capabilities currently supported by Echo MCP. It is not full OpenAPI validation.\nCommon next steps: call get_contract_status, then call configure_behavior with contract-valid responses."

abbrev pub get_contract_status_description : String
get_contract_status_description =
    "Read-only inspection of the active OpenAPI contract.\n\nWhat it does: reports whether an active OpenAPI contract is loaded, including contract id, source display path, OpenAPI version, operation count, component schema count, loaded timestamp, and validation mode.\nWhen to use: use after startup loading or load_openapi_contract to confirm contract-backed validation state.\nWhen not to use: do not use this to load, unload, or mutate contracts.\nContract note: this is read-only and idempotent.\nValidation mode strict means strict enforcement of the validation capabilities currently supported by Echo MCP. It is not full OpenAPI validation.\nCommon next steps: call configure_behavior when active, or load_openapi_contract when inactive."

abbrev pub unload_openapi_contract_description : String
unload_openapi_contract_description =
    "Unload the active OpenAPI contract from Echo MCP runtime state.\n\nWhat it does: clears active contract state only; it does not delete files and does not mutate source documents.\nWhen to use: use only when switching contract contexts or returning to manual mock mode.\nWhen not to use: do not unload while configured behavior should remain associated with the active contract.\nContract note: unload enforces a safe-state check. If behavior is active, reset first or pass force: true.\nCommon next steps: call configure_behavior for manual mock mode or load another contract."

abbrev pub reset_description : String
reset_description =
    "Clear Echo MCP control-plane state.\n\nWhat it does: clears configured behavior, REST observations, and webhook delivery observations.\nWhen to use: use before the next scenario or after a test to return Echo MCP to an empty in-memory state.\nWhen not to use: do not use while another scenario still needs the current observations as evidence.\nContract note: reset keeps the active OpenAPI contract loaded so scenario runners can reuse contract-backed validation across scenarios.\nCommon next steps: configure the next manual mock behavior or webhook scenario."

abbrev pub send_webhook_event_description : String
send_webhook_event_description =
    "Send one webhook-style event to a configured application webhook endpoint.\n\nWhat it does: sends an immediate HTTP POST with the supplied JSON body to a configured endpoint name.\nWhen to use: use when testing application webhook handling through Echo MCP's control plane.\nWhen not to use: not for arbitrary outbound URLs, not for configuring REST manual mock behavior, and not for provider contract validation.\nContract note: webhook delivery is not OpenAPI contract validation.\nCommon next steps: assert application behavior normally, then call get_observations for delivery evidence."

abbrev pub get_observations_description : String
get_observations_description =
    "Read-only inspection of Echo MCP data-plane evidence.\n\nWhat it does: returns REST request observations and webhook delivery observations currently held in memory.\nWhen to use: use after the application test or webhook delivery to inspect what Echo MCP actually saw or sent.\nWhen not to use: do not treat observations as application assertions by themselves, and do not use this to configure behavior.\nContract note: observations are test evidence; they do not make manual mocks contract-validated.\nCommon next steps: compare observations with application assertions and reset before the next scenario."
