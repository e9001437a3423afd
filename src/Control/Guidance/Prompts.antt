-- ===== src/Control/Guidance/Prompts.antt =====
-- internal/control/mcp_guidance.go: the guidance prompts and the handlers registered for them.
use echo_mcp.Prelude.{String, List, [], ◌∷◌, map}

pub record PromptDefinition : Type 0 where
  pub name : String
  pub title : String
  pub description : String
  pub text : String

-- The result of a prompt, with its one message.
pub record PromptResult : Type 0 where
  pub description : String
  pub role : String
  pub text : String

-- What a handler of a prompt answers, whatever the request is.
abbrev pub prompt_result : PromptDefinition → PromptResult
prompt_result definition = record {
  description = definition.description;
  role = "user";
  text = definition.text;
}

abbrev getting_started_prompt : PromptDefinition
getting_started_prompt = record {
  name = "echo_mcp_getting_started";
  title = "Echo MCP Getting Started";
  description = "Initial workflow guidance for AI coding agents using Echo MCP.";
  text =
      "Use Echo MCP as a deterministic API simulation server.\n\n1. Inspect tools, prompts, and resources before configuring behavior.\n2. Decide whether this task needs manual_mock, hybrid_validation, or contract_first.\n3. If contract fidelity matters, locate the local OpenAPI contract and call load_openapi_contract.\n4. Call get_contract_status to confirm the active contract.\n5. Use configure_behavior for REST behavior; active contracts perform partial response validation for supported capabilities unless explicitly skipped with a reason.\n6. Run the application test through the REST data plane.\n7. Use get_observations as evidence and reset between scenarios.\n\nValidation mode strict means strict enforcement of the validation capabilities currently supported by Echo MCP. It is not full OpenAPI validation.\nManual mock behavior is useful for quick exploration, but it is not contract-validated.";
}

abbrev choose_workflow_prompt : PromptDefinition
choose_workflow_prompt = record {
  name = "echo_mcp_choose_workflow";
  title = "Choose Echo MCP Workflow";
  description = "Helps an agent choose manual_mock, hybrid_validation, or contract_first.";
  text =
      "Choose the Echo MCP workflow before configuring behavior.\n\nmanual_mock: fastest path for hand-authored method/path/status/body behavior. It is useful for exploration and is not contract-validated.\nhybrid_validation: migration path where manual behavior is allowed, but validation/reporting should be used where available.\ncontract_first: preferred when an OpenAPI contract exists and provider contract fidelity matters.\n\nValidation mode strict means strict enforcement of the validation capabilities currently supported by Echo MCP. It is not full OpenAPI validation.\nIf a contract-backed workflow is available, use load_openapi_contract, get_contract_status, configure_behavior, reset, and unload_openapi_contract only when switching contract contexts. Do not duplicate API schemas in scenario files. Ask the developer whether a contract is available when fidelity matters.";
}

abbrev manual_mock_workflow_prompt : PromptDefinition
manual_mock_workflow_prompt = record {
  name = "echo_mcp_manual_mock_workflow";
  title = "Manual Mock Workflow";
  description = "Guidance for quick, hand-authored REST mock behavior.";
  text =
      "Manual mock workflow:\n\n1. Configure exactly the REST behavior needed for the current scenario.\n2. Record that the behavior is manual and not contract-validated.\n3. Run the application test normally against the REST data plane.\n4. Call get_observations and compare evidence with application assertions.\n5. Reset before the next scenario.\n\nManual mocks may drift from provider contracts.";
}

abbrev contract_validation_workflow_prompt : PromptDefinition
contract_validation_workflow_prompt = record {
  name = "echo_mcp_contract_validation_workflow";
  title = "Contract Validation Workflow";
  description = "Guidance for contract-backed or hybrid validation workflows.";
  text =
      "Contract validation workflow:\n\nUse contract_first when an OpenAPI contract exists and provider contract fidelity matters.\nUse hybrid_validation when migrating from manual mocks toward validation.\n\nRecommended runtime workflow:\n1. Obtain or locate the OpenAPI contract.\n2. Start Echo MCP.\n3. Call load_openapi_contract.\n4. Call get_contract_status.\n5. Call configure_behavior.\n6. Let Echo MCP apply partial response validation for supported OpenAPI 3.0 JSON capabilities.\n7. Use reset between scenarios.\n8. Use unload_openapi_contract only when switching contract contexts.\n\nValidation mode strict means strict enforcement of the validation capabilities currently supported by Echo MCP. It is not full OpenAPI validation.\nEcho MCP may validate configured response behavior for supported capabilities when OpenAPI-backed validation is active, but it does not implement request validation or generate behavior from OpenAPI by itself in this release. Keep behavior deterministic and avoid duplicating API schemas when a contract-backed workflow is available.";
}

abbrev pub guidance_prompts : List PromptDefinition
guidance_prompts =
    getting_started_prompt ∷ choose_workflow_prompt ∷ manual_mock_workflow_prompt
    ∷ contract_validation_workflow_prompt ∷ []

-- The prompts by the name under which they are registered.
abbrev pub registered_prompts : List (String × PromptResult)
registered_prompts =
    map (λ definition. (definition.name, prompt_result definition)) guidance_prompts
