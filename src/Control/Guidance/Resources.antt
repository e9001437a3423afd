-- ===== src/Control/Guidance/Resources.antt =====
-- internal/control/mcp_guidance.go: the guidance resources and the handlers registered for them.
use echo_mcp.Prelude.{String, List, [], ◌∷◌, not, ◌==◌, if◌then◌else◌}
use echo_mcp.Failure.{Failure, Result, ok, err}

abbrev resource_getting_started : String
resource_getting_started = "echo://guides/getting-started"

abbrev resource_workflows : String
resource_workflows = "echo://guides/workflows"

abbrev resource_manual_mock : String
resource_manual_mock = "echo://guides/manual-mock"

abbrev resource_contract_validation : String
resource_contract_validation = "echo://guides/contract-validation"

pub record ResourceDefinition : Type 0 where
  pub uri : String
  pub name : String
  pub title : String
  pub description : String
  pub text : String

pub record ResourceContents : Type 0 where
  pub uri : String
  pub mime_type : String
  pub text : String

abbrev getting_started_resource : ResourceDefinition
getting_started_resource = record {
  uri = resource_getting_started;
  name = "getting-started";
  title = "Echo MCP Getting Started";
  description = "Concise agent-readable startup guidance.";
  text =
      "# Echo MCP Getting Started\n\nEcho MCP is a controllable API simulation server. MCP is the control plane; REST and webhook HTTP calls are the data plane.\n\nFirst inspect available tools, prompts, and resources. Then choose manual_mock, hybrid_validation, or contract_first based on the project need. For partial contract-backed response validation, call load_openapi_contract, confirm with get_contract_status, configure behavior, run tests, and reset between scenarios. Document manual behavior when it is not contract-validated.";
}

abbrev workflows_resource : ResourceDefinition
workflows_resource = record {
  uri = resource_workflows;
  name = "workflows";
  title = "Echo MCP Workflows";
  description = "Guidance for choosing Echo MCP workflows.";
  text =
      "# Echo MCP Workflows\n\nguided: recommended default for AI agents. Inspect available MCP guidance and avoid silently assuming manual mocks.\n\nmanual_mock: fastest path for exploration. Manual behavior may drift and is not contract-validated.\n\ncontract_first: preferred when an OpenAPI contract exists and provider contract fidelity matters.\n\nhybrid_validation: migration mode where manual behavior is allowed while validation/reporting is used where available.\n\nRuntime contract-backed workflow: start Echo MCP, load a local OpenAPI contract, confirm status and validation_capabilities, configure behavior, apply partial response validation for supported capabilities, run app tests, and reset between scenarios.\n\nValidation mode strict means strict enforcement of the validation capabilities currently supported by Echo MCP. It is not full OpenAPI validation.\nEcho MCP does not generate behavior from test intent or OpenAPI in this workflow.";
}

abbrev pub manual_mock_resource : ResourceDefinition
manual_mock_resource = record {
  uri = resource_manual_mock;
  name = "manual-mock";
  title = "Manual Mock Guidance";
  description = "Manual mock behavior caveats and next steps.";
  text =
      "# Manual Mock Guidance\n\nUse configure_behavior for a hand-authored REST method/path/status/body rule. This is useful for quick simulation and exploration.\n\nManual mock behavior is not contract-validated. If provider contract fidelity matters, call load_openapi_contract first and confirm with get_contract_status.\n\nAfter configuring behavior, run the application test, call get_observations, and reset before the next scenario.";
}

abbrev contract_validation_resource : ResourceDefinition
contract_validation_resource = record {
  uri = resource_contract_validation;
  name = "contract-validation";
  title = "Contract Validation Guidance";
  description = "Guidance for OpenAPI-backed or hybrid validation.";
  text =
      "# Contract Validation Guidance\n\nWhen an OpenAPI contract exists and fidelity matters, prefer contract_first or hybrid_validation over manual_mock.\n\nContract-backed validation should be used for supported method/path, response status, response content type, and response body capabilities where available. It is partial response validation, not full provider fidelity.\n\nUse load_openapi_contract for local files only. Echo MCP does not fetch remote URLs, mutate source contracts, or add provider-specific behavior. Reset keeps the active contract loaded between scenarios.\nContract paths must resolve under the configured contract root. Set ECHO_MCP_CONTRACT_ROOT to choose the root; when unset, Echo MCP uses the process working directory.\n\nValidation mode strict means strict enforcement of the validation capabilities currently supported by Echo MCP. It is not full OpenAPI validation.\nThis release does not implement a full OpenAPI-first runtime. Echo MCP remains deterministic and does not generate behavior.";
}

abbrev pub guidance_resources : List ResourceDefinition
guidance_resources =
    getting_started_resource ∷ workflows_resource ∷ manual_mock_resource
    ∷ contract_validation_resource ∷ []

-- The handler of a resource; `not_found` is mcp.ResourceNotFoundError.
unfoldable pub read_resource :
    (String → Failure) → ResourceDefinition → String → Result ResourceContents
read_resource not_found definition uri =
    if not (uri == definition.uri)
    then err (not_found uri)
    else ok (record { uri = definition.uri; mime_type = "text/markdown"; text = definition.text })
