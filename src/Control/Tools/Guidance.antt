-- ===== src/Control/Tools/Guidance.antt =====
-- internal/control/mcp_server.go: the warnings and the guidance in the tools' outputs. A look at the
-- status makes sure of the manager's root, so these functions answer the plane as well.
use echo_mcp.Prelude.{ℕ, String, Bool, ◌&&◌, List, [], ◌∷◌, ◌==◌, eqb, if◌then◌else◌}
use echo_mcp.Webhook.{outcome_transport_error}
use echo_mcp.Control.Files.{Files}
use echo_mcp.Control.Plane.{LocalPlane, contract_status, contract_validation_active}

abbrev pub manual_mock_warning : String
manual_mock_warning =
    "Manual mock behavior is active. This behavior is not contract-validated. If provider contract fidelity matters, consider OpenAPI-backed validation or hybrid validation."

-- The function contractLoaded.
abbrev contract_loaded : Files → LocalPlane → Bool × LocalPlane
contract_loaded files p = let s = contract_status files p in (s.0.active, s.1)

unfoldable pub configure_behavior_warnings : Files → LocalPlane → List String × LocalPlane
configure_behavior_warnings files p =
    let loaded = contract_loaded files p in
    (if loaded.0 then [] else manual_mock_warning ∷ [], loaded.1)

abbrev pub validation_guidance : List String
validation_guidance = "Contract validation is active for configured REST behavior." ∷ []

abbrev pub off_guidance : List String
off_guidance =
    "An OpenAPI contract is active, but contract validation mode is off for configured REST behavior."
    ∷ []

abbrev pub manual_guidance : List String
manual_guidance = "Manual mock behavior is active for configured REST behavior." ∷ []

-- The test after contractValidationActive.
abbrev status_guidance : Files → LocalPlane → List String × LocalPlane
status_guidance files p =
    let s = contract_status files p in (if s.0.active then off_guidance else manual_guidance, s.1)

-- A LocalPlane reports ContractValidationActive, so the type assertion on the plane holds.
unfoldable pub configure_behavior_guidance : Files → LocalPlane → List String × LocalPlane
configure_behavior_guidance files p =
    let v = contract_validation_active files p in
    if v.0 then (validation_guidance, v.1) else status_guidance files v.1

unfoldable pub webhook_delivery_warnings : String → List String
webhook_delivery_warnings outcome =
    if outcome == outcome_transport_error
    then "Webhook delivery transport error. Inspect the configured application webhook endpoint and call get_observations for evidence."
      ∷ []
    else []

unfoldable pub observation_guidance : ℕ → ℕ → List String
observation_guidance rest_observation_count webhook_delivery_count =
    if eqb rest_observation_count 0 && eqb webhook_delivery_count 0
    then "No data-plane observations are available. Run the application test or send a webhook event before expecting observations."
      ∷ []
    else "Use observations as Echo MCP evidence and keep application behavior assertions in the application test."
      ∷ []
