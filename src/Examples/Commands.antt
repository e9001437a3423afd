-- ===== src/Examples/Commands.antt =====
-- cmd/echo-mcp/main.go: a start with the user contract of Examples/Documents.
use mathlib.Core.Path.{subst}
use echo_mcp.Prelude.{
  ◌∙◌, String, false, ◌≡◌, refl, sym, ap, inl, inr, ◌==◌, none, some, List, [], ◌∷◌, if◌then◌else◌,
}
use echo_mcp.Failure.{plain, Result, ok, err, is_ok}
use echo_mcp.State.{new, match_rule, match_response_rule, configure_response_rule}
use echo_mcp.Webhook.{Url, Client, Exchange, failed}
use echo_mcp.Contract.Document.{OpenApiMetadata, OpenApiContract}
use echo_mcp.Contract.Load.{load_openapi_file_with_source_path}
use echo_mcp.Contract.Load.Loaded.{IsLoaded, load_openapi_file_iff}
use echo_mcp.Contract.Rule.Accepted.{IsAccepted, IsFuelled}
use echo_mcp.Control.Root.{ContractRoot, new_contract_root, contract_root_source_working_directory}
use echo_mcp.Control.Manager.{ActiveContract, ContractManager, no_override}
use echo_mcp.Control.Validation.{
  effective_mode, validate_rule, validate_active, validate_in_mode, verdict,
}
use echo_mcp.Control.Plane
use echo_mcp.Control.Plane.{
  LocalPlane, validated, extra_validation, store_if_valid, configure_response_rule_with_validation,
}
use echo_mcp.Control.Plane.Calls.{configure, perform}
use echo_mcp.Control.Interleaved.{idle, Happening, arrives, runs, run}
use echo_mcp.Control.Interleaved.Alone.{alone-perform}
use echo_mcp.Control.Construct.{openapi_contract, new_with_webhook_sender}
use echo_mcp.Control.Construct.Fresh.{said, IsGiven, configure_response_rule-said}
use echo_mcp.Command.{Servers, start as start_servers}
use echo_mcp.Command.Started.{IsStartupContract, IsStarted, start-IsStarted, start-IsAccepted}
use echo_mcp.Examples.Documents.{codec, described, user_rule, fuelled_as}
use echo_mcp.Examples.Accepted.{accepted_as}
use echo_mcp.Examples.Planes.{files, parents}

-- The environment names the contract only.
abbrev getenv : String → String
getenv name = if name == "ECHO_MCP_OPENAPI_FILE" then "api.json" else ""

abbrev parse : String → Result Url
parse address = err (plain "no address")

abbrev client : Client
client = record {
  marshal = λ v. ok "{}";
  new_request = λ address payload. ok tt;
  exchange = λ address payload. failed "refused";
}

abbrev pub metadata : OpenApiMetadata
metadata = record {
  source_path = "x";
  openapi_version = "3.0.3";
  operations_count = 1;
  schemas_count = 1;
  unsupported_feature_counts = [];
}

abbrev pub active : ActiveContract
active = record {
  openapi = described metadata;
  contract_id = "x";
  loaded_at = 9;
  validation_mode = "strict";
}

abbrev plane : LocalPlane
plane = record {
  store = new;
  validator = none;
  contract_manager = record {
    active = some active;
    contract_root = record {
      path = "/srv/api.json";
      configured = false;
      source = contract_root_source_working_directory;
    };
  };
  webhook_sender = none;
}

abbrev servers : Servers
servers = record { control_plane = plane; http_addr = ":8080" }

started : start_servers files codec parse client 9 getenv ≡ ok servers
unfolding start_servers echo_mcp.Command.load_contract_manager_from_environment
    echo_mcp.Control.Manager.new_contract_manager_with_contract_root
    echo_mcp.Control.Root.new_contract_root echo_mcp.Control.Root.root_input
    echo_mcp.Prelude.trim_space echo_mcp.Control.Root.default_root_input
    echo_mcp.Control.Root.check_directory echo_mcp.Command.load_startup_contract
    echo_mcp.Control.Manager.load_openapi_contract echo_mcp.Control.Manager.activate
    echo_mcp.Control.Manager.load_active echo_mcp.Control.Mode.normalize_validation_mode
    echo_mcp.Control.Mode.mode_named echo_mcp.Prelude.to_lower echo_mcp.Control.Root.resolve
    echo_mcp.Control.Root.resolve_candidate echo_mcp.Control.Root.or_not_allowed
    echo_mcp.Control.Root.evaluate_path_for_boundary echo_mcp.Control.Root.resolved_or
    echo_mcp.Control.Root.check_within echo_mcp.Control.Root.path_within_root
    echo_mcp.Control.Root.relative_within echo_mcp.Prelude.characters echo_mcp.Prelude.has_prefix
    echo_mcp.Control.Manager.ensure_contract_root echo_mcp.Control.Mode.default_contract_id
    echo_mcp.Control.Mode.without_extension
    echo_mcp.Contract.Load.load_openapi_file_with_source_path echo_mcp.Contract.Load.read_data
    echo_mcp.Contract.Load.load_data echo_mcp.Contract.Load.read_document
    echo_mcp.Contract.Load.read_raw echo_mcp.Contract.Load.check_document
    echo_mcp.Contract.Load.contract_of echo_mcp.Contract.Load.count_operations
    echo_mcp.Contract.Load.scan_unsupported_features echo_mcp.Command.load_webhook_sender
    echo_mcp.Webhook.load_endpoint_from_environment echo_mcp.Webhook.register
    echo_mcp.Command.http_addr_from_environment
    echo_mcp.Control.Construct.new_with_contract_manager_and_validator
    echo_mcp.Contract.Load.count_methods echo_mcp.Contract.Load.scan_unsupported_feature_value
    echo_mcp.Contract.Load.is_http_method echo_mcp.Contract.Load.scan_object
    echo_mcp.Contract.Load.increment_if echo_mcp.Prelude.lookup
started = refl

start-IsStarted_example : IsStarted files codec parse client 9 getenv servers
start-IsStarted_example = start-IsStarted files codec parse client 9 getenv parents servers started

abbrev reached_plane : LocalPlane
reached_plane = perform files codec plane (configure user_rule no_override)

passed : validated codec plane user_rule no_override ≡ ok []
unfolding validated validate_rule validate_active effective_mode validate_in_mode verdict
    extra_validation
passed = rw (accepted_as metadata) refl

reached : reached_plane ≡ record plane { store = record new { response_rule = some user_rule } }
unfolding perform configure_response_rule_with_validation store_if_valid configure_response_rule
reached = ap (λ r. (store_if_valid plane user_rule r).1) passed

abbrev configured_alone : List Happening
configured_alone = arrives (configure user_rule no_override) ∷ runs 0 ∷ runs 0 ∷ []

afterwards :
    run files codec (idle plane) configured_alone
    ≡ idle (record plane { store = record new { response_rule = some user_rule } })
afterwards = alone-perform files codec plane (configure user_rule no_override) ∙ ap idle reached

served :
    match_response_rule (run files codec (idle plane) configured_alone).plane.store "GET" "/users/7"
    ≡ some user_rule
unfolding match_response_rule match_rule
served = rw (afterwards) refl

every_load :
    (path source_path : String)
    → load_openapi_file_with_source_path codec files.read_file path source_path
      ≡ ok (described (record metadata { source_path = source_path }))
unfolding load_openapi_file_with_source_path echo_mcp.Contract.Load.read_data
    echo_mcp.Contract.Load.load_data echo_mcp.Contract.Load.read_document
    echo_mcp.Contract.Load.read_raw echo_mcp.Contract.Load.check_document
    echo_mcp.Contract.Load.contract_of echo_mcp.Contract.Load.count_operations
    echo_mcp.Contract.Load.scan_unsupported_features echo_mcp.Contract.Load.count_methods
    echo_mcp.Contract.Load.scan_unsupported_feature_value echo_mcp.Contract.Load.is_http_method
    echo_mcp.Contract.Load.scan_object echo_mcp.Contract.Load.increment_if echo_mcp.Prelude.lookup
    echo_mcp.Prelude.has_prefix echo_mcp.Prelude.to_lower
every_load path source_path = refl

same_contract : (c d : OpenApiContract) → ok c ≡ ok d → c ≡ d
same_contract c d e = cc e

every_fuelled :
    (path source_path : String) (c : OpenApiContract)
    → IsLoaded codec files.read_file path source_path c
    → IsFuelled codec c
every_fuelled path source_path c l =
    subst (IsFuelled codec)
      (same_contract _ c (
        sym (every_load path source_path)
        ∙ (load_openapi_file_iff codec files.read_file path source_path c).1 l))
      (fuelled_as (record metadata { source_path = source_path }))

start-IsAccepted_example :
    (root : ContractRoot) × (new_contract_root files "" "ECHO_MCP_CONTRACT_ROOT" ≡ ok root)
    × (c : IsStartupContract files codec 9 getenv root plane.contract_manager) × (c.a ≡ active)
    × IsAccepted codec (described metadata) user_rule
start-IsAccepted_example =
    start-IsAccepted files codec parse client 9 getenv parents servers configured_alone active
      (λ e. cc e) started every_fuelled (inl refl, (tt, (tt, tt)))
      (ap (λ s. s.plane.contract_manager.active) afterwards) "GET" "/users/7" user_rule served

configure_response_rule-said_example :
    let p =
      new_with_webhook_sender files codec 9 none
        (some (openapi_contract (some (described metadata))))
        none in
    let says = said codec (some (openapi_contract (some (described metadata)))) user_rule in
    IsGiven (some (openapi_contract (some (described metadata)))) p.contract_manager.active
    × (is_ok (Plane.configure_response_rule codec p user_rule).0 ≡ is_ok says)
    × ((Plane.configure_response_rule codec p user_rule).1.store
        ≡ (if is_ok says then configure_response_rule p.store user_rule else p.store))
configure_response_rule-said_example =
    configure_response_rule-said files codec 9 none
      (some (openapi_contract (some (described metadata)))) none user_rule
