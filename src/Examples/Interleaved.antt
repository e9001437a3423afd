-- ===== src/Examples/Interleaved.antt =====
-- internal/control: interleavings of the turns of a few calls.
use echo_mcp.Prelude.{
  ℕ, ◌<◌, ◌*◌, ◌%◌, ◌+◌, String, ◌≡◌, ◌≢◌, refl, sym, ap, ◌∙◌, false, inl, inr, none, some, List,
  [], ◌∷◌, All, length, arith, pos,
}
use echo_mcp.Failure.{plain, ok, err}
use echo_mcp.State.{ResponseRule, new, match_rule, match_response_rule}
use echo_mcp.HttpServer.{observation_for}
use echo_mcp.Contract.Rule.{validate_response_rule}
use echo_mcp.Contract.Rule.Accepted.{IsAccepted}
use echo_mcp.Control.Manager.{LoadCommand, no_override, load_active, ensure_contract_root}
use echo_mcp.Control.Plane.{LocalPlane}
use echo_mcp.Control.Plane.Calls.{configure, request}
use echo_mcp.Control.Interleaved.{idle, Happening, arrives, runs, run}
use echo_mcp.Control.Interleaved.Alone.{alone-perform}
use echo_mcp.Control.Interleaved.Observed.{IsEvidence, run-IsEvidence}
use echo_mcp.Control.Interleaved.Guarded.{run-IsAccepted}
use echo_mcp.Control.Interleaved.Races.{
  rule_during_load, reset_during_request, run-rule_during_load, run-reset_during_request,
}
use echo_mcp.Control.Tools.Handlers.{get_observations}
use echo_mcp.Control.Tools.Shown.{IsShown, run-IsShown}
use echo_mcp.Examples.Tools.{made}
use echo_mcp.Examples.Documents.{codec, described, user_rule, fuelled_as}
use echo_mcp.Examples.Planes.{files, root, strict_plane, active, reached}
use echo_mcp.Examples.Commands
use echo_mcp.Examples.Commands.{metadata}

abbrev stored_plane : LocalPlane
stored_plane = record strict_plane { store = record new { response_rule = some user_rule } }

run-reset_during_request_example :
    let after = run files codec (idle stored_plane) (reset_during_request "GET" "/users/7") in
    (after.tasks ≡ [])
    × (after.plane.store.response_rule ≡ none)
    × (after.plane.store.generation ≡ 1)
    × (after.plane.store.observations ≡ observation_for "GET" "/users/7" user_rule ∷ [])
unfolding match_response_rule match_rule
run-reset_during_request_example =
    run-reset_during_request files codec stored_plane "GET" "/users/7" user_rule refl refl

abbrev interleaved : List Happening
interleaved =
    arrives (configure user_rule no_override)
    ∷ arrives (request "GET" "/users/7")
    ∷ runs 0
    ∷ runs 1
    ∷ runs 0
    ∷ runs 0
    ∷ []

run-IsEvidence_example :
    All
      (IsEvidence (λ rule. rule.id ≡ "user"))
      (run files codec (idle strict_plane) interleaved).plane.store.observations
run-IsEvidence_example =
    run-IsEvidence files codec (λ rule. rule.id ≡ "user") strict_plane interleaved refl refl
      (refl, (tt, (tt, (tt, (tt, (tt, tt))))))

abbrev configured_alone : List Happening
configured_alone = arrives (configure user_rule no_override) ∷ runs 0 ∷ runs 0 ∷ []

afterwards : run files codec (idle strict_plane) configured_alone ≡ idle stored_plane
afterwards =
    alone-perform files codec strict_plane (configure user_rule no_override) ∙ ap idle reached

served :
    match_response_rule
      (run files codec (idle strict_plane) configured_alone).plane.store
      "GET"
      "/users/7"
    ≡ some user_rule
unfolding match_response_rule match_rule
served = rw (afterwards) refl

run-IsAccepted_example : (active ≡ active) × IsAccepted codec active.openapi user_rule
run-IsAccepted_example =
    run-IsAccepted files codec strict_plane active active configured_alone refl refl refl
      (inl refl, (tt, (tt, tt))) (ap (λ s. s.plane.contract_manager.active) afterwards)
      (fuelled_as active.openapi.metadata) "GET" "/users/7" user_rule served

abbrev free_plane : LocalPlane
free_plane = record strict_plane {
  contract_manager = record { active = none; contract_root = root };
}

abbrev command : LoadCommand
command = record { path = "api.json"; contract_id = ""; validation_mode = ""; force = false }

-- No operation has the method of this rule.
abbrev post_rule : ResponseRule
post_rule = record user_rule { method = "POST" }

loads : load_active files codec 9 root command false ≡ ok Commands.active
unfolding load_active echo_mcp.Prelude.trim_space echo_mcp.Control.Mode.normalize_validation_mode
    echo_mcp.Control.Mode.mode_named echo_mcp.Prelude.to_lower echo_mcp.Control.Root.resolve
    echo_mcp.Control.Root.resolve_candidate echo_mcp.Control.Root.or_not_allowed
    echo_mcp.Control.Root.evaluate_path_for_boundary echo_mcp.Control.Root.resolved_or
    echo_mcp.Control.Root.check_within echo_mcp.Control.Root.path_within_root
    echo_mcp.Control.Root.relative_within echo_mcp.Prelude.characters echo_mcp.Prelude.has_prefix
    echo_mcp.Control.Mode.default_contract_id echo_mcp.Control.Mode.without_extension
    echo_mcp.Contract.Load.load_openapi_file_with_source_path echo_mcp.Contract.Load.read_data
    echo_mcp.Contract.Load.load_data echo_mcp.Contract.Load.read_document
    echo_mcp.Contract.Load.read_raw echo_mcp.Contract.Load.check_document
    echo_mcp.Contract.Load.contract_of echo_mcp.Contract.Load.count_operations
    echo_mcp.Contract.Load.scan_unsupported_features echo_mcp.Contract.Load.count_methods
    echo_mcp.Contract.Load.scan_unsupported_feature_value echo_mcp.Contract.Load.is_http_method
    echo_mcp.Contract.Load.scan_object echo_mcp.Contract.Load.increment_if echo_mcp.Prelude.lookup
loads = refl

refused :
    validate_response_rule codec (described metadata) post_rule
    ≡ err (plain "no OpenAPI operation matches POST /users/7")
unfolding validate_response_rule echo_mcp.Contract.Route.find_operation
    echo_mcp.Contract.Route.exact_or echo_mcp.Contract.Route.operation_at
    echo_mcp.Contract.Route.of_operations echo_mcp.Prelude.lookup echo_mcp.Contract.Route.choose
    echo_mcp.Contract.Route.matched echo_mcp.Prelude.sort_strings echo_mcp.Contract.Route.collect
    echo_mcp.Contract.Route.template_operation echo_mcp.Contract.Route.path_matches
    echo_mcp.Contract.Route.split_path echo_mcp.Prelude.trim_slashes echo_mcp.Prelude.split
    echo_mcp.Contract.Route.parts_match echo_mcp.Prelude.has_prefix echo_mcp.Prelude.ends_with
    echo_mcp.Contract.Route.is_parameter echo_mcp.Prelude.to_lower echo_mcp.Prelude.insert_string
    echo_mcp.Prelude.str_leb echo_mcp.Contract.Rule.defined_responses
refused = refl

run-rule_during_load_example :
    let after = run files codec (idle free_plane) (rule_during_load 9 command post_rule) in
    (after.tasks ≡ [])
    × (after.plane.contract_manager.active ≡ some Commands.active)
    × (match_response_rule after.plane.store "POST" "/users/7" ≡ some post_rule)
    × (validate_response_rule codec (described metadata) post_rule ≢ ok tt)
unfolding ensure_contract_root
run-rule_during_load_example =
    run-rule_during_load files codec free_plane 9 command Commands.active post_rule
      (plain "no OpenAPI operation matches POST /users/7") refl refl refl loads refused

run-IsShown_example :
    All IsShown
      (get_observations (run files codec (idle strict_plane) interleaved).plane).observations
run-IsShown_example =
    run-IsShown files codec strict_plane interleaved refl refl
      (made, (tt, (tt, (tt, (tt, (tt, tt))))))
