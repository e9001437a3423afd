-- ===== src/Control/Warnings.antt =====
-- internal/control/contract_manager.go: unsupportedFeatureWarnings.
use echo_mcp.Prelude.{String, List, [], ◌∷◌, ◌++◌, ◌+s◌, decimal, ltb, if◌then◌else◌}
use echo_mcp.Contract.Load.{Counts, count_of}

abbrev warning : Counts → String → String → String → List String
warning features feature before after =
    if ltb 0 (count_of feature features)
    then (before +s decimal (count_of feature features) +s after) ∷ []
    else []

unfoldable pub unsupported_feature_warnings : Counts → List String
unsupported_feature_warnings features =
    warning features "non_local_refs" "Contract contains non-local $ref values ("
      " occurrence(s)). Echo MCP currently resolves only local internal OpenAPI JSON pointer refs."
    ++ warning features "allOf" "Contract contains allOf schemas ("
        " occurrence(s)). Echo MCP currently does not validate allOf composition in this MVP."
    ++ warning features "oneOf" "Contract contains oneOf schemas ("
        " occurrence(s)). Echo MCP currently does not validate oneOf composition in this MVP."
    ++ warning features "anyOf" "Contract contains anyOf schemas ("
        " occurrence(s)). Echo MCP currently does not validate anyOf composition in this MVP."
    ++ warning features "additional_properties_schema"
        "Contract contains schema-valued additionalProperties ("
        " occurrence(s)). Echo MCP currently supports omitted or boolean additionalProperties only."
