-- ===== src/Contract/Additional.antt =====
-- internal/contract/openapi.go: validateAdditionalProperties.
use echo_mcp.Prelude.{
  String, Bool, true, false, not, List, [], ◌∷◌, ◌==◌, ◌+s◌, trim_space, has_key, keys, keep, any,
  sort_strings, if◌then◌else◌,
}
use echo_mcp.Failure.{plain, Result, ok, err}
use echo_mcp.Json.{Json}
use echo_mcp.Contract.Schema.{Schema, head, properties}
use echo_mcp.Contract.Errors.{unsupported_schema_feature_error}

-- (allowed, ok)
unfoldable pub additional_properties_boolean : String → Bool × Bool
additional_properties_boolean raw =
    if trim_space raw == "true"
    then (true, true)
    else if trim_space raw == "false"
    then (false, true)
    else (true, false)

-- The names of the object that the schema does not declare, in the order of the iteration.
unfoldable pub extra_names : Schema → List (String × Json) → List String
extra_names s object_value = keep (λ name. not (has_key name (properties s))) (keys object_value)

unfoldable pub has_additional_properties : Schema → List (String × Json) → Bool
has_additional_properties s object_value =
    any (λ name. not (has_key name (properties s))) (keys object_value)

unfoldable pub not_allowed : String → List String → Result (Unit {0})
not_allowed path [] = ok tt
not_allowed path (name ∷ names) =
    err (plain (path +s "." +s name +s " is not allowed by the OpenAPI response schema"))

unfoldable pub validate_additional_properties :
    Schema → List (String × Json) → String → Result (Unit {0})
unfolding additional_properties_boolean
validate_additional_properties s object_value path =
    let raw = (head s).additional_properties in
    if raw == ""
    then ok tt
    else if not (additional_properties_boolean raw).1
    then (if has_additional_properties s object_value
        then err (unsupported_schema_feature_error path "additionalProperties schema" "")
        else ok tt)
    else if (additional_properties_boolean raw).0
    then ok tt
    else not_allowed path (sort_strings (extra_names s object_value))
