-- ===== src/Contract/Errors.antt =====
-- internal/contract/openapi.go: the structured validation errors, from unresolvedRefError to
-- unsupportedSchemaFeatureError.
use echo_mcp.Prelude.{String, Bool, [], ◌∷◌, ◌+s◌, ◌==◌, not, ◌&&◌, quote, if◌then◌else◌}
use echo_mcp.Failure.{Failure, validation_error}

abbrev not_validated : String
not_validated = "The behavior was not validated against the response schema."

unfoldable pub unresolved_ref_error : String → String → Failure
unresolved_ref_error path ref = validation_error (record {
  code = "contract_validation_failed";
  message = "OpenAPI response schema contains unresolved $ref";
  diagnostics =
      ("schema path " +s quote path +s " contains unresolved $ref " +s quote ref)
      ∷ not_validated
      ∷ [];
})

unfoldable pub cyclic_ref_error : String → String → Failure
cyclic_ref_error path ref = validation_error (record {
  code = "contract_validation_failed";
  message = "OpenAPI response schema contains cyclic $ref";
  diagnostics =
      ("schema path " +s quote path +s " contains cyclic $ref " +s quote ref) ∷ not_validated ∷ [];
})

unfoldable pub unsupported_non_local_ref_error : String → String → Failure
unsupported_non_local_ref_error path ref = validation_error (record {
  code = "unsupported_contract_feature";
  message = "OpenAPI response schema at " +s path +s " uses unsupported non-local $ref";
  diagnostics =
      ("schema path " +s quote path +s " contains unsupported non-local $ref " +s quote ref)
      ∷ "Only local internal OpenAPI JSON pointer refs are supported in this MVP."
      ∷ not_validated
      ∷ [];
})

-- The three texts that differ for a $ref with a value.
abbrev is_ref_feature : String → String → Bool
is_ref_feature feature val = feature == "$ref" && not (val == "")

unfoldable pub unsupported_schema_feature_error : String → String → String → Failure
unsupported_schema_feature_error path feature val = validation_error (record {
  code = "unsupported_contract_feature";
  message = "OpenAPI response schema at " +s path +s " uses unsupported " +s feature;
  diagnostics =
      (if is_ref_feature feature val
        then "schema path " +s quote path +s " contains unsupported $ref " +s quote val
        else "schema path " +s quote path +s " contains unsupported " +s feature)
      ∷ (if is_ref_feature feature val
          then "$ref resolution is unsupported in this MVP."
          else feature +s " validation is unsupported in this MVP.")
      ∷ not_validated
      ∷ "Suggested next action: use validation.mode=off with reason for intentional manual behavior."
      ∷ "Suggested next action: use a reduced/inline schema fixture."
      ∷ (if is_ref_feature feature val
          then "Suggested next action: wait for $ref resolution support."
          else "Suggested next action: wait for " +s feature +s " support.")
      ∷ [];
})
