-- ===== src/Examples/Accepted.antt =====
-- internal/contract: a rule that the contract of Examples/Documents accepts.
use echo_mcp.Prelude.{
  itoa, ◌*◌, ◌≤◌, String, ◌≡◌, ◌≢◌, refl, sym, ap, ◌∙◌, ◌↔◌, inl, inr, true, some, List, [], ◌∷◌,
  ◌==◌, arith, eq_iff, In, lookup, pos, Permᴰ, SameMap, Distinct, keys, if◌then◌else◌, Bool-cases,
}
use echo_mcp.Failure.{ok}
use echo_mcp.Contract.Document.{Response, OpenApiMetadata}
use echo_mcp.Contract.Pointer.{resolve_local_schema_ref}
use echo_mcp.Contract.Route.{
  operation_at, of_operations, no_operation, find_operation, path_matches, split_path,
}
use echo_mcp.Contract.Validate.{validate_schema}
use echo_mcp.Contract.Judgement.Total.{validate_schema_iff}
use echo_mcp.Contract.Rule.{response_for, validate_response_rule}
use echo_mcp.Contract.Rule.Accepted.{with_json, IsAccepted}
use echo_mcp.Contract.Rule.Judged.{validate_response_rule_iff}
use echo_mcp.Examples.Documents.{
  user_schema, user_operation, user_raw, user_body, id_ref, bounded, user_schema-bound, user_paths,
  codec, contract, user_rule, described, fuelled,
}

found : find_operation user_paths "GET" "/users/7" ≡ ok user_operation
unfolding echo_mcp.Contract.Route.find_operation echo_mcp.Contract.Route.exact_or
    echo_mcp.Contract.Route.operation_at echo_mcp.Contract.Route.of_operations
    echo_mcp.Contract.Route.choose echo_mcp.Contract.Route.matched
    echo_mcp.Contract.Route.template_operation echo_mcp.Contract.Route.collect
    echo_mcp.Contract.Route.path_matches echo_mcp.Contract.Route.parts_match
    echo_mcp.Contract.Route.split_path echo_mcp.Contract.Route.is_parameter echo_mcp.Prelude.lookup
    echo_mcp.Prelude.sort_strings echo_mcp.Prelude.insert_string echo_mcp.Prelude.str_leb
    echo_mcp.Prelude.to_lower echo_mcp.Prelude.trim_slashes echo_mcp.Prelude.split
    echo_mcp.Prelude.has_prefix echo_mcp.Prelude.ends_with
found = refl

conforming : validate_schema codec user_raw (6 * 6) user_schema user_body "$" [] ≡ ok tt
unfolding validate_schema echo_mcp.Contract.Validate.schema_step
    echo_mcp.Contract.Validate.reject_unsupported_schema_constructs
    echo_mcp.Contract.Validate.validate_typed echo_mcp.Contract.Validate.effective_type
    echo_mcp.Contract.Validate.validate_type echo_mcp.Contract.Validate.validate_object
    echo_mcp.Contract.Validate.validate_required echo_mcp.Contract.Validate.validate_properties
    echo_mcp.Contract.Validate.property_schema echo_mcp.Contract.Validate.property_of
    echo_mcp.Contract.Validate.validate_referenced_schema echo_mcp.Contract.Validate.contains
    echo_mcp.Contract.Validate.resolved echo_mcp.Contract.Validate.validate_integer
    echo_mcp.Prelude.lookup echo_mcp.Prelude.has_key echo_mcp.Prelude.sort_strings
    echo_mcp.Prelude.has_prefix echo_mcp.Prelude.parse_int echo_mcp.Prelude.is_space
    echo_mcp.Prelude.trim_space echo_mcp.Prelude.trim_first echo_mcp.Prelude.split
    echo_mcp.Contract.Additional.validate_additional_properties
    echo_mcp.Contract.Additional.additional_properties_boolean
    echo_mcp.Contract.Additional.extra_names echo_mcp.Contract.Additional.not_allowed
    echo_mcp.Contract.Additional.has_additional_properties echo_mcp.Contract.Enum.validate_enum
    resolve_local_schema_ref echo_mcp.Contract.Pointer.resolve_json_pointer
    echo_mcp.Contract.Pointer.walk echo_mcp.Contract.Pointer.step_into
    echo_mcp.Contract.Pointer.unescape_token
conforming = refl

abbrev user_response : Response
user_response = record { content = ("application/json", record { schema = user_schema }) ∷ [] }

answered :
    response_for (itoa user_rule.status_code) (("200", user_response) ∷ []) ≡ some user_response
unfolding response_for lookup itoa
answered = refl

user_rule-IsAccepted : IsAccepted codec contract user_rule
unfolding lookup echo_mcp.Contract.Rule.normalize_content_type echo_mcp.Prelude.to_lower
    echo_mcp.Prelude.trim_space echo_mcp.Prelude.cut_before
user_rule-IsAccepted = record {
  operation = user_operation;
  responses = ("200", user_response) ∷ [];
  response = user_response;
  found = found;
  defined = refl;
  answered = answered;
  fulfilled =
      with_json {media = record { schema = user_schema }} (λ e. cc e) refl
        (record {
          v = user_body;
          rest = "";
          is_json = refl;
          decoded = refl;
          ended = refl;
          conforms =
              (validate_schema_iff codec user_raw (id_ref ∷ []) 5 bounded (omega arith) user_schema
                  user_schema-bound.0 user_schema-bound.1 user_body "$").1.0
                conforming;
        });
}

pub accepted : validate_response_rule codec contract user_rule ≡ ok tt
accepted = (validate_response_rule_iff codec contract fuelled user_rule).1.1 user_rule-IsAccepted

pub accepted_as :
    (m : OpenApiMetadata) → validate_response_rule codec (described m) user_rule ≡ ok tt
unfolding validate_response_rule echo_mcp.Contract.Rule.validate_content
accepted_as m = accepted
