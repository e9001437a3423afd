-- ===== src/Contract/Rule.antt =====
-- internal/contract/openapi.go: (*OpenAPIContract).ValidateResponseRule and normalizeContentType.
pub mod Accepted
pub mod Content
pub mod Judged
use echo_mcp.Prelude.{
  ℕ, zero, suc, ◌+◌, ◌*◌, String, Bool, not, Option, none, some, List, [], ◌==◌, ◌+s◌, itoa, lookup,
  is_empty, quote, cut_before, trim_space, to_lower, if◌then◌else◌,
}
use echo_mcp.Failure.{some_or, plain, Result, ok, err, ◌>>=◌, ◌>>◌}
use echo_mcp.Json.{Json, Decoded, value, eof, malformed}
use echo_mcp.Json.Size.{size}
use echo_mcp.State.{ResponseRule}
use echo_mcp.Contract.Document.{MediaType, Response, Operation, OpenApiContract, Codec}
use echo_mcp.Contract.Route.{find_operation}
use echo_mcp.Contract.Validate.{validate_schema}

abbrev pub media_type_application_json : String
media_type_application_json = "application/json"

unfoldable pub normalize_content_type : String → String
normalize_content_type content_type = to_lower (trim_space (cut_before b';' content_type))

abbrev pub method_and_path : ResponseRule → String
method_and_path rule = rule.method +s " " +s rule.path

unfoldable pub defined_responses : ResponseRule → Operation → Result (List (String × Response))
defined_responses rule operation =
    some_or operation.responses (plain ("no OpenAPI operation matches " +s method_and_path rule))

-- The response of a status, or the default one.
abbrev or_default : Option Response → Option Response → Option Response
or_default none default_response = default_response
or_default (some response) default_response = some response

unfoldable pub response_for : String → List (String × Response) → Option Response
response_for status responses = or_default (lookup status responses) (lookup "default" responses)

unfoldable pub select_response : ResponseRule → List (String × Response) → Result Response
select_response rule responses = some_or (response_for (itoa rule.status_code) responses) (
    plain (
      "OpenAPI operation "
      +s method_and_path rule
      +s " does not define response status "
      +s itoa rule.status_code))

unfoldable pub select_media : ResponseRule → Response → Result MediaType
select_media rule response = some_or (lookup media_type_application_json response.content) (
    plain (
      "OpenAPI response for "
      +s method_and_path rule
      +s " status "
      +s itoa rule.status_code
      +s " does not define supported application/json content"))

unfoldable pub check_content_type : ResponseRule → Result (Unit {0})
check_content_type rule =
    if not (normalize_content_type rule.content_type == media_type_application_json)
    then err (
        plain (
          "outcome.content_type must be "
          +s quote media_type_application_json
          +s " for "
          +s method_and_path rule
          +s " status "
          +s itoa rule.status_code))
    else ok tt

-- The second Decode must find the end of the text.
unfoldable pub only_value : Json → Decoded → Result Json
only_value v eof = ok v
only_value v _ = err (plain "outcome.body must contain one JSON value")

unfoldable pub first_value : (String → Decoded) → Decoded → Result Json
first_value decode (value v rest) = only_value v (decode rest)
first_value decode eof = err (plain "outcome.body must be valid JSON: EOF")
first_value decode (malformed text) = err (plain ("outcome.body must be valid JSON: " +s text))

unfoldable pub decode_body : Codec → String → Result Json
decode_body codec body = first_value codec.decode (codec.decode body)

-- Fuel for the validation of a schema of the contract (Contract/Fuel).
abbrev pub fuel_for : OpenApiContract → ℕ
fuel_for c = suc (size c.raw_document) * suc (size c.raw_document)

-- From the response's content on.
unfoldable pub validate_content :
    Codec → OpenApiContract → ResponseRule → Response → Result (Unit {0})
validate_content codec c rule response = if is_empty response.content then ok tt else do
  media ← select_media rule response
  check_content_type rule
  body ← decode_body codec rule.body
  validate_schema codec c.raw_document (fuel_for c) media.schema body "$" []

unfoldable pub validate_response_rule : Codec → OpenApiContract → ResponseRule → Result (Unit {0})
validate_response_rule codec c rule = do
  operation ← find_operation c.paths rule.method rule.path
  responses ← defined_responses rule operation
  response ← select_response rule responses
  validate_content codec c rule response
