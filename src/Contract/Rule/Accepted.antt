-- ===== src/Contract/Rule/Accepted.antt =====
-- internal/contract/openapi.go: which rules ValidateResponseRule accepts.
use echo_mcp.Prelude.{String, ◌≡◌, ◌≢◌, ◌≤◌, some, List, [], In, length, itoa, lookup}
use echo_mcp.Failure.{ok}
use echo_mcp.Json.{Json, value, eof}
use echo_mcp.Json.Size.{size}
use echo_mcp.State.{ResponseRule}
use echo_mcp.Contract.Document.{MediaType, Response, Operation, OpenApiContract, Codec}
use echo_mcp.Contract.Route.{find_operation}
use echo_mcp.Contract.Conforms.{Conforms}
use echo_mcp.Contract.Fuel.{depth, Refs}
use echo_mcp.Contract.Judgement.Total.{IsBounded}
use echo_mcp.Contract.Rule.{media_type_application_json, normalize_content_type, response_for}

module _ (codec : Codec) (c : OpenApiContract) (rule : ResponseRule) where
  -- The body of a rule that a response with content asks for: JSON, one value, that conforms.
  pub record IsJsonFor (media : MediaType) : Type 0 where
    pub v : Json
    pub rest : String
    pub is_json : normalize_content_type rule.content_type ≡ media_type_application_json
    pub decoded : codec.decode rule.body ≡ value v rest
    pub ended : codec.decode rest ≡ eof
    pub conforms : Conforms codec c.raw_document [] media.schema v

  -- What a response asks of the rule.
  pub data Fulfils (response : Response) : Type 0 where
    without_content : response.content ≡ [] → Fulfils response
    with_json :
        {media : MediaType}
        → response.content ≢ []
        → lookup media_type_application_json response.content ≡ some media
        → IsJsonFor media
        → Fulfils response

  -- The contract defines the operation and a response for the status, which the rule fulfils.
  pub record IsAccepted : Type 0 where
    pub operation : Operation
    pub responses : List (String × Response)
    pub response : Response
    pub found : find_operation c.paths rule.method rule.path ≡ ok operation
    pub defined : operation.responses ≡ some responses
    pub answered : response_for (itoa rule.status_code) responses ≡ some response
    pub fulfilled : Fulfils response

-- The bounds that the fuel stands on. Each is a fact of how a document is read: a schema that is
-- decoded from a part of the document nests no deeper than the document has values, and a reference
-- that occurs in one is a text of the document.
pub record IsFuelled (codec : Codec) (c : OpenApiContract) : Type 0 where
  pub refs : List String
  pub few : length refs ≤ size c.raw_document
  pub bounded : IsBounded codec c.raw_document refs (size c.raw_document)
  pub media_bound :
      (method path status : String) (operation : Operation) (responses : List (String × Response))
      (response : Response) (media : MediaType)
      → find_operation c.paths method path ≡ ok operation
      → operation.responses ≡ some responses
      → response_for status responses ≡ some response
      → lookup media_type_application_json response.content ≡ some media
      → (depth media.schema ≤ size c.raw_document) × Refs (λ r. In r refs) media.schema
