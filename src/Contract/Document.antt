-- ===== src/Contract/Document.antt =====
-- internal/contract/openapi.go: the loaded document, and what encoding/json and strconv do for it.
use echo_mcp.Prelude.{ℕ, String, Bool, Option, List}
use echo_mcp.Failure.{Answer}
use echo_mcp.Json.{Json, Decoded}
use echo_mcp.Contract.Schema.{Schema}

pub record MediaType : Type 0 where
  pub schema : Schema

pub record Response : Type 0 where
  pub content : List (String × MediaType)

-- A nil map of responses is `none`.
pub record Operation : Type 0 where
  pub responses : Option (List (String × Response))

abbrev pub Paths : Type 0
Paths = List (String × List (String × Operation))

pub record OpenApiDocument : Type 0 where
  pub openapi : String
  pub paths : Paths
  pub schemas : List (String × Schema)

pub record OpenApiMetadata : Type 0 where
  pub source_path : String
  pub openapi_version : String
  pub operations_count : ℕ
  pub schemas_count : ℕ
  pub unsupported_feature_counts : List (String × ℕ)

pub record OpenApiContract : Type 0 where
  pub metadata : OpenApiMetadata
  pub paths : Paths
  pub raw_document : Json

-- The library functions: a decoder's Decode with UseNumber on the text that is left, json.Marshal,
-- json.Unmarshal into `any`, into a schema and into a document, and whether strconv.ParseFloat
-- accepts a number's literal.
pub record Codec : Type 0 where
  pub decode : String → Decoded
  pub marshal : Json → Answer String
  pub unmarshal : String → Answer Json
  pub unmarshal_schema : String → Answer Schema
  pub unmarshal_document : String → Answer OpenApiDocument
  pub parse_float : String → Bool
