-- ===== src/Contract/Load.antt =====
-- internal/contract/openapi.go: LoadOpenAPIFileWithSourcePath, the counts of the metadata and the
-- scan for features that are not validated. Reading a file is a parameter.
pub mod Counts
pub mod Loaded
use echo_mcp.Prelude.{
  ℕ, suc, ◌+◌, String, Bool, true, false, not, Option, none, some, List, [], ◌∷◌, ◌==◌, ◌+s◌,
  length, inl, inr, is_some, is_empty, has_prefix, lookup, quote, to_lower, if◌then◌else◌, any,
}
use echo_mcp.Failure.{Failure, load_error, Result, ok, err, Answer, ◌>>=◌, ◌>>◌}
use echo_mcp.Json.{
  Json, null, boolean, number, text, array, object, Items, nil, cons, Fields, end, field, entries,
  Decoded, value, eof, malformed,
}
use echo_mcp.Contract.Document.{
  Operation, Paths, OpenApiDocument, OpenApiMetadata, OpenApiContract, Codec,
}

abbrev http_methods : List String
http_methods = "get" ∷ "put" ∷ "post" ∷ "delete" ∷ "options" ∷ "head" ∷ "patch" ∷ "trace" ∷ []

unfoldable pub is_http_method : String → Bool
is_http_method method = any (λ m. m == to_lower method) http_methods

unfoldable pub count_methods : List (String × Operation) → ℕ
count_methods [] = 0
count_methods ((method, operation) ∷ operations) =
    (if is_http_method method then 1 else 0) + count_methods operations

unfoldable pub count_operations : Paths → ℕ
count_operations [] = 0
count_operations ((path, operations) ∷ paths) = count_methods operations + count_operations paths

-- counts[feature], which is 0 where there is no entry.
abbrev or_zero : Option ℕ → ℕ
or_zero none = 0
or_zero (some n) = n

abbrev pub Counts : Type 0
Counts = List (String × ℕ)

unfoldable pub count_of : String → Counts → ℕ
count_of feature counts = or_zero (lookup feature counts)

-- counts[feature]++
unfoldable pub increment : String → Counts → Counts
increment feature [] = (feature, 1) ∷ []
increment feature ((name, n) ∷ counts) =
    let rest = increment feature counts in
    if name == feature then (name, suc n) ∷ counts else (name, n) ∷ rest

unfoldable pub increment_if : Bool → String → Counts → Counts
increment_if b feature counts = if b then increment feature counts else counts

abbrev pub non_local : Option Json → Bool
non_local (some (text ref)) = not (has_prefix ref "#/")
non_local _ = false

abbrev pub not_boolean : Option Json → Bool
not_boolean none = false
not_boolean (some (boolean b)) = false
not_boolean (some _) = true

-- The tests on one object, before the values that it holds.
unfoldable pub scan_object : List (String × Json) → Counts → Counts
scan_object members counts =
    increment_if (not_boolean (lookup "additionalProperties" members))
      "additional_properties_schema"
      (increment_if (is_some (lookup "anyOf" members)) "anyOf" (
        increment_if (is_some (lookup "oneOf" members)) "oneOf" (
          increment_if (is_some (lookup "allOf" members)) "allOf"
            (increment_if (non_local (lookup "$ref" members)) "non_local_refs" counts))))

unfoldable mutual
  pub scan_unsupported_feature_value : Json → Counts → Counts
  scan_unsupported_feature_value (object fs) counts =
      scan_fields fs (scan_object (entries fs) counts)
  scan_unsupported_feature_value (array vs) counts = scan_items vs counts
  scan_unsupported_feature_value null counts = counts
  scan_unsupported_feature_value (boolean b) counts = counts
  scan_unsupported_feature_value (number n) counts = counts
  scan_unsupported_feature_value (text t) counts = counts

  pub scan_items : Items → Counts → Counts
  scan_items nil counts = counts
  scan_items (cons v vs) counts = scan_items vs (scan_unsupported_feature_value v counts)

  pub scan_fields : Fields → Counts → Counts
  scan_fields end counts = counts
  scan_fields (field k v fs) counts = scan_fields fs (scan_unsupported_feature_value v counts)

scan_parsed : Answer Json → Counts
scan_parsed (inl error) = []
scan_parsed (inr root) = scan_unsupported_feature_value root []

unfoldable pub scan_unsupported_features : Codec → String → Counts
unfolding scan_parsed
scan_unsupported_features codec contents = scan_parsed (codec.unmarshal contents)

abbrev failure : String → String → String → Failure
failure code message diagnostic =
    load_error (record { code = code; message = message; diagnostics = diagnostic ∷ [] })

abbrev invalid_json : String → String → Failure
invalid_json source_path message =
    failure "invalid_json" ("OpenAPI contract file " +s quote source_path +s " is not valid JSON")
      message

unfoldable pub read_data : Answer String → String → Result String
read_data (inr contents) source_path = ok contents
read_data (inl message) source_path = err (
    failure "unreadable_file" ("OpenAPI contract file " +s quote source_path +s " is unreadable")
      "The OpenAPI contract file could not be read.")

unfoldable pub read_document : Answer OpenApiDocument → String → Result OpenApiDocument
read_document (inr document) source_path = ok document
read_document (inl message) source_path = err (invalid_json source_path message)

-- The first value of the message; what stands behind it is not looked at.
unfoldable pub read_raw : Decoded → String → Result Json
read_raw (value raw rest) source_path = ok raw
read_raw eof source_path = err (invalid_json source_path "EOF")
read_raw (malformed message) source_path = err (invalid_json source_path message)

unfoldable pub check_document : OpenApiDocument → Result (Unit {0})
check_document document =
    if not (has_prefix document.openapi "3.0.")
    then err (
        failure "unsupported_openapi_version"
          ("OpenAPI version "
            +s quote document.openapi
            +s " is not supported; only OpenAPI 3.0.x JSON is supported")
          "Supported OpenAPI versions: 3.0.x JSON.")
    else if is_empty document.paths
    then err (
        failure "missing_paths" "OpenAPI contract must define non-empty paths"
          "The OpenAPI document did not include any paths.")
    else ok tt

unfoldable pub contract_of : Codec → String → String → OpenApiDocument → Json → OpenApiContract
contract_of codec contents source_path document raw = record {
  metadata = record {
    source_path = source_path;
    openapi_version = document.openapi;
    operations_count = count_operations document.paths;
    schemas_count = length document.schemas;
    unsupported_feature_counts = scan_unsupported_features codec contents;
  };
  paths = document.paths;
  raw_document = raw;
}

unfoldable pub load_data : Codec → String → String → Result OpenApiContract
load_data codec contents source_path = do
  document ← read_document (codec.unmarshal_document contents) source_path
  raw ← read_raw (codec.decode contents) source_path
  check_document document
  ok (contract_of codec contents source_path document raw)

-- `read_file` is os.ReadFile.
unfoldable pub load_openapi_file_with_source_path :
    Codec → (String → Answer String) → String → String → Result OpenApiContract
load_openapi_file_with_source_path codec read_file path source_path = do
  contents ← read_data (read_file path) source_path
  load_data codec contents source_path
