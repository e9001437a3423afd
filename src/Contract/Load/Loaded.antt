-- ===== src/Contract/Load/Loaded.antt =====
-- internal/contract/openapi.go: which files LoadOpenAPIFileWithSourcePath loads, and as what.
use echo_mcp.Prelude.{
  length-append, ◌∙◌, List, [], ◌∷◌, ◌++◌, ◌==◌, length, any, to_lower, if◌then◌else◌, Bool-cases,
  String, ◌≡◌, refl, sym, ap, ◌↔◌, inl, inr, true, false, not, arith, has_prefix, is_empty,
}
use echo_mcp.Failure.{ok, Answer, ◌>>=◌, ◌>>◌}
use echo_mcp.Json.{Json, Decoded, value, eof, malformed}
use echo_mcp.Contract.Document.{Operation, Paths, OpenApiDocument, OpenApiContract, Codec}
use echo_mcp.Contract.Load.{
  is_http_method, count_methods, count_operations, scan_unsupported_features, read_data,
  read_document, read_raw, check_document, contract_of, load_data,
  load_openapi_file_with_source_path,
}

-- The methods of HTTP among the keys of a path's operations, and of all paths.
unfoldable path_methods : List (String × Operation) → List String
path_methods [] = []
path_methods ((method, operation) ∷ operations) =
    let rest = path_methods operations in
    if any (λ m. m == to_lower method)
      ("get" ∷ "put" ∷ "post" ∷ "delete" ∷ "options" ∷ "head" ∷ "patch" ∷ "trace" ∷ [])
    then method ∷ rest
    else rest

unfoldable pub methods : Paths → List String
unfolding path_methods
methods [] = []
methods ((path, operations) ∷ paths) = path_methods operations ++ methods paths

count_methods-length :
    (operations : List (String × Operation))
    → count_methods operations ≡ length (path_methods operations)
unfolding count_methods path_methods is_http_method
count_methods-length [] = refl
count_methods-length ((method, operation) ∷ operations) =
    elim (Bool-cases (is_http_method method)) [
      | inl e ↦ rw (e, count_methods-length operations) (omega arith)
      | inr e ↦ rw (e, count_methods-length operations) (omega arith)
    ]

count_operations-length : (paths : Paths) → count_operations paths ≡ length (methods paths)
unfolding count_operations methods
count_operations-length [] = refl
count_operations-length ((path, operations) ∷ paths) =
    rw (count_methods-length operations, count_operations-length paths)
      (sym (length-append (path_methods operations) (methods paths)))

-- The file holds a document of version 3.0 with paths, and the contract is made of it.
pub record IsLoaded (codec : Codec) (read_file : String → Answer String) (path source_path : String)
    (c : OpenApiContract) : Type 0 where
  pub contents : String
  pub document : OpenApiDocument
  pub raw : Json
  pub rest : String
  pub readable : read_file path ≡ inr contents
  pub parsed : codec.unmarshal_document contents ≡ inr document
  pub decoded : codec.decode contents ≡ value raw rest
  pub version : has_prefix document.openapi "3.0." ≡ true
  pub has_paths : is_empty document.paths ≡ false
  pub source : c.metadata.source_path ≡ source_path
  pub openapi_version : c.metadata.openapi_version ≡ document.openapi
  pub operations : c.metadata.operations_count ≡ length (methods document.paths)
  pub schemas : c.metadata.schemas_count ≡ length document.schemas
  pub features : c.metadata.unsupported_feature_counts ≡ scan_unsupported_features codec contents
  pub paths : c.paths ≡ document.paths
  pub raw_document : c.raw_document ≡ raw

module _ (codec : Codec) (read_file : String → Answer String) (path source_path : String)
    (c : OpenApiContract) where
  load-IsLoaded :
      (a : Answer String)
      → read_file path ≡ a
      → (read_data a source_path >>= λ contents. load_data codec contents source_path) ≡ ok c
      → IsLoaded codec read_file path source_path c
  unfolding read_data load_data read_document read_raw check_document contract_of
  load-IsLoaded (inl message) e h = cc h
  load-IsLoaded (inr contents) e h = document_step (codec.unmarshal_document contents) refl h
    where
      raw_step :
          (document : OpenApiDocument) (d : Decoded)
          → codec.unmarshal_document contents ≡ inr document
          → codec.decode contents ≡ d
          → (read_raw d source_path >>= λ raw.
              check_document document >> ok (contract_of codec contents source_path document raw))
            ≡ ok c
          → IsLoaded codec read_file path source_path c
      raw_step document eof p q k = cc k
      raw_step document (malformed m) p q k = cc k
      raw_step document (value raw rest) p q k =
          let made : c ≡ contract_of codec contents source_path document raw = ground arith in
          record {
            contents = contents;
            document = document;
            raw = raw;
            rest = rest;
            readable = e;
            parsed = p;
            decoded = q;
            version = ground arith;
            has_paths = ground arith;
            source = ap (λ x. x.metadata.source_path) made;
            openapi_version = ap (λ x. x.metadata.openapi_version) made;
            operations =
                ap (λ x. x.metadata.operations_count) made ∙ count_operations-length document.paths;
            schemas = ap (λ x. x.metadata.schemas_count) made;
            features = ap (λ x. x.metadata.unsupported_feature_counts) made;
            paths = ap (λ x. x.paths) made;
            raw_document = ap (λ x. x.raw_document) made;
          }

      document_step :
          (a : Answer OpenApiDocument)
          → codec.unmarshal_document contents ≡ a
          → (read_document a source_path >>= λ document.
              read_raw (codec.decode contents) source_path >>= λ raw.
              check_document document >> ok (contract_of codec contents source_path document raw))
            ≡ ok c
          → IsLoaded codec read_file path source_path c
      document_step (inl m) p k = cc k
      document_step (inr document) p k = raw_step document (codec.decode contents) p refl k

  made :
      (l : IsLoaded codec read_file path source_path c)
      → contract_of codec l.contents source_path l.document l.raw ≡ c
  unfolding contract_of
  made l = λ i. record {
    metadata = record {
      source_path = sym l.source i;
      openapi_version = sym l.openapi_version i;
      operations_count = (count_operations-length l.document.paths ∙ sym l.operations) i;
      schemas_count = sym l.schemas i;
      unsupported_feature_counts = sym l.features i;
    };
    paths = sym l.paths i;
    raw_document = sym l.raw_document i;
  }

  IsLoaded-load :
      IsLoaded codec read_file path source_path c
      → load_openapi_file_with_source_path codec read_file path source_path ≡ ok c
  unfolding load_openapi_file_with_source_path load_data read_data read_document read_raw
      check_document
  IsLoaded-load l =
      rw (l.readable, l.parsed, l.decoded, l.version, l.has_paths, not) (ap ok (made l))

-- A contract is loaded from a path exactly when the file can be read, it is JSON of the document's
-- shape, its version starts with 3.0. and it has paths; the contract then has the paths and the raw
-- value of that document, and its metadata are the given source path, the version, how many methods
-- of HTTP the paths have, how many schemas there are, and the counts of the scan.
pub load_openapi_file_iff :
    (codec : Codec) (read_file : String → Answer String) (path source_path : String)
    (c : OpenApiContract)
    → load_openapi_file_with_source_path codec read_file path source_path ≡ ok c
      ↔ IsLoaded codec read_file path source_path c
unfolding load_openapi_file_with_source_path
load_openapi_file_iff codec read_file path source_path c = (
  λ h. load-IsLoaded codec read_file path source_path c (read_file path) refl h,
  IsLoaded-load codec read_file path source_path c,
)
