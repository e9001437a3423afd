-- ===== src/Examples/Documents.antt =====
-- internal/contract: a contract with one operation, whose schema has a local reference.
use mathlib.Core.Path.{subst}
use echo_mcp.Prelude.{
  ◌*◌, ◌≤◌, String, ◌≡◌, ◌≢◌, refl, sym, ap, ◌∙◌, ◌↔◌, inl, inr, true, some, List, [], ◌∷◌, ◌==◌,
  arith, In, lookup, pos, Distinct, keys, if◌then◌else◌,
}
use echo_mcp.Failure.{out_of_fuel, ok, err}
use echo_mcp.Json.{Json, number, text, object, end, field, Decoded, value, eof}
use echo_mcp.Json.Size.{size}
use echo_mcp.State.{ResponseRule}
use echo_mcp.Contract.Schema.{
  Schema, schema, SchemaHead, Properties, no_property, property, absent, no_schema, empty_head,
}
use echo_mcp.Contract.Document.{
  MediaType, Response, Operation, Paths, OpenApiMetadata, OpenApiContract, Codec,
}
use echo_mcp.Contract.Pointer.{resolve_local_schema_ref}
use echo_mcp.Contract.Route.{operation_at, of_operations, no_operation, find_operation}
use echo_mcp.Contract.Route.Selection.{Selected, find_operation-Selected}
use echo_mcp.Contract.Validate.{validate_schema}
use echo_mcp.Contract.Conforms.{Conforms}
use echo_mcp.Contract.Fuel.{depth, Refs}
use echo_mcp.Contract.Judgement.Total.{IsBounded, validate_schema_iff}
use echo_mcp.Contract.Rule.{response_for, validate_response_rule}
use echo_mcp.Contract.Rule.Accepted.{IsAccepted, IsFuelled}
use echo_mcp.Contract.Rule.Judged.{validate_response_rule_iff}
use echo_mcp.Contract.Load.{
  count_of, scan_unsupported_feature_value, load_openapi_file_with_source_path,
}
use echo_mcp.Contract.Load.Counts.{
  non_local_refs, feature_name, having, objects, scan_unsupported_feature_value-counts,
}
use echo_mcp.Contract.Load.Loaded.{IsLoaded, load_openapi_file_iff}

abbrev pub id_ref : String
id_ref = "#/components/schemas/Id"

abbrev plain_schema : SchemaHead → Properties → Schema
plain_schema h ps = schema h ps absent no_schema no_schema no_schema absent

abbrev id_schema : Schema
id_schema = plain_schema (record empty_head { type_name = "integer" }) no_property

abbrev pub user_schema : Schema
user_schema =
    plain_schema (record empty_head { type_name = "object"; required = "id" ∷ [] })
      (property "id" (plain_schema (record empty_head { ref = id_ref }) no_property) no_property)

abbrev pub user_operation : Operation
user_operation = record {
  responses = some (
      ("200", record { content = ("application/json", record { schema = user_schema }) ∷ [] })
      ∷ []);
}

abbrev pub user_paths : Paths
user_paths = ("/users/{id}", ("get", user_operation) ∷ []) ∷ ("/health", []) ∷ []

abbrev pub user_raw : Json
user_raw = object (
    field "components"
      (object (
        field "schemas" (object (field "Id" (object (field "type" (text "integer") end)) end)) end))
      end)

abbrev pub user_body : Json
user_body = object (field "id" (number "7") end)

-- The one document and the one body are decoded.
abbrev decode : String → Decoded
decode contents =
    if contents == "document"
    then value user_raw ""
    else if contents == "body"
    then value user_body ""
    else eof

abbrev pub codec : Codec
codec = record {
  decode = decode;
  marshal = λ v. inr "schema";
  unmarshal = λ contents. inr user_raw;
  unmarshal_schema = λ contents. inr id_schema;
  unmarshal_document = λ contents.
      inr (record { openapi = "3.0.3"; paths = user_paths; schemas = ("Id", id_schema) ∷ [] });
  parse_float = λ n. true;
}

abbrev pub contract : OpenApiContract
contract = record {
  metadata = record {
    source_path = "api.json";
    openapi_version = "3.0.3";
    operations_count = 1;
    schemas_count = 1;
    unsupported_feature_counts = [];
  };
  paths = user_paths;
  raw_document = user_raw;
}

abbrev pub user_rule : ResponseRule
user_rule = record {
  id = "user";
  method = "GET";
  path = "/users/7";
  status_code = pos 200;
  content_type = "application/json";
  body = "body";
}

same_schema : (s t : Schema) → ok s ≡ ok t → s ≡ t
same_schema s t e = cc e

-- Each reference that resolves is to the one schema.
resolves_to_id :
    (ref : String) (t : Schema) → resolve_local_schema_ref codec user_raw ref ≡ ok t → id_schema ≡ t
unfolding resolve_local_schema_ref
resolves_to_id ref t h = ground arith

pub bounded : IsBounded codec user_raw (id_ref ∷ []) 5
unfolding depth Refs
bounded = record {
  depth_bound = λ ref t h. subst (λ x. depth x ≤ 5) (resolves_to_id ref t h) (omega arith);
  refs_bound = λ ref t h.
      subst (Refs (λ r. In r (id_ref ∷ []))) (resolves_to_id ref t h)
        ((λ n. absurd (n refl)), (tt, tt));
}

pub user_schema-bound : (depth user_schema ≤ 5) × Refs (λ r. In r (id_ref ∷ [])) user_schema
unfolding depth Refs
user_schema-bound = (omega arith, ((λ n. absurd (n refl)), ((((λ n. inl refl), (tt, tt)), tt), tt)))

validate_schema_iff_example :
    (validate_schema codec user_raw (6 * 6) user_schema user_body "$" [] ≢ err out_of_fuel)
    × (validate_schema codec user_raw (6 * 6) user_schema user_body "$" [] ≡ ok tt
        ↔ Conforms codec user_raw [] user_schema user_body)
validate_schema_iff_example =
    validate_schema_iff codec user_raw (id_ref ∷ []) 5 bounded (omega arith) user_schema
      user_schema-bound.0 user_schema-bound.1 user_body "$"

operation_at-user :
    (template method : String) (o : Operation)
    → operation_at user_paths template method ≡ some o
    → user_operation ≡ o
unfolding operation_at of_operations lookup
operation_at-user template method o h = ground arith

pub user_paths-Distinct : Distinct (keys user_paths)
user_paths-Distinct = (((λ e. cc e), tt), (tt, tt))

same_operation : (a b : Operation) → ok a ≡ ok b → a ≡ b
same_operation a b e = cc e

Selected-user :
    (method path : String) (o : Operation) (responses : List (String × Response))
    → Selected user_paths method path (ok o)
    → o.responses ≡ some responses
    → user_operation ≡ o
Selected-user method path o responses (inl (p, at, e)) r =
    operation_at-user path _ p at ∙ sym (same_operation o p e)
Selected-user method path o responses (inr (n, inl (none_there, e))) r =
    cc (same_operation o no_operation e, r)
Selected-user method path o responses (inr (n, inr (inl (t, p, c, only, e)))) r =
    operation_at-user t _ p c.defined ∙ sym (same_operation o p e)
Selected-user method path o responses (inr (n, inr (inr (t, u, p, q, c, d, m, e)))) r = cc e

media-user :
    (status : String) (responses : List (String × Response)) (response : Response)
    (media : MediaType)
    → user_operation.responses ≡ some responses
    → response_for status responses ≡ some response
    → lookup "application/json" response.content ≡ some media
    → user_schema ≡ media.schema
unfolding response_for lookup
media-user status responses response media e f g = ground arith

media-bound :
    (method path status : String) (operation : Operation) (responses : List (String × Response))
    (response : Response) (media : MediaType)
    → find_operation user_paths method path ≡ ok operation
    → operation.responses ≡ some responses
    → response_for status responses ≡ some response
    → lookup "application/json" response.content ≡ some media
    → (depth media.schema ≤ 5) × Refs (λ r. In r (id_ref ∷ [])) media.schema
media-bound method path status operation responses response media found defined answered there =
    let selected =
      subst (Selected user_paths method path) found
        (find_operation-Selected user_paths method path user_paths-Distinct) in
    let same = Selected-user method path operation responses selected defined in
    subst (λ s. (depth s ≤ 5) × Refs (λ r. In r (id_ref ∷ [])) s)
      (media-user status responses response media (ap (λ o. o.responses) same ∙ defined) answered
        there)
      user_schema-bound

-- The contract with other metadata.
abbrev pub described : OpenApiMetadata → OpenApiContract
described m = record contract { metadata = m }

pub fuelled_as : (m : OpenApiMetadata) → IsFuelled codec (described m)
unfolding size
fuelled_as m = record {
  refs = id_ref ∷ [];
  few = omega arith;
  bounded = bounded;
  media_bound = media-bound;
}

pub fuelled : IsFuelled codec contract
fuelled = fuelled_as contract.metadata

validate_response_rule_iff_example :
    (validate_response_rule codec contract user_rule ≢ err out_of_fuel)
    × (validate_response_rule codec contract user_rule ≡ ok tt
        ↔ IsAccepted codec contract user_rule)
validate_response_rule_iff_example = validate_response_rule_iff codec contract fuelled user_rule

scan_unsupported_feature_value-counts_example :
    count_of (feature_name non_local_refs) (scan_unsupported_feature_value user_raw [])
    ≡ having non_local_refs (objects user_raw)
scan_unsupported_feature_value-counts_example =
    scan_unsupported_feature_value-counts non_local_refs user_raw

load_openapi_file_iff_example :
    load_openapi_file_with_source_path codec (λ path. inr "document") "/srv/api.json" "api.json"
      ≡ ok contract
    ↔ IsLoaded codec (λ path. inr "document") "/srv/api.json" "api.json" contract
load_openapi_file_iff_example =
    load_openapi_file_iff codec (λ path. inr "document") "/srv/api.json" "api.json" contract
