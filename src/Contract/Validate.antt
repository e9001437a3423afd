-- ===== src/Contract/Validate.antt =====
-- internal/contract/openapi.go: validateSchema, validateReferencedSchema and ValidateResponseRule.
-- The set of references that are being resolved is passed down as a list: the source adds a
-- reference before it validates the resolved schema and its deferred delete takes it out on every
-- return, so each call leaves the set as it found it. The recursion takes fuel (see
-- Contract/Fuel).
use echo_mcp.Prelude.{
  ℕ, zero, suc, ◌+◌, String, Bool, true, false, not, ◌&&◌, ◌||◌, Option, none, some, List, [], ◌∷◌,
  ◌==◌, ◌+s◌, is_some, is_empty, any, has_prefix, has_key, lookup, keys, sort_strings, decimal,
  quote, parse_int, if◌then◌else◌,
}
use echo_mcp.Failure.{plain, out_of_fuel, Result, ok, err, ◌>>◌}
use echo_mcp.Json.{Json, null, boolean, number, text, array, object, items as json_items, entries}
use echo_mcp.Contract.Schema.{
  Schema, head, properties, items, one_of, any_of, all_of, not_schema, empty_schema,
}
use echo_mcp.Contract.Document.{Codec}
use echo_mcp.Contract.Errors.{
  unresolved_ref_error, cyclic_ref_error, unsupported_non_local_ref_error,
  unsupported_schema_feature_error,
}
use echo_mcp.Contract.Pointer.{resolve_local_schema_ref}
use echo_mcp.Contract.Enum.{validate_enum}
use echo_mcp.Contract.Additional.{validate_additional_properties}

-- A validator of a value at a path, below the references that are being resolved.
abbrev pub Check : Type 0
Check = Schema → Json → String → List String → Result (Unit {0})

abbrev pub is_null : Json → Bool
is_null null = true
is_null _ = false

unfoldable pub contains : String → List String → Bool
contains ref refs = any (λ r. r == ref) refs

unfoldable pub reject_unsupported_schema_constructs : Schema → String → Result (Unit {0})
reject_unsupported_schema_constructs s path =
    if not (is_empty (one_of s))
    then err (unsupported_schema_feature_error path "oneOf" "")
    else if not (is_empty (any_of s))
    then err (unsupported_schema_feature_error path "anyOf" "")
    else if not (is_empty (all_of s))
    then err (unsupported_schema_feature_error path "allOf" "")
    else if is_some (not_schema s)
    then err (unsupported_schema_feature_error path "not" "")
    else ok tt

-- schemaType: an object where properties or required names stand with no type.
unfoldable pub effective_type : Schema → String
effective_type s =
    if (head s).type_name == ""
      && (not (is_empty (properties s)) || not (is_empty (head s).required))
    then "object"
    else (head s).type_name

unfoldable pub validate_required : List String → List (String × Json) → String → Result (Unit {0})
validate_required [] object_value path = ok tt
validate_required (required ∷ names) object_value path =
    let rest = validate_required names object_value path in
    if has_key required object_value
    then rest
    else err (plain (path +s "." +s required +s " is required by the OpenAPI response schema"))

unfoldable pub property_of : Option Schema → Schema
property_of none = empty_schema
property_of (some p) = p

-- schema.Properties[name]
unfoldable pub property_schema : Schema → String → Schema
property_schema s name = property_of (lookup name (properties s))

-- The loop over the sorted property names.
unfoldable pub validate_properties :
    Check → Schema → List String → List (String × Json) → String → List String → Result (Unit {0})
validate_properties check s [] object_value path resolving = ok tt
validate_properties check s (name ∷ names) object_value path resolving =
    let rest = validate_properties check s names object_value path resolving in
    elim (lookup name object_value) [
      | none ↦ rest
      | some v ↦ (check (property_schema s name) v (path +s "." +s name) resolving >> rest)
    ]

unfoldable pub validate_object : Check → Schema → Json → String → List String → Result (Unit {0})
validate_object check s (object fs) path resolving = do
  validate_required (head s).required (entries fs) path
  validate_properties check s (sort_strings (keys (properties s))) (entries fs) path resolving
  validate_additional_properties s (entries fs) path
validate_object check s _ path resolving = err (plain (path +s " must be an object"))

-- The loop over the items, from an index on.
unfoldable pub validate_items :
    Check → Schema → ℕ → List Json → String → List String → Result (Unit {0})
validate_items check s index [] path resolving = ok tt
validate_items check s index (v ∷ vs) path resolving =
    let rest = validate_items check s (index + 1) vs path resolving in
    check s v (path +s "[" +s decimal index +s "]") resolving >> rest

unfoldable pub validate_each :
    Check → Option Schema → List Json → String → List String → Result (Unit {0})
validate_each check none vs path resolving = ok tt
validate_each check (some s) vs path resolving = validate_items check s 0 vs path resolving

unfoldable pub validate_array : Check → Schema → Json → String → List String → Result (Unit {0})
validate_array check s (array vs) path resolving =
    validate_each check (items s) (json_items vs) path resolving
validate_array check s _ path resolving = err (plain (path +s " must be an array"))

unfoldable pub validate_string : Json → String → Result (Unit {0})
validate_string (text t) path = ok tt
validate_string _ path = err (plain (path +s " must be a string"))

unfoldable pub validate_integer : Json → String → Result (Unit {0})
validate_integer (number n) path =
    if is_some (parse_int n) then ok tt else err (plain (path +s " must be an integer"))
validate_integer _ path = err (plain (path +s " must be an integer"))

unfoldable pub validate_number : Codec → Json → String → Result (Unit {0})
validate_number codec (number n) path =
    if codec.parse_float n then ok tt else err (plain (path +s " must be a number"))
validate_number codec _ path = err (plain (path +s " must be a number"))

unfoldable pub validate_boolean : Json → String → Result (Unit {0})
validate_boolean (boolean b) path = ok tt
validate_boolean _ path = err (plain (path +s " must be a boolean"))

-- The cases of the switch but the empty type.
unfoldable pub validate_type :
    Codec → Check → String → Schema → Json → String → List String → Result (Unit {0})
validate_type codec check type_name s v path resolving =
    if type_name == "object"
    then validate_object check s v path resolving
    else if type_name == "array"
    then validate_array check s v path resolving
    else if type_name == "string"
    then validate_string v path
    else if type_name == "integer"
    then validate_integer v path
    else if type_name == "number"
    then validate_number codec v path
    else if type_name == "boolean"
    then validate_boolean v path
    else err (plain (path +s " uses unsupported schema type " +s quote type_name))

-- The switch and what follows it. The empty type returns before the enum.
unfoldable pub validate_typed :
    Codec → Check → String → Schema → Json → String → List String → Result (Unit {0})
validate_typed codec check type_name s v path resolving =
    if type_name == ""
    then ok tt
    else do validate_type codec check type_name s v path resolving; validate_enum codec s v path

unfoldable pub resolved :
    Check → Result Schema → String → Json → String → List String → Result (Unit {0})
resolved check (err e) ref v path resolving = err (unresolved_ref_error path ref)
resolved check (ok s) ref v path resolving = check s v path (ref ∷ resolving)

unfoldable pub validate_referenced_schema :
    Codec → Json → Check → String → Json → String → List String → Result (Unit {0})
validate_referenced_schema codec raw_document check ref v path resolving =
    if not (has_prefix ref "#/")
    then err (unsupported_non_local_ref_error path ref)
    else if contains ref resolving
    then err (cyclic_ref_error path ref)
    else resolved check (resolve_local_schema_ref codec raw_document ref) ref v path resolving

-- One call of validateSchema, over the validator of the calls that it makes.
unfoldable pub schema_step : Codec → Json → Check → Check
schema_step codec raw_document check s v path resolving =
    if not ((head s).ref == "")
    then validate_referenced_schema codec raw_document check (head s).ref v path resolving
    else if is_null v && (head s).nullable
    then ok tt
    else do
      reject_unsupported_schema_constructs s path
      validate_typed codec check (effective_type s) s v path resolving

unfoldable pub validate_schema : Codec → Json → ℕ → Check
validate_schema codec raw_document zero s v path resolving = err out_of_fuel
validate_schema codec raw_document (suc fuel) s v path resolving =
    schema_step codec raw_document (validate_schema codec raw_document fuel) s v path resolving
