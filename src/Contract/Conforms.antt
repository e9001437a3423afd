-- ===== src/Contract/Conforms.antt =====
-- internal/contract/openapi.go: when a value conforms to a schema, as a relation that knows nothing
-- of paths, messages or fuel. `resolving` holds the references on the way to the schema: a reference
-- that leads back to itself conforms to nothing.
use echo_mcp.Prelude.{
  ℕ, String, ◌≡◌, ◌≢◌, ◌⊎◌, Bool, true, false, none, some, List, [], ◌∷◌, In, All, is_some,
  get_elem?, has_key, has_prefix, keys, lookup, parse_int, trim_space,
}
use echo_mcp.Failure.{ok}
use echo_mcp.Json.{
  Json, null, boolean, number, text, array, object, Items, Fields, items as json_items, entries,
}
use echo_mcp.Contract.Schema.{Schema, head, properties, items, one_of, any_of, all_of, not_schema}
use echo_mcp.Contract.Document.{Codec}
use echo_mcp.Contract.Pointer.{resolve_local_schema_ref}
use echo_mcp.Contract.Enum.{decode_raw_json_value, canonical_json}
use echo_mcp.Contract.Validate.{contains, effective_type, property_schema}

-- No oneOf, anyOf, allOf or not.
abbrev pub IsSupported : Schema → Type 0
IsSupported s = (one_of s ≡ []) × (any_of s ≡ []) × (all_of s ≡ []) × (not_schema s ≡ none)

-- The members that the schema does not declare are allowed, or there are none.
abbrev pub AllowsMembers : Schema → List (String × Json) → Type 0
AllowsMembers s members =
    ((head s).additional_properties ≡ "")
    ⊎ (trim_space (head s).additional_properties ≡ "true")
    ⊎ All (λ name. has_key name (properties s) ≡ true) (keys members)

module _ (codec : Codec) where
  -- One of the enum's values encodes as the value does, and those before it can be read.
  pub data Listed (encoded : String) : List String → Type 0 where
    here :
        {raw : String} {raws : List String} {v : Json}
        → decode_raw_json_value codec raw ≡ ok v
        → canonical_json codec v ≡ ok encoded
        → Listed encoded (raw ∷ raws)
    later :
        {raw other : String} {raws : List String} {v : Json}
        → decode_raw_json_value codec raw ≡ ok v
        → canonical_json codec v ≡ ok other
        → Listed encoded raws
        → Listed encoded (raw ∷ raws)

  -- There is no enum, or the value is one of its values.
  abbrev pub InEnum : Schema → Json → Type 0
  InEnum s v =
      ((head s).enum ≡ [])
      ⊎ ((encoded : String) × (canonical_json codec v ≡ ok encoded) × Listed encoded (head s).enum)

  module _ (raw_document : Json) where
    mutual
      pub data Conforms : List String → Schema → Json → Type 0 where
        by_reference :
            {resolving : List String} {s t : Schema} {v : Json}
            → (head s).ref ≢ ""
            → has_prefix (head s).ref "#/" ≡ true
            → contains (head s).ref resolving ≡ false
            → resolve_local_schema_ref codec raw_document (head s).ref ≡ ok t
            → Conforms ((head s).ref ∷ resolving) t v
            → Conforms resolving s v
        null_value :
            {resolving : List String} {s : Schema} {v : Json}
            → (head s).ref ≡ ""
            → (head s).nullable ≡ true
            → v ≡ null
            → Conforms resolving s v
        any_value :
            {resolving : List String} {s : Schema} {v : Json}
            → (head s).ref ≡ ""
            → IsSupported s
            → effective_type s ≡ ""
            → Conforms resolving s v
        typed :
            {resolving : List String} {s : Schema} {v : Json}
            → (head s).ref ≡ ""
            → IsSupported s
            → HasType resolving (effective_type s) s v
            → InEnum s v
            → Conforms resolving s v

      pub data HasType : List String → String → Schema → Json → Type 0 where
        an_object :
            {resolving : List String} {type_name : String} {s : Schema} {v : Json}
            {members : Fields}
            → type_name ≡ "object"
            → v ≡ object members
            → All (λ name. has_key name (entries members) ≡ true) (head s).required
            → ((name : String) (w : Json)
                → In name (keys (properties s))
                → lookup name (entries members) ≡ some w
                → Conforms resolving (property_schema s name) w)
            → AllowsMembers s (entries members)
            → HasType resolving type_name s v
        an_array :
            {resolving : List String} {type_name : String} {s : Schema} {v : Json} {vs : Items}
            → type_name ≡ "array"
            → v ≡ array vs
            → ((t : Schema) (i : ℕ) (w : Json)
                → items s ≡ some t
                → get_elem? (json_items vs) i ≡ some w
                → Conforms resolving t w)
            → HasType resolving type_name s v
        a_string :
            {resolving : List String} {type_name : String} {s : Schema} {v : Json} {t : String}
            → type_name ≡ "string"
            → v ≡ text t
            → HasType resolving type_name s v
        an_integer :
            {resolving : List String} {type_name : String} {s : Schema} {v : Json} {n : String}
            → type_name ≡ "integer"
            → v ≡ number n
            → is_some (parse_int n) ≡ true
            → HasType resolving type_name s v
        a_number :
            {resolving : List String} {type_name : String} {s : Schema} {v : Json} {n : String}
            → type_name ≡ "number"
            → v ≡ number n
            → codec.parse_float n ≡ true
            → HasType resolving type_name s v
        a_boolean :
            {resolving : List String} {type_name : String} {s : Schema} {v : Json} {b : Bool}
            → type_name ≡ "boolean"
            → v ≡ boolean b
            → HasType resolving type_name s v
