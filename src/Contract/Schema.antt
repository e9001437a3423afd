-- ===== src/Contract/Schema.antt =====
-- internal/contract/openapi.go: openAPISchema. The fields that hold schemas have list types of
-- their own, with functions to the shared ones.
use echo_mcp.Prelude.{String, Bool, false, Option, none, some, List, [], ◌∷◌}

-- The fields that hold no schema. `enum` and `additional_properties` keep the raw JSON text, and an
-- absent additionalProperties is the empty text.
pub record SchemaHead : Type 0 where
  pub ref : String
  pub type_name : String
  pub required : List String
  pub enum : List String
  pub nullable : Bool
  pub additional_properties : String

mutual
  pub data Schema : Type 0 where
    schema :
        (head : SchemaHead) (properties : Properties) (items : MaybeSchema)
        (one_of any_of all_of : Schemas) (not_schema : MaybeSchema)
        → Schema

  pub data Properties : Type 0 where
    no_property : Properties
    property : String → Schema → Properties → Properties

  pub data MaybeSchema : Type 0 where
    absent : MaybeSchema
    present : Schema → MaybeSchema

  pub data Schemas : Type 0 where
    no_schema : Schemas
    more : Schema → Schemas → Schemas

abbrev pub property_list : Properties → List (String × Schema)
property_list no_property = []
property_list (property k s ps) = (k, s) ∷ property_list ps

abbrev pub schema_option : MaybeSchema → Option Schema
schema_option absent = none
schema_option (present s) = some s

abbrev pub schema_list : Schemas → List Schema
schema_list no_schema = []
schema_list (more s ss) = s ∷ schema_list ss

abbrev pub head : Schema → SchemaHead
head (schema h ps i o a l n) = h

abbrev pub properties : Schema → List (String × Schema)
properties (schema h ps i o a l n) = property_list ps

abbrev pub items : Schema → Option Schema
items (schema h ps i o a l n) = schema_option i

abbrev pub one_of : Schema → List Schema
one_of (schema h ps i o a l n) = schema_list o

abbrev pub any_of : Schema → List Schema
any_of (schema h ps i o a l n) = schema_list a

abbrev pub all_of : Schema → List Schema
all_of (schema h ps i o a l n) = schema_list l

abbrev pub not_schema : Schema → Option Schema
not_schema (schema h ps i o a l n) = schema_option n

abbrev pub empty_head : SchemaHead
empty_head = record {
  ref = "";
  type_name = "";
  required = [];
  enum = [];
  nullable = false;
  additional_properties = "";
}

-- The zero value, which a lookup of a missing key gives.
abbrev pub empty_schema : Schema
empty_schema = schema empty_head no_property absent no_schema no_schema no_schema absent
