-- ===== src/Json.antt =====
-- Go's `any` as encoding/json fills it with UseNumber, and the functions of encoding/json that the
-- program calls on it.
pub mod Size
use echo_mcp.Prelude.{String, Bool, List, [], ◌∷◌}

-- A map is its entries in the order of one iteration; a number is its literal.
mutual
  pub data Json : Type 0 where
    null : Json
    boolean : Bool → Json
    number : String → Json
    text : String → Json
    array : Items → Json
    object : Fields → Json

  pub data Items : Type 0 where
    nil : Items
    cons : Json → Items → Items

  pub data Fields : Type 0 where
    end : Fields
    field : String → Json → Fields → Fields

abbrev pub items : Items → List Json
items nil = []
items (cons v vs) = v ∷ items vs

abbrev pub entries : Fields → List (String × Json)
entries end = []
entries (field k v fs) = (k, v) ∷ entries fs

-- What one call of `(*json.Decoder).Decode` finds in the text that is left: a value and the text
-- behind it, the end of the text, or an error with its text.
pub data Decoded : Type 0 where
  value : Json → String → Decoded
  eof : Decoded
  malformed : String → Decoded
