-- ===== src/Contract/Enum.antt =====
-- internal/contract/openapi.go: validateEnum.
use echo_mcp.Prelude.{String, List, [], ◌∷◌, ◌==◌, ◌+s◌, join, is_empty, if◌then◌else◌}
use echo_mcp.Failure.{plain, Result, ok, err, or_plain, ◌>>=◌}
use echo_mcp.Json.{Json, Decoded, value, eof, malformed}
use echo_mcp.Contract.Schema.{Schema, head}
use echo_mcp.Contract.Document.{Codec}

-- decodeRawJSONValue, with the decoder's answer
abbrev decoded_value : Decoded → Result Json
decoded_value (value v rest) = ok v
decoded_value eof = err (plain "EOF")
decoded_value (malformed text) = err (plain text)

unfoldable pub decode_raw_json_value : Codec → String → Result Json
decode_raw_json_value codec raw = decoded_value (codec.decode raw)

unfoldable pub canonical_json : Codec → Json → Result String
canonical_json codec v = or_plain (codec.marshal v)

unfoldable pub invalid_enum : String → Result Json → Result Json
invalid_enum path (ok v) = ok v
invalid_enum path (err e) = err (plain (path +s " contains invalid enum value"))

-- The loop over the enum's values; `all` is the whole enum.
unfoldable pub enum_loop : Codec → String → List String → String → List String → Result (Unit {0})
unfolding invalid_enum
enum_loop codec value_json all path [] = err (plain (path +s " must be one of " +s join ", " all))
enum_loop codec value_json all path (raw ∷ raws) =
    let rest = enum_loop codec value_json all path raws in
    do
      enum_value ← invalid_enum path (decode_raw_json_value codec raw)
      enum_json ← canonical_json codec enum_value
      if value_json == enum_json then ok tt else rest

unfoldable pub validate_enum : Codec → Schema → Json → String → Result (Unit {0})
validate_enum codec s v path = if is_empty (head s).enum then ok tt else do
  value_json ← canonical_json codec v
  enum_loop codec value_json (head s).enum path (head s).enum
