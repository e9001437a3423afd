-- ===== src/Contract/Pointer.antt =====
-- internal/contract/openapi.go: resolveJSONPointer and resolveLocalSchemaRef.
pub mod Escaped
pub mod Printed
use Prim.Native.Char.{code}
use echo_mcp.Prelude.{
  ℕ, String, not, ◌&&◌, Option, none, some, List, [], ◌∷◌, ◌==◌, ◌+s◌, ℤ, pos, negsuc, eqb, quote,
  has_prefix, trim_first, split, parse_int, lookup, get_elem?, if◌then◌else◌,
}
use echo_mcp.Failure.{Failure, plain, Result, ok, err, or_plain, ◌>>=◌}
use echo_mcp.Json.{Json, array, object, items, entries}
use echo_mcp.Contract.Schema.{Schema}
use echo_mcp.Contract.Document.{Codec}

-- strings.ReplaceAll(s, old, new), for an `old` of the two characters a and b that differ, and a
-- `new` of one.
replace_pair : ℕ → ℕ → String → String → String
replace_pair a b new String.[] = String.[]
replace_pair a b new (String.◌∷◌ c String.[]) = String.◌∷◌ c String.[]
replace_pair a b new (String.◌∷◌ c (String.◌∷◌ d s)) =
    let skipped = new +s replace_pair a b new s in
    let kept = String.◌∷◌ c (replace_pair a b new (String.◌∷◌ d s)) in
    if eqb (code c) a && eqb (code d) b then skipped else kept

unfoldable pub unescape_token : String → String
unfolding replace_pair
unescape_token raw = replace_pair b'~' b'0' "~" (replace_pair b'~' b'1' "/" raw)

found_or : Failure → Option Json → Result Json
found_or e none = err e
found_or e (some v) = ok v

element_at : Failure → Option ℤ → List Json → Result Json
unfolding found_or
element_at e none vs = err e
element_at e (some (negsuc n)) vs = err e
element_at e (some (pos n)) vs = found_or e (get_elem? vs n)

-- One token of the pointer.
unfoldable pub step_into : Json → String → Result Json
unfolding found_or element_at
step_into (object fs) token =
    found_or (plain ("JSON pointer token " +s quote token +s " not found"))
      (lookup token (entries fs))
step_into (array vs) token =
    element_at (plain ("JSON pointer array index " +s quote token +s " not found"))
      (parse_int token) (items vs)
step_into _ token = err (plain ("JSON pointer token " +s quote token +s " cannot be resolved"))

unfoldable pub walk : Json → List String → Result Json
unfolding step_into unescape_token
walk current [] = ok current
walk current (raw ∷ tokens) = do next ← step_into current (unescape_token raw); walk next tokens

unfoldable pub resolve_json_pointer : Json → String → Result Json
unfolding walk
resolve_json_pointer document pointer =
    if pointer == ""
    then ok document
    else if not (has_prefix pointer "/")
    then err (plain "JSON pointer must start with /")
    else walk document (split b'/' (trim_first b'/' pointer))

unfoldable pub resolve_local_schema_ref : Codec → Json → String → Result Schema
unfolding resolve_json_pointer
resolve_local_schema_ref codec raw_document ref = do
  target ← resolve_json_pointer raw_document (trim_first b'#' ref)
  payload ← or_plain (codec.marshal target)
  or_plain (codec.unmarshal_schema payload)
