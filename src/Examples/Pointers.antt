-- ===== src/Examples/Pointers.antt =====
-- internal/contract/openapi.go: one document and one path into it, and the largest integer.
use echo_mcp.Prelude.{String, ◌≡◌, refl, ◌↔◌, List, [], ◌∷◌, itoa, pos, arith}
use echo_mcp.Failure.{ok}
use echo_mcp.Json.{Json, text, number, array, object, end, field, nil, cons}
use echo_mcp.Contract.Validate.{validate_integer}
use echo_mcp.Contract.Integers.{IsInt64, validate_integer_iff}
use echo_mcp.Contract.Pointer.{resolve_json_pointer}
use echo_mcp.Contract.Pointer.Printed.{
  Step, field_named, element_number, pointer, Leads, arrived, to_field, to_element,
  resolve_json_pointer-pointer,
}

abbrev document : Json
document =
    object
      (field "a/b" (array (cons (number "1") (cons (object (field "~" (text "x") end)) nil))) end)

abbrev path : List Step
path = field_named "a/b" ∷ element_number 1 ∷ field_named "~" ∷ []

leads : Leads document path (text "x")
unfolding echo_mcp.Prelude.lookup
leads = to_field refl (to_element (omega arith) refl (to_field refl arrived))

resolve_json_pointer-pointer_example : resolve_json_pointer document (pointer path) ≡ ok (text "x")
resolve_json_pointer-pointer_example = resolve_json_pointer-pointer document (text "x") path leads

printed : pointer path ≡ "/a~1b/1/~0"
unfolding pointer echo_mcp.Contract.Pointer.Escaped.escape itoa
printed = refl

validate_integer_iff_example :
    validate_integer (number (itoa (pos 9223372036854775807))) "$" ≡ ok tt
    ↔ IsInt64 (pos 9223372036854775807)
validate_integer_iff_example = validate_integer_iff (pos 9223372036854775807) "$"
