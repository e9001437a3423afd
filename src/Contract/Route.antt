-- ===== src/Contract/Route.antt =====
-- internal/contract/openapi.go: findOperation and pathMatches.
pub mod Parameter
pub mod Segments
pub mod Template
pub mod Selection
use Prim.Native.String.{len}
use echo_mcp.Prelude.{
  ℕ, String, Bool, true, false, not, ◌&&◌, ◌||◌, Option, none, some, List, [], ◌∷◌, ◌==◌, ◌+s◌, eqb,
  ltb, has_prefix, ends_with, split, trim_slashes, to_lower, join, lookup, keys, sort_strings,
  length, if◌then◌else◌,
}
use echo_mcp.Failure.{plain, Result, ok, err}
use echo_mcp.Contract.Document.{Operation, Paths}

unfoldable pub split_path : String → List String
split_path path = if trim_slashes path == "" then [] else split b'/' (trim_slashes path)

-- A segment {name} of a template.
unfoldable pub is_parameter : String → Bool
is_parameter part = has_prefix part "{" && ends_with b'}' part && ltb 2 (len part)

-- The loop; it runs over as many path parts as template parts.
unfoldable pub parts_match : List String → List String → Bool
unfolding is_parameter
parts_match (template_part ∷ template_parts) (path_part ∷ path_parts) =
    let rest = parts_match template_parts path_parts in
    if is_parameter template_part
    then (if path_part == "" then false else rest)
    else if not (template_part == path_part)
    then false
    else rest
parts_match _ _ = true

unfoldable pub path_matches : String → String → Bool
path_matches template path =
    if not (eqb (length (split_path template)) (length (split_path path)))
    then false
    else parts_match (split_path template) (split_path path)

unfoldable pub of_operations : String → Option (List (String × Operation)) → Option Operation
of_operations method none = none
of_operations method (some operations) = lookup method operations

-- paths[path][method]
unfoldable pub operation_at : Paths → String → String → Option Operation
operation_at paths path method = of_operations method (lookup path paths)

-- One round of the loop: the template's operation, if the template counts.
unfoldable pub template_operation : Paths → String → String → String → Option Operation
template_operation paths http_method path template =
    if template == path || not (path_matches template path)
    then none
    else operation_at paths template http_method

-- The two appends of the loop's body.
unfoldable pub collect :
    String → Option Operation → List (String × Operation) → List (String × Operation)
collect template none rest = rest
collect template (some operation) rest = (template, operation) ∷ rest

-- matchedTemplates, each with its operation.
unfoldable pub matched : Paths → String → String → List String → List (String × Operation)
matched paths http_method path [] = []
matched paths http_method path (template ∷ templates) =
    collect template (template_operation paths http_method path template)
      (matched paths http_method path templates)

abbrev pub no_operation : Operation
no_operation = record { responses = none }

-- After the loop.
unfoldable pub choose : String → String → List (String × Operation) → Result Operation
choose method path [] = ok no_operation
choose method path ((template, operation) ∷ []) = ok operation
choose method path (one ∷ two ∷ more) = err (
    plain (
      "ambiguous OpenAPI route for "
      +s method
      +s " "
      +s path
      +s ": "
      +s join ", " (keys (one ∷ two ∷ more))))

unfoldable pub exact_or : Option Operation → Result Operation → Result Operation
exact_or (some operation) chosen = ok operation
exact_or none chosen = chosen

unfoldable pub find_operation : Paths → String → String → Result Operation
find_operation paths method path =
    let http_method = to_lower method in
    exact_or (operation_at paths path http_method)
      (choose method path (matched paths http_method path (sort_strings (keys paths))))
