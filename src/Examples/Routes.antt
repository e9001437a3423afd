-- ===== src/Examples/Routes.antt =====
-- internal/contract/openapi.go: operations that the paths of Examples/Documents select.
use mathlib.Core.Path.{subst}
use echo_mcp.Prelude.{
  String, ◌≡◌, refl, ◌↔◌, inl, inr, true, [], ◌∷◌, ◌==◌, arith, eq_iff, lookup, Permᴰ, SameMap,
  Bool-cases,
}
use echo_mcp.Contract.Document.{Paths}
use echo_mcp.Contract.Route.{find_operation, path_matches, split_path}
use echo_mcp.Contract.Route.Template.{Fits, path_matches-IsSegments}
use echo_mcp.Contract.Route.Segments.{IsSegments}
use echo_mcp.Contract.Route.Selection.{Selected, find_operation-SameMap, find_operation-Selected}
use echo_mcp.Examples.Documents.{user_operation, user_paths, user_paths-Distinct}

abbrev swapped_paths : Paths
swapped_paths = ("/health", []) ∷ ("/users/{id}", ("get", user_operation) ∷ []) ∷ []

find_operation-Selected_example :
    Selected user_paths "GET" "/users/7" (find_operation user_paths "GET" "/users/7")
find_operation-Selected_example =
    find_operation-Selected user_paths "GET" "/users/7" user_paths-Distinct

swapped-value : (k : String) → lookup k user_paths ≡ lookup k swapped_paths
unfolding lookup
swapped-value k = elim (Bool-cases ("/health" == k)) [
  | inl e ↦
      subst (λ x. lookup x user_paths ≡ lookup x swapped_paths) ((eq_iff "/health" k).0 e) refl
  | inr e ↦ ground (arith, e)
]

swapped-SameMap : SameMap user_paths swapped_paths
swapped-SameMap = record { same_keys = Permᴰ.swap refl refl; same_values = swapped-value }

find_operation-SameMap_example :
    find_operation user_paths "GET" "/users/7" ≡ find_operation swapped_paths "GET" "/users/7"
find_operation-SameMap_example =
    find_operation-SameMap user_paths swapped_paths "GET" "/users/7" swapped-SameMap

path_matches-IsSegments_example :
    ((path_matches "/users/{id}" "/users/7" ≡ true)
      ↔ Fits (split_path "/users/{id}") (split_path "/users/7"))
    × IsSegments "/users/{id}" (split_path "/users/{id}")
    × IsSegments "/users/7" (split_path "/users/7")
path_matches-IsSegments_example = path_matches-IsSegments "/users/{id}" "/users/7"
