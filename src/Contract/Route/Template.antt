-- ===== src/Contract/Route/Template.antt =====
-- internal/contract/openapi.go: pathMatches, against a relation on the segments.
use echo_mcp.Prelude.{
  String, ◌≡◌, ◌≢◌, refl, ◌↔◌, true, false, List, [], ◌∷◌, inl, inr, arith, eq_iff, length,
  Bool-cases,
}
use echo_mcp.Contract.Route.Parameter.{IsParameter, is_parameter_iff}
use echo_mcp.Contract.Route.Segments.{IsSegments, split_path-IsSegments}
use echo_mcp.Contract.Route.{split_path, is_parameter, parts_match, path_matches}

-- A template's segments fit a path's: a parameter takes any segment but the empty one, and any
-- other segment takes itself.
pub data Fits : List String → List String → Type 0 where
  done : Fits [] []
  parameter :
      {t p : String} {ts ps : List String}
      → IsParameter t
      → p ≢ ""
      → Fits ts ps
      → Fits (t ∷ ts) (p ∷ ps)
  literal :
      {t p : String} {ts ps : List String}
      → ¬ IsParameter t
      → t ≡ p
      → Fits ts ps
      → Fits (t ∷ ts) (p ∷ ps)

Fits-length : {ts ps : List String} → Fits ts ps → length ts ≡ length ps
Fits-length done = refl
Fits-length (parameter _ _ f) = omega (arith, Fits-length f)
Fits-length (literal _ _ f) = omega (arith, Fits-length f)

not-IsParameter : (t : String) → is_parameter t ≡ false ↔ ¬ IsParameter t
not-IsParameter t = (λ e k. cc (e, (is_parameter_iff t).1 k), back)
  where
    back : ¬ IsParameter t → is_parameter t ≡ false
    back n = elim (Bool-cases (is_parameter t)) [
      | inl e ↦ absurd (n ((is_parameter_iff t).0 e))
      | inr e ↦ e
    ]

Fits-parts_match : {ts ps : List String} → Fits ts ps → parts_match ts ps ≡ true
unfolding parts_match
Fits-parts_match done = refl
Fits-parts_match (parameter {t} {p} h k f) =
    ground (arith, (is_parameter_iff t).1 h, eq_iff p "", k, Fits-parts_match f)
Fits-parts_match (literal {t} {p} h k f) =
    ground (arith, (not-IsParameter t).1 h, eq_iff t p, k, Fits-parts_match f)

parts_match-Fits :
    (ts ps : List String) → length ts ≡ length ps → parts_match ts ps ≡ true → Fits ts ps
unfolding parts_match
parts_match-Fits [] [] e h = done
parts_match-Fits [] (p ∷ ps) e h = absurd (omega arith)
parts_match-Fits (t ∷ ts) [] e h = absurd (omega arith)
parts_match-Fits (t ∷ ts) (p ∷ ps) e h = elim (Bool-cases (is_parameter t)) [
  | inl param ↦
      parameter ((is_parameter_iff t).0 param) (ground (arith, param, eq_iff p ""))
        (parts_match-Fits ts ps (omega arith) (ground (arith, param)))
  | inr lit ↦
      literal ((not-IsParameter t).0 lit) (ground (arith, lit, eq_iff t p))
        (parts_match-Fits ts ps (omega arith) (ground (arith, lit)))
]

-- A template matches a path exactly when its segments fit the path's.
pub path_matches_iff :
    (template path : String)
    → (path_matches template path ≡ true) ↔ Fits (split_path template) (split_path path)
unfolding path_matches
path_matches_iff template path = (
  λ h. parts_match-Fits _ _ (ground arith) (ground arith),
  λ f. ground (arith, Fits-length f, Fits-parts_match f),
)

-- A template matches a path exactly when its segments fit the path's, one for one: a segment {name},
-- with a name that is not empty, takes any segment but the empty one, and any other takes itself.
-- The segments of both are what stands between the slashes, without those at the ends.
pub path_matches-IsSegments :
    (template path : String)
    → ((path_matches template path ≡ true) ↔ Fits (split_path template) (split_path path))
      × IsSegments template (split_path template)
      × IsSegments path (split_path path)
path_matches-IsSegments template path =
    (path_matches_iff template path, split_path-IsSegments template, split_path-IsSegments path)
