-- ===== src/Control/Root/Ends.antt =====
-- internal/control/contract_path.go: the fuel of the walk over the parents of a path.
use echo_mcp.Prelude.{String, ◌≡◌, ◌≢◌, refl, ap, inl, inr, ◌==◌, trim_space, Bool-cases}
use echo_mcp.Failure.{
  Failure, plain, load_error, validation_error, operation_error, out_of_fuel, Result, ok, err,
  Answer-cases, ◌>>=◌, ◌>>◌,
}
use echo_mcp.Control.Files.{Files}
use echo_mcp.Control.Root.{
  ContractRoot, ResolvedContractPath, contract_path_not_allowed_error, or_fail, below_parent,
  evaluate_path_for_boundary, path_within_root, or_not_allowed, check_within, candidate_path,
  resolve_candidate, resolve,
}
use echo_mcp.Control.Root.Boundary.{
  HasParents, NearestParent, resolves, at_top, above, Boundary, exists, missing, evaluate-Boundary,
}

module _ (files : Files) (parents : HasParents files) where
  below_parent-ends :
      (resolved parent path : String) → below_parent files resolved parent path ≢ err out_of_fuel
  unfolding below_parent
  below_parent-ends resolved parent path = elim (Answer-cases (files.rel parent path)) [
    | inl (relative, e) ↦ rw (e) (λ h. cc h)
    | inr (message, e) ↦ rw (e) (λ h. cc h)
  ]

  NearestParent-ends :
      (path parent : String) (r : Result String)
      → NearestParent files path parent r
      → r ≢ err out_of_fuel
  NearestParent-ends path parent _ (resolves {resolved} e) = below_parent-ends resolved parent path
  NearestParent-ends path parent _ (at_top e top) = λ h. cc h
  NearestParent-ends path parent r (above e n next) =
      NearestParent-ends path (files.dir parent) r next

  Boundary-ends : (path : String) (r : Result String) → Boundary files path r → r ≢ err out_of_fuel
  Boundary-ends path _ (exists e) = λ h. cc h
  Boundary-ends path r (missing e next) = NearestParent-ends path (files.dir path) r next

  or_not_allowed-ends :
      (r : Result String) → r ≢ err out_of_fuel → or_not_allowed r ≢ err out_of_fuel
  unfolding or_not_allowed
  or_not_allowed-ends (ok path) n = λ h. cc h
  or_not_allowed-ends (err (plain t)) n = λ h. cc h
  or_not_allowed-ends (err (load_error d)) n = λ h. cc h
  or_not_allowed-ends (err (validation_error d)) n = λ h. cc h
  or_not_allowed-ends (err (operation_error d)) n = λ h. cc h
  or_not_allowed-ends (err out_of_fuel) n = λ h. n refl

  boundary-ends :
      (root : ContractRoot) (boundary : String)
      → ¬ Path
          (Result ResolvedContractPath)
          (check_within files root.path boundary
            >> (or_fail contract_path_not_allowed_error (files.rel root.path boundary)
                >>= λ relative.
                    ok (record { read_path = boundary; source_path = files.clean relative })))
          (err out_of_fuel)
  unfolding check_within
  boundary-ends root boundary = elim (Bool-cases (path_within_root files root.path boundary)) [
    | inr out ↦ rw (out) (λ h. cc h)
    | inl within ↦ elim (Answer-cases (files.rel root.path boundary)) [
      | inl (relative, e) ↦ rw (within, e) (λ h. cc h)
      | inr (message, e) ↦ rw (within, e) (λ h. cc h)
    ]
  ]

  same_end :
      (f : Failure) → Path (Result ResolvedContractPath) (err f) (err out_of_fuel) → f ≡ out_of_fuel
  same_end f h = cc h

  real-ends :
      (root : ContractRoot) (b : Result String)
      → b ≢ err out_of_fuel
      → ¬ Path
          (Result ResolvedContractPath)
          (b >>= λ boundary.
            check_within files root.path boundary
            >> (or_fail contract_path_not_allowed_error (files.rel root.path boundary)
                >>= λ relative.
                    ok (record { read_path = boundary; source_path = files.clean relative })))
          (err out_of_fuel)
  real-ends root (ok boundary) n = boundary-ends root boundary
  real-ends root (err f) n = λ h. n (ap err (same_end f h))

  candidate-ends :
      (root : ContractRoot) (candidate : String)
      → resolve_candidate files root candidate ≢ err out_of_fuel
  unfolding resolve_candidate
  candidate-ends root candidate = elim (Answer-cases (files.abs candidate)) [
    | inr (message, e) ↦ rw (e) (λ h. cc h)
    | inl (absolute, e) ↦ rw (e) (
        real-ends root (or_not_allowed (evaluate_path_for_boundary files (files.clean absolute))) (
          or_not_allowed-ends (evaluate_path_for_boundary files (files.clean absolute)) (
            Boundary-ends (files.clean absolute)
              (evaluate_path_for_boundary files (files.clean absolute))
              (evaluate-Boundary files parents (files.clean absolute)
                (parents.clean_abs candidate absolute e)))))
  ]

-- Where absolute paths have shorter parents, resolving a path always ends: the walk over its parents
-- has fuel enough.
pub resolve-ends :
    (files : Files)
    → HasParents files
    → (root : ContractRoot) (path : String) → resolve files root path ≢ err out_of_fuel
unfolding resolve
resolve-ends files parents root path = elim (Bool-cases (files.clean (trim_space path) == ".")) [
  | inl dot ↦ rw (dot) (λ h. cc h)
  | inr given ↦ rw (given) (
      candidate-ends files parents root (candidate_path files root (files.clean (trim_space path))))
]
