-- ===== src/Control/Root/Resolved.antt =====
-- internal/control/contract_path.go: where a resolved path lies.
use mathlib.Core.Path.{subst}
use echo_mcp.Prelude.{
  String, ◌≡◌, ◌≢◌, refl, sym, ap, ◌∙◌, inl, inr, true, false, ◌==◌, arith, eq_iff, trim_space,
  Bool-cases,
}
use echo_mcp.Failure.{
  plain, load_error, validation_error, operation_error, out_of_fuel, Result, ok, err, Answer, ◌>>=◌,
  ◌>>◌,
}
use echo_mcp.Control.Files.{Files}
use echo_mcp.Control.Root.{
  ContractRoot, ResolvedContractPath, missing_path_error, contract_path_not_allowed_error, or_fail,
  evaluate_path_for_boundary, relative_within, path_within_root, or_not_allowed, check_within,
  candidate_path, resolve_candidate, resolve,
}
use echo_mcp.Control.Root.Boundary.{
  HasParents, Boundary, StaysInside, relative_within-StaysInside, evaluate-Boundary, IsResolved,
}

module _ (files : Files) where
  within-passes :
      (root boundary : String) (m : Result ResolvedContractPath)
      → path_within_root files root boundary ≡ true
      → (check_within files root boundary >> m) ≡ m
  unfolding check_within
  within-passes root boundary m e = rw (e) refl

  within-stops :
      (root boundary : String) (m : Result ResolvedContractPath)
      → path_within_root files root boundary ≡ false
      → (check_within files root boundary >> m) ≡ err contract_path_not_allowed_error
  unfolding check_within
  within-stops root boundary m e = rw (e) refl

  same_answer : (x y : ResolvedContractPath) → ok x ≡ ok y → x ≡ y
  same_answer x y e = cc e

  -- From the boundary on.
  abbrev Below : ContractRoot → String → ResolvedContractPath → Type 0
  Below root boundary r =
      (relative : String) × (files.rel root.path boundary ≡ inr relative)
      × StaysInside files relative
      × (r ≡ record { read_path = boundary; source_path = files.clean relative })

  rel-Below :
      (root : ContractRoot) (boundary : String) (r : ResolvedContractPath) (a : Answer String)
      → files.rel root.path boundary ≡ a
      → path_within_root files root.path boundary ≡ true
      → (or_fail contract_path_not_allowed_error a >>= λ relative.
          ok (record { read_path = boundary; source_path = files.clean relative }))
        ≡ ok r
      → Below root boundary r
  unfolding path_within_root
  rel-Below root boundary r (inl message) e w h = cc h
  rel-Below root boundary r (inr relative) e w h = (
    relative,
    e,
    relative_within-StaysInside files relative (sym (ap (relative_within files) e) ∙ w),
    sym (same_answer _ r h),
  )

  boundary-Below :
      (root : ContractRoot) (boundary : String) (r : ResolvedContractPath)
      → (check_within files root.path boundary
          >> (or_fail contract_path_not_allowed_error (files.rel root.path boundary) >>= λ relative.
              ok (record { read_path = boundary; source_path = files.clean relative })))
        ≡ ok r
      → Below root boundary r
  boundary-Below root boundary r h = elim (Bool-cases (path_within_root files root.path boundary)) [
    | inl w ↦
        rel-Below root boundary r (files.rel root.path boundary) refl w
          (sym (within-passes root.path boundary _ w) ∙ h)
    | inr w ↦ cc (within-stops root.path boundary _ w, h)
  ]

  or_not_allowed-ok : (x : Result String) (b : String) → or_not_allowed x ≡ ok b → x ≡ ok b
  unfolding or_not_allowed
  or_not_allowed-ok (ok path) b h = h
  or_not_allowed-ok (err (plain t)) b h = cc h
  or_not_allowed-ok (err (load_error d)) b h = cc h
  or_not_allowed-ok (err (validation_error d)) b h = cc h
  or_not_allowed-ok (err (operation_error d)) b h = cc h
  or_not_allowed-ok (err out_of_fuel) b h = cc h

  real-IsResolved :
      HasParents files
      → (root : ContractRoot) (path absolute : String) (r : ResolvedContractPath)
        (b : Result String)
      → files.clean (trim_space path) ≢ "."
      → files.abs (candidate_path files root (files.clean (trim_space path))) ≡ inr absolute
      → or_not_allowed (evaluate_path_for_boundary files (files.clean absolute)) ≡ b
      → (b >>= λ boundary.
          check_within files root.path boundary
          >> (or_fail contract_path_not_allowed_error (files.rel root.path boundary) >>= λ relative.
              ok (record { read_path = boundary; source_path = files.clean relative })))
        ≡ ok r
      → IsResolved files root path r
  real-IsResolved h root path absolute r (err g) n e f k = cc k
  real-IsResolved h root path absolute r (ok boundary) n e f k =
      let found = boundary-Below root boundary r k in
      record {
        absolute = absolute;
        relative = found.0;
        given = n;
        located = e;
        real =
            subst (Boundary files (files.clean absolute))
              (or_not_allowed-ok _ boundary f ∙ ap ok (sym (ap (λ x. x.read_path) found.3)))
              (evaluate-Boundary files h (files.clean absolute) (h.clean_abs _ absolute e));
        below = ap (λ x. files.rel root.path x.read_path) found.3 ∙ found.1;
        inside = found.2;
        reported = ap (λ x. x.source_path) found.3;
      }

  candidate-IsResolved :
      HasParents files
      → (root : ContractRoot) (path : String) (r : ResolvedContractPath) (a : Answer String)
      → files.clean (trim_space path) ≢ "."
      → files.abs (candidate_path files root (files.clean (trim_space path))) ≡ a
      → (or_fail contract_path_not_allowed_error a >>= λ absolute.
          or_not_allowed (evaluate_path_for_boundary files (files.clean absolute)) >>= λ boundary.
          check_within files root.path boundary
          >> (or_fail contract_path_not_allowed_error (files.rel root.path boundary) >>= λ relative.
              ok (record { read_path = boundary; source_path = files.clean relative })))
        ≡ ok r
      → IsResolved files root path r
  candidate-IsResolved h root path r (inl message) n e k = cc k
  candidate-IsResolved h root path r (inr absolute) n e k =
      real-IsResolved h root path absolute r _ n e refl k

  resolve-dot :
      (root : ContractRoot) (path : String)
      → (files.clean (trim_space path) == ".") ≡ true
      → resolve files root path ≡ err missing_path_error
  unfolding resolve
  resolve-dot root path dot = rw (dot) refl

  resolve-given :
      (root : ContractRoot) (path : String)
      → (files.clean (trim_space path) == ".") ≡ false
      → resolve files root path
        ≡ resolve_candidate files root (candidate_path files root (files.clean (trim_space path)))
  unfolding resolve
  resolve-given root path given = rw (given) refl

-- Where absolute paths have shorter parents: a path that resolves is one that is given; the file
-- that is read is at its real location, with the links of the path, or of its nearest parent that
-- exists, followed; and from the root to that location the relative path, which is the one
-- reported, does not lead out of the root.
pub resolve-IsResolved :
    (files : Files)
    → HasParents files
    → (root : ContractRoot) (path : String) (r : ResolvedContractPath)
    → resolve files root path ≡ ok r
    → IsResolved files root path r
unfolding resolve_candidate
resolve-IsResolved files h root path r k =
    elim (Bool-cases (files.clean (trim_space path) == ".")) [
      | inl dot ↦ cc (resolve-dot files root path dot, k)
      | inr given ↦
          candidate-IsResolved files h root path r
            (files.abs (candidate_path files root (files.clean (trim_space path))))
            (λ e. ground (arith, given, eq_iff (files.clean (trim_space path)) ".")) refl
            (sym (resolve-given files root path given) ∙ k)
    ]
