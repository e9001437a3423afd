-- ===== src/Control/Root/Boundary.antt =====
-- internal/control/contract_path.go: what a path below the contract root resolves to.
use echo_mcp.Prelude.{
  ℕ, zero, suc, ◌<◌, String, ◌≡◌, ◌≢◌, ◌⊎◌, inl, inr, true, false, ◌==◌, arith, eq_iff, characters,
  has_prefix, trim_space, Bool-cases,
}
use echo_mcp.Failure.{Result, ok, Answer-cases}
use echo_mcp.Control.Files.{Files}
use echo_mcp.Control.Root.{
  ContractRoot, ResolvedContractPath, below_parent, walk_step, walk_parents, resolved_or,
  evaluate_path_for_boundary, relative_within, candidate_path,
}

-- Documented facts of path/filepath: an absolute path's directory is absolute, and shorter unless it
-- is the path itself; Abs and Clean give absolute paths.
pub record HasParents (files : Files) : Type 0 where
  pub parent_shorter :
      (p : String)
      → files.is_abs p ≡ true
      → (files.dir p ≡ p) ⊎ (characters (files.dir p) < characters p)
  pub parent_abs : (p : String) → files.is_abs p ≡ true → files.is_abs (files.dir p) ≡ true
  pub clean_abs : (p q : String) → files.abs p ≡ inr q → files.is_abs (files.clean q) ≡ true

module _ (files : Files) where
  -- The nearest parent of a path that resolves, from a parent on, and the path below it; with no
  -- such parent, the path itself.
  pub data NearestParent (path : String) : String → Result String → Type 0 where
    resolves :
        {parent resolved : String}
        → files.eval_symlinks parent ≡ inr resolved
        → NearestParent path parent (below_parent files resolved parent path)
    at_top :
        {parent message : String}
        → files.eval_symlinks parent ≡ inl message
        → files.dir parent ≡ parent
        → NearestParent path parent (ok (files.clean path))
    above :
        {parent message : String} {r : Result String}
        → files.eval_symlinks parent ≡ inl message
        → files.dir parent ≢ parent
        → NearestParent path (files.dir parent) r
        → NearestParent path parent r

  -- The real location of a path: the path that it resolves to, if it exists.
  pub data Boundary (path : String) : Result String → Type 0 where
    exists :
        {resolved : String}
        → files.eval_symlinks path ≡ inr resolved
        → Boundary path (ok (files.clean resolved))
    missing :
        {message : String} {r : Result String}
        → files.eval_symlinks path ≡ inl message
        → NearestParent path (files.dir path) r
        → Boundary path r

  walk_parents-NearestParent :
      HasParents files
      → (fuel : ℕ) (path parent : String) → files.is_abs parent ≡ true
      → characters parent < fuel
      → NearestParent path parent (walk_parents files fuel path parent)
  unfolding walk_parents walk_step
  walk_parents-NearestParent h zero path parent a m = absurd (omega arith)
  walk_parents-NearestParent h (suc fuel) path parent a m =
      elim (Answer-cases (files.eval_symlinks parent)) [
        | inl (resolved, e) ↦ rw (e) (resolves e)
        | inr (message, e) ↦ elim (Bool-cases (files.dir parent == parent)) [
          | inl top ↦ rw (e, top) (at_top e ((eq_iff _ _).0 top))
          | inr higher ↦
              let n : files.dir parent ≢ parent =
                λ k. ground (arith, higher, eq_iff (files.dir parent) parent) in
              rw (e, higher)
                (above e n (
                  walk_parents-NearestParent h fuel path (files.dir parent) (h.parent_abs parent a)
                    (shorter n)))
        ]
      ]
    where
      shorter : files.dir parent ≢ parent → characters (files.dir parent) < fuel
      shorter n = elim (h.parent_shorter parent a) [
        | inl same ↦ absurd (n same)
        | inr less ↦ omega (arith, less, m)
      ]

  pub evaluate-Boundary :
      HasParents files
      → (path : String) → files.is_abs path ≡ true
      → Boundary path (evaluate_path_for_boundary files path)
  unfolding evaluate_path_for_boundary resolved_or
  evaluate-Boundary h path a = elim (Answer-cases (files.eval_symlinks path)) [
    | inl (resolved, e) ↦ rw (e) (exists e)
    | inr (message, e) ↦ rw (e) (
        missing e (
          walk_parents-NearestParent h (suc (characters (files.dir path))) path (files.dir path)
            (h.parent_abs path a) (omega arith)))
  ]

  -- A relative path that does not lead out: no parent step at its start, and not absolute.
  abbrev pub StaysInside : String → Type 0
  StaysInside relative =
      (relative ≡ ".")
      ⊎ ((files.is_abs relative ≡ false) × (relative ≢ "..") × (has_prefix relative "../" ≡ false))

  pub relative_within-StaysInside :
      (relative : String) → relative_within files (inr relative) ≡ true → StaysInside relative
  unfolding relative_within
  relative_within-StaysInside relative h = elim (Bool-cases (relative == ".")) [
    | inl e ↦ inl ((eq_iff _ _).0 e)
    | inr e ↦ inr (
      ground (arith, e, h, eq_iff relative ".."),
      ground (arith, e, h, eq_iff relative ".."),
      ground (arith, e, h),
    )
  ]

  -- What `resolve` has found.
  pub record IsResolved (root : ContractRoot) (path : String) (r : ResolvedContractPath)
      : Type 0 where
    pub absolute : String
    pub relative : String
    pub given : files.clean (trim_space path) ≢ "."
    pub located :
        files.abs (candidate_path files root (files.clean (trim_space path))) ≡ inr absolute
    pub real : Boundary (files.clean absolute) (ok r.read_path)
    pub below : files.rel root.path r.read_path ≡ inr relative
    pub inside : StaysInside relative
    pub reported : r.source_path ≡ files.clean relative
