-- ===== src/Control/Root.antt =====
-- internal/control/contract_path.go: the contract root and the paths below it. The separator is '/'.
-- The walk over the parents of a path takes fuel (see Root/Boundary).
pub mod Boundary
pub mod Resolved
pub mod Ends
use echo_mcp.Prelude.{
  characters, ℕ, zero, suc, String, Bool, true, false, not, ◌&&◌, ◌||◌, List, [], ◌∷◌, ◌==◌, inl,
  inr, has_prefix, trim_space, if◌then◌else◌,
}
use echo_mcp.Failure.{
  Diagnostic, Failure, plain, operation_error, out_of_fuel, Result, ok, err, Answer, or_plain,
  ◌>>=◌, ◌>>◌,
}
use echo_mcp.Control.Files.{Files}

abbrev pub contract_root_source_env : String
contract_root_source_env = "ECHO_MCP_CONTRACT_ROOT"

abbrev pub contract_root_source_working_directory : String
contract_root_source_working_directory = "working_directory"

pub record ContractRoot : Type 0 where
  pub path : String
  pub configured : Bool
  pub source : String

pub record ResolvedContractPath : Type 0 where
  pub read_path : String
  pub source_path : String

abbrev pub failure : String → String → String → Failure
failure code message diagnostic =
    operation_error (record { code = code; message = message; diagnostics = diagnostic ∷ [] })

abbrev pub missing_path_error : Failure
missing_path_error =
    failure "missing_path" "path is required"
      "load_openapi_contract requires a local filesystem path."

abbrev pub invalid_contract_root_error : Failure
invalid_contract_root_error =
    failure "contract_root_invalid" "contract root could not be resolved"
      "Contract root must resolve to an existing local directory."

abbrev pub contract_path_not_allowed_error : Failure
contract_path_not_allowed_error =
    failure "contract_path_not_allowed" "contract path is outside the allowed contract root"
      "OpenAPI contract paths must resolve under the configured contract root."

-- An error of a library function, whatever it is, becomes the given one.
abbrev pub or_fail {ℓ} : {A : Type ℓ} → Failure → Answer A → Result A
or_fail e (inl message) = err e
or_fail e (inr a) = ok a

-- With nothing configured, the root is the working directory.
unfoldable pub default_root_input : Files → Result (String × String)
default_root_input files = do
  working_directory ←
      or_fail
        (failure "contract_root_invalid" "contract root could not be resolved"
          "Default contract root uses the Echo MCP process working directory, but the working directory could not be resolved.")
        files.getwd
  ok (working_directory, contract_root_source_working_directory)

-- The root's path and source from what is configured.
unfoldable pub root_input : Files → String → String → Result (String × String)
root_input files path source =
    if trim_space path == ""
    then default_root_input files
    else if trim_space source == ""
    then ok (trim_space path, contract_root_source_env)
    else ok (trim_space path, source)

unfoldable pub check_directory : Files → String → Result (Unit {0})
check_directory files path = if files.is_dir path then ok tt else err invalid_contract_root_error

unfoldable pub new_contract_root : Files → String → String → Result ContractRoot
new_contract_root files path source = do
  input ← root_input files path source
  absolute_root ← or_fail invalid_contract_root_error (files.abs input.0)
  resolved_root ← or_fail invalid_contract_root_error (files.eval_symlinks absolute_root)
  check_directory files resolved_root
  ok (record {
    path = files.clean resolved_root;
    configured = not (trim_space path == "");
    source = input.1;
  })

-- The parent, once it is resolved.
unfoldable pub below_parent : Files → String → String → String → Result String
below_parent files resolved_parent parent path = do
  relative ← or_plain (files.rel parent path)
  ok (files.clean (files.join resolved_parent relative))

-- The loop over the parents.
unfoldable pub walk_step :
    Files → (String → Result String) → String → String → Answer String → Result String
walk_step files walk path parent (inr resolved_parent) =
    below_parent files resolved_parent parent path
walk_step files walk path parent (inl message) =
    if files.dir parent == parent then ok (files.clean path) else walk (files.dir parent)

unfoldable pub walk_parents : Files → ℕ → String → String → Result String
walk_parents files zero path parent = err out_of_fuel
walk_parents files (suc fuel) path parent =
    walk_step files (walk_parents files fuel path) path parent (files.eval_symlinks parent)

unfoldable pub resolved_or : Files → Answer String → Result String → Result String
resolved_or files (inr resolved) walked = ok (files.clean resolved)
resolved_or files (inl message) walked = walked

-- The fuel is the number of the first parent's characters, and one more.
unfoldable pub evaluate_path_for_boundary : Files → String → Result String
evaluate_path_for_boundary files path =
    let parent = files.dir path in
    resolved_or files (files.eval_symlinks path)
      (walk_parents files (suc (characters parent)) path parent)

unfoldable pub relative_within : Files → Answer String → Bool
relative_within files (inl message) = false
relative_within files (inr relative) =
    if relative == "."
    then true
    else if files.is_abs relative || relative == ".."
    then false
    else not (has_prefix relative "../")

unfoldable pub path_within_root : Files → String → String → Bool
path_within_root files root path = relative_within files (files.rel root path)

-- Every error but the end of the fuel is the one error.
unfoldable pub or_not_allowed : Result String → Result String
or_not_allowed (ok path) = ok path
or_not_allowed (err out_of_fuel) = err out_of_fuel
or_not_allowed (err _) = err contract_path_not_allowed_error

unfoldable pub check_within : Files → String → String → Result (Unit {0})
check_within files root path =
    if path_within_root files root path then ok tt else err contract_path_not_allowed_error

abbrev pub candidate_path : Files → ContractRoot → String → String
candidate_path files root cleaned =
    if files.is_abs cleaned then cleaned else files.join root.path cleaned

-- From the candidate on.
unfoldable pub resolve_candidate : Files → ContractRoot → String → Result ResolvedContractPath
resolve_candidate files root candidate = do
  absolute ← or_fail contract_path_not_allowed_error (files.abs candidate)
  boundary ← or_not_allowed (evaluate_path_for_boundary files (files.clean absolute))
  check_within files root.path boundary
  relative ← or_fail contract_path_not_allowed_error (files.rel root.path boundary)
  ok (record { read_path = boundary; source_path = files.clean relative })

unfoldable pub resolve : Files → ContractRoot → String → Result ResolvedContractPath
resolve files root path =
    let cleaned = files.clean (trim_space path) in
    if cleaned == "."
    then err missing_path_error
    else resolve_candidate files root (candidate_path files root cleaned)
