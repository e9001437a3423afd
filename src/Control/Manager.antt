-- ===== src/Control/Manager.antt =====
-- internal/control/contract_manager.go: the manager of the one active contract. Each operation reads
-- or replaces the active contract under the manager's mutex, so it is one function on the manager;
-- an operation that changes it answers the result and the manager that it leaves. The manager is no
-- nil pointer, and the current time is an argument.
pub mod Ensured
use echo_mcp.Prelude.{
  ℕ, String, Bool, true, false, not, ◌&&◌, Option, none, some, List, [], ◌∷◌, ◌==◌, trim_space, ltb,
  if◌then◌else◌,
}
use echo_mcp.Failure.{Failure, operation_error, Result, ok, err, ◌>>=◌}
use echo_mcp.Contract.Document.{OpenApiContract, Codec}
use echo_mcp.Contract.Load.{Counts, load_openapi_file_with_source_path}
use echo_mcp.Control.Files.{Files}
use echo_mcp.Control.Root.{
  ContractRoot, missing_path_error, contract_root_source_working_directory, new_contract_root,
  resolve,
}
use echo_mcp.Control.Mode.{
  normalize_validation_mode, default_contract_id, ValidationCapabilities,
  current_validation_capabilities, validation_scope_partial, validation_mode_description_text,
}
use echo_mcp.Control.Warnings.{unsupported_feature_warnings}

-- A time as nanoseconds; the zero time is 0.
abbrev pub Time : Type 0
Time = ℕ

pub record ActiveContract : Type 0 where
  pub openapi : OpenApiContract
  pub contract_id : String
  pub loaded_at : Time
  pub validation_mode : String

pub record ContractManager : Type 0 where
  pub active : Option ActiveContract
  pub contract_root : ContractRoot

pub record LoadCommand : Type 0 where
  pub path : String
  pub contract_id : String
  pub validation_mode : String
  pub force : Bool

pub record LoadResult : Type 0 where
  pub loaded : Bool
  pub contract_id : String
  pub source_path : String
  pub openapi_version : String
  pub operations_count : ℕ
  pub schemas_count : ℕ
  pub validation_mode : String
  pub validation_scope : String
  pub validation_capabilities : ValidationCapabilities
  pub validation_mode_description : String
  pub unsupported_features : Counts
  pub warnings : List String
  pub suggested_next_actions : List String

pub record UnloadResult : Type 0 where
  pub unloaded : Bool
  pub previous_contract_id : String
  pub suggested_next_actions : List String

pub record BehaviorValidationOverride : Type 0 where
  pub mode : String
  pub reason : String
  pub mode_set : Bool

abbrev pub no_override : BehaviorValidationOverride
no_override = record { mode = ""; reason = ""; mode_set = false }

abbrev pub fallback_root : ContractRoot
fallback_root = record {
  path = ".";
  configured = false;
  source = contract_root_source_working_directory;
}

abbrev pub root_or_fallback : Result ContractRoot → ContractRoot
root_or_fallback (ok root) = root
root_or_fallback (err e) = fallback_root

unfoldable pub ensure_contract_root : Files → ContractManager → ContractManager
ensure_contract_root files m =
    if not (m.contract_root.path == "")
    then m
    else record m { contract_root = root_or_fallback (new_contract_root files "" "") }

unfoldable pub new_contract_manager_with_contract_root :
    Files → String → String → Result ContractManager
new_contract_manager_with_contract_root files path source = do
  root ← new_contract_root files path source
  ok (record { active = none; contract_root = root })

unfoldable pub new_contract_manager : Files → ContractManager
new_contract_manager files = record {
  active = none;
  contract_root = root_or_fallback (new_contract_root files "" "");
}

abbrev now_if_zero : Time → Time → Time
now_if_zero loaded_at now = if ltb 0 loaded_at then loaded_at else now

-- The validator is the contract that the process loaded at its start.
unfoldable pub new_contract_manager_with_contract :
    Files → Time → String → Option OpenApiContract → String → Time → Result ContractManager
new_contract_manager_with_contract files now contract_id none mode loaded_at =
    ok (new_contract_manager files)
new_contract_manager_with_contract files now contract_id (some validator) mode loaded_at = do
  normalized_mode ← normalize_validation_mode mode
  ok (record (new_contract_manager files) {
    active = some (record {
      openapi = validator;
      contract_id = default_contract_id files contract_id validator.metadata.source_path;
      loaded_at = now_if_zero loaded_at now;
      validation_mode = normalized_mode;
    });
  })

unfoldable pub reset_required_error : String → Failure
reset_required_error message = operation_error (record {
  code = "reset_required";
  message = message;
  diagnostics =
      "Configured behavior is active and would otherwise be silently associated with a different contract state."
      ∷ [];
})

-- The checks and the loading: the contract to activate.
unfoldable pub load_active :
    Files → Codec → Time → ContractRoot → LoadCommand → Bool → Result ActiveContract
load_active files codec now root command behavior_active =
    if trim_space command.path == ""
    then err missing_path_error
    else if behavior_active && not command.force
    then err (
        reset_required_error
          "reset before loading a different OpenAPI contract or pass force: true")
    else do
      mode ← normalize_validation_mode command.validation_mode
      resolved ← resolve files root command.path
      validator ←
          load_openapi_file_with_source_path codec files.read_file resolved.read_path
            resolved.source_path
      ok (record {
        openapi = validator;
        contract_id = default_contract_id files command.contract_id resolved.source_path;
        loaded_at = now;
        validation_mode = mode;
      })

abbrev pub load_result : ActiveContract → LoadResult
load_result a = record {
  loaded = true;
  contract_id = a.contract_id;
  source_path = a.openapi.metadata.source_path;
  openapi_version = a.openapi.metadata.openapi_version;
  operations_count = a.openapi.metadata.operations_count;
  schemas_count = a.openapi.metadata.schemas_count;
  validation_mode = a.validation_mode;
  validation_scope = validation_scope_partial;
  validation_capabilities = current_validation_capabilities;
  validation_mode_description = validation_mode_description_text;
  unsupported_features = a.openapi.metadata.unsupported_feature_counts;
  warnings = unsupported_feature_warnings a.openapi.metadata.unsupported_feature_counts;
  suggested_next_actions =
      "Call get_contract_status." ∷ "Call configure_behavior with contract-valid responses." ∷ [];
}

unfoldable pub activate :
    ContractManager → Result ActiveContract → Result LoadResult × ContractManager
activate m (err e) = (err e, m)
activate m (ok a) = (ok (load_result a), record m { active = some a })

unfoldable pub load_openapi_contract :
    Files
    → Codec
    → Time
    → ContractManager
    → LoadCommand
    → Bool
    → Result LoadResult × ContractManager
load_openapi_contract files codec now manager command behavior_active =
    let m = ensure_contract_root files manager in
    activate m (load_active files codec now m.contract_root command behavior_active)

abbrev pub previous_id : Option ActiveContract → String
previous_id none = ""
previous_id (some a) = a.contract_id

abbrev pub unload_result : Option ActiveContract → UnloadResult
unload_result active = record {
  unloaded = true;
  previous_contract_id = previous_id active;
  suggested_next_actions =
      "Call configure_behavior for manual mock mode or load another contract." ∷ [];
}

unfoldable pub unload_openapi_contract :
    ContractManager → Bool → Bool → Result UnloadResult × ContractManager
unload_openapi_contract m force behavior_active =
    if behavior_active && not force
    then (
      err (
          reset_required_error
            "reset before unloading the active OpenAPI contract or pass force: true"),
      m,
    )
    else (ok (unload_result m.active), record m { active = none })
