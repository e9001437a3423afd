-- ===== src/Control/Validation.antt =====
-- internal/control/contract_manager.go: (*ContractManager).ValidateResponseRule.
pub mod Verdict
use echo_mcp.Prelude.{
  ℕ, String, Bool, true, false, not, ◌&&◌, Option, none, some, List, [], ◌∷◌, ◌++◌, ◌==◌, ◌+s◌,
  is_empty, decimal, trim_space, ltb, if◌then◌else◌,
}
use echo_mcp.Failure.{
  Diagnostic, Failure, plain, load_error, validation_error, operation_error, out_of_fuel,
  error_text, Result, ok, err, ◌>>=◌, ◌>>◌,
}
use echo_mcp.State.{ResponseRule}
use echo_mcp.Contract.Document.{OpenApiMetadata, OpenApiContract, Codec}
use echo_mcp.Contract.Load.{Counts, count_of, load_openapi_file_with_source_path}
use echo_mcp.Contract.Rule.{validate_response_rule}
use echo_mcp.Control.Files.{Files}
use echo_mcp.Control.Root.{
  ContractRoot, ResolvedContractPath, missing_path_error, contract_root_source_working_directory,
  new_contract_root, resolve,
}
use echo_mcp.Control.Mode.{
  mode_strict, mode_warn, mode_off, normalize_validation_mode, default_contract_id,
  ValidationCapabilities, current_validation_capabilities,
}
use echo_mcp.Control.Manager.{ActiveContract, ContractManager, BehaviorValidationOverride}

unfoldable pub effective_mode : ActiveContract → BehaviorValidationOverride → Result String
effective_mode a override =
    if override.mode_set then normalize_validation_mode override.mode else ok a.validation_mode

unfoldable pub skip_validation : BehaviorValidationOverride → Result (List String)
skip_validation override =
    if override.mode_set && trim_space override.reason == ""
    then err (
        operation_error (record {
          code = "validation_reason_required";
          message =
              "validation.reason is required when validation.mode is off and a contract is active";
          diagnostics = "Provide a non-empty reason for intentional contract validation skip." ∷ [];
        }))
    else if override.mode_set
    then ok (
        ("Contract validation was skipped for this behavior: " +s trim_space override.reason +s ".")
        ∷ [])
    else ok ("Contract validation is off for the active OpenAPI contract." ∷ [])

-- errors.As finds a ValidationError, and every other error is wrapped.
unfoldable pub rejection : Failure → Failure
rejection (validation_error d) = operation_error d
rejection out_of_fuel = out_of_fuel
rejection e = operation_error (record {
  code = "contract_validation_failed";
  message = "Configured behavior violates the active OpenAPI contract";
  diagnostics = error_text e ∷ [];
})

unfoldable pub verdict : String → Result (Unit {0}) → Result (List String)
verdict mode (ok done) = ok []
verdict mode (err e) =
    if mode == mode_warn
    then ok (("Contract validation warning: " +s error_text e) ∷ [])
    else err (rejection e)

unfoldable pub validate_in_mode :
    Codec
    → ActiveContract
    → ResponseRule
    → BehaviorValidationOverride
    → String
    → Result (List String)
validate_in_mode codec a rule override mode =
    if mode == mode_off
    then skip_validation override
    else verdict mode (validate_response_rule codec a.openapi rule)

unfoldable pub validate_active :
    Codec → Option ActiveContract → ResponseRule → BehaviorValidationOverride → Result (List String)
validate_active codec none rule override = ok []
validate_active codec (some a) rule override = do
  mode ← effective_mode a override
  validate_in_mode codec a rule override mode

-- (*ContractManager).ValidateResponseRule; a nil list of warnings is the empty one.
unfoldable pub validate_rule :
    Codec → ContractManager → ResponseRule → BehaviorValidationOverride → Result (List String)
validate_rule codec m rule override = validate_active codec m.active rule override
