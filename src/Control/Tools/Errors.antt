-- ===== src/Control/Tools/Errors.antt =====
-- internal/control/mcp_server.go: the errors that tools report in their outputs.
use echo_mcp.Prelude.{String, List, [], ◌∷◌}
use echo_mcp.Failure.{Failure, load_error, operation_error, error_text}

-- Error, Code and Diagnostics of a tool's output.
pub record ToolError : Type 0 where
  pub error : String
  pub code : String
  pub diagnostics : List String

-- A contract validation error is no OperationError and no LoadError.
unfoldable pub tool_error_from_error : Failure → ToolError
tool_error_from_error (operation_error d) = record {
  error = d.message;
  code = d.code;
  diagnostics = d.diagnostics;
}
tool_error_from_error (load_error d) = record {
  error = d.message;
  code = d.code;
  diagnostics = d.diagnostics;
}
tool_error_from_error e = record {
  error = error_text e;
  code = "operation_failed";
  diagnostics = error_text e ∷ [];
}
