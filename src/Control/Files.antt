-- ===== src/Control/Files.antt =====
-- What os and path/filepath do for internal/control and internal/contract.
use echo_mcp.Prelude.{String, Bool}
use echo_mcp.Failure.{Answer}

-- The functions of path/filepath, os.Getwd, os.ReadFile, and whether os.Stat finds a directory.
pub record Files : Type 0 where
  pub clean : String → String
  pub is_abs : String → Bool
  pub join : String → String → String
  pub abs : String → Answer String
  pub eval_symlinks : String → Answer String
  pub rel : String → String → Answer String
  pub dir : String → String
  pub base : String → String
  pub ext : String → String
  pub is_dir : String → Bool
  pub getwd : Answer String
  pub read_file : String → Answer String
