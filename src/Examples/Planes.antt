-- ===== src/Examples/Planes.antt =====
-- internal/control: planes with the user contract of Examples/Documents.
use mathlib.Core.Path.{subst}
use echo_mcp.Prelude.{
  ◌↔◌, to_lower, trim_space, ◌<◌, String, ◌≡◌, ◌≢◌, refl, sym, ap, ◌⊎◌, inl, inr, Bool, true, false,
  ◌||◌, Option, none, some, List, [], ◌∷◌, ◌++◌, ◌==◌, arith, eq_iff, ltb, characters, pos,
  if◌then◌else◌, Bool-cases,
}
use echo_mcp.Failure.{ok, Answer, err, out_of_fuel}
use echo_mcp.State.{new, match_rule, match_response_rule, configure_response_rule}
use echo_mcp.Contract.Rule.Accepted.{IsAccepted}
use echo_mcp.Control.Files.{Files}
use echo_mcp.Control.Root.{ContractRoot, ResolvedContractPath, resolve}
use echo_mcp.Control.Root.Boundary.{HasParents, IsResolved}
use echo_mcp.Control.Root.Ends.{resolve-ends}
use echo_mcp.Control.Root.Resolved.{resolve-IsResolved}
use echo_mcp.Control.Mode.{normalize_validation_mode}
use echo_mcp.Control.Manager.{ActiveContract, LoadCommand, no_override}
use echo_mcp.Control.Validation.{
  effective_mode, validate_rule, validate_active, validate_in_mode, verdict,
}
use echo_mcp.Control.Validation.Verdict.{
  Names, IsVerdict, normalize_validation_mode_iff, validate_rule-IsVerdict,
}
use echo_mcp.Control.Plane.{
  LocalPlane, load, validated, extra_validation, store_if_valid,
  configure_response_rule_with_validation,
}
use echo_mcp.Control.Plane.Calls.{configure, perform, start, call}
use echo_mcp.Control.Plane.Enforced.{Reaches-IsAccepted}
use echo_mcp.Control.Plane.Loading.{LoadEnds, load-LoadEnds}
use echo_mcp.Examples.Documents.{codec, contract, user_rule, fuelled}
use echo_mcp.Examples.Accepted.{accepted}

-- A file system with the one directory /srv and the one file in it.
abbrev pub files : Files
files = record {
  clean = λ p. p;
  is_abs = λ p. p == "/" || ltb 1 (characters p);
  join = λ root p. root;
  abs = λ p. inr "/srv/api.json";
  eval_symlinks = λ p. inr p;
  rel = λ root p. inr "x";
  dir = λ p. "/";
  base = λ p. p;
  ext = λ p. "";
  is_dir = λ p. true;
  getwd = inr "/srv";
  read_file = λ p. inr "document";
}

shorter :
    (p : String)
    → (p == "/" || ltb 1 (characters p)) ≡ true
    → ("/" ≡ p) ⊎ (characters "/" < characters p)
unfolding characters
shorter p h = elim (Bool-cases (p == "/")) [
  | inl e ↦ inl (sym ((eq_iff p "/").0 e))
  | inr e ↦ inr (ground (arith, e, h))
]

same_path : (p q : String) → Path (Answer String) (inr p) (inr q) → p ≡ q
same_path p q e = cc e

pub parents : HasParents files
unfolding characters
parents = record {
  parent_shorter = shorter;
  parent_abs = λ p h. refl;
  clean_abs = λ p q h. subst (λ x. files.is_abs x ≡ true) (same_path "/srv/api.json" q h) refl;
}

abbrev pub root : ContractRoot
root = record { path = "/srv"; configured = true; source = "ECHO_MCP_CONTRACT_ROOT" }

abbrev found_path : ResolvedContractPath
found_path = record { read_path = "/srv/api.json"; source_path = "x" }

resolves : resolve files root "api.json" ≡ ok found_path
unfolding resolve echo_mcp.Prelude.trim_space echo_mcp.Control.Root.resolve_candidate
    echo_mcp.Control.Root.or_not_allowed echo_mcp.Control.Root.evaluate_path_for_boundary
    echo_mcp.Control.Root.resolved_or echo_mcp.Control.Root.check_within
    echo_mcp.Control.Root.path_within_root echo_mcp.Control.Root.relative_within characters
    echo_mcp.Prelude.has_prefix
resolves = refl

resolve-IsResolved_example : IsResolved files root "api.json" found_path
resolve-IsResolved_example = resolve-IsResolved files parents root "api.json" found_path resolves

resolve-ends_example : resolve files root "api.json" ≢ err out_of_fuel
resolve-ends_example = resolve-ends files parents root "api.json"

abbrev pub active : ActiveContract
active = record {
  openapi = contract;
  contract_id = "api";
  loaded_at = 1;
  validation_mode = "strict";
}

abbrev pub strict_plane : LocalPlane
strict_plane = record {
  store = new;
  validator = none;
  contract_manager = record { active = some active; contract_root = root };
  webhook_sender = none;
}

abbrev pub command : LoadCommand
command = record { path = "api.json"; contract_id = ""; validation_mode = "warn"; force = false }

load-LoadEnds_example :
    LoadEnds files codec parents 5 strict_plane command
      (load files codec 5 strict_plane command).0
      (load files codec 5 strict_plane command).1
load-LoadEnds_example = load-LoadEnds files codec parents 5 strict_plane command

validate_rule-IsVerdict_example :
    IsVerdict codec active user_rule no_override "strict"
      (validate_rule codec strict_plane.contract_manager user_rule no_override)
validate_rule-IsVerdict_example =
    validate_rule-IsVerdict codec strict_plane.contract_manager active user_rule no_override
      "strict" refl (inl (refl, refl))

normalize_validation_mode_iff_example :
    normalize_validation_mode " Warn " ≡ ok "warn" ↔ Names (to_lower (trim_space " Warn ")) "warn"
normalize_validation_mode_iff_example = normalize_validation_mode_iff " Warn " "warn"

abbrev pub reached_plane : LocalPlane
reached_plane = perform files codec strict_plane (configure user_rule no_override)

passed : validated codec strict_plane user_rule no_override ≡ ok []
unfolding validated validate_rule validate_active effective_mode validate_in_mode verdict
    extra_validation
passed = rw (accepted) refl

pub reached :
    reached_plane ≡ record strict_plane { store = record new { response_rule = some user_rule } }
unfolding perform configure_response_rule_with_validation store_if_valid configure_response_rule
reached = ap (λ r. (store_if_valid strict_plane user_rule r).1) passed

served : match_response_rule reached_plane.store "GET" "/users/7" ≡ some user_rule
unfolding match_response_rule match_rule
served = rw (reached) refl

Reaches-IsAccepted_example : IsAccepted codec contract user_rule
Reaches-IsAccepted_example =
    Reaches-IsAccepted files codec strict_plane reached_plane refl
      (call (configure user_rule no_override) start (inl refl)) active
      (ap (λ p. p.contract_manager.active) reached) refl fuelled "GET" "/users/7" user_rule served
