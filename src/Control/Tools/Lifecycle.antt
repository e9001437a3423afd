-- ===== src/Control/Tools/Lifecycle.antt =====
-- internal/control/mcp_server.go: a contract from the tool that loads it to the one that unloads it.
use mathlib.Core.Path.{subst}
use echo_mcp.Prelude.{
  String, ◌≡◌, refl, sym, ap, ◌⊎◌, inl, inr, Bool, true, false, not, ◌&&◌, none, some, [],
}
use echo_mcp.Failure.{Result, ok, err, ◌>>◌}
use echo_mcp.State.{ResponseRule, has_response_rule}
use echo_mcp.Contract.Document.{Codec}
use echo_mcp.Control.Files.{Files}
use echo_mcp.Control.Manager.{
  Time, ActiveContract, ContractManager, BehaviorValidationOverride, LoadCommand, load_result,
  previous_id, unload_result, ensure_contract_root, load_active, activate, load_openapi_contract,
  unload_openapi_contract,
}
use echo_mcp.Control.Manager.Ensured.{ensure-active}
use echo_mcp.Control.Status.{status_of, status}
use echo_mcp.Control.Validation.{validate_active, validate_rule}
use echo_mcp.Control.Plane.{LocalPlane, extra_validation, validated, load, contract_status, unload}
use echo_mcp.Control.Plane.Looks.{IsSameState}
use echo_mcp.Control.Tools.Outputs.{
  LoadOpenApiContractOutput, GetContractStatusOutput, UnloadOpenApiContractOutput,
  load_openapi_contract_output, unload_openapi_contract_output,
}
use echo_mcp.Control.Tools.Reports.{contract_status_output}
use echo_mcp.Control.Tools.Handlers.{
  Handled, done, failed, load_answer, load_openapi_contract_tool, get_contract_status_tool,
  unload_openapi_contract_tool,
}

-- The status tells of a contract what the load told of it.
pub record IsReportOf (o : LoadOpenApiContractOutput) (s : GetContractStatusOutput) : Type 0 where
  pub active : s.active ≡ true
  pub contract_id : s.contract_id ≡ o.contract_id
  pub source_path : s.source_path ≡ o.source_path
  pub openapi_version : s.openapi_version ≡ o.openapi_version
  pub operations_count : s.operations_count ≡ o.operations_count
  pub schemas_count : s.schemas_count ≡ o.schemas_count
  pub validation_mode : s.validation_mode ≡ o.validation_mode
  pub validation_scope : s.validation_scope ≡ o.validation_scope
  pub validation_capabilities : s.validation_capabilities ≡ o.validation_capabilities
  pub unsupported_features : s.unsupported_features ≡ o.unsupported_features

module _ (files : Files) (codec : Codec) (format : Time → String) where
  reported :
      (m : ContractManager) (a : ActiveContract)
      → m.active ≡ some a
      → IsReportOf
          (load_openapi_contract_output (load_result a))
          (contract_status_output format (status m))
  unfolding status status_of contract_status_output
  reported m a e = rw (e) (record {
    active = refl;
    contract_id = refl;
    source_path = refl;
    openapi_version = refl;
    operations_count = refl;
    schemas_count = refl;
    validation_mode = refl;
    validation_scope = refl;
    validation_capabilities = refl;
    unsupported_features = refl;
  })

  not_reported :
      (m : ContractManager)
      → m.active ≡ none
      → (contract_status_output format (status m)).active ≡ false
  unfolding status status_of contract_status_output
  not_reported m e = rw (e) refl

  -- A plane without a contract judges a rule by its own validator alone.
  validated-none :
      (q : LocalPlane) (rule : ResponseRule) (override : BehaviorValidationOverride)
      → q.contract_manager.active ≡ none
      → validated codec q rule override ≡ (extra_validation q.validator rule >> ok [])
  unfolding validated validate_rule validate_active
  validated-none q rule override e = rw (e) refl

  and_false : (b : Bool) → (b && not true) ≡ false
  and_false false = refl
  and_false true = refl

  -- What a forced unload of a contract has answered and left.
  pub record IsGone (q : LocalPlane) (id : String) (r : Handled UnloadOpenApiContractOutput)
      : Type 0 where
    pub u : UnloadOpenApiContractOutput
    pub answer : r.0 ≡ ok (done u)
    pub unloaded : u.unloaded ≡ true
    pub previous : u.previous_contract_id ≡ id
    pub store : r.1.store ≡ q.store
    pub s : GetContractStatusOutput
    pub status_answer : (get_contract_status_tool files format r.1).0 ≡ ok (done s)
    pub shown : s.active ≡ false
    pub judged :
        (rule : ResponseRule) (override : BehaviorValidationOverride)
        → validated codec r.1 rule override ≡ (extra_validation q.validator rule >> ok [])

  pub unload-forced :
      (q : LocalPlane)
      → unload_openapi_contract_tool q true ≡ (
        ok (done (unload_openapi_contract_output (unload_result q.contract_manager.active))),
        record q { contract_manager = record q.contract_manager { active = none } },
      )
  unfolding unload_openapi_contract_tool unload unload_openapi_contract
  unload-forced q = rw (and_false (has_response_rule q.store)) refl

  gone :
      (q : LocalPlane) (a : ActiveContract)
      → q.contract_manager.active ≡ some a
      → IsGone q a.contract_id (unload_openapi_contract_tool q true)
  unfolding contract_status get_contract_status_tool
  gone q a e =
      let m = record q.contract_manager { active = none } in
      subst (IsGone q a.contract_id) (sym (unload-forced q)) (record {
        u = unload_openapi_contract_output (unload_result q.contract_manager.active);
        answer = refl;
        unloaded = refl;
        previous = ap previous_id e;
        store = refl;
        s = _;
        status_answer = refl;
        shown = not_reported (ensure_contract_root files m) (ensure-active files m);
        judged =
            λ rule override. validated-none (record q { contract_manager = m }) rule override refl;
      })

  -- A load that fails, and one that succeeds.
  abbrev pub LoadFollowed : LocalPlane → Handled LoadOpenApiContractOutput → Type 0
  LoadFollowed p r =
      ((o : LoadOpenApiContractOutput) × (r.0 ≡ ok (failed o))
        × (o.loaded ≡ false)
        × IsSameState p r.1)
      ⊎ ((o : LoadOpenApiContractOutput) × (r.0 ≡ ok (done o))
          × (o.loaded ≡ true)
          × (r.1.store ≡ p.store)
          × ((s : GetContractStatusOutput) × ((get_contract_status_tool files format r.1).0
                ≡ ok (done s))
              × IsReportOf o s)
          × IsGone r.1 o.contract_id (unload_openapi_contract_tool r.1 true))

  followed :
      (p : LocalPlane) (r : Result ActiveContract)
      → LoadFollowed p (
        ok (load_answer (activate (ensure_contract_root files p.contract_manager) r).0),
        record p {
          contract_manager = (activate (ensure_contract_root files p.contract_manager) r).1;
        },
      )
  unfolding activate contract_status get_contract_status_tool
  followed p (err e) =
      inl (_, refl, refl, record { store = refl; active = ensure-active files p.contract_manager })
  followed p (ok a) =
      let m = record (ensure_contract_root files p.contract_manager) { active = some a } in
      inr (
        load_openapi_contract_output (load_result a),
        refl,
        refl,
        refl,
        (_, refl, reported (ensure_contract_root files m) a (ensure-active files m)),
        gone (record p { contract_manager = m }) a refl,
      )

-- A load_openapi_contract that fails keeps the store and the active contract. After one that
-- succeeds the store is kept, get_contract_status reports the contract, its counts and its mode as
-- the load did, and a forced unload_openapi_contract names that contract, keeps the store and leaves
-- get_contract_status no contract to report and the plane's own validator alone to judge a rule.
pub load_openapi_contract-unload_openapi_contract :
    (files : Files) (codec : Codec) (format : Time → String) (now : Time) (p : LocalPlane)
    (command : LoadCommand)
    → LoadFollowed files codec format p (load_openapi_contract_tool files codec now p command)
unfolding load_openapi_contract_tool load load_openapi_contract
load_openapi_contract-unload_openapi_contract files codec format now p command =
    followed files codec format p (
      load_active files codec now (ensure_contract_root files p.contract_manager).contract_root
        command (has_response_rule p.store))
