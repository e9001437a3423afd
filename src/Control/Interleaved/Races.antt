-- ===== src/Control/Interleaved/Races.antt =====
-- internal/control/control.go and internal/httpserver/server.go: what calls can do between the two turns
-- of another.
use echo_mcp.Prelude.{
  ◌+◌, ◌%◌, String, ◌≡◌, refl, ap, ◌∙◌, true, false, none, some, is_some, ◌≢◌, List, [], ◌∷◌,
}
use echo_mcp.Failure.{Failure, ok, err}
use echo_mcp.State.{
  ResponseRule, has_response_rule, match_response_rule, reset as reset_store, uint64_mod,
  configure_response_rule as store_rule, record_observation,
}
use echo_mcp.State.Matched.{match-configured}
use echo_mcp.HttpServer.{is_sendable, record_answer, observation_for}
use echo_mcp.Contract.Document.{Codec}
use echo_mcp.Contract.Rule.{validate_response_rule}
use echo_mcp.Control.Files.{Files}
use echo_mcp.Control.Manager.{
  Time, LoadCommand, ActiveContract, no_override, ensure_contract_root, load_active, activate,
  load_openapi_contract,
}
use echo_mcp.Control.Validation.{validate_rule, validate_active}
use echo_mcp.Control.Plane.{LocalPlane, extra_validation, validated, store_if_valid, reset}
use echo_mcp.Control.Plane.Calls.{configure, load_contract, reset_plane, request}
use echo_mcp.Control.Interleaved.{
  Task, load_called, loading, configure_called, storing, put, validated_task, idle, Happening,
  arrives, runs, turn, take_turn, happen, run,
}

-- The load looks at the store, the rule is validated and stored, and then the contract is activated.
abbrev pub rule_during_load : Time → LoadCommand → ResponseRule → List Happening
rule_during_load now command rule =
    arrives (load_contract now command)
    ∷ runs 0
    ∷ arrives (configure rule no_override)
    ∷ runs 1
    ∷ runs 1
    ∷ runs 0
    ∷ []

-- The request matches, the store is reset, and then the request is recorded.
abbrev pub reset_during_request : String → String → List Happening
reset_during_request method path =
    arrives (request method path) ∷ runs 0 ∷ arrives reset_plane ∷ runs 1 ∷ runs 0 ∷ []

passes :
    (codec : Codec) (p : LocalPlane) (rule : ResponseRule)
    → p.contract_manager.active ≡ none
    → p.validator ≡ none
    → validated codec p rule no_override ≡ ok []
unfolding validated validate_rule validate_active extra_validation
passes codec p rule e f = rw (e, f) refl

module _ (files : Files) (codec : Codec) (p : LocalPlane) (now : Time) (command : LoadCommand)
    (rule : ResponseRule) where
  -- The load has looked at the store.
  abbrev waiting : Task
  waiting = loading now command false

  looked :
      p.store.response_rule ≡ none
      → take_turn files codec 0 p (load_called now command ∷ [])
        ≡ record { plane = p; tasks = waiting ∷ [] }
  unfolding take_turn turn has_response_rule
  looked empty = ap (λ o. record { plane = p; tasks = loading now command (is_some o) ∷ [] }) empty

  judged :
      p.contract_manager.active ≡ none
      → p.validator ≡ none
      → take_turn files codec 1 p (waiting ∷ configure_called rule no_override ∷ [])
        ≡ record { plane = p; tasks = waiting ∷ storing rule [] ∷ [] }
  unfolding take_turn turn
  judged inactive unvalidated =
      ap (λ v. record { plane = p; tasks = waiting ∷ put (validated_task rule v) [] })
        (passes codec p rule inactive unvalidated)

  abbrev with_rule : LocalPlane
  with_rule = record p { store = store_rule p.store rule }

  abbrev with_both : ActiveContract → LocalPlane
  with_both a = record with_rule {
    contract_manager = record (ensure_contract_root files p.contract_manager) { active = some a };
  }

  activated :
      (a : ActiveContract)
      → load_active files codec now
          (ensure_contract_root files p.contract_manager).contract_root
          command
          false
        ≡ ok a
      → take_turn files codec 0 with_rule (waiting ∷ []) ≡ idle (with_both a)
  unfolding take_turn turn load_openapi_contract activate
  activated a loads =
      ap
        (λ r. idle (record with_rule {
          contract_manager = (activate (ensure_contract_root files p.contract_manager) r).1;
        }))
        loads

  -- Both the rule and the contract are there at the end.
  raced :
      (a : ActiveContract)
      → p.store.response_rule ≡ none
      → p.contract_manager.active ≡ none
      → p.validator ≡ none
      → load_active files codec now
          (ensure_contract_root files p.contract_manager).contract_root
          command
          false
        ≡ ok a
      → run files codec (idle p) (rule_during_load now command rule) ≡ idle (with_both a)
  unfolding run happen take_turn turn store_if_valid
  raced a empty inactive unvalidated loads =
      ap
        (λ s.
          run files codec s (arrives (configure rule no_override) ∷ runs 1 ∷ runs 1 ∷ runs 0 ∷ []))
        (looked empty)
      ∙ ap (λ s. run files codec s (runs 1 ∷ runs 0 ∷ [])) (judged inactive unvalidated)
      ∙ activated a loads

-- With no rule stored, no contract active and no further validator, and a load whose file is a
-- contract: a rule that this contract rejects, configured while the load is under way, is stored, and
-- then the contract is activated. Neither call is refused, no validation is overridden, and the load
-- need not be forced. A request with the rule's method and path is then answered by that rule.
pub run-rule_during_load :
    (files : Files) (codec : Codec) (p : LocalPlane) (now : Time) (command : LoadCommand)
    (a : ActiveContract) (rule : ResponseRule) (e : Failure)
    → p.store.response_rule ≡ none
    → p.contract_manager.active ≡ none
    → p.validator ≡ none
    → load_active files codec now
        (ensure_contract_root files p.contract_manager).contract_root
        command
        false
      ≡ ok a
    → validate_response_rule codec a.openapi rule ≡ err e
    → let after = run files codec (idle p) (rule_during_load now command rule) in
      (after.tasks ≡ [])
      × (after.plane.contract_manager.active ≡ some a)
      × (match_response_rule after.plane.store rule.method rule.path ≡ some rule)
      × (validate_response_rule codec a.openapi rule ≢ ok tt)
run-rule_during_load files codec p now command a rule e empty inactive unvalidated loads rejected =
    rw (raced files codec p now command rule a empty inactive unvalidated loads)
      (refl, refl, match-configured p.store rule, λ k. cc (rejected, k))

-- A request that matched a rule with a status from 100 to 999 before a reset is recorded after it: with no rule stored any more and
-- the generation advanced, the observations hold one of the rule that the reset removed.
pub run-reset_during_request :
    (files : Files) (codec : Codec) (p : LocalPlane) (method path : String) (rule : ResponseRule)
    → match_response_rule p.store method path ≡ some rule
    → is_sendable rule.status_code ≡ true
    → let after = run files codec (idle p) (reset_during_request method path) in
      (after.tasks ≡ [])
      × (after.plane.store.response_rule ≡ none)
      × (after.plane.store.generation ≡ (p.store.generation + 1) % uint64_mod)
      × (after.plane.store.observations ≡ observation_for method path rule ∷ [])
unfolding run happen take_turn turn reset reset_store record_answer record_observation
run-reset_during_request files codec p method path rule m e = rw (m, e) (refl, refl, refl, refl)
