-- ===== src/Control/Plane/Enforced.antt =====
-- internal/control/control.go: a strict contract, and what is stored and served while it is active.
use echo_mcp.Prelude.{
  String, ◌≡◌, refl, ap, ◌⊎◌, inl, inr, Bool, true, false, not, ◌&&◌, Option, none, some, List,
  ◌==◌, is_some, trim_space, Bool-cases, Option-cases,
}
use echo_mcp.Failure.{Failure, Result, ok, err}
use echo_mcp.State.{
  ResponseRule, Store, reset as reset_store, configure_response_rule as store_rule,
  has_response_rule, match_response_rule, record_webhook_delivery_observation,
}
use echo_mcp.State.Matched.{match_rule-some}
use echo_mcp.HttpServer.{handle_data_plane, respond}
use echo_mcp.HttpServer.Wire.{record_answer-rule}
use echo_mcp.Webhook.{Delivery}
use echo_mcp.Contract.Document.{Codec}
use echo_mcp.Contract.Rule.Accepted.{IsAccepted, IsFuelled}
use echo_mcp.Contract.Rule.Judged.{validate_response_rule_iff}
use echo_mcp.Control.Files.{Files}
use echo_mcp.Control.Root.{ContractRoot, missing_path_error}
use echo_mcp.Control.Mode.{mode_strict, normalize_validation_mode}
use echo_mcp.Control.Manager.{
  Time, ActiveContract, ContractManager, LoadCommand, BehaviorValidationOverride,
  ensure_contract_root, load_active, activate, load_openapi_contract, unload_openapi_contract,
  reset_required_error,
}
use echo_mcp.Control.Manager.Ensured.{ensure-active}
use echo_mcp.Control.Plane.{
  LocalPlane, validated, store_if_valid, configure_response_rule_with_validation, load, unload,
  contract_status, record_delivery, send_webhook_event, reset,
}
use echo_mcp.Control.Plane.Strict.{effective_mode-strict, validated-strict}
use echo_mcp.Control.Plane.Calls.{
  PlaneCall, configure, load_contract, read_status, unload_contract, send_event, reset_plane,
  request, perform, IsOrdinary, Reaches, start, call, Enforced, Enforced-same, Enforced-no_rule,
  Enforced-no_contract,
}

module _ (files : Files) (codec : Codec) where
  configure-Enforced :
      (p : LocalPlane) (rule : ResponseRule) (override : BehaviorValidationOverride)
      (r : Result (List String))
      → validated codec p rule override ≡ r
      → (override.mode_set ≡ false) ⊎ (normalize_validation_mode override.mode ≡ ok mode_strict)
      → Enforced files codec p
      → Enforced files codec (store_if_valid p rule r).1
  unfolding store_if_valid store_rule
  configure-Enforced p rule override (err e) v o h = h
  configure-Enforced p rule override (ok warnings) v o h = record {
    accepted = λ r a here active strict.
        let stored =
          validated-strict codec p a rule override warnings active
            (effective_mode-strict codec a override strict o) v in
        cc (stored, here);
  }

  load_active-refused :
      (now : Time) (root : ContractRoot) (command : LoadCommand)
      → command.force ≡ false
      → (e : Failure) × (load_active files codec now root command true ≡ err e)
  unfolding load_active
  load_active-refused now root command h = elim (Bool-cases (trim_space command.path == "")) [
    | inl e ↦ (missing_path_error, rw (e) refl)
    | inr e ↦ (
      reset_required_error "reset before loading a different OpenAPI contract or pass force: true",
      rw (e, h) refl,
    )
  ]

  load-keeps :
      (m : ContractManager) (now : Time) (command : LoadCommand) (behavior_active : Bool)
      → command.force ≡ false
      → behavior_active ≡ true
      → (load_openapi_contract files codec now m command behavior_active).1.active ≡ m.active
  unfolding load_openapi_contract activate
  load-keeps m now command behavior_active f b =
      let refused =
        load_active-refused now (ensure_contract_root files m).contract_root command f in
      rw (b, refused.1) (ensure-active files m)

  load-Enforced :
      (p : LocalPlane) (now : Time) (command : LoadCommand)
      → command.force ≡ false
      → Enforced files codec p
      → Enforced files codec (load files codec now p command).1
  unfolding load has_response_rule
  load-Enforced p now command f h = elim (Option-cases p.store.response_rule) [
    | inl no_rule ↦ Enforced-no_rule files codec p.store _ no_rule
    | inr (rule, here) ↦
        Enforced-same files codec p.store p.store p.contract_manager _ refl
          (load-keeps p.contract_manager now command (is_some p.store.response_rule) f
            (ap is_some here))
          h
  ]

  unload-Enforced :
      (p : LocalPlane) (force : Bool)
      → Enforced files codec p
      → Enforced files codec (unload p force).1
  unfolding unload unload_openapi_contract
  unload-Enforced p force h = elim (Bool-cases (has_response_rule p.store && not force)) [
    | inl refused ↦ rw (refused) h
    | inr gone ↦ rw (gone) (Enforced-no_contract files codec p.store _ refl)
  ]

  send-Enforced :
      (p : LocalPlane) (r : Result Delivery)
      → Enforced files codec p
      → Enforced files codec (record_delivery p r).1
  unfolding record_delivery record_webhook_delivery_observation
  send-Enforced p (err e) h = h
  send-Enforced p (ok d) h =
      Enforced-same files codec p.store _ p.contract_manager p.contract_manager refl refl h

  respond-rule :
      (s : Store) (method path : String) (o : Option ResponseRule)
      → (respond s method path o).1.response_rule ≡ s.response_rule
  unfolding respond
  respond-rule s method path none = refl
  respond-rule s method path (some rule) = record_answer-rule s method path rule

  perform-Enforced :
      (p : LocalPlane) (c : PlaneCall)
      → IsOrdinary c
      → Enforced files codec p
      → Enforced files codec (perform files codec p c)
  unfolding perform configure_response_rule_with_validation contract_status send_webhook_event reset
      reset_store handle_data_plane
  perform-Enforced p (configure rule override) o h =
      configure-Enforced p rule override (validated codec p rule override) refl o h
  perform-Enforced p (load_contract now command) o h = load-Enforced p now command o h
  perform-Enforced p read_status o h =
      Enforced-same files codec p.store p.store p.contract_manager _ refl
        (ensure-active files p.contract_manager) h
  perform-Enforced p (unload_contract force) o h = unload-Enforced p force h
  perform-Enforced p (send_event event) o h = send-Enforced p _ h
  perform-Enforced p reset_plane o h = Enforced-no_rule files codec _ p.contract_manager refl
  perform-Enforced p (request method path) o h =
      Enforced-same files codec p.store _ p.contract_manager p.contract_manager
        (respond-rule p.store method path (match_response_rule p.store method path)) refl h

  Reaches-Enforced :
      (p q : LocalPlane) → Reaches files codec p q → Enforced files codec p → Enforced files codec q
  Reaches-Enforced p _ start h = h
  Reaches-Enforced p _ (call {q} c r o) h = perform-Enforced q c o (Reaches-Enforced p q r h)

-- From a plane with no rule, no sequence of configurations, loads, unloads, webhook events, resets,
-- status reads and requests, with no validation overridden but by strict and no load forced,
-- arrives where a request is answered by a rule that the active contract, in strict mode, does not
-- accept: the operation and the status are defined, and a body that the response asks for conforms
-- to its schema. The active contract's document is one that bounds its schemas and references.
pub Reaches-IsAccepted :
    (files : Files) (codec : Codec) (p q : LocalPlane)
    → p.store.response_rule ≡ none
    → Reaches files codec p q
    → (a : ActiveContract) → q.contract_manager.active ≡ some a
    → a.validation_mode ≡ mode_strict
    → IsFuelled codec a.openapi
    → (method path : String) (rule : ResponseRule)
    → match_response_rule q.store method path ≡ some rule
    → IsAccepted codec a.openapi rule
unfolding match_response_rule
Reaches-IsAccepted files codec p q empty r a active strict fuelled method path rule matched =
    let enforced =
      Reaches-Enforced files codec p q r
        (Enforced-no_rule files codec p.store p.contract_manager empty) in
    (validate_response_rule_iff codec a.openapi fuelled rule).1.0 (
      enforced.accepted rule a (match_rule-some q.store.response_rule method path rule matched).0
        active strict)
