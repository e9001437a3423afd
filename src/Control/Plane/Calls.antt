-- ===== src/Control/Plane/Calls.antt =====
-- internal/control/control.go and internal/httpserver/server.go: the planes that sequences of calls
-- reach, and what a strict contract demands of them.
use echo_mcp.Prelude.{String, ◌≡◌, sym, ◌∙◌, ◌⊎◌, Bool, false, none, some}
use echo_mcp.Failure.{ok}
use echo_mcp.State.{ResponseRule, Store}
use echo_mcp.HttpServer.{handle_data_plane}
use echo_mcp.Webhook.{Event}
use echo_mcp.Contract.Document.{Codec}
use echo_mcp.Contract.Rule.{validate_response_rule}
use echo_mcp.Control.Files.{Files}
use echo_mcp.Control.Mode.{mode_strict, normalize_validation_mode}
use echo_mcp.Control.Manager.{
  Time, ActiveContract, ContractManager, LoadCommand, BehaviorValidationOverride,
}
use echo_mcp.Control.Plane.{
  LocalPlane, configure_response_rule_with_validation, load, unload, contract_status,
  send_webhook_event, reset,
}

-- The calls that change a plane: the tools of the control plane and the requests of the data plane.
pub data PlaneCall : Type 0 where
  configure : ResponseRule → BehaviorValidationOverride → PlaneCall
  load_contract : Time → LoadCommand → PlaneCall
  read_status : PlaneCall
  unload_contract : Bool → PlaneCall
  send_event : Event → PlaneCall
  reset_plane : PlaneCall
  request : String → String → PlaneCall

unfoldable pub perform : Files → Codec → LocalPlane → PlaneCall → LocalPlane
perform files codec p (configure rule override) =
    (configure_response_rule_with_validation codec p rule override).1
perform files codec p (load_contract now command) = (load files codec now p command).1
perform files codec p read_status = (contract_status files p).1
perform files codec p (unload_contract force) = (unload p force).1
perform files codec p (send_event event) = (send_webhook_event p event).1
perform files codec p reset_plane = reset p
perform files codec p (request method path) = record p {
  store = (handle_data_plane p.store method path).1;
}

-- No override but a strict one, and no forced load.
abbrev pub IsOrdinary : PlaneCall → Type 0
IsOrdinary (configure rule override) =
    (override.mode_set ≡ false) ⊎ (normalize_validation_mode override.mode ≡ ok mode_strict)
IsOrdinary (load_contract now command) = command.force ≡ false
IsOrdinary _ = Unit

module _ (files : Files) (codec : Codec) where
  -- The planes that ordinary calls reach.
  pub data Reaches (p : LocalPlane) : LocalPlane → Type 0 where
    start : Reaches p p
    call :
        {q : LocalPlane} (c : PlaneCall)
        → Reaches p q
        → IsOrdinary c
        → Reaches p (perform files codec q c)

  -- The rule of the data plane is one that the active contract accepts, if its mode is strict.
  pub record IsEnforced (store : Store) (m : ContractManager) : Type 0 where
    pub accepted :
        (rule : ResponseRule) (a : ActiveContract)
        → store.response_rule ≡ some rule
        → m.active ≡ some a
        → a.validation_mode ≡ mode_strict
        → validate_response_rule codec a.openapi rule ≡ ok tt

  abbrev pub Enforced : LocalPlane → Type 0
  Enforced p = IsEnforced p.store p.contract_manager

  -- The invariant reads the rule and the active contract only.
  pub Enforced-same :
      (s t : Store) (m n : ContractManager)
      → t.response_rule ≡ s.response_rule
      → n.active ≡ m.active
      → IsEnforced s m
      → IsEnforced t n
  Enforced-same s t m n e f h = record {
    accepted = λ rule a r c strict. h.accepted rule a (sym e ∙ r) (sym f ∙ c) strict;
  }

  pub Enforced-no_rule : (s : Store) (m : ContractManager) → s.response_rule ≡ none → IsEnforced s m
  Enforced-no_rule s m e = record { accepted = λ rule a r c strict. cc (e, r) }

  pub Enforced-no_contract : (s : Store) (m : ContractManager) → m.active ≡ none → IsEnforced s m
  Enforced-no_contract s m e = record { accepted = λ rule a r c strict. cc (e, c) }
