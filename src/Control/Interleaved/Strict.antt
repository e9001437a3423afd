-- ===== src/Control/Interleaved/Strict.antt =====
-- internal/control/control.go and contract_manager.go: each turn of the plane while a strict contract is
-- active and none is loaded.

use mathlib.Core.Path.{subst}
use echo_mcp.Prelude.{
  String, some-injective, ◌≡◌, refl, sym, ◌∙◌, ◌⊎◌, inl, inr, not, ◌&&◌, none, some, Bool-cases,
}
use echo_mcp.Failure.{ok}
use echo_mcp.State.{
  ResponseRule, reset as reset_store, configure_response_rule as store_rule, record_observation,
  record_webhook_delivery_observation,
}
use echo_mcp.HttpServer.{record_answer}
use echo_mcp.HttpServer.Wire.{record_answer-rule}
use echo_mcp.Contract.Document.{Codec}
use echo_mcp.Contract.Rule.{validate_response_rule}
use echo_mcp.Control.Files.{Files}
use echo_mcp.Control.Manager.{ActiveContract, unload_openapi_contract}
use echo_mcp.Control.Manager.Ensured.{ensure-active}
use echo_mcp.Control.Plane.{LocalPlane, store_if_valid, contract_status, record_delivery, reset}
use echo_mcp.Control.Plane.Calls.{configure, load_contract, IsOrdinary}
use echo_mcp.Control.Interleaved.{
  Task, request_arrived, answering, configure_called, storing, load_called, loading, unload_called,
  unloading, sending, recording, status_called, reset_called, turn, Happening, arrives, runs,
}

-- No contract is loaded, and a validation is overridden by strict only.
abbrev pub IsUnloaded : Happening → Type 0
IsUnloaded (arrives (load_contract now command)) = ⊥
IsUnloaded (arrives c) = IsOrdinary c
IsUnloaded (runs n) = Unit

module _ (codec : Codec) (a : ActiveContract) where
  abbrev pub Accepts : ResponseRule → Type 0
  Accepts rule = validate_response_rule codec a.openapi rule ≡ ok tt

  -- The contract is gone, or it is still the first one and accepts the rule that is stored.
  abbrev pub PlaneGuarded : LocalPlane → Type 0
  PlaneGuarded p =
      (p.contract_manager.active ≡ none)
      ⊎ ((p.contract_manager.active ≡ some a)
          × ((rule : ResponseRule) → p.store.response_rule ≡ some rule → Accepts rule))

  abbrev pub TaskGuarded : LocalPlane → Task → Type 0
  TaskGuarded p (configure_called rule override) = IsOrdinary (configure rule override)
  TaskGuarded p (storing rule warnings) = (p.contract_manager.active ≡ none) ⊎ Accepts rule
  TaskGuarded p (load_called now command) = ⊥
  TaskGuarded p (loading now command b) = ⊥
  TaskGuarded p _ = Unit

  module _ (files : Files) where
    -- No turn but a load's makes a contract active.
    turn-none :
        (p : LocalPlane) (t : Task)
        → TaskGuarded p t
        → p.contract_manager.active ≡ none
        → (turn files codec p t).1.contract_manager.active ≡ none
    unfolding turn store_if_valid record_delivery contract_status reset unload_openapi_contract
    turn-none p (request_arrived method path) j e = e
    turn-none p (answering method path rule) j e = e
    turn-none p (configure_called rule override) j e = e
    turn-none p (storing rule warnings) j e = e
    turn-none p (load_called now command) j e = e
    turn-none p (loading now command b) j e = absurd j
    turn-none p (unload_called force) j e = e
    turn-none p (unloading force b) j e = elim (Bool-cases (b && not force)) [
      | inl h ↦ rw (h) e
      | inr h ↦ rw (h) refl
    ]
    turn-none p (sending event) j e = e
    turn-none p (recording d) j e = e
    turn-none p status_called j e = ensure-active files p.contract_manager ∙ e
    turn-none p reset_called j e = e

    storing-kept :
        (p : LocalPlane) (rule : ResponseRule)
        → PlaneGuarded p
        → (p.contract_manager.active ≡ none) ⊎ Accepts rule
        → PlaneGuarded (record p { store = store_rule p.store rule })
    unfolding store_rule
    storing-kept p rule (inl gone) j = inl gone
    storing-kept p rule (inr (here, stored)) (inl gone) = inl gone
    storing-kept p rule (inr (here, stored)) (inr accepted) =
        inr (here, λ r e. subst Accepts (some-injective rule r e) accepted)

    answer-kept :
        (p : LocalPlane) (method path : String) (rule : ResponseRule)
        → PlaneGuarded p
        → PlaneGuarded (record p { store = record_answer p.store method path rule })
    answer-kept p method path rule (inl gone) = inl gone
    answer-kept p method path rule (inr (here, stored)) =
        inr (here, λ r e. stored r (sym (record_answer-rule p.store method path rule) ∙ e))

    reset-kept : (p : LocalPlane) → PlaneGuarded p → PlaneGuarded (reset p)
    unfolding reset reset_store
    reset-kept p (inl gone) = inl gone
    reset-kept p (inr (here, stored)) = inr (here, λ r e. cc e)

    status-kept : (p : LocalPlane) → PlaneGuarded p → PlaneGuarded (contract_status files p).1
    unfolding contract_status
    status-kept p (inl gone) = inl (ensure-active files p.contract_manager ∙ gone)
    status-kept p (inr (here, stored)) = inr (ensure-active files p.contract_manager ∙ here, stored)

    pub plane-kept :
        (p : LocalPlane) (t : Task)
        → PlaneGuarded p
        → TaskGuarded p t
        → PlaneGuarded (turn files codec p t).1
    unfolding turn store_if_valid record_observation record_delivery
        record_webhook_delivery_observation unload_openapi_contract
    plane-kept p (request_arrived method path) i j = i
    plane-kept p (answering method path rule) i j = answer-kept p method path rule i
    plane-kept p (configure_called rule override) i j = i
    plane-kept p (storing rule warnings) i j = storing-kept p rule i j
    plane-kept p (load_called now command) i j = i
    plane-kept p (loading now command b) i j = absurd j
    plane-kept p (unload_called force) i j = i
    plane-kept p (unloading force b) i j = elim (Bool-cases (b && not force)) [
      | inl h ↦ rw (h) i
      | inr h ↦ rw (h) (inl refl)
    ]
    plane-kept p (sending event) i j = i
    plane-kept p (recording d) i j = i
    plane-kept p status_called i j = status-kept p i
    plane-kept p reset_called i j = reset-kept p i

    pub other-kept :
        (p : LocalPlane) (t u : Task)
        → TaskGuarded p t
        → TaskGuarded p u
        → TaskGuarded (turn files codec p t).1 u
    other-kept p t (storing rule warnings) j (inl gone) = inl (turn-none p t j gone)
    other-kept p t (storing rule warnings) j (inr accepted) = inr accepted
    other-kept p t (configure_called rule override) j k = k
    other-kept p t (load_called now command) j k = k
    other-kept p t (loading now command b) j k = k
    other-kept p t (request_arrived method path) j k = tt
    other-kept p t (answering method path rule) j k = tt
    other-kept p t (unload_called force) j k = tt
    other-kept p t (unloading force b) j k = tt
    other-kept p t (sending event) j k = tt
    other-kept p t (recording d) j k = tt
    other-kept p t status_called j k = tt
    other-kept p t reset_called j k = tt
