-- ===== src/Control/Plane/Looks.antt =====
-- internal/control/control.go: a look at the contract status changes no more than the manager's root.
use echo_mcp.Prelude.{◌≡◌, refl, ap, ◌∙◌, Option, none, some, is_some}
use echo_mcp.Control.Files.{Files}
use echo_mcp.Control.Manager.{ActiveContract, ContractManager, ensure_contract_root}
use echo_mcp.Control.Manager.Ensured.{ensure-active, ensure-ensure}
use echo_mcp.Control.Status.{status_of, status}
use echo_mcp.Control.Plane.{LocalPlane, contract_status}

-- Two planes with the same store and the same active contract.
pub record IsSameState (p q : LocalPlane) : Type 0 where
  pub store : q.store ≡ p.store
  pub active : q.contract_manager.active ≡ p.contract_manager.active

pub IsSameState-trans : (p q r : LocalPlane) → IsSameState p q → IsSameState q r → IsSameState p r
IsSameState-trans p q r h k = record { store = k.store ∙ h.store; active = k.active ∙ h.active }

module _ (files : Files) where
  pub contract_status-IsSameState : (p : LocalPlane) → IsSameState p (contract_status files p).1
  unfolding contract_status
  contract_status-IsSameState p = record {
    store = refl;
    active = ensure-active files p.contract_manager;
  }

  status_of-active :
      (m : ContractManager) (o : Option ActiveContract) → (status_of m o).active ≡ is_some o
  unfolding status_of
  status_of-active m none = refl
  status_of-active m (some a) = refl

  pub contract_status-active :
      (p : LocalPlane) → (contract_status files p).0.active ≡ is_some p.contract_manager.active
  unfolding contract_status status
  contract_status-active p =
      status_of-active (ensure_contract_root files p.contract_manager) _
      ∙ ap is_some (ensure-active files p.contract_manager)

  -- A second look sees what the first saw, and changes nothing.
  pub contract_status-again :
      (p : LocalPlane) → contract_status files (contract_status files p).1 ≡ contract_status files p
  unfolding contract_status
  contract_status-again p =
      ap (λ m. (status m, record p { contract_manager = m }))
        (ensure-ensure files p.contract_manager)
