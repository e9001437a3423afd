-- ===== src/Control/Manager/Ensured.antt =====
-- internal/control/contract_manager.go: ensureContractRoot changes the root only, and only once.
use echo_mcp.Prelude.{◌≡◌, refl, ap, inl, inr, true, false, not, ◌==◌, Bool-cases}
use echo_mcp.Control.Files.{Files}
use echo_mcp.Control.Root.{ContractRoot, new_contract_root}
use echo_mcp.Control.Manager.{ContractManager, ensure_contract_root, root_or_fallback}

module _ (files : Files) where
  pub ensure-active : (m : ContractManager) → (ensure_contract_root files m).active ≡ m.active
  unfolding ensure_contract_root
  ensure-active m = elim (Bool-cases (m.contract_root.path == "")) [
    | inl e ↦ rw (e, not) refl
    | inr e ↦ rw (e, not) refl
  ]

  default_root : ContractRoot
  default_root = root_or_fallback (new_contract_root files "" "")

  ensure-default :
      (m : ContractManager)
      → (m.contract_root.path == "") ≡ true
      → ensure_contract_root files m ≡ record m { contract_root = default_root }
  unfolding ensure_contract_root default_root
  ensure-default m e = rw (e, not) refl

  ensure-given :
      (m : ContractManager)
      → (m.contract_root.path == "") ≡ false
      → ensure_contract_root files m ≡ m
  unfolding ensure_contract_root
  ensure-given m e = rw (e, not) refl

  default-again :
      (m : ContractManager)
      → ensure_contract_root files (record m { contract_root = default_root })
        ≡ record m { contract_root = default_root }
  default-again m = elim (Bool-cases (default_root.path == "")) [
    | inl e ↦ ensure-default (record m { contract_root = default_root }) e
    | inr e ↦ ensure-given (record m { contract_root = default_root }) e
  ]

  pub ensure-ensure :
      (m : ContractManager)
      → ensure_contract_root files (ensure_contract_root files m) ≡ ensure_contract_root files m
  ensure-ensure m = elim (Bool-cases (m.contract_root.path == "")) [
    | inl e ↦ rw (ensure-default m e) (default-again m)
    | inr e ↦ ap (ensure_contract_root files) (ensure-given m e)
  ]
