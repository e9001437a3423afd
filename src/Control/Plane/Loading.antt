-- ===== src/Control/Plane/Loading.antt =====
-- internal/control: the two ways in which load_openapi_contract ends.
use echo_mcp.Prelude.{
  String, ◌≡◌, refl, sym, ap, ◌∙◌, ◌⊎◌, inl, inr, Bool, true, false, not, ◌&&◌, some, ◌==◌,
  trim_space, Bool-cases,
}
use echo_mcp.Failure.{Failure, Result, ok, err, ◌>>=◌}
use echo_mcp.State.{has_response_rule}
use echo_mcp.Contract.Document.{OpenApiContract, Codec}
use echo_mcp.Contract.Load.{load_openapi_file_with_source_path}
use echo_mcp.Contract.Load.Loaded.{IsLoaded, load_openapi_file_iff}
use echo_mcp.Control.Files.{Files}
use echo_mcp.Control.Root.{ContractRoot, ResolvedContractPath, missing_path_error, resolve}
use echo_mcp.Control.Root.Boundary.{HasParents, IsResolved}
use echo_mcp.Control.Root.Resolved.{resolve-IsResolved}
use echo_mcp.Control.Mode.{normalize_validation_mode, default_contract_id}
use echo_mcp.Control.Manager.Ensured.{ensure-active}
use echo_mcp.Control.Manager.{
  Time, ActiveContract, ContractManager, LoadCommand, LoadResult, load_result, ensure_contract_root,
  load_active, activate, load_openapi_contract, reset_required_error,
}
use echo_mcp.Control.Plane.{LocalPlane, load}

-- What a successful load has done: no behavior was configured, or the load was forced; the path
-- resolves below the root; the file there is a contract; and that contract is the active one, which
-- the result describes.
pub record IsActivated (files : Files) (codec : Codec) (now : Time) (p : LocalPlane)
    (command : LoadCommand) (result : LoadResult) (after : ContractManager) : Type 0 where
  pub a : ActiveContract
  pub resolved : ResolvedContractPath
  pub permitted : (has_response_rule p.store ≡ false) ⊎ (command.force ≡ true)
  pub located :
      IsResolved files
        (ensure_contract_root files p.contract_manager).contract_root
        command.path
        resolved
  pub read : IsLoaded codec files.read_file resolved.read_path resolved.source_path a.openapi
  pub named : a.contract_id ≡ default_contract_id files command.contract_id resolved.source_path
  pub mode : normalize_validation_mode command.validation_mode ≡ ok a.validation_mode
  pub at : a.loaded_at ≡ now
  pub reported : result ≡ load_result a
  pub active : after.active ≡ some a

module _ (files : Files) (codec : Codec) (parents : HasParents files) (now : Time) (p : LocalPlane)
    (command : LoadCommand) where
  abbrev root : ContractRoot
  root = (ensure_contract_root files p.contract_manager).contract_root

  -- What the loading of the contract itself has found.
  record IsFound (behavior_active : Bool) (a : ActiveContract) : Type 0 where
    resolved : ResolvedContractPath
    permitted : (behavior_active ≡ false) ⊎ (command.force ≡ true)
    located : IsResolved files root command.path resolved
    read : IsLoaded codec files.read_file resolved.read_path resolved.source_path a.openapi
    named : a.contract_id ≡ default_contract_id files command.contract_id resolved.source_path
    mode : normalize_validation_mode command.validation_mode ≡ ok a.validation_mode
    at : a.loaded_at ≡ now

  same_active : (a b : ActiveContract) → ok a ≡ ok b → a ≡ b
  same_active a b e = cc e

  -- The rest of the loading after the checks, by its three results.
  chain :
      Result String
      → Result ResolvedContractPath
      → (ResolvedContractPath → Result OpenApiContract)
      → Result ActiveContract
  chain given located read_at = do
    mode ← given
    resolved ← located
    validator ← read_at resolved
    ok (record {
      openapi = validator;
      contract_id = default_contract_id files command.contract_id resolved.source_path;
      loaded_at = now;
      validation_mode = mode;
    })

  read_at : ResolvedContractPath → Result OpenApiContract
  read_at r = load_openapi_file_with_source_path codec files.read_file r.read_path r.source_path

  chain-IsFound :
      (behavior_active : Bool) (given : Result String) (located : Result ResolvedContractPath)
      (a : ActiveContract)
      → (behavior_active ≡ false) ⊎ (command.force ≡ true)
      → normalize_validation_mode command.validation_mode ≡ given
      → resolve files root command.path ≡ located
      → chain given located read_at ≡ ok a
      → IsFound behavior_active a
  unfolding chain read_at
  chain-IsFound b (err e) located a p f g h = cc h
  chain-IsFound b (ok mode) (err e) a p f g h = cc h
  chain-IsFound b (ok mode) (ok r) a p f g h = read_step _ refl h
    where
      read_step :
          (c : Result OpenApiContract)
          → load_openapi_file_with_source_path codec files.read_file r.read_path r.source_path ≡ c
          → chain (ok mode) (ok r) (λ _. c) ≡ ok a
          → IsFound b a
      read_step (err e) k h = cc h
      read_step (ok c) k h =
          let made = same_active _ a h in
          record {
            resolved = r;
            permitted = p;
            located = resolve-IsResolved files parents root command.path r g;
            read =
                (load_openapi_file_iff codec files.read_file r.read_path r.source_path a.openapi).0
                  (k ∙ ap (λ x. ok x.openapi) made);
            named = sym (ap (λ x. x.contract_id) made);
            mode = f ∙ ap (λ x. ok x.validation_mode) made;
            at = sym (ap (λ x. x.loaded_at) made);
          }

  load_active-pathless :
      (b : Bool)
      → (trim_space command.path == "") ≡ true
      → load_active files codec now root command b ≡ err missing_path_error
  unfolding load_active
  load_active-pathless b e = rw (e) refl

  load_active-refused :
      (b : Bool)
      → (trim_space command.path == "") ≡ false
      → (b && not command.force) ≡ true
      → load_active files codec now root command b
        ≡ err (
            reset_required_error
              "reset before loading a different OpenAPI contract or pass force: true")
  unfolding load_active
  load_active-refused b e f = rw (e, f) refl

  load_active-chain :
      (b : Bool)
      → (trim_space command.path == "") ≡ false
      → (b && not command.force) ≡ false
      → load_active files codec now root command b
        ≡ chain
            (normalize_validation_mode command.validation_mode)
            (resolve files root command.path)
            read_at
  unfolding load_active chain read_at
  load_active-chain b e f = rw (e, f) refl

  permission : (b force : Bool) → (b && not force) ≡ false → (b ≡ false) ⊎ (force ≡ true)
  permission false force h = inl refl
  permission true true h = inr refl
  permission true false h = cc h

  load_active-IsFound :
      (b : Bool) (a : ActiveContract)
      → load_active files codec now root command b ≡ ok a
      → IsFound b a
  load_active-IsFound b a h = elim (Bool-cases (trim_space command.path == "")) [
    | inl e ↦ cc (load_active-pathless b e, h)
    | inr e ↦ elim (Bool-cases (b && not command.force)) [
      | inl f ↦ cc (load_active-refused b e f, h)
      | inr f ↦
          chain-IsFound b _ _ a (permission b command.force f) refl refl
            (sym (load_active-chain b e f) ∙ h)
    ]
  ]

  -- The two ways in which a load ends.
  abbrev pub LoadEnds : Result LoadResult → LocalPlane → Type 0
  LoadEnds answer after =
      ((after.store ≡ p.store)
        × (((e : Failure) × (answer ≡ err e)
              × (after.contract_manager.active ≡ p.contract_manager.active))
            ⊎ ((r : LoadResult) × (answer ≡ ok r)
                × IsActivated files codec now p command r after.contract_manager)))

  activate-LoadEnds :
      (r : Result ActiveContract)
      → load_active files codec now root command (has_response_rule p.store) ≡ r
      → LoadEnds (activate (ensure_contract_root files p.contract_manager) r).0 (record p {
        contract_manager = (activate (ensure_contract_root files p.contract_manager) r).1;
      })
  unfolding activate
  activate-LoadEnds (err e) h = (refl, inl (e, refl, ensure-active files p.contract_manager))
  activate-LoadEnds (ok a) h =
      let found = load_active-IsFound (has_response_rule p.store) a h in
      (
        refl,
        inr (
          load_result a,
          refl,
          record {
            a = a;
            resolved = found.resolved;
            permitted = found.permitted;
            located = found.located;
            read = found.read;
            named = found.named;
            mode = found.mode;
            at = found.at;
            reported = refl;
            active = refl;
          },
        ),
      )

-- Where absolute paths have shorter parents, load_openapi_contract keeps the rule and the
-- observations. If it fails, the active contract is the one that was active; if it succeeds, no
-- rule was configured or the load was forced, the path lies below the contract root with its links
-- followed, the file there is an OpenAPI 3.0 document with paths, and the contract made of it is
-- active, under its identifier and mode.
pub load-LoadEnds :
    (files : Files) (codec : Codec) (parents : HasParents files) (now : Time) (p : LocalPlane)
    (command : LoadCommand)
    → LoadEnds files codec parents now p command
        (load files codec now p command).0
        (load files codec now p command).1
unfolding load load_openapi_contract
load-LoadEnds files codec parents now p command =
    activate-LoadEnds files codec parents now p command
      (load_active files codec now (ensure_contract_root files p.contract_manager).contract_root
        command (has_response_rule p.store))
      refl
