-- ===== src/Command/Started.antt =====
-- cmd/echo-mcp/main.go: the plane that the process starts with, and what holds from then on.
use mathlib.Core.Path.{subst}
use echo_mcp.Prelude.{
  ◌≢◌, List, All, some-injective, String, ◌≡◌, refl, sym, ap, ◌∙◌, ◌⊎◌, inl, inr, Bool, true, false,
  Option, none, some, ◌==◌, eq_iff, Bool-cases,
}
use echo_mcp.Failure.{Failure, Result, ok, err, bind-ok}
use echo_mcp.State.{ResponseRule, has_response_rule, match_response_rule, new as new_store}
use echo_mcp.Webhook.{Url, Client}
use echo_mcp.Contract.Document.{OpenApiContract, Codec}
use echo_mcp.Contract.Load.Loaded.{IsLoaded}
use echo_mcp.Contract.Rule.Accepted.{IsAccepted, IsFuelled}
use echo_mcp.Control.Files.{Files}
use echo_mcp.Control.Root.{ContractRoot, new_contract_root}
use echo_mcp.Control.Root.Boundary.{HasParents}
use echo_mcp.Control.Mode.{mode_strict, mode_named, normalize_validation_mode}
use echo_mcp.Control.Manager.{
  Time, ActiveContract, ContractManager, LoadResult, new_contract_manager_with_contract_root,
  load_openapi_contract,
}
use echo_mcp.Control.Plane.{LocalPlane, load}
use echo_mcp.Control.Interleaved.{idle, Happening, run}
use echo_mcp.Control.Interleaved.Strict.{IsUnloaded}
use echo_mcp.Control.Interleaved.Guarded.{run-IsAccepted}
use echo_mcp.Control.Plane.Loading.{IsActivated, load-LoadEnds}
use echo_mcp.Control.Construct.{new_with_contract_manager_and_validator}
use echo_mcp.Command.{
  Servers, env_openapi_file, env_contract_root, startup_command, loaded_manager,
  load_startup_contract, load_contract_manager_from_environment, load_webhook_sender, start,
}

module _ (files : Files) (codec : Codec) (now : Time) (getenv : String → String) where
  -- The plane without a contract, under the root of the environment.
  abbrev pub rooted : ContractRoot → LocalPlane
  rooted root = record {
    store = new_store;
    validator = none;
    contract_manager = record { active = none; contract_root = root };
    webhook_sender = none;
  }

  -- The active contract of the start, if the environment names one.
  pub record IsStartupContract (root : ContractRoot) (m : ContractManager) : Type 0 where
    pub a : ActiveContract
    pub result : LoadResult
    pub active : m.active ≡ some a
    pub strict : a.validation_mode ≡ mode_strict
    pub activated :
        IsActivated files codec now
          (rooted root)
          (startup_command (getenv env_openapi_file))
          result
          m

  -- The two ways in which a manager is made.
  abbrev pub Managed : ContractRoot → ContractManager → Type 0
  Managed root m = ((getenv env_openapi_file ≡ "") × (m.active ≡ none)) ⊎ IsStartupContract root m

  strict-mode : normalize_validation_mode mode_strict ≡ ok mode_strict
  unfolding normalize_validation_mode mode_named echo_mcp.Prelude.to_lower
      echo_mcp.Prelude.trim_space
  strict-mode = refl

  same {ℓ} : {A : Type ℓ} (a b : A) → ok a ≡ ok b → a ≡ b
  same a b e = cc e

  activated-Managed :
      (root : ContractRoot) (r : LoadResult) (m : ContractManager)
      → IsActivated files codec now (rooted root) (startup_command (getenv env_openapi_file)) r m
      → Managed root m
  activated-Managed root r m h = inr (record {
    a = h.a;
    result = r;
    active = h.active;
    strict = same _ _ (sym h.mode ∙ strict-mode);
    activated = h;
  })

  loaded_manager-err :
      (x : Result LoadResult × ContractManager) (e : Failure) (m : ContractManager)
      → x.0 ≡ err e
      → loaded_manager x ≡ ok m
      → ⊥
  loaded_manager-err (ok r, n) e m f h = cc f
  loaded_manager-err (err g, n) e m f h = cc h

  loaded_manager-ok :
      (x : Result LoadResult × ContractManager) (r : LoadResult) (m : ContractManager)
      → x.0 ≡ ok r
      → loaded_manager x ≡ ok m
      → x.1 ≡ m
  loaded_manager-ok (ok q, n) r m f h = same n m h
  loaded_manager-ok (err g, n) r m f h = cc f

  module _ (parents : HasParents files) where
    loaded-Managed :
        (root : ContractRoot) (m : ContractManager)
        → loaded_manager (
            load_openapi_contract files codec now
              (record { active = none; contract_root = root })
              (startup_command (getenv env_openapi_file))
              false)
          ≡ ok m
        → Managed root m
    unfolding load has_response_rule
    loaded-Managed root m h =
        let ends =
          load-LoadEnds files codec parents now (rooted root)
            (startup_command (getenv env_openapi_file)) in
        elim (ends.1) [
          | inl (e, failed, unchanged) ↦ absurd (loaded_manager-err _ e m failed h)
          | inr (r, succeeded, activated) ↦
              activated-Managed root r m (rw⁻¹ (loaded_manager-ok _ r m succeeded h) activated)
        ]

    startup-Managed :
        (root : ContractRoot) (m : ContractManager)
        → load_startup_contract files codec now getenv
            (record { active = none; contract_root = root })
          ≡ ok m
        → Managed root m
    unfolding load_startup_contract
    startup-Managed root m = elim (Bool-cases (getenv env_openapi_file == "")) [
      | inl e ↦ rw (e) (λ h.
          inl ((eq_iff (getenv env_openapi_file) "").0 e, ap (λ x. x.active) (sym (same _ m h))))
      | inr e ↦ rw (e) (loaded-Managed root m)
    ]

    -- The manager is that of the root of the environment.
    manager-Managed :
        (m : ContractManager)
        → load_contract_manager_from_environment files codec now getenv ≡ ok m
        → (root : ContractRoot) × (new_contract_root files
              (getenv env_contract_root)
              env_contract_root
            ≡ ok root)
          × Managed root m
    unfolding load_contract_manager_from_environment new_contract_manager_with_contract_root
    manager-Managed m h =
        let made = bind-ok _ _ m h in
        let rooted_at = bind-ok _ _ made.0 made.1 in
        (
          rooted_at.0,
          rooted_at.1,
          startup-Managed rooted_at.0 m
              (ap (load_startup_contract files codec now getenv) (same _ _ rooted_at.2) ∙ made.2),
        )

-- What a process that started has: the plane has an empty store, no further validator and the sender
-- of the environment's endpoint; the root is that of the environment; and a contract is active, in
-- strict mode and loaded from below that root, unless the environment names no file.
pub record IsStarted (files : Files) (codec : Codec) (parse : String → Result Url) (client : Client)
    (now : Time) (getenv : String → String) (s : Servers) : Type 0 where
  pub store : s.control_plane.store ≡ new_store
  pub validator : s.control_plane.validator ≡ none
  pub sender : load_webhook_sender parse client getenv ≡ ok s.control_plane.webhook_sender
  pub root : ContractRoot
  pub rooted_at : new_contract_root files (getenv env_contract_root) env_contract_root ≡ ok root
  pub managed : Managed files codec now getenv root s.control_plane.contract_manager

-- If the process starts (and absolute paths have shorter parents), then its plane has an empty store,
-- no further validator and the sender of the endpoint that the environment registers, if any; the
-- contract root is the one that the environment names, or the working directory; and either
-- ECHO_MCP_OPENAPI_FILE is empty and no contract is active, or the contract of that file, which
-- lies below the root, is active in strict mode.
pub start-IsStarted :
    (files : Files) (codec : Codec) (parse : String → Result Url) (client : Client) (now : Time)
    (getenv : String → String) (parents : HasParents files) (s : Servers)
    → start files codec parse client now getenv ≡ ok s
    → IsStarted files codec parse client now getenv s
unfolding start new_with_contract_manager_and_validator
start-IsStarted files codec parse client now getenv parents s h =
    let managed = bind-ok _ _ s h in
    let sending = bind-ok _ _ s managed.2 in
    let made = same files codec now getenv _ s sending.2 in
    let found = manager-Managed files codec now getenv parents managed.0 managed.1 in
    record {
      store = sym (ap (λ x. x.control_plane.store) made);
      validator = sym (ap (λ x. x.control_plane.validator) made);
      sender = sending.1 ∙ ap (λ x. ok x.control_plane.webhook_sender) made;
      root = found.0;
      rooted_at = found.1;
      managed = rw⁻¹ (ap (λ x. x.control_plane.contract_manager) made) found.2;
    }

-- If the process starts with a file named by ECHO_MCP_OPENAPI_FILE (and absolute paths have shorter
-- parents), then, in every interleaving of tool calls and requests of which none loads a contract or
-- overrides the validation but by strict, while a contract is active at all it is the one of that
-- file, in strict mode, and a request is only answered by a rule that this contract accepts, where
-- every document that can be loaded bounds its schemas and references.
pub start-IsAccepted :
    (files : Files) (codec : Codec) (parse : String → Result Url) (client : Client) (now : Time)
    (getenv : String → String) (parents : HasParents files) (s : Servers) (hs : List Happening)
    (b : ActiveContract)
    → getenv env_openapi_file ≢ ""
    → start files codec parse client now getenv ≡ ok s
    → ((path source_path : String) (c : OpenApiContract)
        → IsLoaded codec files.read_file path source_path c
        → IsFuelled codec c)
    → All IsUnloaded hs
    → (run files codec (idle s.control_plane) hs).plane.contract_manager.active ≡ some b
    → (method path : String) (rule : ResponseRule)
    → match_response_rule (run files codec (idle s.control_plane) hs).plane.store method path
      ≡ some rule
    → (root : ContractRoot) × (new_contract_root files (getenv env_contract_root) env_contract_root
        ≡ ok root)
      × (c : IsStartupContract files codec now getenv root s.control_plane.contract_manager) × (c.a
          ≡ b)
      × IsAccepted codec b.openapi rule
start-IsAccepted files codec parse client now getenv parents s hs b named h fuelled calm last method
      path rule m =
    let started = start-IsStarted files codec parse client now getenv parents s h in
    elim started.managed [
      | inl (unnamed, inactive) ↦ absurd (named unnamed)
      | inr c ↦
          let same_a = some-injective c.activated.a c.a (sym c.activated.active ∙ c.active) in
          let bounds =
            subst (λ x. IsFuelled codec x.openapi) same_a
              (fuelled c.activated.resolved.read_path c.activated.resolved.source_path
                c.activated.a.openapi c.activated.read) in
          let kept =
            run-IsAccepted files codec s.control_plane c.a b hs
              (ap (λ t. t.response_rule) started.store) c.active c.strict calm last bounds method
              path rule m in
          (
            started.root,
            started.rooted_at,
            c,
            kept.0,
            subst (λ x. IsAccepted codec x.openapi rule) kept.0 kept.1,
          )
    ]
