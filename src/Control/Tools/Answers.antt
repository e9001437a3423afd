-- ===== src/Control/Tools/Answers.antt =====
-- internal/control/mcp_server.go and control.go: what configure_behavior reports and what it leaves.
use echo_mcp.Prelude.{
  String, ◌≡◌, refl, ap, ◌∙◌, ◌⊎◌, inl, inr, Bool, false, not, List, [], ◌∷◌, ◌++◌, is_some,
  if◌then◌else◌, Bool-cases,
}
use echo_mcp.Failure.{Failure, Result, ok, err, is_ok, Result-cases}
use echo_mcp.State.{Store, configure_response_rule as store_rule}
use echo_mcp.Contract.Document.{Codec}
use echo_mcp.Control.Files.{Files}
use echo_mcp.Control.Manager.{BehaviorValidationOverride}
use echo_mcp.Control.Status.{ContractStatus}
use echo_mcp.Control.Plane.{
  LocalPlane, validated, store_if_valid, configure_response_rule_with_validation, contract_status,
  contract_validation_active,
}
use echo_mcp.Control.Plane.Looks.{
  IsSameState, IsSameState-trans, contract_status-IsSameState, contract_status-active,
}
use echo_mcp.Control.Tools.Inputs.{
  ConfigureBehaviorInput, rule_of, validate_configure_behavior,
  configure_behavior_validation_override,
}
use echo_mcp.Control.Tools.Errors.{ToolError, tool_error_from_error}
use echo_mcp.Control.Tools.Outputs.{ConfigureBehaviorOutput, apply_validation_disclosure}
use echo_mcp.Control.Tools.Guidance.{
  manual_mock_warning, configure_behavior_warnings, configure_behavior_guidance,
}
use echo_mcp.Control.Tools.Handlers.{ToolAnswer, report_configured, configure_behavior}

-- The disclosure adds the capabilities exactly for an active contract, and changes no other field of
-- the error and the warnings.
record IsDisclosed (o d : ConfigureBehaviorOutput) (active : Bool) : Type 0 where
  configured : d.configured ≡ o.configured
  warnings : d.warnings ≡ o.warnings
  error :
      Path ToolError
        (record { error = d.error; code = d.code; diagnostics = d.diagnostics })
        (record { error = o.error; code = o.code; diagnostics = o.diagnostics })
  capabilities : is_some d.validation_capabilities ≡ active

disclosure-IsDisclosed :
    (o : ConfigureBehaviorOutput) (s : ContractStatus)
    → is_some o.validation_capabilities ≡ false
    → IsDisclosed o (apply_validation_disclosure o s) s.active
unfolding apply_validation_disclosure
disclosure-IsDisclosed o s e = elim (Bool-cases s.active) [
  | inl h ↦
      rw (h) (record { configured = refl; warnings = refl; error = refl; capabilities = refl })
  | inr h ↦ rw (h) (record { configured = refl; warnings = refl; error = refl; capabilities = e })
]

module _ (files : Files) (p : LocalPlane) where
  warnings-given :
      (configure_behavior_warnings files p).0
      ≡ (if is_some p.contract_manager.active then [] else manual_mock_warning ∷ [])
  unfolding configure_behavior_warnings
  warnings-given = rw (contract_status-active files p) refl

  warnings-IsSameState : IsSameState p (configure_behavior_warnings files p).1
  unfolding configure_behavior_warnings
  warnings-IsSameState = contract_status-IsSameState files p

  guidance-IsSameState : IsSameState p (configure_behavior_guidance files p).1
  unfolding configure_behavior_guidance contract_validation_active
  guidance-IsSameState =
      let one = contract_status-IsSameState files p in
      let two = contract_status-IsSameState files (contract_status files p).1 in
      elim (Bool-cases (contract_validation_active files p).0) [
        | inl e ↦ rw (e) one
        | inr e ↦ rw (e) (IsSameState-trans p _ _ one two)
      ]

-- The planes after the warnings, the guidance and the last status: what the reports look at.
reports-IsSameState :
    (files : Files) (p : LocalPlane)
    → IsSameState p (configure_behavior_guidance files (configure_behavior_warnings files p).1).1
reports-IsSameState files p =
    IsSameState-trans p _ _ (warnings-IsSameState files p)
      (guidance-IsSameState files (configure_behavior_warnings files p).1)

module _ (files : Files) (codec : Codec) (p : LocalPlane) (input : ConfigureBehaviorInput) where
  abbrev override : BehaviorValidationOverride
  override = configure_behavior_validation_override input.validation_mode input.validation_reason

  abbrev pub judged : Result (List String)
  judged = validated codec p (rule_of input) override

  abbrev store_after : Result (List String) → Store
  store_after (ok warnings) = store_rule p.store (rule_of input)
  store_after (err e) = p.store

  -- What the output tells: the error, or the warnings.
  abbrev Tells : Result (List String) → ConfigureBehaviorOutput → Type 0
  Tells (err e) o =
      Path ToolError (record { error = o.error; code = o.code; diagnostics = o.diagnostics })
        (tool_error_from_error e)
  Tells (ok warnings) o =
      o.warnings
      ≡ warnings ++ (if is_some p.contract_manager.active then [] else manual_mock_warning ∷ [])

  -- What the tool answers and leaves, by what the two validations say of the rule.
  pub record IsReported (r : Result (List String)) (a : ToolAnswer ConfigureBehaviorOutput)
      (q : LocalPlane) : Type 0 where
    pub stored : q.store ≡ store_after r
    pub active : q.contract_manager.active ≡ p.contract_manager.active
    pub configured : a.output.configured ≡ is_ok r
    pub marked : a.is_error ≡ not (is_ok r)
    pub tells : Tells r a.output
    pub disclosed : is_some a.output.validation_capabilities ≡ is_some p.contract_manager.active

  report-IsReported :
      (r : Result (List String))
      → (a : ToolAnswer ConfigureBehaviorOutput) × ((report_configured files input.behavior_id
            (store_if_valid p (rule_of input) r)).0
          ≡ ok a)
        × IsReported r a
            (report_configured files input.behavior_id (store_if_valid p (rule_of input) r)).1
  unfolding report_configured store_if_valid
  report-IsReported (err e) =
      let d = disclosure-IsDisclosed _ (contract_status files p).0 refl in
      let same = contract_status-IsSameState files p in
      (
        _,
        refl,
        record {
          stored = same.store;
          active = same.active;
          configured = d.configured;
          marked = refl;
          tells = d.error;
          disclosed = d.capabilities ∙ contract_status-active files p;
        },
      )
  report-IsReported (ok warnings) =
      let kept = record p { store = store_rule p.store (rule_of input) } in
      let seen = reports-IsSameState files kept in
      let last = (configure_behavior_guidance files (configure_behavior_warnings files kept).1).1 in
      let same = IsSameState-trans kept _ _ seen (contract_status-IsSameState files last) in
      let d = disclosure-IsDisclosed _ (contract_status files last).0 refl in
      (
        _,
        refl,
        record {
          stored = same.store;
          active = same.active;
          configured = d.configured;
          marked = refl;
          tells = d.warnings ∙ ap (λ w. warnings ++ w) (warnings-given files kept);
          disclosed = d.capabilities ∙ contract_status-active files last ∙ ap is_some seen.active;
        },
      )

  -- The two ways in which the tool ends.
  abbrev pub Answered : Type 0
  Answered =
      ((e : Failure) × (validate_configure_behavior input ≡ err e)
        × (configure_behavior files codec p input ≡ (err e, p)))
      ⊎ ((a : ToolAnswer ConfigureBehaviorOutput) × (validate_configure_behavior input ≡ ok tt)
          × ((configure_behavior files codec p input).0 ≡ ok a)
          × IsReported judged a (configure_behavior files codec p input).1)

  invalid :
      (e : Failure)
      → validate_configure_behavior input ≡ err e
      → configure_behavior files codec p input ≡ (err e, p)
  unfolding configure_behavior
  invalid e h = rw (h) refl

  valid :
      validate_configure_behavior input ≡ ok tt
      → configure_behavior files codec p input
        ≡ report_configured files input.behavior_id (store_if_valid p (rule_of input) judged)
  unfolding configure_behavior configure_response_rule_with_validation
  valid h = rw (h) refl

-- configure_behavior answers an invalid input with a protocol error and leaves the plane as it was.
-- Any other input is answered with an output: it is configured exactly if the active contract and
-- the further validator pass the rule, and is marked as an error exactly if not. The rule is stored
-- in the first case, and the store is unchanged in the second, in which the output has the error of
-- the validation. A stored rule has the validation's warnings and, exactly if no contract is
-- active, the warning of a manual mock. In both cases the capabilities are disclosed exactly if a
-- contract is active, which remains the one that it was.
pub configure_behavior-Answered :
    (files : Files) (codec : Codec) (p : LocalPlane) (input : ConfigureBehaviorInput)
    → Answered files codec p input
configure_behavior-Answered files codec p input =
    elim (Result-cases (validate_configure_behavior input)) [
      | inr (e, h) ↦ inl (e, h, invalid files codec p input e h)
      | inl (tt, h) ↦
          let r = report-IsReported files codec p input (judged files codec p input) in
          inr (
            r.0,
            h,
            ap (λ x. x.0) (valid files codec p input h) ∙ r.1,
            rw (valid files codec p input h) r.2,
          )
    ]
