-- ===== src/Control/Validation/Verdict.antt =====
-- internal/control/contract_manager.go: what the manager says about a rule, in each validation mode.
use echo_mcp.Prelude.{
  sym, ◌∙◌, false, eq_iff, String, ◌≡◌, ◌≢◌, refl, ◌↔◌, ◌⊎◌, inl, inr, true, not, ◌&&◌, some, List,
  [], ◌==◌, arith, trim_space, to_lower, Bool-cases,
}
use echo_mcp.Failure.{Result, ok, err, is_ok}
use echo_mcp.State.{ResponseRule}
use echo_mcp.Contract.Document.{Codec}
use echo_mcp.Contract.Rule.{validate_response_rule}
use echo_mcp.Control.Mode.{mode_strict, mode_warn, mode_off, mode_named, normalize_validation_mode}
use echo_mcp.Control.Manager.{ActiveContract, ContractManager, BehaviorValidationOverride}
use echo_mcp.Control.Validation.{
  effective_mode, skip_validation, verdict, validate_in_mode, validate_active, validate_rule,
}

-- The mode that a name stands for, in any case and with spaces around it: none stands for strict.
abbrev pub Names : String → String → Type 0
Names name mode =
    ((name ≡ "") × (mode ≡ "strict"))
    ⊎ ((name ≡ mode) × ((mode ≡ "strict") ⊎ (mode ≡ "warn") ⊎ (mode ≡ "off")))

mode_named-Names : (name mode : String) → mode_named name ≡ ok mode → Names name mode
unfolding mode_named
mode_named-Names name mode h = elim (Bool-cases (name == "")) [
  | inl e ↦ inl ((eq_iff name "").0 e, ground (arith, e, h))
  | inr e ↦ elim (Bool-cases (name == "strict")) [
    | inl f ↦
        let m : mode ≡ "strict" = ground (arith, e, f, h) in
        inr ((eq_iff name "strict").0 f ∙ sym m, inl m)
    | inr f ↦ elim (Bool-cases (name == "warn")) [
      | inl g ↦
          let m : mode ≡ "warn" = ground (arith, e, f, g, h) in
          inr ((eq_iff name "warn").0 g ∙ sym m, inr (inl m))
      | inr g ↦ elim (Bool-cases (name == "off")) [
        | inl k ↦
            let m : mode ≡ "off" = ground (arith, e, f, g, k, h) in
            inr ((eq_iff name "off").0 k ∙ sym m, inr (inr m))
        | inr k ↦ absurd (ground (arith, e, f, g, k, h))
      ]
    ]
  ]
]

Names-mode_named : (name mode : String) → Names name mode → mode_named name ≡ ok mode
unfolding mode_named
Names-mode_named name mode (inl (e, m)) = rw (e, m) refl
Names-mode_named name mode (inr (e, inl m)) = rw (e, m) refl
Names-mode_named name mode (inr (e, inr (inl m))) = rw (e, m) refl
Names-mode_named name mode (inr (e, inr (inr m))) = rw (e, m) refl

-- A text is accepted as a mode exactly if, without the spaces around it and in lower case, it is
-- empty and the mode is strict, or it is the mode, which is one of strict, warn and off.
pub normalize_validation_mode_iff :
    (given mode : String)
    → normalize_validation_mode given ≡ ok mode ↔ Names (to_lower (trim_space given)) mode
unfolding normalize_validation_mode
normalize_validation_mode_iff given mode = (mode_named-Names _ mode, Names-mode_named _ mode)

-- The mode in which a rule is judged: the override's where one is set, and the contract's otherwise.
abbrev pub IsJudgedIn : ActiveContract → BehaviorValidationOverride → String → Type 0
IsJudgedIn a override mode =
    ((override.mode_set ≡ false) × (mode ≡ a.validation_mode))
    ⊎ ((override.mode_set ≡ true) × Names (to_lower (trim_space override.mode)) mode)

effective_mode-ok :
    (a : ActiveContract) (override : BehaviorValidationOverride) (mode : String)
    → IsJudgedIn a override mode
    → effective_mode a override ≡ ok mode
unfolding effective_mode
effective_mode-ok a override mode (inl (e, m)) = rw (e, m) refl
effective_mode-ok a override mode (inr (e, m)) =
    rw (e) ((normalize_validation_mode_iff override.mode mode).1 m)

module _ (codec : Codec) (a : ActiveContract) (rule : ResponseRule)
    (override : BehaviorValidationOverride) where
  -- What the manager answers in strict, in warn and in off.
  pub record IsVerdict (mode : String) (answer : Result (List String)) : Type 0 where
    pub strict :
        mode ≡ mode_strict
        → (is_ok answer ≡ true ↔ validate_response_rule codec a.openapi rule ≡ ok tt)
    pub warn :
        mode ≡ mode_warn
        → (is_ok answer ≡ true)
          × (answer ≡ ok [] ↔ validate_response_rule codec a.openapi rule ≡ ok tt)
    pub off :
        mode ≡ mode_off
        → (answer ≢ ok [])
          × (is_ok answer ≡ not (override.mode_set && trim_space override.reason == ""))

  verdict-strict : (r : Result (Unit {0})) → is_ok (verdict mode_strict r) ≡ true ↔ r ≡ ok tt
  unfolding verdict
  verdict-strict (ok tt) = (λ _. refl, λ _. refl)
  verdict-strict (err e) = (λ k. cc k, λ k. cc k)

  verdict-warn :
      (r : Result (Unit {0}))
      → (is_ok (verdict mode_warn r) ≡ true) × (verdict mode_warn r ≡ ok [] ↔ r ≡ ok tt)
  unfolding verdict
  verdict-warn (ok tt) = (refl, (λ _. refl, λ _. refl))
  verdict-warn (err e) = (refl, (λ k. cc k, λ k. cc k))

  skip-off :
      (skip_validation override ≢ ok [])
      × (is_ok (skip_validation override)
          ≡ not (override.mode_set && trim_space override.reason == ""))
  unfolding skip_validation
  skip-off = elim (Bool-cases (override.mode_set && trim_space override.reason == "")) [
    | inl e ↦ rw (e) (λ k. cc k, refl)
    | inr e ↦ elim (Bool-cases override.mode_set) [
      | inl f ↦ rw (e, f) (λ k. cc k, refl)
      | inr f ↦ rw (f) (λ k. cc k, refl)
    ]
  ]

  in_mode-IsVerdict : (mode : String) → IsVerdict mode (validate_in_mode codec a rule override mode)
  unfolding validate_in_mode
  in_mode-IsVerdict mode = record {
    strict = λ e. rw (e) (verdict-strict (validate_response_rule codec a.openapi rule));
    warn = λ e. rw (e) (verdict-warn (validate_response_rule codec a.openapi rule));
    off = λ e. rw (e) skip-off;
  }

-- With an active contract, and judged in a mode that is the override's where one is set and the
-- contract's otherwise: in strict mode the manager passes a rule exactly when the contract accepts
-- it; in warn mode it passes every rule, and without a warning exactly those that the contract
-- accepts; in off mode it never passes one without a warning, and it passes a rule unless the mode is
-- an override with no reason.
pub validate_rule-IsVerdict :
    (codec : Codec) (m : ContractManager) (a : ActiveContract) (rule : ResponseRule)
    (override : BehaviorValidationOverride) (mode : String)
    → m.active ≡ some a
    → IsJudgedIn a override mode
    → IsVerdict codec a rule override mode (validate_rule codec m rule override)
unfolding validate_rule validate_active
validate_rule-IsVerdict codec m a rule override mode active e =
    rw (active, effective_mode-ok a override mode e) (in_mode-IsVerdict codec a rule override mode)
