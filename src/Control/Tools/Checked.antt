-- ===== src/Control/Tools/Checked.antt =====
-- internal/control/mcp_server.go: which inputs the tools' checks let through.
use echo_mcp.Prelude.{
  ◌≤◌, String, ◌≡◌, ◌≢◌, refl, ◌↔◌, inl, inr, Bool, true, false, not, ◌||◌, ◌==◌, arith, eq_iff, ℤ,
  pos, negsuc, int_lt, int_gt, trim_space, if◌then◌else◌, Bool-cases,
}
use echo_mcp.Failure.{Failure, Result, ok, err}
use echo_mcp.Control.Tools.Inputs.{
  ConfigureBehaviorInput, outcome_http_response, validate_configure_behavior,
}

-- A guard of an early return.
pub guard-ok :
    (b : Bool) (e : Failure) (r : Result (Unit {0}))
    → (if b then err e else r) ≡ ok tt ↔ ((b ≡ false) × (r ≡ ok tt))
guard-ok true e r = (λ h. cc h, λ h. cc h.0)
guard-ok false e r = (λ h. (refl, h), λ h. h.1)

pub eq-false : (s t : String) → (s == t) ≡ false ↔ s ≢ t
eq-false s t = elim (Bool-cases (s == t)) [
  | inl e ↦ (λ h. cc (e, h), λ n. absurd (n ((eq_iff s t).0 e)))
  | inr e ↦ (λ _ k. cc (e, (eq_iff s t).1 k), λ _. e)
]

negated : (b : Bool) → not b ≡ false ↔ b ≡ true
negated true = (λ _. refl, λ _. refl)
negated false = (λ h. cc h, λ h. cc h)

not-false : (s t : String) → not (s == t) ≡ false ↔ s ≡ t
not-false s t =
    (λ h. (eq_iff s t).0 ((negated (s == t)).0 h), λ e. (negated (s == t)).1 ((eq_iff s t).1 e))

-- The status codes that a rule of the tools can have.
abbrev pub IsStatus : ℤ → Type 0
IsStatus (pos n) = (100 ≤ n) × (n ≤ 999)
IsStatus (negsuc n) = ⊥

IsStatus-false : (z : ℤ) → (int_lt z 100 || int_gt z 999) ≡ false ↔ IsStatus z
IsStatus-false (pos n) = (λ h. (ground (arith, h), ground (arith, h)), λ h. ground (arith, h))
IsStatus-false (negsuc n) = (λ h. cc h, λ h. absurd h)

-- An input that is complete.
pub record IsComplete (input : ConfigureBehaviorInput) : Type 0 where
  pub id_given : trim_space input.behavior_id ≢ ""
  pub method_given : trim_space input.method ≢ ""
  pub path_given : trim_space input.path ≢ ""
  pub outcome : input.outcome_type ≡ outcome_http_response
  pub status : IsStatus input.status_code

-- The check of configure_behavior passes exactly the inputs with an identifier, a method and a path that
-- are not blank, the outcome type http_response, and a status code from 100 to 999.
pub validate_configure_behavior_iff :
    (input : ConfigureBehaviorInput) → validate_configure_behavior input ≡ ok tt ↔ IsComplete input
unfolding validate_configure_behavior
validate_configure_behavior_iff input = (
  λ h.
      let one = (guard-ok _ _ _).0 h in
      let two = (guard-ok _ _ _).0 one.1 in
      let three = (guard-ok _ _ _).0 two.1 in
      let four = (guard-ok _ _ _).0 three.1 in
      let five = (guard-ok _ _ _).0 four.1 in
      record {
        id_given = (eq-false _ _).0 one.0;
        method_given = (eq-false _ _).0 two.0;
        path_given = (eq-false _ _).0 three.0;
        outcome = (not-false _ _).0 four.0;
        status = (IsStatus-false input.status_code).0 five.0;
      },
  λ c. (guard-ok _ _ _).1 (
    (eq-false _ _).1 c.id_given,
    (guard-ok _ _ _).1 (
      (eq-false _ _).1 c.method_given,
      (guard-ok _ _ _).1 (
        (eq-false _ _).1 c.path_given,
        (guard-ok _ _ _).1 (
          (not-false _ _).1 c.outcome,
          (guard-ok _ _ _).1 ((IsStatus-false input.status_code).1 c.status, refl),
        ),
      ),
    ),
  ),
)
