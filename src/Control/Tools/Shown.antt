-- ===== src/Control/Tools/Shown.antt =====
-- internal/control/mcp_server.go, control.go and internal/httpserver/server.go together: what
-- get_observations can show, in every interleaving of calls.
use mathlib.Core.Path.{subst}
use echo_mcp.Prelude.{◌≡◌, ◌≢◌, refl, sym, none, List, [], ◌∷◌, All, trim_space}
use echo_mcp.Failure.{ok}
use echo_mcp.State.{ResponseRule, Observation}
use echo_mcp.HttpServer.{observation_for}
use echo_mcp.Contract.Document.{Codec}
use echo_mcp.Control.Files.{Files}
use echo_mcp.Control.Plane.{LocalPlane}
use echo_mcp.Control.Interleaved.{idle, Happening, run}
use echo_mcp.Control.Interleaved.Observed.{IsEvidence, Configures, run-IsEvidence}
use echo_mcp.Control.Tools.Inputs.{
  ConfigureBehaviorInput, rule_of, validate_configure_behavior, outcome_http_response,
}
use echo_mcp.Control.Tools.Outputs.{ObservationOutput}
use echo_mcp.Control.Tools.Reports.{observation_output, observation_outputs}
use echo_mcp.Control.Tools.Handlers.{get_observations}
use echo_mcp.Control.Tools.Checked.{IsStatus, validate_configure_behavior_iff}

-- A rule that configure_behavior makes of an input that its check passes.
abbrev pub IsToolRule : ResponseRule → Type 0
IsToolRule rule =
    (input : ConfigureBehaviorInput) × (validate_configure_behavior input ≡ ok tt)
    × (rule_of input ≡ rule)

-- What an observation shows of a behavior.
pub record IsShown (o : ObservationOutput) : Type 0 where
  pub id_given : trim_space o.matched_behavior_id ≢ ""
  pub method_given : trim_space o.method ≢ ""
  pub path_given : trim_space o.path ≢ ""
  pub outcome : o.outcome_type ≡ outcome_http_response
  pub status : IsStatus o.status_code

rule-IsShown :
    (rule : ResponseRule)
    → IsToolRule rule
    → IsShown (observation_output (observation_for rule.method rule.path rule))
rule-IsShown rule (input, passed, made) =
    let c = (validate_configure_behavior_iff input).0 passed in
    subst (λ r. IsShown (observation_output (observation_for r.method r.path r))) made
      (record {
        id_given = c.id_given;
        method_given = c.method_given;
        path_given = c.path_given;
        outcome = refl;
        status = c.status;
      })

outputs-IsShown :
    (os : List Observation) → All (IsEvidence IsToolRule) os → All IsShown (observation_outputs os)
unfolding observation_outputs
outputs-IsShown [] h = tt
outputs-IsShown (o ∷ os) ((rule, tool, sendable, same), h) = (
  subst (λ x. IsShown (observation_output x)) (sym same) (rule-IsShown rule tool),
  outputs-IsShown os h,
)

-- However calls interleave, from a plane with no rule and no observations, if every rule that is
-- configured is made by configure_behavior of an input that its check passes, then every observation
-- that get_observations shows has an identifier, a method and a path that are not blank, the outcome
-- type http_response, and a status code from 100 to 999.
pub run-IsShown :
    (files : Files) (codec : Codec) (p : LocalPlane) (hs : List Happening)
    → p.store.response_rule ≡ none
    → p.store.observations ≡ []
    → All (Configures IsToolRule) hs
    → All IsShown (get_observations (run files codec (idle p) hs).plane).observations
unfolding get_observations
run-IsShown files codec p hs e f c =
    outputs-IsShown _ (run-IsEvidence files codec IsToolRule p hs e f c)
