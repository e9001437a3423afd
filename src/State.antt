-- ===== src/State.antt =====
-- internal/state/store.go: the rule, the observations and the generation that the two planes share.
-- Every method holds the store's mutex for the whole of its body, so it is one atomic function on
-- the state; what goroutines do together is a sequence of such calls (State/History).
pub mod History
pub mod Matched
use echo_mcp.Prelude.{
  ℕ, ◌+◌, ◌%◌, String, Bool, ◌||◌, not, Option, none, some, List, [], ◌∷◌, ◌++◌, ◌==◌, ℤ, is_some,
  if◌then◌else◌,
}

pub record ResponseRule : Type 0 where
  pub id : String
  pub method : String
  pub path : String
  pub status_code : ℤ
  pub content_type : String
  pub body : String

pub record Observation : Type 0 where
  pub request_method : String
  pub request_path : String
  pub matched_rule_id : String
  pub outcome_status_code : ℤ

pub record WebhookDeliveryObservation : Type 0 where
  pub event_id : String
  pub endpoint_name : String
  pub method : String
  pub outcome : String
  pub status_code : ℤ
  pub error : String

-- `none` is the nil pointer.
pub record Store : Type 0 where
  pub generation : ℕ
  pub response_rule : Option ResponseRule
  pub observations : List Observation
  pub webhook_deliveries : List WebhookDeliveryObservation

-- The modulus of the generation, a uint64.
abbrev pub uint64_mod : ℕ
uint64_mod = 18446744073709551616

abbrev pub new : Store
new = record { generation = 0; response_rule = none; observations = []; webhook_deliveries = [] }

unfoldable pub reset : Store → Store
reset s = record s {
  response_rule = none;
  observations = [];
  webhook_deliveries = [];
  generation = (s.generation + 1) % uint64_mod;
}

unfoldable pub configure_response_rule : Store → ResponseRule → Store
configure_response_rule s rule = record s { response_rule = some rule }

unfoldable pub has_response_rule : Store → Bool
has_response_rule s = is_some s.response_rule

-- The method and path tests on a rule that is there.
unfoldable pub match_rule : Option ResponseRule → String → String → Option ResponseRule
match_rule none method path = none
match_rule (some rule) method path =
    if not (rule.method == method) || not (rule.path == path) then none else some rule

-- The Boolean result is the presence of the rule.
unfoldable pub match_response_rule : Store → String → String → Option ResponseRule
unfolding match_rule
match_response_rule s method path = match_rule s.response_rule method path

unfoldable pub record_observation : Store → Observation → Store
record_observation s o = record s { observations = s.observations ++ o ∷ [] }

unfoldable pub record_webhook_delivery_observation : Store → WebhookDeliveryObservation → Store
record_webhook_delivery_observation s o = record s {
  webhook_deliveries = s.webhook_deliveries ++ o ∷ [];
}
