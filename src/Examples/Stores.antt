-- ===== src/Examples/Stores.antt =====
-- internal/state and internal/httpserver: a store with one rule.
use echo_mcp.Prelude.{◌≡◌, ◌≢◌, refl, true, some, List, [], ◌∷◌, ℤ, pos}
use echo_mcp.State.{ResponseRule, Store, new, record_observation}
use echo_mcp.State.History.{Call, reset_call, configure, observe, run, specified, run-eq-specified}
use echo_mcp.HttpServer.{handle_data_plane, observation_for}
use echo_mcp.HttpServer.Wire.{
  wire_status, is_informational, IsMatched, Answered, handle_data_plane-Answered,
  observation-ne-wire_status,
}

abbrev rule : ℤ → ResponseRule
rule status_code = record {
  id = "health";
  method = "GET";
  path = "/health";
  status_code = status_code;
  content_type = "text/plain";
  body = "up";
}

abbrev store : ℤ → Store
store status_code = record new { response_rule = some (rule status_code) }

handle_data_plane-Answered_example :
    Answered
      (store (pos 200))
      "GET"
      "/health"
      (handle_data_plane (store (pos 200)) "GET" "/health").0
      (handle_data_plane (store (pos 200)) "GET" "/health").1
handle_data_plane-Answered_example = handle_data_plane-Answered (store (pos 200)) "GET" "/health"

rule-IsMatched : IsMatched (store (pos 102)) "GET" "/health" (rule (pos 102))
rule-IsMatched = record { stored = refl; same_method = refl; same_path = refl }

informational : is_informational (pos 102) ≡ true
informational = refl

observation-ne-wire_status_example :
    (wire_status (handle_data_plane (store (pos 102)) "GET" "/health").0 ≡ some (pos 200))
    × ((handle_data_plane (store (pos 102)) "GET" "/health").1
        ≡ record_observation (store (pos 102)) (observation_for "GET" "/health" (rule (pos 102))))
    × ((observation_for "GET" "/health" (rule (pos 102))).outcome_status_code ≢ pos 200)
observation-ne-wire_status_example =
    observation-ne-wire_status (store (pos 102)) "GET" "/health" (rule (pos 102)) rule-IsMatched
      informational

abbrev calls : List Call
calls =
    configure (rule (pos 200))
    ∷ observe (observation_for "GET" "/health" (rule (pos 200)))
    ∷ reset_call
    ∷ configure (rule (pos 503))
    ∷ observe (observation_for "GET" "/health" (rule (pos 503)))
    ∷ []

run-eq-specified_example : run new calls ≡ specified calls
run-eq-specified_example = run-eq-specified calls
