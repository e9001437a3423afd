-- ===== src/HttpServer.antt =====
-- internal/httpserver/server.go: the data plane. A handler's effects on the http.ResponseWriter are
-- the list of its calls, in order. Logging is left out.
pub mod Wire
use echo_mcp.Prelude.{
  Bool, true, false, ◌&&◌, leb, negsuc, String, ◌≡◌, refl, Option, none, some, List, [], ◌∷◌, ◌++◌,
  ◌==◌, ◌+s◌, ℤ, pos, if◌then◌else◌,
}
use echo_mcp.State.{ResponseRule, Observation, Store, match_response_rule, record_observation}

pub data WriterCall : Type 0 where
  set_header : String → String → WriterCall
  write_header : ℤ → WriterCall
  write : String → WriterCall

abbrev content_type_calls : String → List WriterCall
content_type_calls content_type =
    if content_type == "" then [] else set_header "Content-Type" content_type ∷ []

-- net/http's WriteHeader panics on any other code, and the handler goes no further.
abbrev pub is_sendable : ℤ → Bool
is_sendable (pos n) = leb 100 n && leb n 999
is_sendable (negsuc n) = false

-- The calls for a rule that matches; WriteHeader is the last one if it panics.
unfoldable pub configured_calls : ResponseRule → List WriterCall
configured_calls rule =
    content_type_calls rule.content_type
    ++ write_header rule.status_code
      ∷ (if is_sendable rule.status_code then write rule.body ∷ [] else [])

-- http.Error(w, message, code)
abbrev http_error : String → ℤ → List WriterCall
http_error message code =
    set_header "Content-Type" "text/plain; charset=utf-8"
    ∷ set_header "X-Content-Type-Options" "nosniff"
    ∷ write_header code
    ∷ write (message +s "\n")
    ∷ []

abbrev pub not_implemented_calls : List WriterCall
not_implemented_calls = http_error "data-plane behavior matching is not implemented" (pos 501)

-- The observation that the handler records for a rule that matched.
abbrev pub observation_for : String → String → ResponseRule → Observation
observation_for method path rule = record {
  request_method = method;
  request_path = path;
  matched_rule_id = rule.id;
  outcome_status_code = rule.status_code;
}

-- What the store holds after the response; a panic comes before the record.
unfoldable pub record_answer : Store → String → String → ResponseRule → Store
record_answer s method path rule =
    if is_sendable rule.status_code
    then record_observation s (observation_for method path rule)
    else s

unfoldable pub respond : Store → String → String → Option ResponseRule → List WriterCall × Store
unfolding configured_calls record_answer
respond s method path none = (not_implemented_calls, s)
respond s method path (some rule) = (configured_calls rule, record_answer s method path rule)

-- The handler with no other call on the store between its match and its record.
unfoldable pub handle_data_plane : Store → String → String → List WriterCall × Store
unfolding respond
handle_data_plane s method path = respond s method path (match_response_rule s method path)
