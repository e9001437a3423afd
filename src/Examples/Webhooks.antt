-- ===== src/Examples/Webhooks.antt =====
-- internal/webhook: one registered endpoint.
use echo_mcp.Prelude.{String, ◌≡◌, ◌↔◌, refl, none, some, ◌==◌, trim_space, pos, if◌then◌else◌}
use echo_mcp.Failure.{Result, ok}
use echo_mcp.Json.{end, field, text}
use echo_mcp.Webhook.{
  Endpoint, Url, Event, Delivery, Client, responded, load_endpoint_from_environment,
  env_endpoint_name, send, deliver,
}
use echo_mcp.Webhook.Registration.{IsRegistered, load_endpoint_iff}
use echo_mcp.Webhook.Attempt.{IsSent, IsOf, Reports, send_iff, send-Reports}

abbrev parse : String → Result Url
parse address = ok (record { scheme = "https"; host = "app.test" })

abbrev getenv : String → String
getenv key = if key == env_endpoint_name then " app " else "https://app.test/hook"

abbrev endpoint : Endpoint
endpoint = record { name = "app"; address = "https://app.test/hook" }

load_endpoint_iff_example :
    (load_endpoint_from_environment parse getenv ≡ ok (some endpoint))
    ↔ IsRegistered parse getenv endpoint
load_endpoint_iff_example = load_endpoint_iff parse getenv endpoint

abbrev client : Client
client = record {
  marshal = λ v. ok "payload";
  new_request = λ address payload. ok tt;
  exchange = λ address payload. responded (pos 202) none none;
}

abbrev event : Event
event = record {
  event_id = "e1";
  endpoint_name = "app";
  body = some (field "kind" (text "paid") end);
}

abbrev delivery : Delivery
delivery = record {
  event_id = "e1";
  endpoint_name = "app";
  method = "POST";
  outcome = "response_received";
  status_code = pos 202;
  error = "";
}

send_iff_example :
    (send client (some endpoint) event ≡ ok delivery) ↔ IsSent client (some endpoint) event delivery
send_iff_example = send_iff client (some endpoint) event delivery

delivered : send client (some endpoint) event ≡ ok delivery
unfolding send deliver trim_space
delivered = refl

send-Reports_example :
    (s : IsSent client (some endpoint) event delivery) × IsOf delivery event s.endpoint
    × Reports delivery (client.exchange s.endpoint.address s.payload)
send-Reports_example = send-Reports client (some endpoint) event delivery delivered
