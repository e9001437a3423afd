-- ===== src/Webhook.antt =====
-- internal/webhook/endpoints.go and sender.go: the registered endpoint and the delivery of one event.
-- The URL parser, the JSON encoder and the HTTP client are parameters.
pub mod Registration
pub mod Attempt
use echo_mcp.Prelude.{
  String, Bool, not, ◌&&◌, ◌||◌, Option, none, some, List, ◌==◌, ◌+s◌, ℤ, pos, trim_space, quote,
  if◌then◌else◌, is_some,
}
use echo_mcp.Failure.{Failure, plain, Result, ok, err, error_text, ◌>>=◌, ◌>>◌}
use echo_mcp.Json.{Json, Fields}

abbrev pub env_endpoint_name : String
env_endpoint_name = "ECHO_MCP_WEBHOOK_ENDPOINT_NAME"

abbrev pub env_endpoint_address : String
env_endpoint_address = "ECHO_MCP_WEBHOOK_ENDPOINT_ADDRESS"

pub record Endpoint : Type 0 where
  pub name : String
  pub address : String

-- `*Endpoints`; the nil pointer is `none`.
abbrev pub Endpoints : Type 0
Endpoints = Option Endpoint

-- The two fields of a parsed URL that the program reads.
pub record Url : Type 0 where
  pub scheme : String
  pub host : String

validate_url : Result Url → Result (Unit {0})
validate_url (err e) =
    err (plain ("parse configured application webhook endpoint: " +s error_text e))
validate_url (ok parsed) =
    if not (parsed.scheme == "http") && not (parsed.scheme == "https")
    then err (plain "configured application webhook endpoint must use http or https")
    else if parsed.host == ""
    then err (plain "configured application webhook endpoint must include a host")
    else ok tt

-- `parse` is url.Parse.
unfoldable pub validate_endpoint_address : (String → Result Url) → String → Result (Unit {0})
unfolding validate_url
validate_endpoint_address parse address = validate_url (parse address)

unfoldable pub register : (String → Result Url) → String → String → Result Endpoints
unfolding validate_endpoint_address
register parse name address =
    if name == "" && address == ""
    then ok none
    else if name == "" || address == ""
    then err (
        plain (
          env_endpoint_name +s " and " +s env_endpoint_address
          +s " must both be set to register a webhook endpoint"))
    else do
      validate_endpoint_address parse address
      ok (some (record { name = name; address = address }))

unfoldable pub load_endpoint_from_environment :
    (String → Result Url) → (String → String) → Result Endpoints
unfolding register
load_endpoint_from_environment parse getenv =
    register parse (trim_space (getenv env_endpoint_name))
      (trim_space (getenv env_endpoint_address))

unfoldable pub resolve : Endpoints → String → Option Endpoint
resolve none name = none
resolve (some endpoint) name = if not (endpoint.name == name) then none else some endpoint

abbrev pub outcome_response_received : String
outcome_response_received = "response_received"

abbrev pub outcome_transport_error : String
outcome_transport_error = "transport_error"

-- A nil body map is `none`.
pub record Event : Type 0 where
  pub event_id : String
  pub endpoint_name : String
  pub body : Option Fields

pub record Delivery : Type 0 where
  pub event_id : String
  pub endpoint_name : String
  pub method : String
  pub outcome : String
  pub status_code : ℤ
  pub error : String

-- What one exchange with the endpoint does: the client's Do fails, or a response arrives, whose body
-- is read to its end and closed, each of which may fail.
pub data Exchange : Type 0 where
  failed : String → Exchange
  responded : (status : ℤ) (read_error close_error : Option String) → Exchange

-- json.Marshal, http.NewRequestWithContext (its error) and the client's exchange, by the address and
-- the payload.
pub record Client : Type 0 where
  pub marshal : Json → Result String
  pub new_request : String → String → Result (Unit {0})
  pub exchange : String → String → Exchange

-- The delivery before the exchange.
abbrev pub prepared : Event → Endpoint → Delivery
prepared event endpoint = record {
  event_id = event.event_id;
  endpoint_name = endpoint.name;
  method = "POST";
  outcome = "";
  status_code = pos 0;
  error = "";
}

abbrev pub failed_delivery : Delivery → String → Delivery
failed_delivery delivery error = record delivery {
  outcome = outcome_transport_error;
  error = error;
}

-- The end of Send, from client.Do on.
unfoldable pub deliver : Delivery → Exchange → Delivery
deliver delivery (failed error) = failed_delivery delivery error
deliver delivery (responded status (some error) none) = failed_delivery delivery error
deliver delivery (responded status (some error) (some close_error)) =
    failed_delivery delivery (error +s "; " +s close_error)
deliver delivery (responded status none (some error)) = failed_delivery delivery error
deliver delivery (responded status none none) = record delivery {
  outcome = outcome_response_received;
  status_code = status;
}

abbrev prefixed : String → Failure → Failure
prefixed prefix e = plain (prefix +s error_text e)

abbrev wrap {ℓ} : {A : Type ℓ} → String → Result A → Result A
wrap prefix (ok a) = ok a
wrap prefix (err e) = err (prefixed prefix e)

-- From the encoded payload on.
unfoldable pub attempt : Client → Event → Endpoint → Fields → Result Delivery
unfolding deliver
attempt client event endpoint body = do
  payload ← wrap "encode request.body as JSON: " (client.marshal (Json.object body))
  wrap "create webhook delivery request: " (client.new_request endpoint.address payload)
  ok (deliver (prepared event endpoint) (client.exchange endpoint.address payload))

send_to : Client → Event → Option Endpoint → Fields → Result Delivery
send_to client event none body =
    err (plain ("unknown application webhook endpoint " +s quote event.endpoint_name))
send_to client event (some endpoint) body = attempt client event endpoint body

send_body : Client → Endpoints → Event → Option Fields → Result Delivery
send_body client endpoints event none = err (plain "request.body is required")
send_body client endpoints event (some body) =
    send_to client event (resolve endpoints event.endpoint_name) body

-- Send; a sender that is nil or has no endpoints is `none`.
unfoldable pub send : Client → Endpoints → Event → Result Delivery
unfolding send_to send_body resolve attempt
send client none event = err (plain "no application webhook endpoint is configured")
send client (some endpoint) event =
    if trim_space event.event_id == ""
    then err (plain "event_id is required")
    else if trim_space event.endpoint_name == ""
    then err (plain "endpoint_name is required")
    else send_body client (some endpoint) event event.body
