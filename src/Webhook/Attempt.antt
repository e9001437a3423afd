-- ===== src/Webhook/Attempt.antt =====
-- internal/webhook/sender.go: which events are sent, and what a delivery says of its exchange.
use mathlib.Core.Path.{subst}
use echo_mcp.Prelude.{
  ◌+s◌, sym, String, ◌≡◌, ◌≢◌, refl, ◌⊎◌, inl, inr, ◌↔◌, none, some, eq_iff, ℤ, pos, trim_space,
  arith, Option-cases,
}
use echo_mcp.Failure.{ok, Result-cases}
use echo_mcp.Json.{Json, Fields}
use echo_mcp.Webhook.{
  Endpoint, Endpoints, Event, Delivery, Client, Exchange, failed, responded, prepared, deliver,
  attempt, resolve, send, outcome_response_received, outcome_transport_error,
}

-- A response that was read to its end and closed.
abbrev pub IsComplete : Exchange → ℤ → Type 0
IsComplete exchange status = exchange ≡ responded status none none

-- Why there was no such response: the exchange failed, or a response was received whose body could
-- not be read to its end, or not be closed, or neither.
abbrev pub IsFault : Exchange → String → Type 0
IsFault exchange error =
    (exchange ≡ failed error)
    ⊎ ((status : ℤ) × ((exchange ≡ responded status (some error) none)
          ⊎ (exchange ≡ responded status none (some error))
          ⊎ ((read_error : String) × (close_error : String) × (exchange
                ≡ responded status (some read_error) (some close_error))
              × (error ≡ read_error +s "; " +s close_error))))

-- What a delivery tells of the exchange.
abbrev pub Reports : Delivery → Exchange → Type 0
Reports d exchange =
    ((status : ℤ) × IsComplete exchange status
      × (d.outcome ≡ outcome_response_received)
      × (d.status_code ≡ status)
      × (d.error ≡ ""))
    ⊎ (((status : ℤ) → ¬ IsComplete exchange status)
        × (d.outcome ≡ outcome_transport_error)
        × (d.status_code ≡ pos 0)
        × IsFault exchange d.error)

deliver-Reports :
    (event : Event) (endpoint : Endpoint) (exchange : Exchange)
    → Reports (deliver (prepared event endpoint) exchange) exchange
unfolding deliver
deliver-Reports event endpoint (failed error) = inr (λ s h. cc h, refl, refl, inl refl)
deliver-Reports event endpoint (responded status (some e) none) =
    inr (λ s h. cc h, refl, refl, inr (status, inl refl))
deliver-Reports event endpoint (responded status (some e) (some f)) =
    inr (λ s h. cc h, refl, refl, inr (status, inr (inr (e, f, refl, refl))))
deliver-Reports event endpoint (responded status none (some f)) =
    inr (λ s h. cc h, refl, refl, inr (status, inr (inl refl)))
deliver-Reports event endpoint (responded status none none) = inl (status, refl, refl, refl, refl)

-- Why an event was sent, and what came of it.
pub record IsSent (client : Client) (endpoints : Endpoints) (event : Event) (d : Delivery)
    : Type 0 where
  pub endpoint : Endpoint
  pub body : Fields
  pub payload : String
  pub registered : endpoints ≡ some endpoint
  pub named : endpoint.name ≡ event.endpoint_name
  pub has_id : trim_space event.event_id ≢ ""
  pub has_endpoint : trim_space event.endpoint_name ≢ ""
  pub has_body : event.body ≡ some body
  pub encoded : client.marshal (Json.object body) ≡ ok payload
  pub created : client.new_request endpoint.address payload ≡ ok tt
  pub result : d ≡ deliver (prepared event endpoint) (client.exchange endpoint.address payload)

attempt_sound :
    (client : Client) (event : Event) (endpoint : Endpoint) (body : Fields) (d : Delivery)
    → attempt client event endpoint body ≡ ok d
    → (payload : String) × (client.marshal (Json.object body) ≡ ok payload)
      × (client.new_request endpoint.address payload ≡ ok tt)
      × (d ≡ deliver (prepared event endpoint) (client.exchange endpoint.address payload))
unfolding attempt
attempt_sound client event endpoint body d h =
    elim (Result-cases (client.marshal (Json.object body))) [
      | inr (e, bad) ↦ absurd (ground (arith, bad))
      | inl (payload, encoded) ↦ elim (Result-cases (client.new_request endpoint.address payload)) [
        | inr (e, bad) ↦ absurd (ground (arith, bad))
        | inl (_, created) ↦ (payload, encoded, created, ground (arith, created))
      ]
    ]

send_checks :
    (client : Client) (endpoint : Endpoint) (event : Event) (d : Delivery)
    → send client (some endpoint) event ≡ ok d
    → (body : Fields) × (endpoint.name ≡ event.endpoint_name)
      × (trim_space event.event_id ≢ "")
      × (trim_space event.endpoint_name ≢ "")
      × (event.body ≡ some body)
      × (attempt client event endpoint body ≡ ok d)
unfolding send resolve
send_checks client endpoint event d h = elim (Option-cases event.body) [
  | inl missing ↦ absurd (ground arith)
  | inr (body, present) ↦ (
    body,
    ground (arith, eq_iff endpoint.name event.endpoint_name),
    ground (arith, eq_iff (trim_space event.event_id) ""),
    ground (arith, eq_iff (trim_space event.endpoint_name) ""),
    present,
    ground arith,
  )
]

send_complete :
    (client : Client) (endpoints : Endpoints) (event : Event) (d : Delivery)
    → IsSent client endpoints event d
    → send client endpoints event ≡ ok d
unfolding send resolve attempt
send_complete client endpoints event d s = ground (
  arith,
  s.registered,
  s.encoded,
  s.created,
  s.result,
  s.has_body,
  eq_iff s.endpoint.name event.endpoint_name,
  eq_iff (trim_space event.event_id) "",
  eq_iff (trim_space event.endpoint_name) "",
)

send_sound :
    (client : Client) (endpoints : Endpoints) (event : Event) (d : Delivery)
    → send client endpoints event ≡ ok d
    → IsSent client endpoints event d
send_sound client none event d h = absurd (unfold send in ground arith)
send_sound client (some endpoint) event d h =
    let (body, named, has_id, has_endpoint, has_body, tried) =
      send_checks client endpoint event d h in
    let (payload, encoded, created, result) = attempt_sound client event endpoint body d tried in
    record {
      endpoint = endpoint;
      body = body;
      payload = payload;
      registered = refl;
      named = named;
      has_id = has_id;
      has_endpoint = has_endpoint;
      has_body = has_body;
      encoded = encoded;
      created = created;
      result = result;
    }

-- An event is sent exactly when an endpoint is registered under the event's endpoint name, neither
-- the event id nor that name is blank, there is a body that encodes, and the request can be built;
-- the delivery is then that of one exchange of the registered address and the encoded body.
pub send_iff :
    (client : Client) (endpoints : Endpoints) (event : Event) (d : Delivery)
    → (send client endpoints event ≡ ok d) ↔ IsSent client endpoints event d
send_iff client endpoints event d =
    (send_sound client endpoints event d, send_complete client endpoints event d)

-- A delivery is of its event, to its endpoint, by POST.
abbrev pub IsOf : Delivery → Event → Endpoint → Type 0
IsOf d event endpoint =
    (d.event_id ≡ event.event_id) × (d.endpoint_name ≡ endpoint.name) × (d.method ≡ "POST")

deliver-IsOf :
    (event : Event) (endpoint : Endpoint) (exchange : Exchange)
    → IsOf (deliver (prepared event endpoint) exchange) event endpoint
unfolding deliver
deliver-IsOf event endpoint (failed error) = (refl, refl, refl)
deliver-IsOf event endpoint (responded status (some e) none) = (refl, refl, refl)
deliver-IsOf event endpoint (responded status (some e) (some f)) = (refl, refl, refl)
deliver-IsOf event endpoint (responded status none (some f)) = (refl, refl, refl)
deliver-IsOf event endpoint (responded status none none) = (refl, refl, refl)

-- The delivery of a sent event names the event, the registered endpoint and POST, and it reports
-- the exchange of that endpoint's address and the encoded body: the outcome is response_received,
-- with the endpoint's status and no error, exactly if the response was read to its end and closed;
-- else, also where a response was received, it is transport_error, with status 0 and with the errors
-- of the exchange, of reading the body and of closing it.
pub send-Reports :
    (client : Client) (endpoints : Endpoints) (event : Event) (d : Delivery)
    → send client endpoints event ≡ ok d
    → (s : IsSent client endpoints event d) × IsOf d event s.endpoint
      × Reports d (client.exchange s.endpoint.address s.payload)
send-Reports client endpoints event d h =
    let s = send_sound client endpoints event d h in
    let exchange = client.exchange s.endpoint.address s.payload in
    (
      s,
      subst (λ x. IsOf x event s.endpoint) (sym s.result) (deliver-IsOf event s.endpoint exchange),
      subst (λ x. Reports x exchange) (sym s.result) (deliver-Reports event s.endpoint exchange),
    )
