-- ===== src/Control/Tools/Deliveries.antt =====
-- internal/control/mcp_server.go and control.go: what send_webhook_event reports, and what
-- get_observations shows of it.
use echo_mcp.Prelude.{
  true, ◌≢◌, ◌↔◌, trim_space, ◌≡◌, refl, ap, ◌⊎◌, inl, inr, Option, none, some, List, [], ◌∷◌, ◌++◌,
}
use echo_mcp.Failure.{Failure, Result, ok, err}
use echo_mcp.Json.{Fields}
use echo_mcp.State.{WebhookDeliveryObservation, record_webhook_delivery_observation}
use echo_mcp.Webhook.{Event, Delivery}
use echo_mcp.Control.Plane.{
  LocalPlane, delivery_observation, record_delivery, sent, send_webhook_event,
}
use echo_mcp.Control.Tools.Inputs.{
  check_body, SendWebhookEventInput, event_of, validate_send_webhook_event,
}
use echo_mcp.Control.Tools.Checked.{guard-ok, eq-false}
use echo_mcp.Control.Tools.Outputs.{SendWebhookEventOutput}
use echo_mcp.Control.Tools.Reports.{delivery_output, delivery_outputs}
use echo_mcp.Control.Tools.Handlers.{
  done, Handled, sent_output, sent_answer, send_checked, send_webhook_event_tool, get_observations,
}

delivery_outputs-append :
    (ds : List WebhookDeliveryObservation) (d : WebhookDeliveryObservation)
    → delivery_outputs (ds ++ d ∷ []) ≡ delivery_outputs ds ++ delivery_output d ∷ []
unfolding delivery_outputs
delivery_outputs-append [] d = refl
delivery_outputs-append (x ∷ ds) d = ap (λ l. delivery_output x ∷ l) (delivery_outputs-append ds d)

-- An input that is complete.
pub record IsSendable (input : SendWebhookEventInput) : Type 0 where
  pub id_given : trim_space input.event_id ≢ ""
  pub endpoint_given : trim_space input.endpoint_name ≢ ""
  pub body : Fields
  pub body_given : input.body ≡ some body

check_body-given : (o : Option Fields) → check_body o ≡ ok tt → (body : Fields) × (o ≡ some body)
check_body-given none h = cc h
check_body-given (some body) h = (body, refl)

validate_send_webhook_event_iff :
    (input : SendWebhookEventInput) → validate_send_webhook_event input ≡ ok tt ↔ IsSendable input
unfolding validate_send_webhook_event
validate_send_webhook_event_iff input = (
  λ h.
      let one = (guard-ok _ _ _).0 h in
      let two = (guard-ok _ _ _).0 one.1 in
      let given = check_body-given input.body two.1 in
      record {
        id_given = (eq-false _ _).0 one.0;
        endpoint_given = (eq-false _ _).0 two.0;
        body = given.0;
        body_given = given.1;
      },
  λ c. (guard-ok _ _ _).1 (
    (eq-false _ _).1 c.id_given,
    (guard-ok _ _ _).1 ((eq-false _ _).1 c.endpoint_given, rw (c.body_given) refl),
  ),
)

module _ (p : LocalPlane) (input : SendWebhookEventInput) where
  -- The event that is sent.
  abbrev asked : Event
  asked = record {
    event_id = input.event_id;
    endpoint_name = input.endpoint_name;
    body = input.body;
  }

  -- Why there is an error.
  abbrev pub IsRefused : Failure → Type 0
  IsRefused e =
      (¬ IsSendable input)
      ⊎ (IsSendable input × (p.webhook_sender ≡ none))
      ⊎ (IsSendable input
          × ((sender : Event → Result Delivery) × (p.webhook_sender ≡ some sender)
              × (sender asked ≡ err e)))

  -- A delivery that the output reports, and the evidence of it.
  pub record IsDelivered (d : Delivery) (o : SendWebhookEventOutput) (q : LocalPlane) : Type 0 where
    pub valid : IsSendable input
    pub sender : Event → Result Delivery
    pub there : p.webhook_sender ≡ some sender
    pub delivered : sender asked ≡ ok d
    pub attempted : o.attempted ≡ true
    pub event_id : o.event_id ≡ d.event_id
    pub endpoint_name : o.endpoint_name ≡ d.endpoint_name
    pub delivery :
        o.delivery ≡ record { outcome = d.outcome; status_code = d.status_code; error = d.error }
    pub shown :
        (get_observations q).webhook_deliveries
        ≡ (get_observations p).webhook_deliveries
          ++ record {
            event_id = d.event_id;
            endpoint_name = d.endpoint_name;
            method = d.method;
            outcome = d.outcome;
            status_code = d.status_code;
            error = d.error;
          }
            ∷ []
    pub rest : (get_observations q).observations ≡ (get_observations p).observations
    pub rule : q.store.response_rule ≡ p.store.response_rule
    pub manager : q.contract_manager ≡ p.contract_manager

  -- The two ways in which the tool ends.
  abbrev pub Ends : Handled SendWebhookEventOutput → Type 0
  Ends h =
      ((e : Failure) × (h ≡ (err e, p)) × IsRefused e)
      ⊎ ((d : Delivery) × (o : SendWebhookEventOutput) × (h.0 ≡ ok (done o)) × IsDelivered d o h.1)

  delivery-Ends :
      (sender : Event → Result Delivery) (r : Result Delivery)
      → p.webhook_sender ≡ some sender
      → IsSendable input
      → sender asked ≡ r
      → Ends (sent_answer (record_delivery p r))
  unfolding record_delivery record_webhook_delivery_observation get_observations
  delivery-Ends sender (err e) s v h = inl (e, refl, inr (inr (v, (sender, s, h))))
  delivery-Ends sender (ok d) s v h = inr (
    d,
    sent_output (delivery_observation d),
    refl,
    record {
      valid = v;
      sender = sender;
      there = s;
      delivered = h;
      attempted = refl;
      event_id = refl;
      endpoint_name = refl;
      delivery = refl;
      shown = delivery_outputs-append p.store.webhook_deliveries _;
      rest = refl;
      rule = refl;
      manager = refl;
    },
  )

  sender-Ends :
      (o : Option (Event → Result Delivery))
      → p.webhook_sender ≡ o
      → IsSendable input
      → Ends (sent_answer (record_delivery p (sent o (event_of input))))
  unfolding record_delivery
  sender-Ends none s v = inl (_, refl, inr (inl (v, s)))
  sender-Ends (some sender) s v = delivery-Ends sender (sender (event_of input)) s v refl

  checked-Ends :
      (c : Result (Unit {0}))
      → validate_send_webhook_event input ≡ c
      → Ends (send_checked p input c)
  unfolding send_webhook_event
  checked-Ends (err e) v =
      inl (e, refl, inl (λ k. cc (v, (validate_send_webhook_event_iff input).1 k)))
  checked-Ends (ok tt) v =
      sender-Ends p.webhook_sender refl ((validate_send_webhook_event_iff input).0 v)

-- send_webhook_event ends in one of two ways: with a protocol error, and the plane is as it was,
-- because the event id or the endpoint's name is blank, there is no body or no sender, or the sender
-- gives that error; or the sender delivers the event of the input, the output reports that delivery
-- with its event, endpoint, outcome, status and error, and get_observations shows what it showed
-- before and, last, that delivery with its method as well. The rule, the requests that were
-- observed and the contract are then as they were.
pub send_webhook_event-get_observations :
    (p : LocalPlane) (input : SendWebhookEventInput)
    → Ends p input (send_webhook_event_tool p input)
unfolding send_webhook_event_tool
send_webhook_event-get_observations p input =
    checked-Ends p input (validate_send_webhook_event input) refl
