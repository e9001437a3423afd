-- ===== src/Control/Interleaved.antt =====
-- internal/control/control.go, contract_manager.go and internal/httpserver/server.go: the calls that
-- are under way at the same time. A call takes the mutex of the store or of the manager once or
-- twice. A task is a call with what it has read so far; its turn is what it does up to and with its
-- next section under a mutex, which is always released, and the turns of different calls interleave in any order. The calls'
-- results and the response of the data plane are left out; an exchange of the webhook sender is one
-- turn that ends; the wait for a mutex is no turn, and so is the manager's root, whose
-- default is set without a mutex: it is set in the turn of the call that does so.
pub mod Alone
pub mod Invariant
pub mod Observed
pub mod Strict
pub mod Guarded
pub mod Races
use echo_mcp.Prelude.{ℕ, zero, suc, String, Bool, Option, none, some, List, [], ◌∷◌, ◌++◌}
use echo_mcp.Failure.{Result, ok, err}
use echo_mcp.State.{ResponseRule, has_response_rule, match_response_rule}
use echo_mcp.HttpServer.{record_answer}
use echo_mcp.Webhook.{Event, Delivery}
use echo_mcp.Contract.Document.{Codec}
use echo_mcp.Control.Files.{Files}
use echo_mcp.Control.Manager.{
  Time, LoadCommand, BehaviorValidationOverride, load_openapi_contract, unload_openapi_contract,
}
use echo_mcp.Control.Plane.{
  LocalPlane, validated, store_if_valid, with_manager, contract_status, sent, record_delivery,
  reset,
}
use echo_mcp.Control.Plane.Calls.{
  PlaneCall, configure, load_contract, read_status, unload_contract, send_event, reset_plane,
  request,
}

-- A call under way, before its next turn.
pub data Task : Type 0 where
  request_arrived : String → String → Task
  answering : String → String → ResponseRule → Task
  configure_called : ResponseRule → BehaviorValidationOverride → Task
  storing : ResponseRule → List String → Task
  load_called : Time → LoadCommand → Task
  loading : Time → LoadCommand → Bool → Task
  unload_called : Bool → Task
  unloading : Bool → Bool → Task
  sending : Event → Task
  recording : Delivery → Task
  status_called : Task
  reset_called : Task

abbrev pub begin : PlaneCall → Task
begin (configure rule override) = configure_called rule override
begin (load_contract now command) = load_called now command
begin read_status = status_called
begin (unload_contract force) = unload_called force
begin (send_event event) = sending event
begin reset_plane = reset_called
begin (request method path) = request_arrived method path

-- handleDataPlane: after MatchResponseRule.
abbrev pub matched_task : String → String → Option ResponseRule → Option Task
matched_task method path none = none
matched_task method path (some rule) = some (answering method path rule)

-- handleDataPlane: RecordObservation, which a panic of WriteHeader prevents.
abbrev pub observed : LocalPlane → String → String → ResponseRule → LocalPlane
observed p method path rule = record p { store = record_answer p.store method path rule }

-- ConfigureResponseRuleWithValidation: after the two validations, which look at the manager once.
abbrev pub validated_task : ResponseRule → Result (List String) → Option Task
validated_task rule (err e) = none
validated_task rule (ok warnings) = some (storing rule warnings)

-- SendWebhookEvent: after the exchange.
abbrev pub sent_task : Result Delivery → Option Task
sent_task (err e) = none
sent_task (ok delivery) = some (recording delivery)

-- A turn: what is left of the call, and the plane.
unfoldable pub turn : Files → Codec → LocalPlane → Task → Option Task × LocalPlane
turn files codec p (request_arrived method path) =
    (matched_task method path (match_response_rule p.store method path), p)
turn files codec p (answering method path rule) = (none, observed p method path rule)
turn files codec p (configure_called rule override) =
    (validated_task rule (validated codec p rule override), p)
turn files codec p (storing rule warnings) = (none, (store_if_valid p rule (ok warnings)).1)
turn files codec p (load_called now command) =
    (some (loading now command (has_response_rule p.store)), p)
turn files codec p (loading now command behavior_active) = (
  none,
  (with_manager p
      (load_openapi_contract files codec now p.contract_manager command behavior_active)).1,
)
turn files codec p (unload_called force) = (some (unloading force (has_response_rule p.store)), p)
turn files codec p (unloading force behavior_active) =
    (none, (with_manager p (unload_openapi_contract p.contract_manager force behavior_active)).1)
turn files codec p (sending event) = (sent_task (sent p.webhook_sender event), p)
turn files codec p (recording delivery) = (none, (record_delivery p (ok delivery)).1)
turn files codec p status_called = (none, (contract_status files p).1)
turn files codec p reset_called = (none, reset p)

-- The process: the shared plane and the calls under way, in the order of their arrival.
pub record Process : Type 0 where
  pub plane : LocalPlane
  pub tasks : List Task

abbrev pub idle : LocalPlane → Process
idle p = record { plane = p; tasks = [] }

abbrev pub put : Option Task → List Task → List Task
put none tasks = tasks
put (some task) tasks = task ∷ tasks

-- The turn of the n-th call under way, if there are so many.
unfoldable pub take_turn : Files → Codec → ℕ → LocalPlane → List Task → Process
take_turn files codec n p [] = idle p
take_turn files codec zero p (task ∷ tasks) =
    let r = turn files codec p task in record { plane = r.1; tasks = put r.0 tasks }
take_turn files codec (suc n) p (task ∷ tasks) =
    let r = take_turn files codec n p tasks in record { plane = r.plane; tasks = task ∷ r.tasks }

-- What happens next: a call arrives, or the n-th call has its turn.
pub data Happening : Type 0 where
  arrives : PlaneCall → Happening
  runs : ℕ → Happening

unfoldable pub happen : Files → Codec → Process → Happening → Process
happen files codec s (arrives c) = record s { tasks = s.tasks ++ begin c ∷ [] }
happen files codec s (runs n) = take_turn files codec n s.plane s.tasks

unfoldable pub run : Files → Codec → Process → List Happening → Process
run files codec s [] = s
run files codec s (h ∷ hs) = run files codec (happen files codec s h) hs
