-- ===== src/Control/Interleaved/Alone.antt =====
-- internal/control and internal/httpserver: the turns of a call that no other call interrupts, beside its
-- function in Control/Plane.
use echo_mcp.Prelude.{String, ◌≡◌, refl, Option, none, some, List, [], ◌∷◌}
use echo_mcp.Failure.{Result, ok, err}
use echo_mcp.State.{ResponseRule, match_response_rule}
use echo_mcp.HttpServer.{handle_data_plane, respond}
use echo_mcp.Webhook.{Delivery}
use echo_mcp.Contract.Document.{Codec}
use echo_mcp.Control.Files.{Files}
use echo_mcp.Control.Plane.{
  LocalPlane, validated, store_if_valid, configure_response_rule_with_validation, load, unload,
  sent, record_delivery, send_webhook_event,
}
use echo_mcp.Control.Plane.Calls.{
  PlaneCall, configure, load_contract, read_status, unload_contract, send_event, reset_plane,
  request, perform,
}
use echo_mcp.Control.Interleaved.{
  Task, matched_task, validated_task, sent_task, turn, Process, idle, put, take_turn, arrives, runs,
  happen, run,
}

module _ (files : Files) (codec : Codec) where
  -- The second turn, of what the first left.
  abbrev second : Option Task → LocalPlane → Process
  second task p = take_turn files codec 0 p (put task [])

  second-matched :
      (p : LocalPlane) (method path : String) (o : Option ResponseRule)
      → second (matched_task method path o) p
        ≡ idle (record p { store = (respond p.store method path o).1 })
  unfolding take_turn turn respond
  second-matched p method path none = refl
  second-matched p method path (some rule) = refl

  second-validated :
      (p : LocalPlane) (rule : ResponseRule) (r : Result (List String))
      → second (validated_task rule r) p ≡ idle (store_if_valid p rule r).1
  unfolding take_turn turn store_if_valid
  second-validated p rule (err e) = refl
  second-validated p rule (ok warnings) = refl

  second-sent :
      (p : LocalPlane) (r : Result Delivery) → second (sent_task r) p ≡ idle (record_delivery p r).1
  unfolding take_turn turn record_delivery
  second-sent p (err e) = refl
  second-sent p (ok d) = refl

-- A call that runs from a process with no other call under way, and whose turns no other call
-- interrupts, ends, and leaves the plane that its function leaves: `perform` of configure, load,
-- status, unload, webhook event, reset or request.
pub alone-perform :
    (files : Files) (codec : Codec) (p : LocalPlane) (c : PlaneCall)
    → run files codec (idle p) (arrives c ∷ runs 0 ∷ runs 0 ∷ []) ≡ idle (perform files codec p c)
unfolding run happen take_turn turn perform handle_data_plane load unload
    configure_response_rule_with_validation send_webhook_event
alone-perform files codec p (configure rule override) =
    second-validated files codec p rule (validated codec p rule override)
alone-perform files codec p (load_contract now command) = refl
alone-perform files codec p read_status = refl
alone-perform files codec p (unload_contract force) = refl
alone-perform files codec p (send_event event) =
    second-sent files codec p (sent p.webhook_sender event)
alone-perform files codec p reset_plane = refl
alone-perform files codec p (request method path) =
    second-matched files codec p method path (match_response_rule p.store method path)
