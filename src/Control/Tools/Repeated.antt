-- ===== src/Control/Tools/Repeated.antt =====
-- internal/control/mcp_server.go: the reset tool, and a second call of it.
use echo_mcp.Prelude.{String, ◌≡◌, refl, ap, [], is_some}
use echo_mcp.Failure.{ok}
use echo_mcp.State.{Store, reset as reset_store, match_rule, match_response_rule}
use echo_mcp.HttpServer.{not_implemented_calls, respond, handle_data_plane}
use echo_mcp.Control.Files.{Files}
use echo_mcp.Control.Plane.{LocalPlane, contract_status, reset}
use echo_mcp.Control.Plane.Looks.{
  contract_status-IsSameState, contract_status-active, contract_status-again,
}
use echo_mcp.Control.Tools.Outputs.{ResetOutput}
use echo_mcp.Control.Tools.Reports.{observation_outputs, delivery_outputs}
use echo_mcp.Control.Tools.Handlers.{done, reset_output, reset_tool, get_observations}

-- The planes after a reset differ in the generation only.
module _ (files : Files) (p : LocalPlane) where
  reset_status :
      (s : Store)
      → contract_status files (record p { store = s })
        ≡ ((contract_status files p).0, record (contract_status files p).1 { store = s })
  unfolding contract_status
  reset_status s = refl

  again : (reset_tool files (reset_tool files p).1).0 ≡ (reset_tool files p).0
  unfolding reset_tool reset contract_status
  again = ap (λ s. ok (done (reset_output s.0))) (contract_status-again files p)

-- After the reset tool no request is answered by a rule, get_observations shows neither requests nor
-- deliveries, and the active contract is the one that was active, as the tool reports; a second
-- reset answers the same.
pub reset_tool-again :
    (files : Files) (p : LocalPlane)
    → ((method path : String)
        → handle_data_plane (reset_tool files p).1.store method path
          ≡ (not_implemented_calls, (reset_tool files p).1.store))
      × ((get_observations (reset_tool files p).1).observations ≡ [])
      × ((get_observations (reset_tool files p).1).webhook_deliveries ≡ [])
      × ((reset_tool files p).1.contract_manager.active ≡ p.contract_manager.active)
      × ((o : ResetOutput) × ((reset_tool files p).0 ≡ ok (done o))
          × (o.contract_active ≡ is_some p.contract_manager.active))
      × ((reset_tool files (reset_tool files p).1).0 ≡ (reset_tool files p).0)
unfolding reset_tool reset reset_store contract_status handle_data_plane respond match_response_rule
    match_rule get_observations observation_outputs delivery_outputs
reset_tool-again files p = (
  λ method path. refl,
  refl,
  refl,
  (contract_status-IsSameState files p).active,
  (_, refl, contract_status-active files p),
  again files p,
)
