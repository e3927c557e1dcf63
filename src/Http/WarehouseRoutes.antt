-- ===== src/Http/WarehouseRoutes.antt =====
-- The routes of backend/src/routes/warehouse.js that change state; the others are reports.
use renuzi_ops_platform.Prelude.{
  ℕ, String, Bool, false, ◌||◌, Option, none, some, List, [], ◌∷◌, ◌==◌, if◌then◌else◌,
}
use renuzi_ops_platform.Constants.{Role, fleet_manager, warehouse_manager, ops_manager, admin}
use renuzi_ops_platform.Schema.{Row, Dispatch, User}
use renuzi_ops_platform.Payload.{
  GrnForm, DispatchForm, DispatchAck, LoadedQuantity, MovementForm, CountForm, ReturnForm,
}
use renuzi_ops_platform.Exec.{Exec, pure, ◌>>=◌}
use renuzi_ops_platform.Warehouse.Grn.{create_grn, signoff_grn_finance}
use renuzi_ops_platform.Warehouse.Outbound.{create_dispatch, get_dispatch}
use renuzi_ops_platform.Warehouse.Custody.{
  warehouse, security, driver, customer, StampOpts, stamp_dispatch_custody,
}
use renuzi_ops_platform.Warehouse.Stock.{
  record_stock_movement, record_stock_count, record_goods_return,
}
use renuzi_ops_platform.Http.Message.{Response, reply, respond, actor_of}
use renuzi_ops_platform.Http.Roles.{includes_role}

unfoldable pub post_grn : Option String → GrnForm → User → Exec Response
post_grn device p u =
    respond (create_grn (actor_of u device) p) (λ r. reply 201 "GRN ${grnNumber} recorded")
      "Request failed"

unfoldable pub put_finance_signoff : ℕ → Bool → String → User → Exec Response
put_finance_signoff key issued number u =
    respond (signoff_grn_finance (actor_of u none) key issued number)
      (λ x. reply 200 "Finance signoff recorded") "Request failed"

unfoldable pub post_dispatch : Option String → DispatchForm → User → Exec Response
post_dispatch device p u =
    respond (create_dispatch (actor_of u device) p)
      (λ r. reply 201 "Dispatch ${dispatchNumber} created") "Request failed"

-- The defaults of the service's last argument.
abbrev pub online_stamp : StampOpts
online_stamp = record { conflict_as_error = false; override_prereqs = false }

-- A custody payload of which a route sets only some properties.
abbrev pub empty_ack : DispatchAck
empty_ack = record {
  dispatch_key = 0;
  stage = [];
  loaded_quantities = [];
  driver_signature_url = "";
  customer_signature_url = "";
  returned = false;
  return_reason = "";
  line_deliveries = [];
}

unfoldable pub put_warehouse_stamp : ℕ → List LoadedQuantity → User → Exec Response
put_warehouse_stamp key quantities u =
    respond
      (stamp_dispatch_custody (actor_of u none) key warehouse
        (record empty_ack { loaded_quantities = quantities }) online_stamp)
      (λ r. reply 200 "Warehouse stamp applied") "Request failed"

unfoldable pub put_security_stamp : ℕ → User → Exec Response
put_security_stamp key u =
    respond (stamp_dispatch_custody (actor_of u none) key security empty_ack online_stamp)
      (λ r. reply 200 "Security stamp applied") "Request failed"

abbrev pub ack_managers : List Role
ack_managers = fleet_manager ∷ ops_manager ∷ admin ∷ []

abbrev pub delivery_managers : List Role
delivery_managers = fleet_manager ∷ ops_manager ∷ warehouse_manager ∷ admin ∷ []

-- The assigned driver, or a manager.
abbrev pub may_stamp : List Role → User → Row Dispatch → Bool
may_stamp managers u d = (d.body.driver_key == u.user_key) || includes_role managers u.role

abbrev pub stamp_if_allowed :
    List Role → String → User → Exec Response → Option (Row Dispatch) → Exec Response
stamp_if_allowed managers refusal u stamp none = pure (reply 404 "Dispatch not found")
stamp_if_allowed managers refusal u stamp (some d) =
    if may_stamp managers u d then stamp else pure (reply 403 refusal)

unfoldable pub put_driver_ack : ℕ → String → User → Exec Response
put_driver_ack key signature u = do
  d ← get_dispatch (actor_of u none) key
  stamp_if_allowed ack_managers
      "Only the assigned driver or a manager can acknowledge this dispatch" u
      (respond
        (stamp_dispatch_custody (actor_of u none) key driver
          (record empty_ack { driver_signature_url = signature }) online_stamp)
        (λ r. reply 200 "Driver acknowledgement recorded") "Request failed")
      d

unfoldable pub put_customer_ack : Option String → ℕ → DispatchAck → User → Exec Response
put_customer_ack device key p u = do
  d ← get_dispatch (actor_of u none) key
  stamp_if_allowed delivery_managers "Only the assigned driver or a manager can confirm delivery" u
      (respond
        (stamp_dispatch_custody (actor_of u device) key customer
          (record empty_ack {
            customer_signature_url = p.customer_signature_url;
            returned = p.returned;
            return_reason = p.return_reason;
            line_deliveries = p.line_deliveries;
          })
          online_stamp)
        (λ r. reply 200 "Dispatch marked ${status}") "Request failed")
      d

unfoldable pub post_movement : Option String → MovementForm → User → Exec Response
post_movement device p u =
    respond (record_stock_movement (actor_of u device) p) (λ k. reply 201 "Stock movement recorded")
      "Request failed"

unfoldable pub post_count : Option String → CountForm → User → Exec Response
post_count device p u =
    respond (record_stock_count (actor_of u device) p) (λ r. reply 201 "Stock count recorded")
      "Request failed"

unfoldable pub post_return : Option String → ReturnForm → User → Exec Response
post_return device p u =
    respond (record_goods_return (actor_of u device) p) (λ k. reply 201 "Goods return recorded")
      "Request failed"
