-- ===== src/Processors/Monotone.antt =====
-- What no processor ever takes back: their writes, one by one, move the database on in the order of
-- Processors/Later.
use renuzi_ops_platform.Prelude.{
  ℕ, refl, [], ◌∷◌, arith, Extends-refl, Extends-append, Extends-update_rows,
}
use renuzi_ops_platform.Constants.{Dataset, vehicles, routes, customers, products, dispatches, grns}
use renuzi_ops_platform.Schema.{Row, Dispatch}
use renuzi_ops_platform.Payload.{Payload, Actor, DispatchAck}
use renuzi_ops_platform.Database.{Db, table, put_table}
use renuzi_ops_platform.Guards.{owned}
use renuzi_ops_platform.ChangeLog.{bump_table, bump_version}
use renuzi_ops_platform.Warehouse.Custody.{Stage, warehouse, security, driver, customer, stamped}
use renuzi_ops_platform.Processors.{process}
use renuzi_ops_platform.Processors.Laws.{ServiceLaws}
use renuzi_ops_platform.Processors.Keeps.{Preserves-process}
use renuzi_ops_platform.Processors.Later.{
  DispatchMoves, IsLater, later, entity_preorder, vehicle_preorder, dispatch_preorder, grn_preorder,
  change_preorder, SameTables-IsLater,
}

bump-IsLater : (ds : Dataset) (b k : ℕ) (db : Db) → IsLater db (bump_table ds b k db)
unfolding bump_table table put_table
bump-IsLater vehicles b k db = record {
  vehicles_move =
      Extends-update_rows vehicle_preorder (owned b k) bump_version db.vehicle_table
        (λ x h. ground arith);
  routes_move = Extends-refl entity_preorder db.route_table;
  customers_move = Extends-refl entity_preorder db.customer_table;
  products_move = Extends-refl entity_preorder db.product_table;
  dispatches_move = Extends-refl dispatch_preorder db.dispatch_table;
  grns_move = Extends-refl grn_preorder db.grn_table;
  log_grows = Extends-refl change_preorder db.change_log;
  same_queue = refl;
  same_conflicts = refl;
  keys_rise = omega arith;
}
bump-IsLater routes b k db = record {
  vehicles_move = Extends-refl vehicle_preorder db.vehicle_table;
  routes_move =
      Extends-update_rows entity_preorder (owned b k) bump_version db.route_table
        (λ x h. ground arith);
  customers_move = Extends-refl entity_preorder db.customer_table;
  products_move = Extends-refl entity_preorder db.product_table;
  dispatches_move = Extends-refl dispatch_preorder db.dispatch_table;
  grns_move = Extends-refl grn_preorder db.grn_table;
  log_grows = Extends-refl change_preorder db.change_log;
  same_queue = refl;
  same_conflicts = refl;
  keys_rise = omega arith;
}
bump-IsLater customers b k db = record {
  vehicles_move = Extends-refl vehicle_preorder db.vehicle_table;
  routes_move = Extends-refl entity_preorder db.route_table;
  customers_move =
      Extends-update_rows entity_preorder (owned b k) bump_version db.customer_table
        (λ x h. ground arith);
  products_move = Extends-refl entity_preorder db.product_table;
  dispatches_move = Extends-refl dispatch_preorder db.dispatch_table;
  grns_move = Extends-refl grn_preorder db.grn_table;
  log_grows = Extends-refl change_preorder db.change_log;
  same_queue = refl;
  same_conflicts = refl;
  keys_rise = omega arith;
}
bump-IsLater products b k db = record {
  vehicles_move = Extends-refl vehicle_preorder db.vehicle_table;
  routes_move = Extends-refl entity_preorder db.route_table;
  customers_move = Extends-refl entity_preorder db.customer_table;
  products_move =
      Extends-update_rows entity_preorder (owned b k) bump_version db.product_table
        (λ x h. ground arith);
  dispatches_move = Extends-refl dispatch_preorder db.dispatch_table;
  grns_move = Extends-refl grn_preorder db.grn_table;
  log_grows = Extends-refl change_preorder db.change_log;
  same_queue = refl;
  same_conflicts = refl;
  keys_rise = omega arith;
}
bump-IsLater dispatches b k db = record {
  vehicles_move = Extends-refl vehicle_preorder db.vehicle_table;
  routes_move = Extends-refl entity_preorder db.route_table;
  customers_move = Extends-refl entity_preorder db.customer_table;
  products_move = Extends-refl entity_preorder db.product_table;
  dispatches_move =
      Extends-update_rows dispatch_preorder (owned b k) bump_version db.dispatch_table
        (λ x h. ground arith);
  grns_move = Extends-refl grn_preorder db.grn_table;
  log_grows = Extends-refl change_preorder db.change_log;
  same_queue = refl;
  same_conflicts = refl;
  keys_rise = omega arith;
}
bump-IsLater grns b k db = record {
  vehicles_move = Extends-refl vehicle_preorder db.vehicle_table;
  routes_move = Extends-refl entity_preorder db.route_table;
  customers_move = Extends-refl entity_preorder db.customer_table;
  products_move = Extends-refl entity_preorder db.product_table;
  dispatches_move = Extends-refl dispatch_preorder db.dispatch_table;
  grns_move =
      Extends-update_rows grn_preorder (owned b k) bump_version db.grn_table (λ x h. ground arith);
  log_grows = Extends-refl change_preorder db.change_log;
  same_queue = refl;
  same_conflicts = refl;
  keys_rise = omega arith;
}

stamped_moves :
    (s : Stage) (a : Actor) (p : DispatchAck) (now : ℕ) (r : Row Dispatch)
    → DispatchMoves r (record r { body = stamped s a p now r.body })
stamped_moves warehouse a p now r = ground arith
stamped_moves security a p now r = ground arith
stamped_moves driver a p now r = ground arith
stamped_moves customer a p now r = ground arith

later_laws : ServiceLaws later
later_laws = record {
  facts = SameTables-IsLater;
  raise_vehicles = λ p f db h. record {
    vehicles_move =
        Extends-update_rows vehicle_preorder p _ db.vehicle_table
          (λ x t. ((refl, refl, omega arith), h x t));
    routes_move = Extends-refl entity_preorder db.route_table;
    customers_move = Extends-refl entity_preorder db.customer_table;
    products_move = Extends-refl entity_preorder db.product_table;
    dispatches_move = Extends-refl dispatch_preorder db.dispatch_table;
    grns_move = Extends-refl grn_preorder db.grn_table;
    log_grows = Extends-refl change_preorder db.change_log;
    same_queue = refl;
    same_conflicts = refl;
    keys_rise = omega arith;
  };
  insert_grn = λ g db. record {
    vehicles_move = Extends-refl vehicle_preorder db.vehicle_table;
    routes_move = Extends-refl entity_preorder db.route_table;
    customers_move = Extends-refl entity_preorder db.customer_table;
    products_move = Extends-refl entity_preorder db.product_table;
    dispatches_move = Extends-refl dispatch_preorder db.dispatch_table;
    grns_move = Extends-append grn_preorder db.grn_table (g ∷ []);
    log_grows = Extends-refl change_preorder db.change_log;
    same_queue = refl;
    same_conflicts = refl;
    keys_rise = omega arith;
  };
  stamp = λ s a k p n db. record {
    vehicles_move = Extends-refl vehicle_preorder db.vehicle_table;
    routes_move = Extends-refl entity_preorder db.route_table;
    customers_move = Extends-refl entity_preorder db.customer_table;
    products_move = Extends-refl entity_preorder db.product_table;
    dispatches_move =
        Extends-update_rows dispatch_preorder (owned a.business_key k) _ db.dispatch_table
          (λ r t. stamped_moves s a p n r);
    grns_move = Extends-refl grn_preorder db.grn_table;
    log_grows = Extends-refl change_preorder db.change_log;
    same_queue = refl;
    same_conflicts = refl;
    keys_rise = omega arith;
  };
  bump = bump-IsLater;
  log = λ ds b k op v x db. record {
    vehicles_move = Extends-refl vehicle_preorder db.vehicle_table;
    routes_move = Extends-refl entity_preorder db.route_table;
    customers_move = Extends-refl entity_preorder db.customer_table;
    products_move = Extends-refl entity_preorder db.product_table;
    dispatches_move = Extends-refl dispatch_preorder db.dispatch_table;
    grns_move = Extends-refl grn_preorder db.grn_table;
    log_grows = Extends-append change_preorder db.change_log _;
    same_queue = refl;
    same_conflicts = refl;
    keys_rise = omega arith;
  };
}

-- Whatever a processor does, and whether it throws or not, the database only moves on: no
-- vehicle, route, customer, product, dispatch or goods receipt is lost or handed to another
-- business and none of their version numbers falls, no odometer falls, no custody stamp and no
-- finance signoff is taken back, the change log only grows at its end, the queue and the conflict
-- log stay as they are, and the identity counter does not fall.
pub process-IsLater : (a : Actor) (p : Payload) (db : Db) → IsLater db (process a p db).1
process-IsLater a p db = (Preserves-process later_laws a p).at db
