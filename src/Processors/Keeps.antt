-- ===== src/Processors/Keeps.antt =====
-- Every processor keeps every relation that allows the writes of the services.
use renuzi_ops_platform.Prelude.{Option, none, some}
use renuzi_ops_platform.Payload.{Payload, Actor, DispatchAck}
use renuzi_ops_platform.Exec.Preserves.{Relation, Preserves, Preserves-throw, preserves_rules}
use renuzi_ops_platform.Warehouse.Custody.{Stage}
use renuzi_ops_platform.Processors.{ack_stage, process_dispatch_ack, process}
use renuzi_ops_platform.Processors.Laws.{ServiceLaws}
use renuzi_ops_platform.Processors.FleetKeeps.{
  Preserves-record_vehicle_check, Preserves-start_trip, Preserves-end_trip,
  Preserves-create_fuel_request, Preserves-record_fuel_log, Preserves-report_maintenance,
}
use renuzi_ops_platform.Processors.WarehouseKeeps.{
  Preserves-create_grn, Preserves-stamp_dispatch_custody, Preserves-record_stock_movement,
  Preserves-record_stock_count, Preserves-record_goods_return,
}

module _ {R : Relation} (L : ServiceLaws R) where
  Preserves-ack_stage :
      (a : Actor) (p : DispatchAck) (s : Option Stage) → Preserves R (ack_stage a p s)
  Preserves-ack_stage a p none = Preserves-throw _
  Preserves-ack_stage a p (some s) =
      search (Preserves-stamp_dispatch_custody L, preserves_rules) depth 12

  Preserves-process_dispatch_ack :
      (a : Actor) (p : DispatchAck) → Preserves R (process_dispatch_ack a p)
  unfolding process_dispatch_ack
  Preserves-process_dispatch_ack a p = search (Preserves-ack_stage, preserves_rules) depth 12

  pub Preserves-process : (a : Actor) (p : Payload) → Preserves R (process a p)
  unfolding process
  Preserves-process a (Payload.vehicle_check p) =
      search (Preserves-record_vehicle_check L, preserves_rules)
  Preserves-process a (Payload.trip_start p) = search (Preserves-start_trip L, preserves_rules)
  Preserves-process a (Payload.trip_end p) = search (Preserves-end_trip L, preserves_rules)
  Preserves-process a (Payload.fuel_request p) =
      search (Preserves-create_fuel_request L, preserves_rules)
  Preserves-process a (Payload.fuel_log p) = search (Preserves-record_fuel_log L, preserves_rules)
  Preserves-process a (Payload.maintenance p) =
      search (Preserves-report_maintenance L, preserves_rules)
  Preserves-process a (Payload.grn p) = search (Preserves-create_grn L, preserves_rules)
  Preserves-process a (Payload.dispatch_ack p) = Preserves-process_dispatch_ack a p
  Preserves-process a (Payload.stock_count p) =
      search (Preserves-record_stock_count L, preserves_rules)
  Preserves-process a (Payload.stock_movement p) =
      search (Preserves-record_stock_movement L, preserves_rules)
  Preserves-process a (Payload.goods_return p) =
      search (Preserves-record_goods_return L, preserves_rules)
  Preserves-process a (Payload.odometer_update p) = Preserves-throw _
  Preserves-process a (Payload.unknown t) = Preserves-throw _
