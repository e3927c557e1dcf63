-- ===== src/Processors/Atomicity.antt =====
-- Every processor is atomic, so an item that fails leaves nothing behind.
use renuzi_ops_platform.Prelude.{Option, none, some}
use renuzi_ops_platform.Payload.{Payload, Actor, DispatchAck}
use renuzi_ops_platform.Exec.Atomic.{IsAtomic, IsReadOnly-throw, IsAtomic-read_only, atomic_rules}
use renuzi_ops_platform.Warehouse.Custody.{Stage}
use renuzi_ops_platform.Fleet.Atomicity.{
  record_vehicle_check-IsAtomic, start_trip-IsAtomic, end_trip-IsAtomic,
  create_fuel_request-IsAtomic, record_fuel_log-IsAtomic, report_maintenance-IsAtomic,
}
use renuzi_ops_platform.Warehouse.Atomicity.{
  create_grn-IsAtomic, stamp_dispatch_custody-IsAtomic, record_stock_movement-IsAtomic,
  record_stock_count-IsAtomic, record_goods_return-IsAtomic,
}
use renuzi_ops_platform.Processors.{ack_stage, process_dispatch_ack, process}

ruleset service_rules = (
  record_vehicle_check-IsAtomic, start_trip-IsAtomic, end_trip-IsAtomic,
  create_fuel_request-IsAtomic, record_fuel_log-IsAtomic, report_maintenance-IsAtomic,
  create_grn-IsAtomic, stamp_dispatch_custody-IsAtomic, record_stock_movement-IsAtomic,
  record_stock_count-IsAtomic, record_goods_return-IsAtomic,
)

ack_stage-IsAtomic : (a : Actor) (p : DispatchAck) (s : Option Stage) → IsAtomic (ack_stage a p s)
ack_stage-IsAtomic a p none = IsAtomic-read_only _ (IsReadOnly-throw _)
ack_stage-IsAtomic a p (some s) = search (atomic_rules, service_rules) depth 7

process_dispatch_ack-IsAtomic : (a : Actor) (p : DispatchAck) → IsAtomic (process_dispatch_ack a p)
unfolding process_dispatch_ack
process_dispatch_ack-IsAtomic a p = search (atomic_rules, ack_stage-IsAtomic) depth 7

-- Whatever a device has queued, a processor that throws leaves the database as it found it.
pub process-IsAtomic : (a : Actor) (p : Payload) → IsAtomic (process a p)
unfolding process
process-IsAtomic a (Payload.dispatch_ack p) = process_dispatch_ack-IsAtomic a p
process-IsAtomic a _ = search (atomic_rules, service_rules) depth 7
