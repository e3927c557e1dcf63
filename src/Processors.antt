-- ===== src/Processors.antt =====
-- backend/src/sync/processorRegistry.js, fleetProcessors.js and warehouseProcessors.js: a queued
-- payload is handed to the service that the online route calls.
pub mod Atomicity
pub mod Laws
pub mod Writes
pub mod FleetKeeps
pub mod WarehouseKeeps
pub mod Keeps
pub mod Later
pub mod Monotone
pub mod Ledger
pub mod Clock
use renuzi_ops_platform.Prelude.{
  ℕ, ◌+◌, ◌-◌, String, Bool, true, false, not, ◌&&◌, Option, none, some, List, [], ◌∷◌, map, ◌==◌,
  leb, if◌then◌else◌,
}
use renuzi_ops_platform.Payload.{
  Payload, Actor, Opts, DispatchAck, Error, http, conflict, plain, ServerVersion,
}
use renuzi_ops_platform.Exec.{Exec, pure, throw, try_catch, throw_if, ◌>>=◌, ◌>>◌}
use renuzi_ops_platform.DocNumbers.{codes}
use renuzi_ops_platform.Fleet.Vehicles.{record_vehicle_check}
use renuzi_ops_platform.Fleet.Trips.{TripResult, start_trip, end_trip}
use renuzi_ops_platform.Fleet.Fuel.{create_fuel_request, record_fuel_log}
use renuzi_ops_platform.Fleet.Maintenance.{report_maintenance}
use renuzi_ops_platform.Warehouse.Grn.{create_grn}
use renuzi_ops_platform.Warehouse.Custody.{
  Stage, StampOpts, StampResult, warehouse, security, driver, customer, stamp_dispatch_custody,
}
use renuzi_ops_platform.Warehouse.Stock.{
  record_stock_movement, record_stock_count, record_goods_return,
}

-- { conflictAsError: true, conflictOverride: actor.conflictOverride === true }
abbrev pub offline : Actor → Opts
offline actor = record { conflict_as_error = true; conflict_override = actor.conflict_override }

abbrev pub key_of : TripResult → Option ℕ
key_of r = if r.already_ended then none else some r.trip_key

-- toUpperCase, of the Latin letters.
abbrev pub to_upper : ℕ → ℕ
to_upper c = if leb b'a' c && leb c b'z' then c - 32 else c

abbrev pub same_text : List ℕ → List ℕ → Bool
same_text [] [] = true
same_text (a ∷ s) (b ∷ t) = (a == b) && same_text s t
same_text _ _ = false

unfoldable pub parse_stage : List ℕ → Option Stage
parse_stage text =
    let stage = map to_upper text in
    if same_text stage (codes "WAREHOUSE")
    then some warehouse
    else if same_text stage (codes "SECURITY")
    then some security
    else if same_text stage (codes "DRIVER")
    then some driver
    else if same_text stage (codes "CUSTOMER")
    then some customer
    else none

-- A 409 of the custody service is a conflict, unless a resolution overrides.
abbrev pub as_conflict : Actor → DispatchAck → Error → Error
as_conflict actor p (http status message) =
    if (status == 409) && not actor.conflict_override
    then conflict message ServerVersion.absent (Payload.dispatch_ack p)
    else http status message
as_conflict actor p e = e

abbrev pub stamp_key : StampResult → Option ℕ
stamp_key r = if r.already_stamped then none else some r.dispatch_key

abbrev pub stamp_opts : Actor → StampOpts
stamp_opts actor = record { conflict_as_error = true; override_prereqs = actor.conflict_override }

abbrev pub ack_stage : Actor → DispatchAck → Option Stage → Exec (Option ℕ)
ack_stage actor p none = throw (plain "DISPATCH_ACK stage must be one of WAREHOUSE, SECURITY, …")
ack_stage actor p (some stage) =
    try_catch
      (do
        r ← stamp_dispatch_custody actor p.dispatch_key stage p (stamp_opts actor)
        pure (stamp_key r))
      (λ e. throw (as_conflict actor p e))

unfoldable pub process_dispatch_ack : Actor → DispatchAck → Exec (Option ℕ)
process_dispatch_ack actor p = do
  throw_if (p.dispatch_key == 0) (plain "DISPATCH_ACK payload requires dispatchKey")
  ack_stage actor p (parse_stage p.stage)

-- getProcessor(entityType)(actor, payload)
unfoldable pub process : Actor → Payload → Exec (Option ℕ)
process actor (Payload.vehicle_check p) = do r ← record_vehicle_check actor p; pure (some r.0)
process actor (Payload.trip_start p) = do k ← start_trip actor p (offline actor); pure (some k)
process actor (Payload.trip_end p) = do r ← end_trip actor p (offline actor); pure (key_of r)
process actor (Payload.fuel_request p) = do k ← create_fuel_request actor p; pure (some k)
process actor (Payload.fuel_log p) = do r ← record_fuel_log actor p (offline actor); pure (some r.0)
process actor (Payload.maintenance p) = do r ← report_maintenance actor p; pure (some r.0)
process actor (Payload.grn p) = do r ← create_grn actor p; pure (some r.grn_key)
process actor (Payload.dispatch_ack p) = process_dispatch_ack actor p
process actor (Payload.stock_count p) = do r ← record_stock_count actor p; pure (some r.0)
process actor (Payload.stock_movement p) = do k ← record_stock_movement actor p; pure (some k)
process actor (Payload.goods_return p) = do k ← record_goods_return actor p; pure (some k)
process actor (Payload.odometer_update p) =
    throw (plain "No server processor for entity type ${row.entity_type}")
process actor (Payload.unknown t) =
    throw (plain "No server processor for entity type ${row.entity_type}")
