-- ===== src/Fleet/Atomicity.antt =====
-- Every operation of the fleet service is atomic.
use renuzi_ops_platform.Prelude.{String, ℕ, ℤ, Bool, Option, none, some}
use renuzi_ops_platform.Constants.{ApprovalStatus, MaintenanceType}
use renuzi_ops_platform.Schema.{Trip}
use renuzi_ops_platform.Payload.{
  Payload, Actor, Opts, OdometerUpdate, CheckForm, TripStart, TripEnd, FuelAsk, FuelEntry,
  MaintenanceReport,
}
use renuzi_ops_platform.Exec.Atomic.{
  IsReadOnly, IsAtomic, IsReadOnly-pure, IsReadOnly-throw, read_only_rules, atomic_rules,
}
use renuzi_ops_platform.Guards.ReadOnly.{guard_rules}
use renuzi_ops_platform.Fleet.Vehicles.{
  check_odometer, valid_reading, update_vehicle_odometer, record_vehicle_check,
}
use renuzi_ops_platform.Fleet.Trips.{
  no_active_trip, check_start, start_trip, check_end, complete_trip, end_trip,
}
use renuzi_ops_platform.Fleet.Fuel.{
  Decision, create_fuel_request, record_fuel_log, decide_fuel_request,
}
use renuzi_ops_platform.Fleet.Maintenance.{
  Level, ops, md, check_type, report_maintenance, approve_ops, approve_md, approve_at,
  approve_maintenance,
}

pub IsReadOnly-check_odometer :
    (b r : String) (opts : Opts) (c s : ℤ) (p : Payload)
    → IsReadOnly (check_odometer b r opts c s p)
unfolding check_odometer
IsReadOnly-check_odometer b r opts c s p = search read_only_rules

IsReadOnly-valid_reading : (x : Option ℤ) → IsReadOnly (valid_reading x)
IsReadOnly-valid_reading none = IsReadOnly-throw _
IsReadOnly-valid_reading (some x) = search read_only_rules

-- An odometer update that throws has changed nothing.
pub update_vehicle_odometer-IsAtomic :
    (a : Actor) (p : OdometerUpdate) (o : Opts) → IsAtomic (update_vehicle_odometer a p o)
unfolding update_vehicle_odometer
update_vehicle_odometer-IsAtomic a p o =
    search (atomic_rules, guard_rules, IsReadOnly-check_odometer, IsReadOnly-valid_reading) depth 9

pub record_vehicle_check-IsAtomic :
    (a : Actor) (p : CheckForm) → IsAtomic (record_vehicle_check a p)
unfolding record_vehicle_check
record_vehicle_check-IsAtomic a p = search (atomic_rules, guard_rules) depth 12

IsReadOnly-no_active_trip :
    (o : Opts) (p : Payload) (t : Option Trip) → IsReadOnly (no_active_trip o p t)
IsReadOnly-no_active_trip o p none = IsReadOnly-pure tt
IsReadOnly-no_active_trip o p (some t) = IsReadOnly-throw _

pub IsReadOnly-check_start :
    (a : Actor) (p : TripStart) (o : Opts) (c s : ℤ) → IsReadOnly (check_start a p o c s)
unfolding check_start
IsReadOnly-check_start a p o c s =
    search (guard_rules, IsReadOnly-check_odometer, IsReadOnly-no_active_trip) depth 9

pub start_trip-IsAtomic : (a : Actor) (p : TripStart) (o : Opts) → IsAtomic (start_trip a p o)
unfolding start_trip
start_trip-IsAtomic a p o = search (atomic_rules, guard_rules, IsReadOnly-check_start) depth 12

pub IsReadOnly-check_end :
    (p : TripEnd) (o : Opts) (e : ℤ) (t : Trip) → IsReadOnly (check_end p o e t)
unfolding check_end
IsReadOnly-check_end p o e t = search read_only_rules

complete_trip-IsAtomic :
    (a : Actor) (p : TripEnd) (e : ℤ) (t : Trip) → IsAtomic (complete_trip a p e t)
unfolding complete_trip
complete_trip-IsAtomic a p e t = search (atomic_rules, guard_rules) depth 12

pub end_trip-IsAtomic : (a : Actor) (p : TripEnd) (o : Opts) → IsAtomic (end_trip a p o)
unfolding end_trip
end_trip-IsAtomic a p o =
    search (atomic_rules, guard_rules, IsReadOnly-check_end, complete_trip-IsAtomic) depth 12

pub create_fuel_request-IsAtomic : (a : Actor) (p : FuelAsk) → IsAtomic (create_fuel_request a p)
unfolding create_fuel_request
create_fuel_request-IsAtomic a p = search (atomic_rules, guard_rules) depth 12

pub record_fuel_log-IsAtomic :
    (a : Actor) (p : FuelEntry) (o : Opts) → IsAtomic (record_fuel_log a p o)
unfolding record_fuel_log
record_fuel_log-IsAtomic a p o =
    search (atomic_rules, guard_rules, IsReadOnly-check_odometer) depth 12

pub decide_fuel_request-IsAtomic :
    (a : Actor) (k : ℕ) (d : Decision) → IsAtomic (decide_fuel_request a k d)
unfolding decide_fuel_request
decide_fuel_request-IsAtomic a k d = search (atomic_rules, guard_rules) depth 12

pub IsReadOnly-check_type : (t : MaintenanceType) → IsReadOnly (check_type t)
IsReadOnly-check_type MaintenanceType.missing = IsReadOnly-throw _
IsReadOnly-check_type MaintenanceType.unknown = IsReadOnly-throw _
IsReadOnly-check_type _ = IsReadOnly-pure tt

pub report_maintenance-IsAtomic :
    (a : Actor) (p : MaintenanceReport) → IsAtomic (report_maintenance a p)
unfolding report_maintenance
report_maintenance-IsAtomic a p = search (atomic_rules, guard_rules, IsReadOnly-check_type) depth 12

approve_at-IsAtomic :
    (l : Level) (a : Actor) (k : ℕ) (s : ApprovalStatus) (n : Bool)
    → IsAtomic (approve_at l a k s n)
unfolding approve_ops approve_md
approve_at-IsAtomic ops a k s n = search (atomic_rules, guard_rules) depth 12
approve_at-IsAtomic md a k s n = search (atomic_rules, guard_rules) depth 12

pub approve_maintenance-IsAtomic :
    (a : Actor) (k : ℕ) (l : Level) → IsAtomic (approve_maintenance a k l)
unfolding approve_maintenance
approve_maintenance-IsAtomic a k l =
    search (atomic_rules, guard_rules, approve_at-IsAtomic) depth 12
