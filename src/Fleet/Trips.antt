-- ===== src/Fleet/Trips.antt =====
-- backend/src/services/fleetService.js: startTrip, endTrip.
use renuzi_ops_platform.Prelude.{
  ℕ, ℤ, ◌-ℤ◌, ltb_ℤ, Bool, true, false, not, ◌&&◌, Option, none, some, [], ◌∷◌, ◌++◌, ◌==◌,
  if◌then◌else◌, or_else, first_row, update_rows,
}
use renuzi_ops_platform.Constants.{VehicleStatus, TripStatus, Dataset, upsert}
use renuzi_ops_platform.Schema.{Trip}
use renuzi_ops_platform.Payload.{
  Payload, Actor, Opts, TripStart, TripEnd, ServerVersion, http, conflict,
}
use renuzi_ops_platform.Database.{Db}
use renuzi_ops_platform.Exec.{
  Exec, pure, throw, query, throw_if, with_transaction, execute, identity, ◌>>=◌, ◌>>◌,
}
use renuzi_ops_platform.Guards.{
  or_null, or_throw, number_or_null, odometer_regressed, get_owned_vehicle, resolve_date_key,
  find_active_trip,
}
use renuzi_ops_platform.ChangeLog.{record_change}
use renuzi_ops_platform.Fleet.Vehicles.{update_vehicles, check_odometer}

-- The active-trip guard.
abbrev pub no_active_trip : Opts → Payload → Option Trip → Exec (Unit {0})
no_active_trip opts p none = pure tt
no_active_trip opts p (some t) = throw (
    if opts.conflict_as_error
    then conflict "Vehicle already has an active trip" (ServerVersion.active_trip t.trip_key) p
    else http 409 "Vehicle already has an active trip. End it first.")

-- Both guards are skipped by an override.
unfoldable pub check_start : Actor → TripStart → Opts → ℤ → ℤ → Exec (Unit {0})
check_start actor p opts current start = if opts.conflict_override then pure tt else do
  check_odometer
      "Trip start odometer ${p.startOdometer} below vehicle odometer ${odo.currentOdometer}"
      "startOdometer (${p.startOdometer}) is below the vehicle's current odometer (${odo.currentOdometer})"
      opts current start (Payload.trip_start p)
  active ← find_active_trip actor.business_key p.vehicle_key p.trip_key
  no_active_trip opts (Payload.trip_start p) active

abbrev pub started_trip : Actor → TripStart → ℤ → ℕ → ℕ → Db → Trip
started_trip actor p start date_key trip_key db = record {
  trip_key = trip_key;
  business_key = actor.business_key;
  vehicle_key = p.vehicle_key;
  driver_key = actor.user_key;
  route_key = p.route_key;
  date_key = date_key;
  trip_start_time = or_else p.start_time db.now;
  start_odometer = start;
  start_latitude = number_or_null p.latitude;
  start_longitude = number_or_null p.longitude;
  trip_end_time = none;
  end_odometer = none;
  end_latitude = none;
  end_longitude = none;
  distance_km = none;
  stores_visited = 0;
  delivery_success_count = 0;
  delivery_fail_count = 0;
  trip_status = TripStatus.started;
  driver_notes = or_null p.driver_notes;
  mobile_device_id = actor.device_id;
}

unfoldable pub start_trip : Actor → TripStart → Opts → Exec ℕ
start_trip actor p opts = do
  start ← or_throw p.start_odometer (http 400 "startOdometer required")
  vehicle ← get_owned_vehicle actor.business_key p.vehicle_key
  check_start actor p opts vehicle.body.current_odometer start
  date_key ← resolve_date_key
  with_transaction do
    trip_key ← identity
    execute (λ db. record db {
      trips = db.trips ++ started_trip actor p start date_key trip_key db ∷ [];
    })
    execute (λ db.
        update_vehicles (λ r. r.key == p.vehicle_key)
          (λ v. record v { status = VehicleStatus.on_route; updated_at = db.now }) db)
    record_change Dataset.vehicles actor.business_key p.vehicle_key upsert
    pure trip_key

abbrev pub is_ended : TripStatus → Bool
is_ended TripStatus.completed = true
is_ended TripStatus.cancelled = true
is_ended _ = false

abbrev pub ended_trip : TripEnd → ℤ → ℤ → Db → Trip → Trip
ended_trip p end distance_km db t = record t {
  trip_end_time = some (or_else p.end_time db.now);
  end_odometer = some end;
  end_latitude = number_or_null p.latitude;
  end_longitude = number_or_null p.longitude;
  distance_km = some distance_km;
  stores_visited = p.stores_visited;
  delivery_success_count = p.delivery_success_count;
  delivery_fail_count = p.delivery_fail_count;
  trip_status = TripStatus.completed;
  driver_notes = or_null p.driver_notes;
}

pub record TripResult : Type 0 where
  pub trip_key : ℕ
  pub distance_km : Option ℤ
  pub already_ended : Bool

-- The odometer guard of endTrip is against the trip's own start.
unfoldable pub check_end : TripEnd → Opts → ℤ → Trip → Exec (Unit {0})
check_end p opts end t =
    throw_if (not opts.conflict_override && odometer_regressed t.start_odometer end) (
      if opts.conflict_as_error
      then conflict "End odometer ${p.endOdometer} below start odometer ${trip.start_odometer}"
          (ServerVersion.trip t) (Payload.trip_end p)
      else http 409 "endOdometer (${p.endOdometer}) is below the trip's start odometer")

-- The writes of endTrip. The vehicle is updated only if its odometer advances.
unfoldable pub complete_trip : Actor → TripEnd → ℤ → Trip → Exec TripResult
complete_trip actor p end t = do
  let distance = end -ℤ t.start_odometer
  with_transaction do
    execute (λ db. record db {
      trips = update_rows (λ r. r.trip_key == p.trip_key) (ended_trip p end distance db) db.trips;
    })
    execute (λ db.
        update_vehicles (λ r. (r.key == t.vehicle_key) && ltb_ℤ r.body.current_odometer end)
          (λ v. record v {
            current_odometer = end;
            status = VehicleStatus.active;
            updated_at = db.now;
          })
          db)
    record_change Dataset.vehicles actor.business_key t.vehicle_key upsert
  pure (record { trip_key = p.trip_key; distance_km = some distance; already_ended = false })

unfoldable pub end_trip : Actor → TripEnd → Opts → Exec TripResult
end_trip actor p opts = do
  end ← or_throw p.end_odometer (http 400 "endOdometer required")
  found ← query (λ db.
      first_row (λ (t : Trip). (t.trip_key == p.trip_key) && (t.business_key == actor.business_key))
        db.trips)
  t ← or_throw found (
      if opts.conflict_as_error
      then conflict "Trip not found on server" ServerVersion.absent (Payload.trip_end p)
      else http 404 "Active trip not found")
  if is_ended t.trip_status
      then pure (record { trip_key = p.trip_key; distance_km = none; already_ended = true })
      else do check_end p opts end t; complete_trip actor p end t
