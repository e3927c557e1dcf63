-- ===== src/Processors/FleetKeeps.antt =====
-- The fleet processors keep every relation that allows their writes.
use renuzi_ops_platform.Prelude.{
  update_rows, ℕ, ℤ, ◌≤ℤ◌, ltb_ℤ, ◌≡◌, ◌==◌, Bool, true, ◌&&◌, [], ◌∷◌, ◌++◌, arith,
}
use renuzi_ops_platform.Constants.{VehicleStatus}
use renuzi_ops_platform.Schema.{FuelRequest, FuelLog, Maintenance, Trip}
use renuzi_ops_platform.Payload.{
  Actor, Opts, CheckForm, TripStart, TripEnd, FuelAsk, FuelEntry, MaintenanceReport,
}
use renuzi_ops_platform.Database.{Db}
use renuzi_ops_platform.Exec.{execute}
use renuzi_ops_platform.Exec.Preserves.{Relation, Preserves, preserves_rules}
use renuzi_ops_platform.Guards.ReadOnly.{guard_rules}
use renuzi_ops_platform.Fleet.Vehicles.{update_vehicles, record_vehicle_check}
use renuzi_ops_platform.Fleet.Trips.{start_trip, complete_trip, end_trip}
use renuzi_ops_platform.Fleet.Fuel.{create_fuel_request, record_fuel_log}
use renuzi_ops_platform.Fleet.Maintenance.{report_maintenance}
use renuzi_ops_platform.Fleet.Atomicity.{
  IsReadOnly-check_odometer, IsReadOnly-check_start, IsReadOnly-check_end, IsReadOnly-check_type,
}
use renuzi_ops_platform.Processors.Laws.{ServiceLaws}
use renuzi_ops_platform.Processors.Writes.{
  Preserves-facts, Preserves-raise, Preserves-record_change,
}

-- The readings that the guarded UPDATE lets through are above the vehicle's.
raised : (b : Bool) (x y : ℤ) → (b && ltb_ℤ x y) ≡ true → x ≤ℤ y
raised b x y h = ground arith

module _ {R : Relation} (L : ServiceLaws R) where
  pub Preserves-record_vehicle_check :
      (a : Actor) (p : CheckForm) → Preserves R (record_vehicle_check a p)
  unfolding record_vehicle_check
  Preserves-record_vehicle_check a p =
      search ((Preserves-facts L), preserves_rules, guard_rules) depth 12

  Preserves-on_route :
      (k : ℕ)
      → Preserves R (
          execute (λ db.
            update_vehicles
              (λ r. r.key == k)
              (λ v. record v { status = VehicleStatus.on_route; updated_at = db.now })
              db))
  Preserves-on_route k = Preserves-raise L _ _ (λ db r h. omega arith)

  Preserves-insert_trip :
      (t : Db → Trip) → Preserves R (execute (λ db. record db { trips = db.trips ++ t db ∷ [] }))
  Preserves-insert_trip t = search ((Preserves-facts L))

  pub Preserves-start_trip : (a : Actor) (p : TripStart) (o : Opts) → Preserves R (start_trip a p o)
  unfolding start_trip
  Preserves-start_trip a p o =
      search
        (
          Preserves-insert_trip,
          Preserves-on_route,
          Preserves-record_change L,
          preserves_rules,
          guard_rules,
          IsReadOnly-check_start,
        )
        depth 12

  Preserves-update_trips :
      (q : Trip → Bool) (f : Db → Trip → Trip)
      → Preserves R (execute (λ db. record db { trips = update_rows q (f db) db.trips }))
  Preserves-update_trips q f = search ((Preserves-facts L))

  Preserves-arrive :
      (k : ℕ) (x : ℤ)
      → Preserves R (
          execute (λ db.
            update_vehicles
              (λ r. (r.key == k) && ltb_ℤ r.body.current_odometer x)
              (λ v. record v {
                current_odometer = x;
                status = VehicleStatus.active;
                updated_at = db.now;
              })
              db))
  Preserves-arrive k x =
      Preserves-raise L _ _ (λ db r h. raised (r.key == k) r.body.current_odometer x h)

  Preserves-advance :
      (k : ℕ) (x : ℤ)
      → Preserves R (
          execute (λ db.
            update_vehicles
              (λ r. (r.key == k) && ltb_ℤ r.body.current_odometer x)
              (λ v. record v { current_odometer = x; updated_at = db.now })
              db))
  Preserves-advance k x =
      Preserves-raise L _ _ (λ db r h. raised (r.key == k) r.body.current_odometer x h)

  Preserves-complete_trip :
      (a : Actor) (p : TripEnd) (e : ℤ) (t : Trip) → Preserves R (complete_trip a p e t)
  unfolding complete_trip
  Preserves-complete_trip a p e t =
      search (Preserves-update_trips, Preserves-arrive, Preserves-record_change L, preserves_rules)
        depth 12

  pub Preserves-end_trip : (a : Actor) (p : TripEnd) (o : Opts) → Preserves R (end_trip a p o)
  unfolding end_trip
  Preserves-end_trip a p o =
      search (Preserves-complete_trip, IsReadOnly-check_end, preserves_rules, guard_rules) depth 12

  Preserves-insert_fuel_request :
      (x : FuelRequest)
      → Preserves R (execute (λ db. record db { fuel_requests = db.fuel_requests ++ x ∷ [] }))
  Preserves-insert_fuel_request x = search ((Preserves-facts L))

  pub Preserves-create_fuel_request :
      (a : Actor) (p : FuelAsk) → Preserves R (create_fuel_request a p)
  unfolding create_fuel_request
  Preserves-create_fuel_request a p =
      search (Preserves-insert_fuel_request, preserves_rules, guard_rules) depth 12

  Preserves-insert_fuel_log :
      (x : Db → FuelLog)
      → Preserves R (execute (λ db. record db { fuel_logs = db.fuel_logs ++ x db ∷ [] }))
  Preserves-insert_fuel_log x = search ((Preserves-facts L))

  pub Preserves-record_fuel_log :
      (a : Actor) (p : FuelEntry) (o : Opts) → Preserves R (record_fuel_log a p o)
  unfolding record_fuel_log
  Preserves-record_fuel_log a p o =
      search
        (
          Preserves-insert_fuel_log,
          Preserves-advance,
          Preserves-record_change L,
          IsReadOnly-check_odometer,
          preserves_rules,
          guard_rules,
        )
        depth 12

  Preserves-insert_maintenance :
      (x : Maintenance)
      → Preserves R (execute (λ db. record db { maintenance = db.maintenance ++ x ∷ [] }))
  Preserves-insert_maintenance x = search ((Preserves-facts L))

  pub Preserves-report_maintenance :
      (a : Actor) (p : MaintenanceReport) → Preserves R (report_maintenance a p)
  unfolding report_maintenance
  Preserves-report_maintenance a p =
      search (Preserves-insert_maintenance, IsReadOnly-check_type, preserves_rules, guard_rules)
        depth 12
