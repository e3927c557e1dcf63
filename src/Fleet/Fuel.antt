-- ===== src/Fleet/Fuel.antt =====
-- backend/src/services/fleetService.js: createFuelRequest, recordFuelLog, decideFuelRequest.
use renuzi_ops_platform.Prelude.{
  ℕ, suc, ◌+◌, ◌*◌, ◌/◌, ℤ, pos, negsuc, ◌-ℤ◌, ltb_ℤ, eq_ℤ, String, Bool, true, false, not, ◌&&◌,
  Option, none, some, List, [], ◌∷◌, ◌++◌, ◌==◌, leb, str_eq, if◌then◌else◌, first_row, update_rows,
}
use renuzi_ops_platform.Constants.{FuelRequestStatus, Dataset, upsert}
use renuzi_ops_platform.Schema.{FuelRequest, FuelLog}
use renuzi_ops_platform.Payload.{Payload, Actor, Opts, FuelAsk, FuelEntry, http}
use renuzi_ops_platform.Exec.{
  Exec, pure, query, throw_if, with_transaction, execute, identity, ◌>>=◌, ◌>>◌,
}
use renuzi_ops_platform.Guards.{
  or_null, or_throw, number_or_null, get_owned_vehicle, resolve_date_key,
}
use renuzi_ops_platform.ChangeLog.{record_change}
use renuzi_ops_platform.Fleet.Vehicles.{update_vehicles, check_odometer}

unfoldable pub create_fuel_request : Actor → FuelAsk → Exec ℕ
create_fuel_request actor p = do
  throw_if (eq_ℤ p.amount_requested (pos 0)) (http 400 "vehicleKey and amountRequested required")
  get_owned_vehicle actor.business_key p.vehicle_key
  date_key ← resolve_date_key
  fuel_request_key ← identity
  execute (λ db. record db {
    fuel_requests =
        db.fuel_requests
        ++ record {
          fuel_request_key = fuel_request_key;
          business_key = actor.business_key;
          vehicle_key = p.vehicle_key;
          driver_key = actor.user_key;
          date_key = date_key;
          request_type = if str_eq p.request_type "" then "CASH" else p.request_type;
          amount_requested = p.amount_requested;
          liters_requested = number_or_null p.liters_requested;
          reason = or_null p.reason;
          approval_status = FuelRequestStatus.pending;
          approved_by_key = 0;
          approval_notes = none;
          disbursed_amount = none;
          mobile_device_id = actor.device_id;
        }
          ∷ [];
  })
  pure fuel_request_key

-- The odometer of the latest refuel among the rows so far; of equal times the later row.
abbrev pub later_log : Option FuelLog → FuelLog → Option FuelLog
later_log none l = some l
later_log (some best) l = if leb best.refuel_datetime l.refuel_datetime then some l else some best

-- SELECT TOP 1 … ORDER BY refuel_datetime DESC
unfoldable pub last_fuel : (FuelLog → Bool) → Option FuelLog → List FuelLog → Option FuelLog
last_fuel p best [] = best
last_fuel p best (l ∷ ls) = last_fuel p (if p l then later_log best l else best) ls

abbrev pub km_since : ℤ → Option FuelLog → ℤ
km_since reading none = pos 0
km_since reading (some l) = reading -ℤ l.odometer_reading

-- liters / km * 100 in hundredths, rounded to the nearest (exact, where the code has a double).
abbrev pub rounded_ratio : ℕ → ℕ → ℕ
rounded_ratio liters km = (2 * 10000 * liters + km) / (2 * km)

abbrev pub liters_per_100km : ℤ → ℤ → Option ℤ
liters_per_100km (pos liters) (pos (suc km)) = some (pos (rounded_ratio liters (suc km)))
liters_per_100km (negsuc liters) (pos (suc km)) =
    some (pos 0 -ℤ pos (rounded_ratio (suc liters) (suc km)))
liters_per_100km _ _ = none

unfoldable pub record_fuel_log : Actor → FuelEntry → Opts → Exec (ℕ × ℤ × Option ℤ)
record_fuel_log actor p opts = do
  throw_if (eq_ℤ p.liters_filled (pos 0))
      (http 400 "vehicleKey, odometerReading, litersFilled required")
  vehicle ← get_owned_vehicle actor.business_key p.vehicle_key
  check_odometer "Fuel odometer ${p.odometerReading} below vehicle odometer ${odo.currentOdometer}"
      "odometerReading (${p.odometerReading}) is below the vehicle's current odometer (${odo.currentOdometer})"
      opts vehicle.body.current_odometer p.odometer_reading (Payload.fuel_log p)
  last ← query (λ db.
      last_fuel (λ l. (l.vehicle_key == p.vehicle_key) && (l.business_key == actor.business_key))
        none db.fuel_logs)
  let km = km_since p.odometer_reading last
  let ratio = liters_per_100km p.liters_filled km
  date_key ← resolve_date_key
  fuel_log_key ← with_transaction do
    fuel_log_key ← identity
    execute (λ db. record db {
      fuel_logs =
          db.fuel_logs
          ++ record {
            fuel_log_key = fuel_log_key;
            business_key = actor.business_key;
            vehicle_key = p.vehicle_key;
            driver_key = actor.user_key;
            fuel_request_key = p.fuel_request_key;
            date_key = date_key;
            refuel_datetime = db.now;
            odometer_reading = p.odometer_reading;
            liters_filled = p.liters_filled;
            cost_per_liter = number_or_null p.cost_per_liter;
            total_cost = number_or_null p.total_cost;
            station_name = or_null p.station_name;
            receipt_photo_url = or_null p.receipt_photo_url;
            km_since_last_refuel = km;
            liters_per_100km = ratio;
            mobile_device_id = actor.device_id;
          }
            ∷ [];
    })
    execute (λ db.
        update_vehicles
          (λ r. (r.key == p.vehicle_key) && ltb_ℤ r.body.current_odometer p.odometer_reading)
          (λ v. record v { current_odometer = p.odometer_reading; updated_at = db.now }) db)
    record_change Dataset.vehicles actor.business_key p.vehicle_key upsert
    pure fuel_log_key
  pure (fuel_log_key, km, ratio)

pub record Decision : Type 0 where
  pub approval_status : FuelRequestStatus
  pub approval_notes : String
  pub disbursed_amount : ℤ

abbrev pub is_pending : FuelRequestStatus → Bool
is_pending FuelRequestStatus.pending = true
is_pending _ = false

-- CASE WHEN @approvalStatus = 'APPROVED' THEN @disbursedAmount ELSE NULL END
abbrev pub disbursed : FuelRequestStatus → ℤ → Option ℤ
disbursed FuelRequestStatus.approved amount = number_or_null amount
disbursed _ amount = none

abbrev pub owned_request : ℕ → ℕ → FuelRequest → Bool
owned_request business_key fuel_request_key r =
    (r.fuel_request_key == fuel_request_key) && (r.business_key == business_key)

abbrev pub decided : Actor → Decision → FuelRequest → FuelRequest
decided actor d r = record r {
  approval_status = d.approval_status;
  approved_by_key = actor.user_key;
  approval_notes = or_null d.approval_notes;
  disbursed_amount = disbursed d.approval_status d.disbursed_amount;
}

unfoldable pub decide_fuel_request : Actor → ℕ → Decision → Exec (Unit {0})
decide_fuel_request actor fuel_request_key decision = do
  found ←
      query (λ db. first_row (owned_request actor.business_key fuel_request_key) db.fuel_requests)
  existing ← or_throw found (http 404 "Fuel request not found")
  throw_if (not (is_pending existing.approval_status)) (http 409 "Fuel request already decided")
  execute (λ db. record db {
    fuel_requests =
        update_rows (owned_request actor.business_key fuel_request_key) (decided actor decision)
          db.fuel_requests;
  })
