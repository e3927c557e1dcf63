-- ===== src/Fleet/Vehicles.antt =====
-- backend/src/services/fleetService.js: computeCheckStatus, updateVehicleOdometer,
-- recordVehicleCheck.
use renuzi_ops_platform.Prelude.{
  String, ℕ, ℤ, pos, ltb_ℤ, Bool, not, ◌&&◌, Option, none, some, [], ◌∷◌, ◌++◌, ◌==◌, if◌then◌else◌,
  update_rows,
}
use renuzi_ops_platform.Constants.{CheckStatus, Dataset, upsert}
use renuzi_ops_platform.Schema.{Row, Vehicle, Checklist}
use renuzi_ops_platform.Payload.{
  Payload, Actor, Opts, OdometerUpdate, CheckForm, ServerVersion, http, conflict,
}
use renuzi_ops_platform.Database.{Db}
use renuzi_ops_platform.Exec.{
  Exec, pure, throw, throw_if, with_transaction, execute, identity, ◌>>=◌, ◌>>◌,
}
use renuzi_ops_platform.Guards.{
  owned, or_null, number_or_null, odometer_regressed, get_owned_vehicle, resolve_date_key,
}
use renuzi_ops_platform.ChangeLog.{record_change}

abbrev pub all_pass : Checklist → Bool
all_pass c =
    c.tires_ok && c.lights_ok && c.brakes_ok && c.engine_ok && c.oil_level_ok && c.coolant_ok
    && c.wipers_ok && c.mirrors_ok && c.seatbelts_ok && c.fire_extinguisher_ok && c.first_aid_kit_ok

unfoldable pub compute_check_status : Checklist → Bool → CheckStatus
compute_check_status answers has_damage =
    if has_damage
    then CheckStatus.pass_with_issues
    else if all_pass answers
    then CheckStatus.pass
    else CheckStatus.fail

-- UPDATE dim_vehicle SET f WHERE p
abbrev pub update_vehicles : (Row Vehicle → Bool) → (Vehicle → Vehicle) → Db → Db
update_vehicles p f db = record db {
  vehicle_table = update_rows p (λ r. record r { body = f r.body }) db.vehicle_table;
}

-- assertOdometerNotRegressed and its callers' answer: a conflict offline, a 409 online, each with
-- the caller's message.
unfoldable pub check_odometer : String → String → Opts → ℤ → ℤ → Payload → Exec (Unit {0})
check_odometer below regressed opts current submitted p =
    throw_if (not opts.conflict_override && odometer_regressed current submitted) (
      if opts.conflict_as_error
      then conflict below (ServerVersion.odometer current) p
      else http 409 regressed)

-- The reading, or the 400 that its guard throws.
abbrev pub valid_reading : Option ℤ → Exec ℤ
valid_reading none = throw (http 400 "Valid odometer reading required")
valid_reading (some x) =
    if ltb_ℤ x (pos 0) then throw (http 400 "Valid odometer reading required") else pure x

unfoldable pub update_vehicle_odometer : Actor → OdometerUpdate → Opts → Exec ℕ
update_vehicle_odometer actor p opts = do
  reading ← valid_reading p.odometer_reading
  vehicle ← get_owned_vehicle actor.business_key p.vehicle_key
  check_odometer "Odometer ${p.odometerReading} below vehicle odometer ${odo.currentOdometer}"
      "Odometer cannot go backwards (current: ${odo.currentOdometer}, submitted: ${p.odometerReading})"
      opts vehicle.body.current_odometer reading (Payload.odometer_update p)
  with_transaction do
    execute (λ db.
        update_vehicles (owned actor.business_key p.vehicle_key)
          (λ v. record v { current_odometer = reading; updated_at = db.now }) db)
    record_change Dataset.vehicles actor.business_key p.vehicle_key upsert
  pure p.vehicle_key

unfoldable pub record_vehicle_check : Actor → CheckForm → Exec (ℕ × CheckStatus)
record_vehicle_check actor p = do
  throw_if (p.vehicle_key == 0) (http 400 "vehicleKey is required")
  get_owned_vehicle actor.business_key p.vehicle_key
  date_key ← resolve_date_key
  let check_status = compute_check_status p.answers p.has_damage
  check_key ← identity
  execute (λ db. record db {
    vehicle_checks =
        db.vehicle_checks
        ++ record {
          check_key = check_key;
          business_key = actor.business_key;
          vehicle_key = p.vehicle_key;
          driver_key = actor.user_key;
          date_key = date_key;
          check_datetime = db.now;
          latitude = number_or_null p.latitude;
          longitude = number_or_null p.longitude;
          answers = p.answers;
          has_damage = p.has_damage;
          damage_description = or_null p.damage_description;
          damage_photo_url = or_null p.damage_photo_url;
          check_status = check_status;
          mobile_device_id = actor.device_id;
        }
          ∷ [];
  })
  pure (check_key, check_status)
