-- ===== src/Http/FleetRoutes.antt =====
-- The routes of backend/src/routes/fleet.js that change state; the others are reports.
use renuzi_ops_platform.Prelude.{
  ℕ, ◌/◌, ℤ, String, Bool, true, false, not, ◌&&◌, Option, none, some, if◌then◌else◌, first_row,
}
use renuzi_ops_platform.Constants.{FuelRequestStatus, ApprovalStatus, MaintenanceStatus}
use renuzi_ops_platform.Schema.{User, Maintenance}
use renuzi_ops_platform.Payload.{
  Opts, CheckForm, TripStart, TripEnd, FuelAsk, FuelEntry, MaintenanceReport,
}
use renuzi_ops_platform.Exec.{Exec, pure, query, execute, ◌>>=◌, ◌>>◌}
use renuzi_ops_platform.Guards.{or_null}
use renuzi_ops_platform.Fleet.Vehicles.{update_vehicle_odometer, record_vehicle_check}
use renuzi_ops_platform.Fleet.Trips.{start_trip, end_trip}
use renuzi_ops_platform.Fleet.Fuel.{
  Decision, create_fuel_request, record_fuel_log, decide_fuel_request,
}
use renuzi_ops_platform.Fleet.Maintenance.{
  Level, owned_ticket, set_ticket, report_maintenance, approve_maintenance,
}
use renuzi_ops_platform.Http.Message.{Response, reply, respond, actor_of}

-- The services' last argument is absent.
abbrev pub online_opts : Opts
online_opts = record { conflict_as_error = false; conflict_override = false }

unfoldable pub put_odometer : ℕ → Option ℤ → User → Exec Response
put_odometer vehicle_key reading u =
    respond
      (update_vehicle_odometer (actor_of u none)
        (record { vehicle_key = vehicle_key; odometer_reading = reading }) online_opts)
      (λ k. reply 200 "Odometer updated") "Request failed"

unfoldable pub post_check : Option String → CheckForm → User → Exec Response
post_check device p u =
    respond (record_vehicle_check (actor_of u device) p) (λ r. reply 201 "Vehicle check recorded")
      "Request failed"

unfoldable pub post_trip_start : Option String → TripStart → User → Exec Response
post_trip_start device p u =
    respond (start_trip (actor_of u device) p online_opts) (λ k. reply 201 "Trip started")
      "Request failed"

-- The key of the path replaces that of the body.
unfoldable pub post_trip_end : Option String → ℕ → TripEnd → User → Exec Response
post_trip_end device trip_key p u =
    respond (end_trip (actor_of u device) (record p { trip_key = trip_key }) online_opts)
      (λ r. reply 200 "Trip completed") "Request failed"

unfoldable pub post_fuel_request : Option String → FuelAsk → User → Exec Response
post_fuel_request device p u =
    respond (create_fuel_request (actor_of u device) p) (λ k. reply 201 "Fuel request submitted")
      "Request failed"

abbrev pub decide : ℕ → Decision → User → Exec Response
decide key d u =
    respond (decide_fuel_request (actor_of u none) key d)
      (λ x. reply 200 "Fuel request ${approvalStatus}") "Request failed"

-- `approvalStatus` is APPROVED, REJECTED or anything else.
unfoldable pub put_fuel_decision : ℕ → Decision → User → Exec Response
put_fuel_decision key d u = by_status d.approval_status
  where
    by_status : FuelRequestStatus → Exec Response
    by_status FuelRequestStatus.pending =
        pure (reply 400 "approvalStatus must be APPROVED or REJECTED")
    by_status _ = decide key d u

unfoldable pub post_fuel_log : Option String → FuelEntry → User → Exec Response
post_fuel_log device p u =
    respond (record_fuel_log (actor_of u device) p online_opts) (λ r. reply 201 "Fuel log recorded")
      "Request failed"

unfoldable pub post_maintenance : Option String → MaintenanceReport → User → Exec Response
post_maintenance device p u =
    respond (report_maintenance (actor_of u device) p)
      (λ r. reply 201 (
        if r.1
        then "Maintenance ticket created (requires MD approval)"
        else "Maintenance ticket created"))
      "Request failed"

-- `none` is an approvalLevel that is neither OPS nor MD.
unfoldable pub put_approval : ℕ → Option Level → User → Exec Response
put_approval key none u = pure (reply 400 "approvalLevel must be OPS or MD")
put_approval key (some level) u =
    respond (approve_maintenance (actor_of u none) key level)
      (λ needs_md. reply 200 (
        if needs_md
        then "OPS approval recorded. MD approval still required (above threshold)."
        else "OPS approval recorded. Ticket fully approved (within threshold)."))
      "Request failed"

-- The body of PUT …/status; `none` is no maintenanceStatus.
pub record WorkForm : Type 0 where
  pub maintenance_status : Option MaintenanceStatus
  pub completion_notes : String
  pub actual_cost : Option ℤ
  pub vendor_name : String
  pub invoice_number : String

-- COALESCE(@value, column)
abbrev pub coalesce : {A : Type 0} → Option A → Option A → Option A
coalesce none old = old
coalesce (some v) old = some v

abbrev pub is_work : MaintenanceStatus → Bool
is_work MaintenanceStatus.in_progress = true
is_work MaintenanceStatus.completed = true
is_work _ = false

abbrev pub may_work : ApprovalStatus → Bool
may_work ApprovalStatus.md_approved = true
may_work ApprovalStatus.ops_approved = true
may_work _ = false

abbrev pub start_date : MaintenanceStatus → ℕ → Option ℕ → Option ℕ
start_date MaintenanceStatus.in_progress day none = some day
start_date _ day old = old

abbrev pub completion_date : MaintenanceStatus → ℕ → Option ℕ → Option ℕ
completion_date MaintenanceStatus.completed day old = some day
completion_date _ day old = old

-- A DATE is a number of days.
abbrev pub worked : MaintenanceStatus → WorkForm → ℕ → Maintenance → Maintenance
worked status p now m = record m {
  maintenance_status = status;
  completion_notes = coalesce (or_null p.completion_notes) m.completion_notes;
  actual_cost = coalesce p.actual_cost m.actual_cost;
  vendor_name = coalesce (or_null p.vendor_name) m.vendor_name;
  invoice_number = coalesce (or_null p.invoice_number) m.invoice_number;
  work_start_date = start_date status (now / 86400000) m.work_start_date;
  work_completion_date = completion_date status (now / 86400000) m.work_completion_date;
}

abbrev pub set_work : ℕ → MaintenanceStatus → WorkForm → User → Option Maintenance → Exec Response
set_work key status p u none = pure (reply 404 "Ticket not found")
set_work key status p u (some m) =
    if is_work status && not (may_work m.approval_status)
    then pure (reply 409 "Ticket must be approved before work can progress")
    else (do
      execute (λ db. set_ticket u.business_key key (worked status p db.now) db)
      pure (reply 200 "Maintenance marked ${maintenanceStatus}"))

abbrev pub checked_work : ℕ → Option MaintenanceStatus → WorkForm → User → Exec Response
checked_work key none p u = pure (reply 400 "maintenanceStatus must be one of: …")
checked_work key (some status) p u = do
  ticket ← query (λ db. first_row (owned_ticket u.business_key key) db.maintenance)
  set_work key status p u ticket

unfoldable pub put_work_status : ℕ → WorkForm → User → Exec Response
put_work_status key p u = checked_work key p.maintenance_status p u
