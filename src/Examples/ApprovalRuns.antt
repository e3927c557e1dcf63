-- ===== src/Examples/ApprovalRuns.antt =====
-- A maintenance ticket above the threshold, which needs both signatures.
use renuzi_ops_platform.Prelude.{◌≡◌, refl, true, none, some, [], ◌∷◌, pos, first_row}
use renuzi_ops_platform.Constants.{ApprovalStatus, MaintenanceType, MaintenanceStatus}
use renuzi_ops_platform.Schema.{Maintenance}
use renuzi_ops_platform.Database.{Db}
use renuzi_ops_platform.Exec.{ok, ◌>>=◌}
use renuzi_ops_platform.Payload.{MaintenanceReport}
use renuzi_ops_platform.Guards.{
  config_value, get_config, get_owned_vehicle, resolve_date_key, contains_key,
}
use renuzi_ops_platform.Fleet.Reports.{IsReported, report_maintenance-IsReported}
use renuzi_ops_platform.Fleet.Maintenance.{
  Level, owned_ticket, approve_ops, approve_maintenance, report_maintenance,
}
use renuzi_ops_platform.Fleet.Approvals.{IsApproved, approve_maintenance-IsApproved}
use renuzi_ops_platform.Fixtures.{company, ann}

abbrev ticket : Maintenance
ticket = record {
  maintenance_key = 6;
  business_key = 1;
  vehicle_key = 7;
  reported_by_key = 11;
  date_key = 20260829;
  maintenance_type = MaintenanceType.repair;
  priority = "HIGH";
  description = "gearbox";
  estimated_cost = some (pos 20000000);
  approval_status = ApprovalStatus.pending;
  ops_approved_by_key = 0;
  md_approved_by_key = 0;
  mobile_device_id = none;
  maintenance_status = MaintenanceStatus.opened;
  completion_notes = none;
  actual_cost = none;
  vendor_name = none;
  invoice_number = none;
  work_start_date = none;
  work_completion_date = none;
}

abbrev workshop : Db
workshop = record company {
  maintenance = ticket ∷ [];
  config = ("MAINTENANCE_MD_THRESHOLD", some (pos 10000000)) ∷ [];
}

ticket_is_there : first_row (owned_ticket 1 6) workshop.maintenance ≡ some ticket
unfolding first_row
ticket_is_there = refl

signed_once : (approve_maintenance ann 6 Level.ops workshop).0 ≡ ok true
unfolding approve_maintenance approve_ops first_row config_value ◌>>=◌
signed_once = refl

approve_maintenance-IsApproved_example :
    IsApproved ann 6 ticket Level.ops true workshop (approve_maintenance ann 6 Level.ops workshop).1
approve_maintenance-IsApproved_example =
    approve_maintenance-IsApproved ann 6 ticket workshop Level.ops true ticket_is_there signed_once

abbrev gearbox : MaintenanceReport
gearbox = record {
  vehicle_key = 7;
  maintenance_type = MaintenanceType.repair;
  description = "gearbox";
  priority = "HIGH";
  estimated_cost = pos 20000000;
}

reported : (report_maintenance ann gearbox workshop).0 ≡ ok (100, true)
unfolding report_maintenance get_owned_vehicle resolve_date_key contains_key first_row config_value
    get_config ◌>>=◌
reported = refl

report_maintenance-IsReported_example :
    IsReported ann gearbox workshop (100, true) (report_maintenance ann gearbox workshop).1
report_maintenance-IsReported_example =
    report_maintenance-IsReported ann gearbox workshop (100, true) reported
