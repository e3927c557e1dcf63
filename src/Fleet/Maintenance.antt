-- ===== src/Fleet/Maintenance.antt =====
-- backend/src/services/fleetService.js: reportMaintenance, approveMaintenance.
use renuzi_ops_platform.Prelude.{
  ℕ, ℤ, pos, ltb_ℤ, eq_ℤ, Bool, true, false, not, ◌&&◌, Option, none, some, [], ◌∷◌, ◌++◌, ◌==◌,
  str_eq, if◌then◌else◌, or_else, first_row, update_rows,
}
use renuzi_ops_platform.Constants.{ApprovalStatus, MaintenanceType, MaintenanceStatus}
use renuzi_ops_platform.Schema.{Maintenance}
use renuzi_ops_platform.Payload.{Actor, MaintenanceReport, http}
use renuzi_ops_platform.Database.{Db}
use renuzi_ops_platform.Exec.{Exec, pure, throw, query, throw_if, execute, identity, ◌>>=◌, ◌>>◌}
use renuzi_ops_platform.Guards.{
  or_throw, number_or_null, config_value, get_config, get_owned_vehicle, resolve_date_key,
}

abbrev pub check_type : MaintenanceType → Exec (Unit {0})
check_type MaintenanceType.missing =
    throw (http 400 "vehicleKey, maintenanceType, description required")
check_type MaintenanceType.unknown = throw (http 400 "maintenanceType must be one of: …")
check_type _ = pure tt

-- 100000 in hundredths.
abbrev pub default_threshold : ℤ
default_threshold = pos 10000000

-- `cost && cost > threshold`
abbrev pub above : ℤ → ℤ → Bool
above cost threshold = not (eq_ℤ cost (pos 0)) && ltb_ℤ threshold cost

unfoldable pub report_maintenance : Actor → MaintenanceReport → Exec (ℕ × Bool)
report_maintenance actor p = do
  throw_if (str_eq p.description "") (http 400 "vehicleKey, maintenanceType, description required")
  check_type p.maintenance_type
  get_owned_vehicle actor.business_key p.vehicle_key
  threshold ← get_config "MAINTENANCE_MD_THRESHOLD" default_threshold
  let needs_md = above p.estimated_cost threshold
  date_key ← resolve_date_key
  maintenance_key ← identity
  execute (λ db. record db {
    maintenance =
        db.maintenance
        ++ record {
          maintenance_key = maintenance_key;
          business_key = actor.business_key;
          vehicle_key = p.vehicle_key;
          reported_by_key = actor.user_key;
          date_key = date_key;
          maintenance_type = p.maintenance_type;
          priority = if str_eq p.priority "" then "MEDIUM" else p.priority;
          description = p.description;
          estimated_cost = number_or_null p.estimated_cost;
          approval_status =
              if needs_md then ApprovalStatus.pending else ApprovalStatus.ops_approved;
          ops_approved_by_key = 0;
          md_approved_by_key = 0;
          mobile_device_id = actor.device_id;
          maintenance_status = MaintenanceStatus.opened;
          completion_notes = none;
          actual_cost = none;
          vendor_name = none;
          invoice_number = none;
          work_start_date = none;
          work_completion_date = none;
        }
          ∷ [];
  })
  pure (maintenance_key, needs_md)

abbrev pub owned_ticket : ℕ → ℕ → Maintenance → Bool
owned_ticket business_key maintenance_key m =
    (m.maintenance_key == maintenance_key) && (m.business_key == business_key)

-- The CROSS JOIN with app_config: no ticket without a configured threshold.
abbrev pub join_threshold : Option Maintenance → Option (Option ℤ) → Option (Maintenance × Option ℤ)
join_threshold (some m) (some v) = some (m, v)
join_threshold _ _ = none

abbrev pub is_pending : ApprovalStatus → Bool
is_pending ApprovalStatus.pending = true
is_pending _ = false

abbrev pub is_ops_approved : ApprovalStatus → Bool
is_ops_approved ApprovalStatus.ops_approved = true
is_ops_approved _ = false

abbrev pub ticket_needs_md : Option ℤ → ℤ → Bool
ticket_needs_md cost threshold = above (or_else cost (pos 0)) threshold

pub data Level : Type 0 where
  ops md : Level

abbrev pub set_ticket : ℕ → ℕ → (Maintenance → Maintenance) → Db → Db
set_ticket business_key maintenance_key f db = record db {
  maintenance = update_rows (owned_ticket business_key maintenance_key) f db.maintenance;
}

unfoldable pub approve_ops : Actor → ℕ → ApprovalStatus → Bool → Exec Bool
approve_ops actor maintenance_key status needs_md = do
  throw_if (not (is_pending status)) (http 409 "Ticket already ${approval_status}")
  execute (
      set_ticket actor.business_key maintenance_key λ m. record m {
        ops_approved_by_key = actor.user_key;
        approval_status =
            if needs_md then ApprovalStatus.ops_approved else ApprovalStatus.md_approved;
      })
  pure needs_md

unfoldable pub approve_md : Actor → ℕ → ApprovalStatus → Bool → Exec Bool
approve_md actor maintenance_key status needs_md = do
  throw_if (not (is_ops_approved status))
      (http 409 "MD approval requires prior OPS approval (or ticket is already decided).")
  throw_if (not needs_md)
      (http 409 "This ticket is within the OPS threshold and does not require MD approval.")
  execute (
      set_ticket actor.business_key maintenance_key λ m. record m {
        md_approved_by_key = actor.user_key;
        approval_status = ApprovalStatus.md_approved;
      })
  pure needs_md

abbrev pub approve_at : Level → Actor → ℕ → ApprovalStatus → Bool → Exec Bool
approve_at ops = approve_ops
approve_at md = approve_md

unfoldable pub approve_maintenance : Actor → ℕ → Level → Exec Bool
approve_maintenance actor maintenance_key level = do
  ticket ← query (λ db.
      join_threshold (first_row (owned_ticket actor.business_key maintenance_key) db.maintenance)
        (config_value "MAINTENANCE_MD_THRESHOLD" db.config))
  (m, configured) ← or_throw ticket (http 404 "Ticket not found")
  let needs_md = ticket_needs_md m.estimated_cost (or_else configured default_threshold)
  approve_at level actor maintenance_key m.approval_status needs_md
