-- ===== src/Schema.antt =====
-- The rows of the database (backend/database/01_create_database.sql, 02_sync_queue.sql and
-- 05_pull_change_log.sql) that the services read and write. A key of 0 is NULL (identities begin
-- at 1); decimal columns are integers, in units of their last digit; times are in milliseconds.
use renuzi_ops_platform.Prelude.{ℕ, ℤ, String, Bool, Option, List}
use renuzi_ops_platform.Constants.{
  VehicleStatus, TripStatus, CheckStatus, FuelRequestStatus, ApprovalStatus, MaintenanceType,
  MaintenanceStatus, Role, DispatchStatus, ReceiptStatus, MovementType, ReturnType, ReturnStatus,
  ChangeOp, Dataset, vehicles, routes, customers, products, dispatches, grns,
}

-- What every table of PULL_DATASETS has: its key, its tenant and its version, beside its columns.
pub record Row (B : Type 0) : Type 0 where
  pub key : ℕ
  pub business_key : ℕ
  pub version_no : ℕ
  pub body : B

pub record Vehicle : Type 0 where
  pub current_odometer : ℤ
  pub status : VehicleStatus
  pub assigned_driver_key : ℕ
  pub is_active : Bool
  pub updated_at : ℕ

-- dim_route, dim_customer, dim_product: the services only read that the row is there.
pub record Dimension : Type 0 where
  pub name : String
  pub is_active : Bool

pub record Dispatch : Type 0 where
  pub customer_key : ℕ
  pub dispatched_by_key : ℕ
  pub driver_key : ℕ
  pub vehicle_key : ℕ
  pub date_key : ℕ
  pub dispatch_number : List ℕ
  pub invoice_number : String
  pub warehouse_stamp : Bool
  pub warehouse_signed_by_key : ℕ
  pub warehouse_sign_datetime : Option ℕ
  pub security_stamp : Bool
  pub security_signed_by_key : ℕ
  pub security_sign_datetime : Option ℕ
  pub driver_acknowledged : Bool
  pub driver_ack_datetime : Option ℕ
  pub driver_signature_url : Option String
  pub dispatch_status : DispatchStatus
  pub delivery_datetime : Option ℕ
  pub customer_acknowledged : Bool
  pub customer_signature_url : Option String
  pub return_reason : Option String
  pub updated_at : ℕ
  pub sync_timestamp : Option ℕ
  pub mobile_device_id : Option String

pub record Grn : Type 0 where
  pub supplier_key : ℕ
  pub received_by_key : ℕ
  pub date_key : ℕ
  pub grn_number : List ℕ
  pub waybill_number : Option String
  pub invoice_number : Option String
  pub truck_plate_number : Option String
  pub driver_name : Option String
  pub seal_number : Option String
  pub seal_intact : Bool
  pub receipt_status : ReceiptStatus
  pub total_invoice_qty : ℤ
  pub total_received_qty : ℤ
  pub total_rejected_qty : ℤ
  pub rejection_reason : Option String
  pub finance_signoff : Bool
  pub finance_signoff_by_key : ℕ
  pub finance_signoff_datetime : Option ℕ
  pub credit_note_issued : Bool
  pub credit_note_number : Option String
  pub created_at : ℕ
  pub updated_at : ℕ
  pub mobile_device_id : Option String

abbrev pub Body : Dataset → Type 0
Body vehicles = Vehicle
Body routes = Dimension
Body customers = Dimension
Body products = Dimension
Body dispatches = Dispatch
Body grns = Grn

-- payload_json: the columns of the row, with `versionNo` merged last.
pub record Snapshot (ds : Dataset) : Type 0 where
  pub row : Row (Body ds)
  pub version_no : ℕ

pub record Change : Type 0 where
  pub change_key : ℕ
  pub business_key : ℕ
  pub entity_type : Dataset
  pub entity_key : ℕ
  pub op : ChangeOp
  pub version_no : ℕ
  pub payload_json : Option (Snapshot entity_type)
  pub created_at : ℕ

pub record Trip : Type 0 where
  pub trip_key : ℕ
  pub business_key : ℕ
  pub vehicle_key : ℕ
  pub driver_key : ℕ
  pub route_key : ℕ
  pub date_key : ℕ
  pub trip_start_time : ℕ
  pub start_odometer : ℤ
  pub start_latitude : Option ℤ
  pub start_longitude : Option ℤ
  pub trip_end_time : Option ℕ
  pub end_odometer : Option ℤ
  pub end_latitude : Option ℤ
  pub end_longitude : Option ℤ
  pub distance_km : Option ℤ
  pub stores_visited : ℕ
  pub delivery_success_count : ℕ
  pub delivery_fail_count : ℕ
  pub trip_status : TripStatus
  pub driver_notes : Option String
  pub mobile_device_id : Option String

-- The eleven yes/no answers of a daily check.
pub record Checklist : Type 0 where
  pub tires_ok : Bool
  pub lights_ok : Bool
  pub brakes_ok : Bool
  pub engine_ok : Bool
  pub oil_level_ok : Bool
  pub coolant_ok : Bool
  pub wipers_ok : Bool
  pub mirrors_ok : Bool
  pub seatbelts_ok : Bool
  pub fire_extinguisher_ok : Bool
  pub first_aid_kit_ok : Bool

pub record VehicleCheck : Type 0 where
  pub check_key : ℕ
  pub business_key : ℕ
  pub vehicle_key : ℕ
  pub driver_key : ℕ
  pub date_key : ℕ
  pub check_datetime : ℕ
  pub latitude : Option ℤ
  pub longitude : Option ℤ
  pub answers : Checklist
  pub has_damage : Bool
  pub damage_description : Option String
  pub damage_photo_url : Option String
  pub check_status : CheckStatus
  pub mobile_device_id : Option String

pub record FuelRequest : Type 0 where
  pub fuel_request_key : ℕ
  pub business_key : ℕ
  pub vehicle_key : ℕ
  pub driver_key : ℕ
  pub date_key : ℕ
  pub request_type : String
  pub amount_requested : ℤ
  pub liters_requested : Option ℤ
  pub reason : Option String
  pub approval_status : FuelRequestStatus
  pub approved_by_key : ℕ
  pub approval_notes : Option String
  pub disbursed_amount : Option ℤ
  pub mobile_device_id : Option String

pub record FuelLog : Type 0 where
  pub fuel_log_key : ℕ
  pub business_key : ℕ
  pub vehicle_key : ℕ
  pub driver_key : ℕ
  pub fuel_request_key : ℕ
  pub date_key : ℕ
  pub refuel_datetime : ℕ
  pub odometer_reading : ℤ
  pub liters_filled : ℤ
  pub cost_per_liter : Option ℤ
  pub total_cost : Option ℤ
  pub station_name : Option String
  pub receipt_photo_url : Option String
  pub km_since_last_refuel : ℤ
  pub liters_per_100km : Option ℤ
  pub mobile_device_id : Option String

pub record Maintenance : Type 0 where
  pub maintenance_key : ℕ
  pub business_key : ℕ
  pub vehicle_key : ℕ
  pub reported_by_key : ℕ
  pub date_key : ℕ
  pub maintenance_type : MaintenanceType
  pub priority : String
  pub description : String
  pub estimated_cost : Option ℤ
  pub approval_status : ApprovalStatus
  pub ops_approved_by_key : ℕ
  pub md_approved_by_key : ℕ
  pub mobile_device_id : Option String
  pub maintenance_status : MaintenanceStatus
  pub completion_notes : Option String
  pub actual_cost : Option ℤ
  pub vendor_name : Option String
  pub invoice_number : Option String
  pub work_start_date : Option ℕ
  pub work_completion_date : Option ℕ

pub record GrnLine : Type 0 where
  pub grn_line_key : ℕ
  pub grn_key : ℕ
  pub product_key : ℕ
  pub invoice_qty : ℤ
  pub received_qty : ℤ
  pub rejected_qty : ℤ
  pub production_date : Option ℕ
  pub expiry_date : Option ℕ
  pub batch_number : Option String
  pub is_damaged : Bool
  pub is_expired : Bool
  pub is_near_expiry : Bool
  pub near_expiry_days : Option ℤ
  pub rejection_reason : Option String
  pub allocated_location : Option String
  pub fifo_compliant : Bool

pub record DispatchLine : Type 0 where
  pub dispatch_line_key : ℕ
  pub dispatch_key : ℕ
  pub product_key : ℕ
  pub invoice_qty : ℤ
  pub picked_qty : ℤ
  pub loaded_qty : ℤ
  pub delivered_qty : ℤ
  pub returned_qty : ℤ
  pub unit_price : Option ℤ
  pub line_total : Option ℤ

pub record StockMovement : Type 0 where
  pub movement_key : ℕ
  pub business_key : ℕ
  pub product_key : ℕ
  pub warehouse_location : String
  pub date_key : ℕ
  pub movement_type : MovementType
  pub reference_key : ℕ
  pub reference_type : String
  pub quantity : ℤ
  pub recorded_by_key : ℕ
  pub mobile_device_id : Option String

pub record GoodsReturn : Type 0 where
  pub return_key : ℕ
  pub business_key : ℕ
  pub customer_key : ℕ
  pub product_key : ℕ
  pub returned_by_key : ℕ
  pub date_key : ℕ
  pub return_type : ReturnType
  pub original_invoice : Option String
  pub batch_number : Option String
  pub quantity_returned : ℤ
  pub credit_note_requested : Bool
  pub return_status : ReturnStatus
  pub mobile_device_id : Option String

pub record StockCount : Type 0 where
  pub count_key : ℕ
  pub business_key : ℕ
  pub product_key : ℕ
  pub warehouse_location : String
  pub date_key : ℕ
  pub counted_by_key : ℕ
  pub witnessed_by_key : ℕ
  pub system_qty : ℤ
  pub physical_count : ℤ
  pub variance : ℤ
  pub variance_reason : Option String
  pub mobile_device_id : Option String

pub record Business : Type 0 where
  pub business_key : ℕ
  pub business_id : List ℕ
  pub is_active : Bool

pub record User : Type 0 where
  pub user_key : ℕ
  pub business_key : ℕ
  pub user_id : String
  pub role : Role
  pub is_active : Bool
  pub must_change_password : Bool
  pub password_hash : String
  pub license_expiry : Option ℕ
