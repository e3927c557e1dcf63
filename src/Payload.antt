-- ===== src/Payload.antt =====
-- The request bodies of the services, and the sum of those that a device may queue
-- (sync_queue.payload_json with its entity_type). A key of 0, a text "" and, where the code reads
-- `x || 0`, a quantity of 0 stand for an absent property too: the code tells them apart nowhere.
-- A property that is compared with `undefined` is an Option.
use renuzi_ops_platform.Prelude.{ℕ, ℤ, String, Bool, Option, List}
use renuzi_ops_platform.Constants.{MaintenanceType, MovementType, ReturnType}
use renuzi_ops_platform.Schema.{Checklist, Trip, Row, Dispatch}

pub record Actor : Type 0 where
  pub user_key : ℕ
  pub business_key : ℕ
  pub device_id : Option String
  pub conflict_override : Bool

-- The last argument of the services that detect conflicts.
pub record Opts : Type 0 where
  pub conflict_as_error : Bool
  pub conflict_override : Bool

pub record OdometerUpdate : Type 0 where
  pub vehicle_key : ℕ
  pub odometer_reading : Option ℤ

pub record CheckForm : Type 0 where
  pub vehicle_key : ℕ
  pub latitude : ℤ
  pub longitude : ℤ
  pub answers : Checklist
  pub has_damage : Bool
  pub damage_description : String
  pub damage_photo_url : String

pub record TripStart : Type 0 where
  pub vehicle_key : ℕ
  pub start_odometer : Option ℤ
  pub trip_key : ℕ
  pub route_key : ℕ
  pub start_time : Option ℕ
  pub latitude : ℤ
  pub longitude : ℤ
  pub driver_notes : String

pub record TripEnd : Type 0 where
  pub trip_key : ℕ
  pub end_odometer : Option ℤ
  pub end_time : Option ℕ
  pub latitude : ℤ
  pub longitude : ℤ
  pub stores_visited : ℕ
  pub delivery_success_count : ℕ
  pub delivery_fail_count : ℕ
  pub driver_notes : String

pub record FuelAsk : Type 0 where
  pub vehicle_key : ℕ
  pub amount_requested : ℤ
  pub request_type : String
  pub liters_requested : ℤ
  pub reason : String

pub record FuelEntry : Type 0 where
  pub vehicle_key : ℕ
  pub fuel_request_key : ℕ
  pub odometer_reading : ℤ
  pub liters_filled : ℤ
  pub cost_per_liter : ℤ
  pub total_cost : ℤ
  pub station_name : String
  pub receipt_photo_url : String

pub record MaintenanceReport : Type 0 where
  pub vehicle_key : ℕ
  pub maintenance_type : MaintenanceType
  pub description : String
  pub priority : String
  pub estimated_cost : ℤ

pub record GrnLineForm : Type 0 where
  pub product_key : ℕ
  pub invoice_qty : ℤ
  pub received_qty : ℤ
  pub rejected_qty : ℤ
  pub production_date : Option ℕ
  pub expiry_date : Option ℕ
  pub batch_number : String
  pub is_damaged : Bool
  pub is_expired : Bool
  pub is_near_expiry : Bool
  pub near_expiry_days : ℤ
  pub rejection_reason : String
  pub allocated_location : String
  pub fifo_compliant : Bool

pub record GrnForm : Type 0 where
  pub supplier_key : ℕ
  pub waybill_number : String
  pub invoice_number : String
  pub truck_plate_number : String
  pub driver_name : String
  pub seal_number : String
  pub seal_intact : Bool
  pub total_invoice_qty : Option ℤ
  pub total_received_qty : Option ℤ
  pub total_rejected_qty : Option ℤ
  pub rejection_reason : String
  pub lines : List GrnLineForm

pub record DispatchLineForm : Type 0 where
  pub product_key : ℕ
  pub invoice_qty : ℤ
  pub picked_qty : ℤ
  pub loaded_qty : ℤ
  pub unit_price : ℤ

pub record DispatchForm : Type 0 where
  pub customer_key : ℕ
  pub invoice_number : String
  pub driver_key : ℕ
  pub vehicle_key : ℕ
  pub lines : List DispatchLineForm

pub record LoadedQuantity : Type 0 where
  pub line_key : ℕ
  pub loaded_qty : Option ℤ

pub record LineDelivery : Type 0 where
  pub line_key : ℕ
  pub delivered_qty : Option ℤ
  pub returned_qty : Option ℤ

-- The payload of a custody stamp. A list that is absent, or is no array, is empty.
pub record DispatchAck : Type 0 where
  pub dispatch_key : ℕ
  pub stage : List ℕ
  pub loaded_quantities : List LoadedQuantity
  pub driver_signature_url : String
  pub customer_signature_url : String
  pub returned : Bool
  pub return_reason : String
  pub line_deliveries : List LineDelivery

pub record MovementForm : Type 0 where
  pub product_key : ℕ
  pub movement_type : MovementType
  pub quantity : Option ℤ
  pub warehouse_location : String
  pub to_business_key : ℕ

pub record CountForm : Type 0 where
  pub product_key : ℕ
  pub warehouse_location : String
  pub system_qty : Option ℤ
  pub physical_count : Option ℤ
  pub witnessed_by_key : ℕ
  pub variance_reason : String

pub record ReturnForm : Type 0 where
  pub customer_key : ℕ
  pub product_key : ℕ
  pub return_type : ReturnType
  pub original_invoice : String
  pub batch_number : String
  pub quantity_returned : ℤ
  pub credit_note_requested : Bool

-- SYNC_ENTITY_TYPES, each with the body that its processor reads; `unknown` is any other type.
-- An odometer update is not queued, but a conflict may carry one.
pub data Payload : Type 0 where
  vehicle_check : CheckForm → Payload
  trip_start : TripStart → Payload
  trip_end : TripEnd → Payload
  fuel_request : FuelAsk → Payload
  fuel_log : FuelEntry → Payload
  maintenance : MaintenanceReport → Payload
  grn : GrnForm → Payload
  dispatch_ack : DispatchAck → Payload
  stock_count : CountForm → Payload
  stock_movement : MovementForm → Payload
  goods_return : ReturnForm → Payload
  odometer_update : OdometerUpdate → Payload
  unknown : String → Payload

-- SyncConflictError.serverVersion
pub data ServerVersion : Type 0 where
  absent : ServerVersion
  odometer : ℤ → ServerVersion
  active_trip : ℕ → ServerVersion
  trip : Trip → ServerVersion
  dispatch : Row Dispatch → ServerVersion

-- What the services throw. Messages are the source's templates, their `${…}` left in place.
-- `sql_error` is a statement that SQL Server refuses, `reference_error` a name that is not bound.
pub data Error : Type 0 where
  http : ℕ → String → Error
  conflict : String → ServerVersion → Payload → Error
  plain : String → Error
  sql_error : String → Error
  reference_error : String → Error
