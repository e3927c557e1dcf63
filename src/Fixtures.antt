-- ===== src/Fixtures.antt =====
-- A small company for the examples: one business, one vehicle, one dispatch, one queued item.
use renuzi_ops_platform.Prelude.{ℕ, pos, true, false, none, some, [], ◌∷◌}
use renuzi_ops_platform.Constants.{VehicleStatus, DispatchStatus, SyncStatus, Role}
use renuzi_ops_platform.Schema.{Row, Vehicle, Checklist, Dispatch, User}
use renuzi_ops_platform.Payload.{Payload, Actor, Opts, TripStart, DispatchAck}
use renuzi_ops_platform.Database.{Db, QueueRow}
use renuzi_ops_platform.DocNumbers.{codes}
use renuzi_ops_platform.Queue.{Worker, Item, ClaimOpts}

abbrev pub truck : Row Vehicle
truck = record {
  key = 7;
  business_key = 1;
  version_no = 3;
  body = record {
    current_odometer = pos 500000;
    status = VehicleStatus.active;
    assigned_driver_key = 11;
    is_active = true;
    updated_at = 0;
  };
}

abbrev pub delivery : Row Dispatch
delivery = record {
  key = 40;
  business_key = 1;
  version_no = 1;
  body = record {
    customer_key = 5;
    dispatched_by_key = 12;
    driver_key = 11;
    vehicle_key = 7;
    date_key = 20260829;
    dispatch_number = codes "DSP-KETU-20260829-001";
    invoice_number = "INV-1";
    warehouse_stamp = true;
    warehouse_signed_by_key = 12;
    warehouse_sign_datetime = some 1000;
    security_stamp = false;
    security_signed_by_key = 0;
    security_sign_datetime = none;
    driver_acknowledged = false;
    driver_ack_datetime = none;
    driver_signature_url = none;
    dispatch_status = DispatchStatus.loaded;
    delivery_datetime = none;
    customer_acknowledged = false;
    customer_signature_url = none;
    return_reason = none;
    updated_at = 1000;
    sync_timestamp = none;
    mobile_device_id = none;
  };
}

abbrev pub ann : Actor
ann = record {
  user_key = 11;
  business_key = 1;
  device_id = some "phone-1";
  conflict_override = false;
}

abbrev pub online : Opts
online = record { conflict_as_error = false; conflict_override = false }

abbrev pub early_trip : TripStart
early_trip = record {
  vehicle_key = 7;
  start_odometer = some (pos 500000);
  trip_key = 0;
  route_key = 0;
  start_time = none;
  latitude = pos 0;
  longitude = pos 0;
  driver_notes = "";
}

-- Its odometer is below the vehicle's.
abbrev pub rolled_back_trip : TripStart
rolled_back_trip = record early_trip { start_odometer = some (pos 499999) }

abbrev pub signature : DispatchAck
signature = record {
  dispatch_key = 40;
  stage = codes "SECURITY";
  loaded_quantities = [];
  driver_signature_url = "";
  customer_signature_url = "";
  returned = false;
  return_reason = "";
  line_deliveries = [];
}

abbrev pub queued_row : ℕ → Payload → QueueRow
queued_row queue_id p = record {
  queue_id = queue_id;
  device_id = "phone-1";
  user_key = 11;
  business_key = 1;
  entity_key = 0;
  client_ref = "ref-1";
  payload_json = p;
  sync_status = SyncStatus.pending;
  retry_count = 0;
  next_retry_at = none;
  claimed_at = none;
  claimed_by = none;
  processed_at = none;
}

abbrev pub first_item : QueueRow
first_item = queued_row 1 (Payload.trip_start rolled_back_trip)

abbrev pub second_item : QueueRow
second_item = queued_row 2 (Payload.unknown "PARCEL")

abbrev pub all_fine : Checklist
all_fine = record {
  tires_ok = true;
  lights_ok = true;
  brakes_ok = true;
  engine_ok = true;
  oil_level_ok = true;
  coolant_ok = true;
  wipers_ok = true;
  mirrors_ok = true;
  seatbelts_ok = true;
  fire_extinguisher_ok = true;
  first_aid_kit_ok = true;
}

abbrev pub checked_item : QueueRow
checked_item = queued_row 3 (
    Payload.vehicle_check (record {
      vehicle_key = 7;
      latitude = pos 0;
      longitude = pos 0;
      answers = all_fine;
      has_damage = false;
      damage_description = "";
      damage_photo_url = "";
    }))

abbrev pub ann_user : User
ann_user = record {
  user_key = 11;
  business_key = 1;
  user_id = "DRV-001";
  role = Role.driver;
  is_active = true;
  must_change_password = false;
  password_hash = "hash-of-secret";
  license_expiry = none;
}

abbrev pub company : Db
company = record {
  now = 1756460000000;
  today = 20260829;
  next_identity = 100;
  dim_date = 20260829 ∷ [];
  businesses = record { business_key = 1; business_id = codes "KETU"; is_active = true } ∷ [];
  users = ann_user ∷ [];
  suppliers = [];
  config = [];
  vehicle_table = truck ∷ [];
  route_table = [];
  customer_table = [];
  product_table = [];
  dispatch_table = delivery ∷ [];
  grn_table = [];
  vehicle_checks = [];
  trips = [];
  fuel_requests = [];
  fuel_logs = [];
  maintenance = [];
  grn_lines = [];
  dispatch_lines = [];
  stock_movements = [];
  goods_returns = [];
  stock_counts = [];
  change_log = [];
  sync_queue = first_item ∷ second_item ∷ [];
  conflict_log = [];
}

abbrev pub server : Worker
server = record {
  worker_id = "worker-1";
  stuck_minutes = 10;
  backoff_base = 30;
  retry_max_default = 3;
  random = λ queue_id. 1;
  random_scale = 2;
}

abbrev pub claim : ClaimOpts
claim = record {
  worker_id = "worker-1";
  business_key = 1;
  max_retry = 3;
  stuck_minutes = 10;
  ignore_backoff = false;
}

abbrev pub sent_item : Item
sent_item = record {
  device_id = "phone-1";
  user_key = 11;
  business_key = 1;
  client_ref = "ref-9";
  payload = Payload.trip_start early_trip;
}
