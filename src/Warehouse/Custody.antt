-- ===== src/Warehouse/Custody.antt =====
-- backend/src/services/warehouseService.js: stampDispatchCustody, the chain of stamps warehouse,
-- security, driver, customer.
use renuzi_ops_platform.Prelude.{
  ℕ, ℤ, pos, ltb_ℤ, String, Bool, true, false, not, ◌&&◌, ◌||◌, Option, none, some, ◌==◌, str_eq,
  if◌then◌else◌, is_some, or_else, where_rows, update_rows,
}
use renuzi_ops_platform.Constants.{DispatchStatus, MovementType, Dataset, upsert}
use renuzi_ops_platform.Schema.{Row, Dispatch, DispatchLine, StockMovement}
use renuzi_ops_platform.Payload.{
  Payload, Actor, DispatchAck, LoadedQuantity, LineDelivery, ServerVersion, Error, http, conflict,
}
use renuzi_ops_platform.Database.{Db}
use renuzi_ops_platform.Exec.{
  Exec, pure, throw, query, throw_if, with_transaction, execute, identity, when, for_each, ◌>>=◌,
  ◌>>◌,
}
use renuzi_ops_platform.Guards.{owned, or_null, or_throw, resolve_date_key}
use renuzi_ops_platform.ChangeLog.{record_change}
use renuzi_ops_platform.Warehouse.Grn.{add_movement}
use renuzi_ops_platform.Warehouse.Outbound.{get_dispatch}

pub data Stage : Type 0 where
  warehouse security driver customer : Stage

pub record StampOpts : Type 0 where
  pub conflict_as_error : Bool
  pub override_prereqs : Bool

pub record StampResult : Type 0 where
  pub dispatch_key : ℕ
  pub status : DispatchStatus
  pub already_stamped : Bool

unfoldable pub already_staged : Stage → Dispatch → Bool
already_staged warehouse d = d.warehouse_stamp
already_staged security d = d.security_stamp
already_staged driver d = d.driver_acknowledged
already_staged customer d = d.customer_acknowledged

-- The message of the missing prerequisite, if it is missing.
unfoldable pub prereq_missing : Stage → Dispatch → Option String
prereq_missing warehouse d = none
prereq_missing security d =
    if d.warehouse_stamp then none else some "Warehouse must stamp before security"
prereq_missing driver d =
    if d.security_stamp then none else some "Security must stamp before driver acknowledgement"
prereq_missing customer d =
    if d.driver_acknowledged
    then none
    else some "Driver must acknowledge before delivery confirmation"

abbrev pub is_final : DispatchStatus → Bool
is_final DispatchStatus.delivered = true
is_final DispatchStatus.returned = true
is_final _ = false

abbrev pub is_customer : Stage → Bool
is_customer customer = true
is_customer _ = false

-- A refusal: a conflict offline, a 409 online.
abbrev pub refusal : StampOpts → String → Row Dispatch → DispatchAck → Error
refusal opts message d p =
    if opts.conflict_as_error
    then conflict message (ServerVersion.dispatch d) (Payload.dispatch_ack p)
    else http 409 message

abbrev pub check_prereq : StampOpts → Row Dispatch → DispatchAck → Option String → Exec (Unit {0})
check_prereq opts d p none = pure tt
check_prereq opts d p (some message) = throw (refusal opts message d p)

abbrev pub update_dispatches : (Row Dispatch → Bool) → (Dispatch → Dispatch) → Db → Db
update_dispatches p f db = record db {
  dispatch_table = update_rows p (λ r. record r { body = f r.body }) db.dispatch_table;
}

abbrev pub update_lines : ℕ → ℕ → (DispatchLine → DispatchLine) → Db → Db
update_lines dispatch_key line_key f db = record db {
  dispatch_lines =
      update_rows (λ l. (l.dispatch_line_key == line_key) && (l.dispatch_key == dispatch_key)) f
        db.dispatch_lines;
}

-- CASE WHEN dispatch_status = 'PENDING' THEN 'LOADED' ELSE dispatch_status END
abbrev pub load_pending : DispatchStatus → DispatchStatus
load_pending DispatchStatus.pending = DispatchStatus.loaded
load_pending s = s

abbrev pub warehouse_stamped : Actor → ℕ → Dispatch → Dispatch
warehouse_stamped actor now d = record d {
  warehouse_stamp = true;
  warehouse_signed_by_key = actor.user_key;
  warehouse_sign_datetime = some now;
  dispatch_status = load_pending d.dispatch_status;
  updated_at = now;
}

-- `CASE WHEN … IN ('PENDING','LOADED') THEN 'LOADED'` is the same map.
abbrev pub security_stamped : Actor → ℕ → Dispatch → Dispatch
security_stamped actor now d = record d {
  security_stamp = true;
  security_signed_by_key = actor.user_key;
  security_sign_datetime = some now;
  dispatch_status = load_pending d.dispatch_status;
  updated_at = now;
}

abbrev pub driver_stamped : DispatchAck → ℕ → Dispatch → Dispatch
driver_stamped p now d = record d {
  driver_acknowledged = true;
  driver_ack_datetime = some now;
  driver_signature_url = or_null p.driver_signature_url;
  dispatch_status = DispatchStatus.in_transit;
  updated_at = now;
}

abbrev pub final_status : DispatchAck → DispatchStatus
final_status p = if p.returned then DispatchStatus.returned else DispatchStatus.delivered

abbrev pub return_reason : DispatchAck → Option String
return_reason p =
    if p.returned
    then some (if str_eq p.return_reason "" then "Not specified" else p.return_reason)
    else none

abbrev pub customer_stamped : DispatchAck → ℕ → Dispatch → Dispatch
customer_stamped p now d = record d {
  delivery_datetime = some now;
  customer_acknowledged = true;
  customer_signature_url = or_null p.customer_signature_url;
  return_reason = return_reason p;
  dispatch_status = final_status p;
  sync_timestamp = some now;
  updated_at = now;
}

abbrev pub stamped : Stage → Actor → DispatchAck → ℕ → Dispatch → Dispatch
stamped warehouse actor p = warehouse_stamped actor
stamped security actor p = security_stamped actor
stamped driver actor p = driver_stamped p
stamped customer actor p = customer_stamped p

-- The UPDATE of the header, and the row of the outbox.
unfoldable pub stamp_header : Stage → Actor → ℕ → DispatchAck → Exec (Unit {0})
stamp_header stage actor dispatch_key p = execute (λ db.
    update_dispatches (owned actor.business_key dispatch_key) (stamped stage actor p db.now) db)

unfoldable pub emit : Actor → ℕ → Exec (Unit {0})
emit actor dispatch_key = do
  record_change Dataset.dispatches actor.business_key dispatch_key upsert
  pure tt

abbrev pub set_loaded : ℕ → LoadedQuantity → Option ℤ → Db → Db
set_loaded dispatch_key lq none db = db
set_loaded dispatch_key lq (some q) db =
    if lq.line_key == 0
    then db
    else update_lines dispatch_key lq.line_key (λ l. record l { loaded_qty = q }) db

unfoldable pub load_line : ℕ → LoadedQuantity → Exec (Unit {0})
load_line dispatch_key lq = execute (set_loaded dispatch_key lq lq.loaded_qty)

unfoldable pub deliver_line : ℕ → LineDelivery → Exec (Unit {0})
deliver_line dispatch_key ld =
    when (not (ld.line_key == 0) && (is_some ld.delivered_qty || is_some ld.returned_qty)) (
      execute (
        update_lines dispatch_key ld.line_key λ l. record l {
          delivered_qty = or_else ld.delivered_qty (pos 0);
          returned_qty = or_else ld.returned_qty (pos 0);
        }))

abbrev pub dispatch_movement : Actor → ℕ → ℕ → MovementType → ℕ → ℤ → ℕ → StockMovement
dispatch_movement actor date_key dispatch_key kind product_key quantity movement_key = record {
  movement_key = movement_key;
  business_key = actor.business_key;
  product_key = product_key;
  warehouse_location = "MAIN";
  date_key = date_key;
  movement_type = kind;
  reference_key = dispatch_key;
  reference_type = "DISPATCH";
  quantity = quantity;
  recorded_by_key = actor.user_key;
  mobile_device_id = actor.device_id;
}

-- INSERT INTO fact_stock_movement, if the quantity is positive.
unfoldable pub move_stock : Actor → ℕ → ℕ → MovementType → ℕ → ℤ → Exec (Unit {0})
move_stock actor date_key dispatch_key kind product_key quantity = when (ltb_ℤ (pos 0) quantity) do
  movement_key ← identity
  execute (
      add_movement
        (dispatch_movement actor date_key dispatch_key kind product_key quantity movement_key))

unfoldable pub move_line : Actor → ℕ → ℕ → DispatchLine → Exec (Unit {0})
move_line actor date_key dispatch_key l = do
  move_stock actor date_key dispatch_key MovementType.dispatch l.product_key l.delivered_qty
  move_stock actor date_key dispatch_key MovementType.transfer_in l.product_key l.returned_qty

unfoldable pub apply_stage : Stage → Actor → ℕ → DispatchAck → Exec DispatchStatus
apply_stage warehouse actor dispatch_key p = do
  with_transaction do
    for_each p.loaded_quantities (load_line dispatch_key)
    stamp_header warehouse actor dispatch_key p
    emit actor dispatch_key
  pure DispatchStatus.loaded
apply_stage security actor dispatch_key p = do
  with_transaction do stamp_header security actor dispatch_key p; emit actor dispatch_key
  pure DispatchStatus.loaded
apply_stage driver actor dispatch_key p = do
  with_transaction do stamp_header driver actor dispatch_key p; emit actor dispatch_key
  pure DispatchStatus.in_transit
apply_stage customer actor dispatch_key p = do
  date_key ← resolve_date_key
  with_transaction do
    for_each p.line_deliveries (deliver_line dispatch_key)
    stamp_header customer actor dispatch_key p
    lines ←
        query (λ db.
          where_rows (λ (l : DispatchLine). l.dispatch_key == dispatch_key) db.dispatch_lines)
    for_each lines (move_line actor date_key dispatch_key)
    emit actor dispatch_key
  pure (final_status p)

abbrev pub not_found : StampOpts → DispatchAck → Error
not_found opts p =
    if opts.conflict_as_error
    then conflict "Dispatch not found on server" ServerVersion.absent (Payload.dispatch_ack p)
    else http 404 "Dispatch not found"

-- What stands between the header that was read and the writes.
unfoldable pub check_stage : Stage → StampOpts → Row Dispatch → DispatchAck → Exec (Unit {0})
check_stage stage opts d p = do
  if opts.override_prereqs then pure tt else check_prereq opts d p (prereq_missing stage d.body)
  throw_if (is_customer stage && is_final d.body.dispatch_status)
      (refusal opts "Dispatch already ${d.dispatch_status}" d p)

unfoldable pub stamp_dispatch_custody :
    Actor → ℕ → Stage → DispatchAck → StampOpts → Exec StampResult
stamp_dispatch_custody actor dispatch_key stage p opts = do
  found ← get_dispatch actor dispatch_key
  d ← or_throw found (not_found opts p)
  if already_staged stage d.body
      then pure (record {
        dispatch_key = dispatch_key;
        status = d.body.dispatch_status;
        already_stamped = true;
      })
      else do
        check_stage stage opts d p
        status ← apply_stage stage actor dispatch_key p
        pure (record { dispatch_key = dispatch_key; status = status; already_stamped = false })
