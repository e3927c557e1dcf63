-- ===== src/Warehouse/Outbound.antt =====
-- backend/src/services/warehouseService.js: createDispatch, getDispatch.
use renuzi_ops_platform.Prelude.{
  ℕ, ℤ, pos, ◌*ℤ◌, eq_ℤ, Bool, true, false, not, ◌||◌, Option, none, some, List, [], ◌∷◌, ◌++◌,
  ◌==◌, str_eq, if◌then◌else◌, first_row,
}
use renuzi_ops_platform.Constants.{DispatchStatus, Dataset, upsert}
use renuzi_ops_platform.Schema.{Row, Dispatch, DispatchLine}
use renuzi_ops_platform.Payload.{Actor, DispatchForm, DispatchLineForm, http}
use renuzi_ops_platform.Exec.{
  Exec, pure, query, throw_if, with_transaction, execute, identity, when, for_each, ◌>>=◌, ◌>>◌,
}
use renuzi_ops_platform.Guards.{
  owned, number_or_null, resolve_date_key, assert_business_active, assert_product_owned,
  assert_customer_owned, assert_user_in_business, get_owned_vehicle,
}
use renuzi_ops_platform.ChangeLog.{record_change}
use renuzi_ops_platform.DocNumbers
use renuzi_ops_platform.DocNumbers.{next_doc_number}

abbrev pub dispatch_row : Actor → DispatchForm → ℕ → List ℕ → ℕ → ℕ → Row Dispatch
dispatch_row actor body date_key dispatch_number dispatch_key now = record {
  key = dispatch_key;
  business_key = actor.business_key;
  version_no = 1;
  body = record {
    customer_key = body.customer_key;
    dispatched_by_key = actor.user_key;
    driver_key = body.driver_key;
    vehicle_key = body.vehicle_key;
    date_key = date_key;
    dispatch_number = dispatch_number;
    invoice_number = body.invoice_number;
    warehouse_stamp = false;
    warehouse_signed_by_key = 0;
    warehouse_sign_datetime = none;
    security_stamp = false;
    security_signed_by_key = 0;
    security_sign_datetime = none;
    driver_acknowledged = false;
    driver_ack_datetime = none;
    driver_signature_url = none;
    dispatch_status = DispatchStatus.pending;
    delivery_datetime = none;
    customer_acknowledged = false;
    customer_signature_url = none;
    return_reason = none;
    updated_at = now;
    sync_timestamp = none;
    mobile_device_id = actor.device_id;
  };
}

-- `unitPrice && pickedQty ? unitPrice * pickedQty : null`
abbrev pub line_total : DispatchLineForm → Option ℤ
line_total l =
    if eq_ℤ l.unit_price (pos 0) || eq_ℤ l.picked_qty (pos 0)
    then none
    else some (l.unit_price *ℤ l.picked_qty)

abbrev pub dispatch_line : ℕ → DispatchLineForm → ℕ → DispatchLine
dispatch_line dispatch_key l dispatch_line_key = record {
  dispatch_line_key = dispatch_line_key;
  dispatch_key = dispatch_key;
  product_key = l.product_key;
  invoice_qty = l.invoice_qty;
  picked_qty = l.picked_qty;
  loaded_qty = l.loaded_qty;
  delivered_qty = pos 0;
  returned_qty = pos 0;
  unit_price = number_or_null l.unit_price;
  line_total = line_total l;
}

unfoldable pub check_product : Actor → DispatchLineForm → Exec (Unit {0})
check_product actor l = do
  throw_if (l.product_key == 0) (http 400 "Line ${i + 1}: productKey is required")
  assert_product_owned actor.business_key l.product_key

unfoldable pub insert_dispatch_line : ℕ → DispatchLineForm → Exec (Unit {0})
insert_dispatch_line dispatch_key l = do
  dispatch_line_key ← identity
  execute (λ db. record db {
    dispatch_lines = db.dispatch_lines ++ dispatch_line dispatch_key l dispatch_line_key ∷ [];
  })

abbrev pub is_empty : List DispatchLineForm → Bool
is_empty [] = true
is_empty (l ∷ ls) = false

unfoldable pub create_dispatch : Actor → DispatchForm → Exec (ℕ × List ℕ)
create_dispatch actor body = do
  throw_if ((body.customer_key == 0) || str_eq body.invoice_number "")
      (http 400 "customerKey and invoiceNumber are required")
  throw_if (is_empty body.lines) (http 400 "At least one dispatch line is required")
  date_key ← resolve_date_key
  with_transaction do
    business_id ← assert_business_active actor.business_key
    assert_customer_owned actor.business_key body.customer_key
    for_each body.lines (check_product actor)
    when (not (body.driver_key == 0)) (assert_user_in_business actor.business_key body.driver_key)
    when (not (body.vehicle_key == 0))
        (do get_owned_vehicle actor.business_key body.vehicle_key; pure tt)
    dispatch_number ← next_doc_number DocNumbers.dispatch business_id date_key
    dispatch_key ← identity
    execute (λ db. record db {
      dispatch_table =
          db.dispatch_table
          ++ dispatch_row actor body date_key dispatch_number dispatch_key db.now ∷ [];
    })
    for_each body.lines (insert_dispatch_line dispatch_key)
    record_change Dataset.dispatches actor.business_key dispatch_key upsert
    pure (dispatch_key, dispatch_number)

unfoldable pub get_dispatch : Actor → ℕ → Exec (Option (Row Dispatch))
get_dispatch actor dispatch_key =
    query (λ db. first_row (owned actor.business_key dispatch_key) db.dispatch_table)
