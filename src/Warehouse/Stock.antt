-- ===== src/Warehouse/Stock.antt =====
-- backend/src/services/warehouseService.js: recordStockMovement, recordStockCount,
-- recordGoodsReturn.
use renuzi_ops_platform.Prelude.{
  ℕ, ℤ, pos, ◌-ℤ◌, leb_ℤ, eq_ℤ, String, Bool, true, false, not, ◌&&◌, ◌||◌, Option, none, some, [],
  ◌∷◌, ◌++◌, ◌==◌, str_eq, if◌then◌else◌,
}
use renuzi_ops_platform.Constants.{MovementType, ReturnType, ReturnStatus}
use renuzi_ops_platform.Schema.{StockMovement}
use renuzi_ops_platform.Payload.{Actor, MovementForm, CountForm, ReturnForm, http, sql_error}
use renuzi_ops_platform.Exec.{
  Exec, pure, throw, throw_if, with_transaction, execute, identity, ◌>>=◌, ◌>>◌,
}
use renuzi_ops_platform.Guards.{
  or_null, or_throw, resolve_date_key, assert_product_owned, assert_customer_owned,
}
use renuzi_ops_platform.Warehouse.Grn.{add_movement}

abbrev pub not_positive : Option ℤ → Bool
not_positive none = true
not_positive (some q) = leb_ℤ q (pos 0)

abbrev pub no_type : MovementType → Bool
no_type MovementType.missing = true
no_type _ = false

-- MANUAL_MOVEMENT_TYPES
unfoldable pub is_manual : MovementType → Bool
is_manual MovementType.adjustment = true
is_manual MovementType.transfer_in = true
is_manual MovementType.transfer_out = true
is_manual MovementType.damaged = true
is_manual MovementType.expired = true
is_manual _ = false

abbrev pub is_transfer_out : MovementType → Bool
is_transfer_out MovementType.transfer_out = true
is_transfer_out _ = false

-- The INSERT names @quantity, and the parameters that are bound hold none: SQL Server refuses it.
unfoldable pub record_stock_movement : Actor → MovementForm → Exec ℕ
record_stock_movement actor body = do
  throw_if ((body.product_key == 0) || no_type body.movement_type || not_positive body.quantity)
      (http 400 "productKey, movementType and quantity > 0 are required")
  throw_if (not (is_manual body.movement_type))
      (http 400 "Manual movements must be one of: … (RECEIPT/DISPATCH/COUNT are system-generated)")
  throw_if (is_transfer_out body.movement_type && (body.to_business_key == 0))
      (http 400 "toBusinessKey is required for TRANSFER_OUT")
  assert_product_owned actor.business_key body.product_key
  date_key ← resolve_date_key
  throw (sql_error "Must declare the scalar variable \"@quantity\".")

abbrev pub both : Option ℤ → Option ℤ → Option (ℤ × ℤ)
both (some a) (some b) = some (a, b)
both _ _ = none

-- `variance !== 0 ? (reason || 'Unexplained') : (reason || null)`
abbrev pub reason_for : ℤ → String → Option String
reason_for variance reason =
    if not (eq_ℤ variance (pos 0))
    then some (if str_eq reason "" then "Unexplained" else reason)
    else or_null reason

abbrev pub location : String → String
location l = if str_eq l "" then "MAIN" else l

unfoldable pub record_stock_count : Actor → CountForm → Exec (ℕ × ℤ)
record_stock_count actor body = do
  throw_if (body.product_key == 0) (http 400 "productKey, systemQty and physicalCount are required")
  (system_qty, physical_count) ←
      or_throw (both body.system_qty body.physical_count)
        (http 400 "productKey, systemQty and physicalCount are required")
  assert_product_owned actor.business_key body.product_key
  date_key ← resolve_date_key
  let variance = physical_count -ℤ system_qty
  count_key ← identity
  execute (λ db. record db {
    stock_counts =
        db.stock_counts
        ++ record {
          count_key = count_key;
          business_key = actor.business_key;
          product_key = body.product_key;
          warehouse_location = location body.warehouse_location;
          date_key = date_key;
          counted_by_key = actor.user_key;
          witnessed_by_key = body.witnessed_by_key;
          system_qty = system_qty;
          physical_count = physical_count;
          variance = variance;
          variance_reason = reason_for variance body.variance_reason;
          mobile_device_id = actor.device_id;
        }
          ∷ [];
  })
  pure (count_key, variance)

abbrev pub known_return : ReturnType → Bool
known_return ReturnType.unknown = false
known_return _ = true

abbrev pub return_movement : Actor → ReturnForm → ℕ → ℕ → ℕ → StockMovement
return_movement actor body date_key return_key movement_key = record {
  movement_key = movement_key;
  business_key = actor.business_key;
  product_key = body.product_key;
  warehouse_location = "RETURNS";
  date_key = date_key;
  movement_type = MovementType.transfer_in;
  reference_key = return_key;
  reference_type = "RETURN";
  quantity = body.quantity_returned;
  recorded_by_key = actor.user_key;
  mobile_device_id = actor.device_id;
}

unfoldable pub record_goods_return : Actor → ReturnForm → Exec ℕ
record_goods_return actor body = do
  throw_if
      ((body.customer_key == 0) || (body.product_key == 0) || leb_ℤ body.quantity_returned (pos 0))
      (http 400 "customerKey, productKey and quantityReturned > 0 are required")
  throw_if (not (known_return body.return_type)) (http 400 "returnType must be one of: …")
  date_key ← resolve_date_key
  with_transaction do
    assert_customer_owned actor.business_key body.customer_key
    assert_product_owned actor.business_key body.product_key
    return_key ← identity
    execute (λ db. record db {
      goods_returns =
          db.goods_returns
          ++ record {
            return_key = return_key;
            business_key = actor.business_key;
            customer_key = body.customer_key;
            product_key = body.product_key;
            returned_by_key = actor.user_key;
            date_key = date_key;
            return_type = body.return_type;
            original_invoice = or_null body.original_invoice;
            batch_number = or_null body.batch_number;
            quantity_returned = body.quantity_returned;
            credit_note_requested = body.credit_note_requested;
            return_status = ReturnStatus.pending;
            mobile_device_id = actor.device_id;
          }
            ∷ [];
    })
    movement_key ← identity
    execute (add_movement (return_movement actor body date_key return_key movement_key))
    pure return_key
