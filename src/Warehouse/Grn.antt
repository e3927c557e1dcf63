-- ===== src/Warehouse/Grn.antt =====
-- backend/src/services/warehouseService.js: createGRN, signoffGRNFinance.
use renuzi_ops_platform.Prelude.{
  ℕ, ℤ, pos, ltb_ℤ, String, Bool, true, false, not, ◌||◌, none, some, List, [], ◌∷◌, ◌++◌, ◌==◌,
  str_eq, if◌then◌else◌, or_else, first_row, update_rows,
}
use renuzi_ops_platform.Constants.{ReceiptStatus, MovementType, Dataset, upsert}
use renuzi_ops_platform.Schema.{Row, Grn, GrnLine, StockMovement}
use renuzi_ops_platform.Payload.{Actor, GrnForm, GrnLineForm, http}
use renuzi_ops_platform.Database.{Db}
use renuzi_ops_platform.Exec.{
  Exec, pure, throw, query, throw_if, with_transaction, execute, identity, when, for_each, ◌>>=◌,
  ◌>>◌,
}
use renuzi_ops_platform.Guards.{
  owned, or_null, or_throw, number_or_null, resolve_date_key, assert_business_active,
  assert_product_owned, assert_supplier_exists, sum_lines, derive_receipt_status,
}
use renuzi_ops_platform.ChangeLog.{record_change}
use renuzi_ops_platform.DocNumbers
use renuzi_ops_platform.DocNumbers.{next_doc_number}

pub record GrnResult : Type 0 where
  pub grn_key : ℕ
  pub grn_number : List ℕ
  pub receipt_status : ReceiptStatus

abbrev pub is_negative : ℤ → Bool
is_negative x = ltb_ℤ x (pos 0)

unfoldable pub check_line : GrnLineForm → Exec (Unit {0})
check_line l = do
  throw_if (l.product_key == 0) (http 400 "Line ${i + 1}: productKey is required")
  throw_if (is_negative l.invoice_qty || is_negative l.received_qty || is_negative l.rejected_qty)
      (http 400 "Line ${i + 1}: quantities must be >= 0")

abbrev pub check_lines : List GrnLineForm → Exec (Unit {0})
check_lines [] = throw (http 400 "At least one GRN line is required")
check_lines (l ∷ ls) = for_each (l ∷ ls) check_line

abbrev pub grn_row : Actor → GrnForm → ℕ → List ℕ → ReceiptStatus → ℕ → ℕ → Row Grn
grn_row actor body date_key grn_number receipt_status grn_key now = record {
  key = grn_key;
  business_key = actor.business_key;
  version_no = 1;
  body = record {
    supplier_key = body.supplier_key;
    received_by_key = actor.user_key;
    date_key = date_key;
    grn_number = grn_number;
    waybill_number = or_null body.waybill_number;
    invoice_number = or_null body.invoice_number;
    truck_plate_number = or_null body.truck_plate_number;
    driver_name = or_null body.driver_name;
    seal_number = or_null body.seal_number;
    seal_intact = body.seal_intact;
    receipt_status = receipt_status;
    total_invoice_qty = or_else body.total_invoice_qty (sum_lines (λ l. l.invoice_qty) body.lines);
    total_received_qty =
        or_else body.total_received_qty (sum_lines (λ l. l.received_qty) body.lines);
    total_rejected_qty =
        or_else body.total_rejected_qty (sum_lines (λ l. l.rejected_qty) body.lines);
    rejection_reason = or_null body.rejection_reason;
    finance_signoff = false;
    finance_signoff_by_key = 0;
    finance_signoff_datetime = none;
    credit_note_issued = false;
    credit_note_number = none;
    created_at = now;
    updated_at = now;
    mobile_device_id = actor.device_id;
  };
}

abbrev pub grn_line : ℕ → GrnLineForm → ℕ → GrnLine
grn_line grn_key l grn_line_key = record {
  grn_line_key = grn_line_key;
  grn_key = grn_key;
  product_key = l.product_key;
  invoice_qty = l.invoice_qty;
  received_qty = l.received_qty;
  rejected_qty = l.rejected_qty;
  production_date = l.production_date;
  expiry_date = l.expiry_date;
  batch_number = or_null l.batch_number;
  is_damaged = l.is_damaged;
  is_expired = l.is_expired;
  is_near_expiry = l.is_near_expiry;
  near_expiry_days = number_or_null l.near_expiry_days;
  rejection_reason = or_null l.rejection_reason;
  allocated_location = or_null l.allocated_location;
  fifo_compliant = l.fifo_compliant;
}

abbrev pub add_movement : StockMovement → Db → Db
add_movement m db = record db { stock_movements = db.stock_movements ++ m ∷ [] }

abbrev pub receipt_movement : Actor → ℕ → ℕ → GrnLineForm → ℕ → StockMovement
receipt_movement actor date_key grn_key l movement_key = record {
  movement_key = movement_key;
  business_key = actor.business_key;
  product_key = l.product_key;
  warehouse_location = if str_eq l.allocated_location "" then "MAIN" else l.allocated_location;
  date_key = date_key;
  movement_type = MovementType.receipt;
  reference_key = grn_key;
  reference_type = "GRN";
  quantity = l.received_qty;
  recorded_by_key = actor.user_key;
  mobile_device_id = none;
}

-- One round of the loop over the lines: the line, and its RECEIPT movement if anything came in.
unfoldable pub insert_line : Actor → ℕ → ℕ → GrnLineForm → Exec (Unit {0})
insert_line actor date_key grn_key l = do
  grn_line_key ← identity
  execute (λ db. record db { grn_lines = db.grn_lines ++ grn_line grn_key l grn_line_key ∷ [] })
  when (ltb_ℤ (pos 0) l.received_qty) do
    movement_key ← identity
    execute (add_movement (receipt_movement actor date_key grn_key l movement_key))

unfoldable pub create_grn : Actor → GrnForm → Exec GrnResult
create_grn actor body = do
  check_lines body.lines
  date_key ← resolve_date_key
  let status =
      derive_receipt_status body.total_invoice_qty body.total_received_qty body.total_rejected_qty
        body.lines
  with_transaction do
    business_id ← assert_business_active actor.business_key
    grn_number ← next_doc_number DocNumbers.grn business_id date_key
    when (not (body.supplier_key == 0)) (assert_supplier_exists body.supplier_key)
    for_each body.lines (λ l. assert_product_owned actor.business_key l.product_key)
    grn_key ← identity
    execute (λ db. record db {
      grn_table = db.grn_table ++ grn_row actor body date_key grn_number status grn_key db.now ∷ [];
    })
    for_each body.lines (insert_line actor date_key grn_key)
    record_change Dataset.grns actor.business_key grn_key upsert
    pure (record { grn_key = grn_key; grn_number = grn_number; receipt_status = status })

abbrev pub signed_off : Actor → Bool → String → ℕ → Grn → Grn
signed_off actor credit_note_issued credit_note_number now g = record g {
  finance_signoff = true;
  finance_signoff_by_key = actor.user_key;
  finance_signoff_datetime = some now;
  credit_note_issued = credit_note_issued;
  credit_note_number = or_null credit_note_number;
  updated_at = now;
}

abbrev pub update_grns : (Row Grn → Bool) → (Grn → Grn) → Db → Db
update_grns p f db = record db {
  grn_table = update_rows p (λ r. record r { body = f r.body }) db.grn_table;
}

unfoldable pub signoff_grn_finance : Actor → ℕ → Bool → String → Exec (Unit {0})
signoff_grn_finance actor grn_key credit_note_issued credit_note_number = do
  found ← query (λ db. first_row (owned actor.business_key grn_key) db.grn_table)
  existing ← or_throw found (http 404 "GRN not found")
  throw_if existing.body.finance_signoff (http 409 "GRN already signed off by finance")
  with_transaction do
    execute (λ db.
        update_grns (owned actor.business_key grn_key)
          (signed_off actor credit_note_issued credit_note_number db.now) db)
    record_change Dataset.grns actor.business_key grn_key upsert
    pure tt
