-- ===== src/Guards.antt =====
-- backend/src/services/guards.js: the checks that the online routes and the offline processors
-- share. `assertDateKeyExists` is in backend/src/utils/date.js.
pub mod ReadOnly
use renuzi_ops_platform.Prelude.{
  ℕ, ℤ, pos, ◌+ℤ◌, ltb_ℤ, eq_ℤ, String, Bool, true, false, not, ◌&&◌, ◌||◌, Option, none, some,
  List, [], ◌∷◌, ◌==◌, str_eq, if◌then◌else◌, is_some, or_else, first_row,
}
use renuzi_ops_platform.Constants.{TripStatus, ReceiptStatus}
use renuzi_ops_platform.Schema.{Row, Vehicle, Trip, Business, User}
use renuzi_ops_platform.Payload.{Error, http, plain, GrnLineForm}
use renuzi_ops_platform.Exec.{Exec, pure, throw, query, throw_if, ◌>>=◌, ◌>>◌}

-- WHERE key = @key AND business_key = @businessKey
abbrev pub owned : {B : Type 0} → ℕ → ℕ → Row B → Bool
owned business key r = (r.key == key) && (r.business_key == business)

-- `x || null` for a text and for a number.
abbrev pub or_null : String → Option String
or_null s = if str_eq s "" then none else some s

abbrev pub number_or_null : ℤ → Option ℤ
number_or_null x = if eq_ℤ x (pos 0) then none else some x

unfoldable pub contains_key : ℕ → List ℕ → Bool
contains_key k [] = false
contains_key k (x ∷ xs) = (x == k) || contains_key k xs

-- The date key is never an argument of its callers, so it is today's.
unfoldable pub resolve_date_key : Exec ℕ
resolve_date_key = do
  date_key ← query (λ db. db.today)
  known ← query (λ db. contains_key date_key db.dim_date)
  throw_if (not known) (plain "dim_date missing for ${dateKey}. Run the dim_date seed script.")
  pure date_key

abbrev pub or_throw : {A : Type 0} → Option A → Error → Exec A
or_throw none e = throw e
or_throw (some a) e = pure a

-- Returns the business_id.
unfoldable pub assert_business_active : ℕ → Exec (List ℕ)
assert_business_active business_key = do
  found ← query (λ db.
      first_row (λ (b : Business). (b.business_key == business_key) && b.is_active) db.businesses)
  business ← or_throw found (http 403 "Business account is inactive")
  pure business.business_id

unfoldable pub get_owned_vehicle : ℕ → ℕ → Exec (Row Vehicle)
get_owned_vehicle business_key vehicle_key = do
  found ← query (λ db. first_row (owned business_key vehicle_key) db.vehicle_table)
  or_throw found (http 404 "Vehicle not found for this business")

unfoldable pub assert_product_owned : ℕ → ℕ → Exec (Unit {0})
assert_product_owned business_key product_key = do
  found ← query (λ db. first_row (owned business_key product_key) db.product_table)
  throw_if (not (is_some found)) (http 400 "${context} ${productKey} not found for this business")

unfoldable pub assert_customer_owned : ℕ → ℕ → Exec (Unit {0})
assert_customer_owned business_key customer_key = do
  found ← query (λ db. first_row (owned business_key customer_key) db.customer_table)
  throw_if (not (is_some found)) (http 400 "Customer not found for this business")

unfoldable pub assert_user_in_business : ℕ → ℕ → Exec (Unit {0})
assert_user_in_business business_key user_key = do
  found ← query (λ db.
      first_row (λ (u : User). (u.user_key == user_key) && (u.business_key == business_key))
        db.users)
  throw_if (not (is_some found)) (http 400 "${context} not found for this business")

unfoldable pub assert_supplier_exists : ℕ → Exec (Unit {0})
assert_supplier_exists supplier_key = do
  known ← query (λ db. contains_key supplier_key db.suppliers)
  throw_if (not known) (http 400 "Supplier not found")

-- `violated` of assertOdometerNotRegressed(currentOdometer, submittedOdometer).
abbrev pub odometer_regressed : ℤ → ℤ → Bool
odometer_regressed current submitted = ltb_ℤ submitted current

abbrev pub is_open : TripStatus → Bool
is_open TripStatus.started = true
is_open TripStatus.in_progress = true
is_open _ = false

abbrev pub is_active_trip : ℕ → ℕ → ℕ → Trip → Bool
is_active_trip business_key vehicle_key exclude t =
    (t.vehicle_key == vehicle_key)
    && (t.business_key == business_key)
    && is_open t.trip_status
    && not (t.trip_key == exclude)

unfoldable pub find_active_trip : ℕ → ℕ → ℕ → Exec (Option Trip)
find_active_trip business_key vehicle_key exclude =
    query (λ db. first_row (is_active_trip business_key vehicle_key exclude) db.trips)

unfoldable pub config_value : String → List (String × Option ℤ) → Option (Option ℤ)
config_value name [] = none
config_value name ((k, v) ∷ rest) =
    let other = config_value name rest in if str_eq k name then some v else other

-- A row that is missing and a value that is no number both give the fallback.
unfoldable pub get_config : String → ℤ → Exec ℤ
get_config name fallback = do
  row ← query (λ db. config_value name db.config)
  pure (or_else (or_else row none) fallback)

-- `reduce((s, l) => s + (l.q || 0), 0)`
unfoldable pub sum_lines : (GrnLineForm → ℤ) → List GrnLineForm → ℤ
sum_lines q [] = pos 0
sum_lines q (l ∷ ls) = q l +ℤ sum_lines q ls

abbrev pub status_of_totals : ℤ → ℤ → ℤ → ReceiptStatus
status_of_totals inv rec rej =
    if eq_ℤ rec (pos 0) && ltb_ℤ (pos 0) rej
    then ReceiptStatus.rejected
    else if ltb_ℤ (rec +ℤ rej) inv
    then ReceiptStatus.partial
    else ReceiptStatus.complete

abbrev totals_given : Option ℤ → Option ℤ → Option ℤ → List GrnLineForm → ReceiptStatus
totals_given (some inv) (some rec) rej lines = status_of_totals inv rec (or_else rej (pos 0))
totals_given _ _ _ lines =
    status_of_totals (sum_lines (λ l. l.invoice_qty) lines) (sum_lines (λ l. l.received_qty) lines)
      (sum_lines (λ l. l.rejected_qty) lines)

unfoldable pub derive_receipt_status :
    Option ℤ → Option ℤ → Option ℤ → List GrnLineForm → ReceiptStatus
derive_receipt_status inv rec rej lines = totals_given inv rec rej lines
