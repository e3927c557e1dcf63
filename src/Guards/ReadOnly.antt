-- ===== src/Guards/ReadOnly.antt =====
-- No guard writes to the database.
use renuzi_ops_platform.Prelude.{ℕ, ℤ, String, Option, none, some}
use renuzi_ops_platform.Payload.{Error}
use renuzi_ops_platform.Prelude.{◌≡◌}
use renuzi_ops_platform.Database.{Db}
use renuzi_ops_platform.Exec.{ok, pure, throw}
use renuzi_ops_platform.Exec.Atomic.{IsReadOnly, IsReadOnly-pure, IsReadOnly-throw, read_only_rules}
use renuzi_ops_platform.Guards.{
  resolve_date_key, or_throw, assert_business_active, get_owned_vehicle, assert_product_owned,
  assert_customer_owned, assert_user_in_business, assert_supplier_exists, find_active_trip,
  get_config,
}

pub IsReadOnly-or_throw : {A : Type 0} (o : Option A) (e : Error) → IsReadOnly (or_throw o e)
IsReadOnly-or_throw none e = IsReadOnly-throw e
IsReadOnly-or_throw (some a) e = IsReadOnly-pure a

pub IsReadOnly-resolve_date_key : IsReadOnly resolve_date_key
unfolding resolve_date_key
IsReadOnly-resolve_date_key = search read_only_rules

pub IsReadOnly-assert_business_active : (b : ℕ) → IsReadOnly (assert_business_active b)
unfolding assert_business_active
IsReadOnly-assert_business_active b = search (read_only_rules, IsReadOnly-or_throw)

pub IsReadOnly-get_owned_vehicle : (b v : ℕ) → IsReadOnly (get_owned_vehicle b v)
unfolding get_owned_vehicle
IsReadOnly-get_owned_vehicle b v = search (read_only_rules, IsReadOnly-or_throw)

pub IsReadOnly-assert_product_owned : (b k : ℕ) → IsReadOnly (assert_product_owned b k)
unfolding assert_product_owned
IsReadOnly-assert_product_owned b k = search read_only_rules

pub IsReadOnly-assert_customer_owned : (b k : ℕ) → IsReadOnly (assert_customer_owned b k)
unfolding assert_customer_owned
IsReadOnly-assert_customer_owned b k = search read_only_rules

pub IsReadOnly-assert_user_in_business : (b k : ℕ) → IsReadOnly (assert_user_in_business b k)
unfolding assert_user_in_business
IsReadOnly-assert_user_in_business b k = search read_only_rules

pub IsReadOnly-assert_supplier_exists : (k : ℕ) → IsReadOnly (assert_supplier_exists k)
unfolding assert_supplier_exists
IsReadOnly-assert_supplier_exists k = search read_only_rules

pub IsReadOnly-find_active_trip : (b v x : ℕ) → IsReadOnly (find_active_trip b v x)
unfolding find_active_trip
IsReadOnly-find_active_trip b v x = search read_only_rules

pub IsReadOnly-get_config : (name : String) (d : ℤ) → IsReadOnly (get_config name d)
unfolding get_config
IsReadOnly-get_config name d = search read_only_rules

pub ruleset guard_rules = (
  read_only_rules, IsReadOnly-or_throw, IsReadOnly-resolve_date_key,
  IsReadOnly-assert_business_active, IsReadOnly-get_owned_vehicle, IsReadOnly-assert_product_owned,
  IsReadOnly-assert_customer_owned, IsReadOnly-assert_user_in_business,
  IsReadOnly-assert_supplier_exists, IsReadOnly-find_active_trip, IsReadOnly-get_config,
)

-- What a guard has let through.
pub or_throw-ok :
    {A : Type 0} (o : Option A) (e : Error) (db : Db) (a : A)
    → (or_throw o e db).0 ≡ ok a
    → o ≡ some a
unfolding pure throw
or_throw-ok none e db a h = cc
or_throw-ok (some x) e db a h = cc
