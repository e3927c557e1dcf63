-- ===== src/Database.antt =====
-- The database that the services share, and the tables of PULL_DATASETS behind one interface.
use renuzi_ops_platform.Prelude.{ℕ, ℤ, String, Option, List, ◌≡◌, refl}
use renuzi_ops_platform.Constants.{
  SyncStatus, ConflictResolution, Dataset, vehicles, routes, customers, products, dispatches, grns,
}
use renuzi_ops_platform.Schema.{
  Row, Vehicle, Dimension, Dispatch, Grn, Body, Change, Trip, VehicleCheck, FuelRequest, FuelLog,
  Maintenance, GrnLine, DispatchLine, StockMovement, GoodsReturn, StockCount, Business, User,
}
use renuzi_ops_platform.Payload.{Payload, ServerVersion}

pub record QueueRow : Type 0 where
  pub queue_id : ℕ
  pub device_id : String
  pub user_key : ℕ
  pub business_key : ℕ
  pub entity_key : ℕ
  pub client_ref : String
  pub payload_json : Payload
  pub sync_status : SyncStatus
  pub retry_count : ℕ
  pub next_retry_at : Option ℕ
  pub claimed_at : Option ℕ
  pub claimed_by : Option String
  pub processed_at : Option ℕ

pub record ConflictRow : Type 0 where
  pub conflict_key : ℕ
  pub queue_id : ℕ
  pub resolution : ConflictResolution
  pub server_version : ServerVersion
  pub client_version : Payload

-- `now` is GETDATE() and Date.now(), `today` the date key of `now` in Lagos; both stand still
-- within one operation. Every IDENTITY column draws from `next_identity`.
pub record Db : Type 0 where
  pub now : ℕ
  pub today : ℕ
  pub next_identity : ℕ
  pub dim_date : List ℕ
  pub businesses : List Business
  pub users : List User
  pub suppliers : List ℕ
  pub config : List (String × Option ℤ)
  pub vehicle_table : List (Row Vehicle)
  pub route_table : List (Row Dimension)
  pub customer_table : List (Row Dimension)
  pub product_table : List (Row Dimension)
  pub dispatch_table : List (Row Dispatch)
  pub grn_table : List (Row Grn)
  pub vehicle_checks : List VehicleCheck
  pub trips : List Trip
  pub fuel_requests : List FuelRequest
  pub fuel_logs : List FuelLog
  pub maintenance : List Maintenance
  pub grn_lines : List GrnLine
  pub dispatch_lines : List DispatchLine
  pub stock_movements : List StockMovement
  pub goods_returns : List GoodsReturn
  pub stock_counts : List StockCount
  pub change_log : List Change
  pub sync_queue : List QueueRow
  pub conflict_log : List ConflictRow

-- PULL_DATASETS[ds].table
unfoldable pub table : (ds : Dataset) → Db → List (Row (Body ds))
table vehicles db = db.vehicle_table
table routes db = db.route_table
table customers db = db.customer_table
table products db = db.product_table
table dispatches db = db.dispatch_table
table grns db = db.grn_table

unfoldable pub put_table : (ds : Dataset) → List (Row (Body ds)) → Db → Db
put_table vehicles t db = record db { vehicle_table = t }
put_table routes t db = record db { route_table = t }
put_table customers t db = record db { customer_table = t }
put_table products t db = record db { product_table = t }
put_table dispatches t db = record db { dispatch_table = t }
put_table grns t db = record db { grn_table = t }

pub table-put_table :
    (ds : Dataset) (t : List (Row (Body ds))) (db : Db) → table ds (put_table ds t db) ≡ t
unfolding table put_table
table-put_table vehicles t db = refl
table-put_table routes t db = refl
table-put_table customers t db = refl
table-put_table products t db = refl
table-put_table dispatches t db = refl
table-put_table grns t db = refl

pub change_log-put_table :
    (ds : Dataset) (t : List (Row (Body ds))) (db : Db)
    → (put_table ds t db).change_log ≡ db.change_log
unfolding put_table
change_log-put_table vehicles t db = refl
change_log-put_table routes t db = refl
change_log-put_table customers t db = refl
change_log-put_table products t db = refl
change_log-put_table dispatches t db = refl
change_log-put_table grns t db = refl
