-- ===== src/Http/Endpoint.antt =====
-- The endpoints that change state, with what a request carries to each: which roles the routes of
-- backend/src/routes admit to it and which handler answers it.
use renuzi_ops_platform.Prelude.{ℕ, ℤ, String, Bool, Option, none, some, List}
use renuzi_ops_platform.Constants.{Role, ConflictResolution}
use renuzi_ops_platform.Schema.{User}
use renuzi_ops_platform.Payload.{
  Payload, CheckForm, TripStart, TripEnd, FuelAsk, FuelEntry, MaintenanceReport, GrnForm,
  DispatchForm, DispatchAck, LoadedQuantity, MovementForm, CountForm, ReturnForm,
}
use renuzi_ops_platform.Exec.{Exec, pure, ◌>>=◌}
use renuzi_ops_platform.Queue.{Worker}
use renuzi_ops_platform.Fleet.Fuel.{Decision}
use renuzi_ops_platform.Fleet.Maintenance.{Level}
use renuzi_ops_platform.Http.Message.{Request, Response}
use renuzi_ops_platform.Http.Roles.{
  require_admin, require_fleet_manager, require_warehouse_manager, require_driver,
  require_warehouse_staff, require_any, require_security, require_ops_or_admin,
}
use renuzi_ops_platform.Http.Authenticate.{guarded}
use renuzi_ops_platform.Http.Account.{Bcrypt, RegisterForm, post_register, change_password}
use renuzi_ops_platform.Http.FleetRoutes.{
  WorkForm, put_odometer, post_check, post_trip_start, post_trip_end, post_fuel_request,
  put_fuel_decision, post_fuel_log, post_maintenance, put_approval, put_work_status,
}
use renuzi_ops_platform.Http.WarehouseRoutes.{
  post_grn, put_finance_signoff, post_dispatch, put_warehouse_stamp, put_security_stamp,
  put_driver_ack, put_customer_ack, post_movement, post_count, post_return,
}
use renuzi_ops_platform.Http.SyncRoutes.{
  BatchItem, post_batch, post_process, put_resolution, post_requeue,
}
use renuzi_ops_platform.Http.PullRoutes.{PullForm, post_pull}

pub data Endpoint : Type 0 where
  odometer : ℕ → Option ℤ → Endpoint
  check : Option String → CheckForm → Endpoint
  trip_start : Option String → TripStart → Endpoint
  trip_end : Option String → ℕ → TripEnd → Endpoint
  fuel_request : Option String → FuelAsk → Endpoint
  fuel_decision : ℕ → Decision → Endpoint
  fuel_log : Option String → FuelEntry → Endpoint
  maintenance : Option String → MaintenanceReport → Endpoint
  approval : ℕ → Option Level → Endpoint
  work_status : ℕ → WorkForm → Endpoint
  grn : Option String → GrnForm → Endpoint
  finance_signoff : ℕ → Bool → String → Endpoint
  dispatch : Option String → DispatchForm → Endpoint
  warehouse_stamp : ℕ → List LoadedQuantity → Endpoint
  security_stamp : ℕ → Endpoint
  driver_ack : ℕ → String → Endpoint
  customer_ack : Option String → ℕ → DispatchAck → Endpoint
  movement : Option String → MovementForm → Endpoint
  count : Option String → CountForm → Endpoint
  return_goods : Option String → ReturnForm → Endpoint
  batch : String → List BatchItem → Endpoint
  process_now : Endpoint
  resolution : ℕ → ConflictResolution → Option (Payload → Payload) → Endpoint
  requeue : ℕ → Endpoint
  pull : PullForm → Endpoint
  register : RegisterForm → Endpoint
  password : List ℕ → List ℕ → Endpoint

-- The role check between authenticateToken and the handler.
unfoldable pub roles_of : Endpoint → Option (List Role)
roles_of (odometer k r) = some require_driver
roles_of (check d p) = some require_driver
roles_of (trip_start d p) = some require_driver
roles_of (trip_end d k p) = some require_driver
roles_of (fuel_request d p) = some require_driver
roles_of (fuel_decision k d) = some require_fleet_manager
roles_of (fuel_log d p) = some require_driver
roles_of (maintenance d p) = some require_any
roles_of (approval k l) = some require_fleet_manager
roles_of (work_status k p) = some require_fleet_manager
roles_of (grn d p) = some require_warehouse_staff
roles_of (finance_signoff k b s) = some require_ops_or_admin
roles_of (dispatch d p) = some require_warehouse_staff
roles_of (warehouse_stamp k q) = some require_warehouse_staff
roles_of (security_stamp k) = some require_security
roles_of (driver_ack k s) = none
roles_of (customer_ack d k p) = none
roles_of (movement d p) = some require_warehouse_manager
roles_of (count d p) = some require_warehouse_staff
roles_of (return_goods d p) = some require_warehouse_staff
roles_of (batch d items) = some require_any
roles_of process_now = some require_any
roles_of (resolution k r m) = some require_ops_or_admin
roles_of (requeue k) = some require_ops_or_admin
roles_of (pull p) = some require_any
roles_of (register p) = some require_admin
roles_of (password c n) = none

module _ (w : Worker) (bcrypt : Bcrypt) where
  unfoldable pub handler : Endpoint → User → Exec Response
  handler (odometer k r) u = put_odometer k r u
  handler (check d p) u = post_check d p u
  handler (trip_start d p) u = post_trip_start d p u
  handler (trip_end d k p) u = post_trip_end d k p u
  handler (fuel_request d p) u = post_fuel_request d p u
  handler (fuel_decision k d) u = put_fuel_decision k d u
  handler (fuel_log d p) u = post_fuel_log d p u
  handler (maintenance d p) u = post_maintenance d p u
  handler (approval k l) u = put_approval k l u
  handler (work_status k p) u = put_work_status k p u
  handler (grn d p) u = post_grn d p u
  handler (finance_signoff k b s) u = put_finance_signoff k b s u
  handler (dispatch d p) u = post_dispatch d p u
  handler (warehouse_stamp k q) u = put_warehouse_stamp k q u
  handler (security_stamp k) u = put_security_stamp k u
  handler (driver_ack k s) u = put_driver_ack k s u
  handler (customer_ack d k p) u = put_customer_ack d k p u
  handler (movement d p) u = post_movement d p u
  handler (count d p) u = post_count d p u
  handler (return_goods d p) u = post_return d p u
  handler (batch d items) u = post_batch w d items u >>= λ a. pure a.response
  handler process_now u = post_process w u
  handler (resolution k r m) u = put_resolution k r m u
  handler (requeue k) u = post_requeue k u
  handler (pull p) u = post_pull p u >>= λ a. pure a.response
  handler (register p) u = post_register bcrypt p u
  handler (password c n) u = change_password bcrypt c n u

  unfoldable pub serve : (List ℕ → Option ℕ) → Endpoint → Request → Exec Response
  serve verify e req = guarded verify (roles_of e) (handler e) req
