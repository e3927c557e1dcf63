-- ===== src/Examples/HttpRuns.antt =====
-- Requests to the company of Fixtures.
use renuzi_ops_platform.Prelude.{
  ℕ, ◌≤◌, ◌≡◌, refl, ◌↔◌, true, false, Option, none, some, List, [], ◌∷◌, ltb_ℤ, pos, String, inl,
  if◌then◌else◌, if-holds, str_eq, str_eq_refl, arith, first_row, update_rows, count_rows,
}
use renuzi_ops_platform.Constants.{Role, MaintenanceStatus, MaintenanceType, ApprovalStatus}
use renuzi_ops_platform.Schema.{User, Maintenance}
use renuzi_ops_platform.Database.{Db}
use renuzi_ops_platform.DocNumbers.{codes}
use renuzi_ops_platform.Processors.{stamp_opts}
use renuzi_ops_platform.Guards.{owned}
use renuzi_ops_platform.Exec.{◌>>=◌}
use renuzi_ops_platform.Warehouse.Custody.{Stage, stamp_dispatch_custody}
use renuzi_ops_platform.Warehouse.Chain.{in_order}
use renuzi_ops_platform.Warehouse.Refinement.{Follows, holder, stamp_dispatch_custody-Follows}
use renuzi_ops_platform.Http.Message.{Request}
use renuzi_ops_platform.Http.Authenticate.{same_codes, is_password_change}
use renuzi_ops_platform.Http.WarehouseRoutes.{
  ack_managers, delivery_managers, put_driver_ack, put_customer_ack,
}
use renuzi_ops_platform.Http.FleetRoutes.{WorkForm, post_maintenance, put_approval, put_work_status}
use renuzi_ops_platform.Http.Account.{
  Bcrypt, RegisterForm, license_of, login, login_user, change_password, post_register,
  with_password, has_user_id,
}
use renuzi_ops_platform.Http.Endpoint.{Endpoint, roles_of, handler, serve}
use renuzi_ops_platform.Http.Access.{IsGuarded, serve-IsGuarded}
use renuzi_ops_platform.Http.Rotation.{IsRotationUrl, is_password_change_iff}
use renuzi_ops_platform.Http.Login.{MayLogIn, IsLogin, login-IsLogin}
use renuzi_ops_platform.Http.NewPassword.{Matches, status_of, change_password-MayLogIn}
use renuzi_ops_platform.Http.UserIds.{HasUniqueIds, post_register-IsUnique}
use renuzi_ops_platform.Http.Acknowledge.{IsEntitled, acknowledgements-IsEntitled}
use renuzi_ops_platform.Payload
use renuzi_ops_platform.Guards.{config_value}
use renuzi_ops_platform.Http.SyncRoutes.{max_batch, post_batch}
use renuzi_ops_platform.Http.Batch.{item, Received, post_batch-Received}
use renuzi_ops_platform.Fleet.Maintenance.{owned_ticket}
use mathlib.Core.Path.{subst}
use renuzi_ops_platform.Http.Tickets.{IsWorkedOn, IsPassed, WorkIsPassed, ticket_routes-approved}
use renuzi_ops_platform.Fleet.Maintenance.{Level}
use renuzi_ops_platform.Payload.{MaintenanceReport}
use renuzi_ops_platform.Fixtures.{company, server, ann, ann_user, delivery, signature, early_trip}

abbrev plain_hash : List ℕ → String
plain_hash p = if same_codes p (codes "secret") then "hash-of-secret" else "hash-of-other"

abbrev toy : Bcrypt
toy = record { hash = plain_hash; compare = λ p h. str_eq h (plain_hash p) }

toy-Matches : Matches toy
toy-Matches p = str_eq_refl (plain_hash p)

abbrev verify_token : List ℕ → Option ℕ
verify_token t = if same_codes t (codes "token") then some 11 else none

abbrev token_of : User → List ℕ
token_of u = codes "token"

abbrev request : Request
request = record {
  method = "PUT";
  original_url = codes "/api/fleet/vehicles/7/odometer";
  authorization = some (codes "Bearer token");
}

abbrev endpoint : Endpoint
endpoint = Endpoint.odometer 7 (some (pos 91000))

serve-IsGuarded_example :
    IsGuarded verify_token request company
      (roles_of endpoint)
      (handler server toy endpoint)
      (serve server toy verify_token endpoint request company)
serve-IsGuarded_example = serve-IsGuarded verify_token request company server toy endpoint

abbrev rotation : Request
rotation = record {
  method = "POST";
  original_url = codes "/api/auth/change-password/";
  authorization = some (codes "Bearer token");
}

is_password_change_iff_example :
    (is_password_change rotation ≡ true)
    ↔ ((rotation.method ≡ "POST") × IsRotationUrl rotation.original_url)
is_password_change_iff_example = is_password_change_iff rotation

login-IsLogin_example :
    IsLogin toy token_of "DRV-001" company
      (codes "secret")
      (login toy token_of "DRV-001" (codes "secret") company)
login-IsLogin_example = login-IsLogin toy token_of "DRV-001" company (codes "secret")

ann_may : MayLogIn toy "DRV-001" (codes "secret") company ann_user
unfolding login_user license_of first_row same_codes
ann_may = record {
  named = refl;
  given = refl;
  row = refl;
  secret = refl;
  active = refl;
  business = refl;
  license = refl;
}

abbrev new_secret : List ℕ
new_secret = codes "other-secret"

changed_well : status_of (change_password toy (codes "secret") new_secret ann_user company).0 ≡ 200
unfolding change_password first_row update_rows count_rows same_codes ◌>>=◌
changed_well = refl

change_password-MayLogIn_example :
    MayLogIn toy "DRV-001" new_secret
      (change_password toy (codes "secret") new_secret ann_user company).1
      (with_password (plain_hash new_secret) ann_user)
change_password-MayLogIn_example =
    change_password-MayLogIn toy (codes "secret") new_secret "DRV-001" ann_user ann_user company
      toy-Matches ann_may refl changed_well

abbrev newcomer : RegisterForm
newcomer = record {
  user_id = "WH-002";
  full_name = "Bo";
  role = some Role.warehouse_staff;
  department = "Warehouse";
  business_key = 1;
  password = new_secret;
  license_expiry = none;
}

company-HasUniqueIds : HasUniqueIds company
unfolding count_rows
company-HasUniqueIds i =
    if-holds (λ n. n ≤ 1) (has_user_id i ann_user) 1 0 (λ _. omega arith) (λ _. omega arith)

post_register-IsUnique_example : HasUniqueIds (post_register toy newcomer ann_user company).1
post_register-IsUnique_example =
    post_register-IsUnique toy newcomer ann_user company company-HasUniqueIds

acknowledgements-IsEntitled_example :
    IsEntitled ack_managers ann_user 40 company (put_driver_ack 40 "ann.png" ann_user company)
    × IsEntitled delivery_managers ann_user 40 company
        (put_customer_ack none 40 signature ann_user company)
acknowledgements-IsEntitled_example =
    acknowledgements-IsEntitled none 40 "ann.png" signature ann_user company

abbrev started : WorkForm
started = record {
  maintenance_status = some MaintenanceStatus.in_progress;
  completion_notes = "";
  actual_cost = none;
  vendor_name = "Tunde Motors";
  invoice_number = "";
}

abbrev brakes : Maintenance
brakes = record {
  maintenance_key = 6;
  business_key = 1;
  vehicle_key = 7;
  reported_by_key = 11;
  date_key = 20260829;
  maintenance_type = MaintenanceType.repair;
  priority = "HIGH";
  description = "brakes";
  estimated_cost = some (pos 500000);
  approval_status = ApprovalStatus.ops_approved;
  ops_approved_by_key = 0;
  md_approved_by_key = 0;
  mobile_device_id = none;
  maintenance_status = MaintenanceStatus.opened;
  completion_notes = none;
  actual_cost = none;
  vendor_name = none;
  invoice_number = none;
  work_start_date = none;
  work_completion_date = none;
}

abbrev garage : Db
garage = record company { maintenance = brakes ∷ [] }

idle_ticket :
    (b k : ℕ) (m : Maintenance) → first_row (owned_ticket b k) (brakes ∷ []) ≡ some m → brakes ≡ m
unfolding first_row
idle_ticket b k m =
    if-holds (λ o. o ≡ some m → brakes ≡ m) (owned_ticket b k brakes) (some brakes) none (λ _ h. cc)
      (λ _ h. cc)

garage-WorkIsPassed : WorkIsPassed garage
garage-WorkIsPassed b k m found work =
    subst (λ t. IsWorkedOn t.maintenance_status → IsPassed t.approval_status)
      (idle_ticket b k m found) (λ _. inl refl) work

abbrev report : MaintenanceReport
report = record {
  vehicle_key = 7;
  maintenance_type = MaintenanceType.repair;
  description = "lights";
  priority = "";
  estimated_cost = pos 0;
}

ticket_routes-approved_example :
    WorkIsPassed (post_maintenance none report ann_user garage).1
    × WorkIsPassed (put_approval 6 (some Level.ops) ann_user garage).1
    × WorkIsPassed (put_work_status 6 started ann_user garage).1
ticket_routes-approved_example =
    ticket_routes-approved none report 6 (some Level.ops) started ann_user garage
      garage-WorkIsPassed

delivery_is_there : first_row (owned 1 40) company.dispatch_table ≡ some delivery
unfolding first_row
delivery_is_there = refl

delivery_in_order : in_order delivery.body ≡ true
unfolding in_order
delivery_in_order = refl

stamp_dispatch_custody-Follows_example :
    Follows Stage.security
      (holder delivery.body)
      ann
      40
      (stamp_dispatch_custody ann 40 Stage.security signature (stamp_opts ann) company).1
stamp_dispatch_custody-Follows_example =
    stamp_dispatch_custody-Follows Stage.security ann 40 signature (stamp_opts ann) company delivery
      refl delivery_is_there delivery_in_order

batch_fits : ltb_ℤ (max_batch company) (pos 1) ≡ false
unfolding config_value
batch_fits = refl

post_batch-Received_example :
    Received "phone-9" ann_user "ref-7"
      (Payload.trip_start early_trip)
      (post_batch server "phone-9"
        (item "phone-9" ann_user "ref-7" (Payload.trip_start early_trip) ∷ [])
        ann_user
        company).1
post_batch-Received_example =
    post_batch-Received "phone-9" ann_user "ref-7" (Payload.trip_start early_trip) server [] []
      company refl refl refl batch_fits
