-- ===== src/Fleet/Reports.antt =====
-- reportMaintenance of backend/src/services/fleetService.js: with which status a ticket is born.
use renuzi_ops_platform.Prelude.{
  ℕ, ℤ, pos, ◌+◌, ◌≡◌, refl, sym, ap, Bool, true, false, Option, none, some, [], ◌∷◌, ◌++◌, or_else,
  if◌then◌else◌,
}
use mathlib.Core.Path.{subst}
use renuzi_ops_platform.Constants.{ApprovalStatus, MaintenanceStatus}
use renuzi_ops_platform.Schema.{Maintenance}
use renuzi_ops_platform.Payload.{Actor, MaintenanceReport}
use renuzi_ops_platform.Database.{Db}
use renuzi_ops_platform.Exec.{Exec, Result, ok, err, pure, execute, identity, continue, ◌>>=◌, ◌>>◌}
use renuzi_ops_platform.Exec.Atomic.{IsReadOnly, IsReadOnly-throw_if}
use renuzi_ops_platform.Guards.{config_value, get_config}
use renuzi_ops_platform.Guards.ReadOnly.{IsReadOnly-get_owned_vehicle, IsReadOnly-resolve_date_key}
use renuzi_ops_platform.Fleet.Threshold.{Needs, above-Needs}
use renuzi_ops_platform.Fleet.Atomicity.{IsReadOnly-check_type}
use renuzi_ops_platform.Fleet.Maintenance.{default_threshold, report_maintenance}

-- The configured threshold, 100,000 if there is none or if it is no number.
abbrev pub threshold_of : Option (Option ℤ) → ℤ
threshold_of (some (some v)) = v
threshold_of (some none) = pos 10000000
threshold_of none = pos 10000000

abbrev pub birth_status : Bool → ApprovalStatus
birth_status true = ApprovalStatus.pending
birth_status false = ApprovalStatus.ops_approved

-- A ticket of the business, open and not signed by anybody.
pub record IsBorn (a : Actor) (p : MaintenanceReport) (key : ℕ) (needs_md : Bool) (m : Maintenance)
    : Type 0 where
  pub same_key : m.maintenance_key ≡ key
  pub same_business : m.business_key ≡ a.business_key
  pub same_vehicle : m.vehicle_key ≡ p.vehicle_key
  pub birth : m.approval_status ≡ birth_status needs_md
  pub open_work : m.maintenance_status ≡ MaintenanceStatus.opened
  pub no_ops : m.ops_approved_by_key ≡ 0
  pub no_md : m.md_approved_by_key ≡ 0

-- Such a ticket is added under the next identity, and the flag goes by the threshold.
abbrev pub IsReported : Actor → MaintenanceReport → Db → ℕ × Bool → Db → Type 0
IsReported a p before (key, needs_md) after =
    (key ≡ before.next_identity)
    × Needs needs_md (some p.estimated_cost)
        (threshold_of (config_value "MAINTENANCE_MD_THRESHOLD" before.config))
    × ((m : Maintenance) × IsBorn a p key needs_md m
        × (after ≡ record before {
          next_identity = key + 1;
          maintenance = before.maintenance ++ m ∷ [];
        }))

-- What holds of every result that is given.
abbrev pub IfOk : {B : Type 0} → (B → Db → Type 0) → Result B × Db → Type 0
IfOk {B} Q x = (r : B) → x.0 ≡ ok r → Q r x.1

abbrev value_or : {B : Type 0} → B → Result B → B
value_or r (ok b) = b
value_or r (err e) = r

module _ {A B : Type 0} (Q : B → Db → Type 0) (db : Db) where
  IfOk-continue :
      (x : Result A) (f : A → Exec B) → ((a : A) → IfOk Q (f a db)) → IfOk Q (continue x f db)
  IfOk-continue (ok a) f h = h a
  IfOk-continue (err e) f h = λ r told. cc

  IfOk-read :
      (m : Exec A) (f : A → Exec B)
      → IsReadOnly m
      → ((a : A) → IfOk Q (f a db))
      → IfOk Q ((m >>= f) db)
  unfolding ◌>>=◌
  IfOk-read m f still h =
      subst (λ d. IfOk Q (continue (m db).0 f d)) (sym (still.at db)) (IfOk-continue (m db).0 f h)

  IfOk-known :
      (m : Exec A) (f : A → Exec B) (a : A)
      → m db ≡ (ok a, db)
      → IfOk Q (f a db)
      → IfOk Q ((m >>= f) db)
  unfolding ◌>>=◌
  IfOk-known m f a e h = subst (λ x. IfOk Q (continue x.0 f x.1)) (sym e) h

get_config_lem :
    (db : Db)
    → get_config "MAINTENANCE_MD_THRESHOLD" default_threshold db
      ≡ (ok (threshold_of (config_value "MAINTENANCE_MD_THRESHOLD" db.config)), db)
unfolding get_config ◌>>=◌
get_config_lem db =
    ap (λ n. (ok n, db)) (configured (config_value "MAINTENANCE_MD_THRESHOLD" db.config))
  where
    configured :
        (v : Option (Option ℤ)) → or_else (or_else v none) default_threshold ≡ threshold_of v
    configured none = refl
    configured (some none) = refl
    configured (some (some v)) = refl

status-birth :
    (b : Bool)
    → (if b then ApprovalStatus.pending else ApprovalStatus.ops_approved) ≡ birth_status b
status-birth true = refl
status-birth false = refl

insert-IsReported :
    (a : Actor) (p : MaintenanceReport) (needs_md : Bool) (f : ℕ → Maintenance) (db : Db)
    → Needs needs_md
        (some p.estimated_cost)
        (threshold_of (config_value "MAINTENANCE_MD_THRESHOLD" db.config))
    → IsBorn a p db.next_identity needs_md (f db.next_identity)
    → IfOk (IsReported a p db) (
        (do
          key ← identity
          execute (λ d. record d { maintenance = d.maintenance ++ f key ∷ [] })
          pure (key, needs_md))
          db)
unfolding ◌>>=◌
insert-IsReported a p needs_md f db needs born r told =
    subst
      (λ q. IsReported a p db q (record db {
        next_identity = db.next_identity + 1;
        maintenance = db.maintenance ++ f db.next_identity ∷ [];
      }))
      (ap (value_or r) told) (refl, needs, (f db.next_identity, born, refl))

-- A report of maintenance that succeeds, with a flag that says if the MD is needed, adds one
-- ticket under the next identity, with the business of the actor and the vehicle of the report,
-- open and with no signature, PENDING with the flag and OPS_APPROVED without it, moves the
-- identity on by one and changes nothing else. The flag says that the reported cost is not 0 and
-- is above the configured threshold, or above 100000 if none is configured or its value is no
-- number.
pub report_maintenance-IsReported :
    (a : Actor) (p : MaintenanceReport) (db : Db) (r : ℕ × Bool)
    → (report_maintenance a p db).0 ≡ ok r
    → IsReported a p db r (report_maintenance a p db).1
unfolding report_maintenance
report_maintenance-IsReported a p db =
    IfOk-read (IsReported a p db) db _ _ (IsReadOnly-throw_if _ _) (λ _.
      IfOk-read (IsReported a p db) db _ _ (IsReadOnly-check_type p.maintenance_type) (λ _.
        IfOk-read (IsReported a p db) db _ _ (IsReadOnly-get_owned_vehicle _ _) (λ _.
          IfOk-known (IsReported a p db) db _ _ _ (get_config_lem db) (
            IfOk-read (IsReported a p db) db _ _ IsReadOnly-resolve_date_key (λ date.
              insert-IsReported a p _ _ db
                (above-Needs p.estimated_cost
                  (threshold_of (config_value "MAINTENANCE_MD_THRESHOLD" db.config)))
                (record {
                  same_key = refl;
                  same_business = refl;
                  same_vehicle = refl;
                  birth = status-birth _;
                  open_work = refl;
                  no_ops = refl;
                  no_md = refl;
                }))))))
