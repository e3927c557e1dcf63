-- ===== src/Http/Roles.antt =====
-- backend/src/middleware/roleCheck.js: which roles a route admits.
use renuzi_ops_platform.Prelude.{Bool, true, false, ◌||◌, List, [], ◌∷◌}
use renuzi_ops_platform.Constants.{
  Role, driver, fleet_manager, warehouse_manager, warehouse_staff, ops_manager, security, admin,
  finance,
}

abbrev pub same_role : Role → Role → Bool
same_role driver driver = true
same_role fleet_manager fleet_manager = true
same_role warehouse_manager warehouse_manager = true
same_role warehouse_staff warehouse_staff = true
same_role ops_manager ops_manager = true
same_role security security = true
same_role admin admin = true
same_role finance finance = true
same_role _ _ = false

-- allowedRoles.includes(role)
abbrev pub includes_role : List Role → Role → Bool
includes_role [] r = false
includes_role (a ∷ allowed) r = same_role a r || includes_role allowed r

abbrev pub require_admin : List Role
require_admin = admin ∷ []

abbrev pub require_fleet_manager : List Role
require_fleet_manager = fleet_manager ∷ ops_manager ∷ admin ∷ []

abbrev pub require_warehouse_manager : List Role
require_warehouse_manager = warehouse_manager ∷ ops_manager ∷ admin ∷ []

abbrev pub require_driver : List Role
require_driver = driver ∷ fleet_manager ∷ admin ∷ []

abbrev pub require_warehouse_staff : List Role
require_warehouse_staff = warehouse_staff ∷ warehouse_manager ∷ ops_manager ∷ admin ∷ []

abbrev pub require_any : List Role
require_any =
    driver ∷ fleet_manager ∷ warehouse_manager ∷ warehouse_staff ∷ ops_manager ∷ security ∷ admin
    ∷ []

abbrev pub require_security : List Role
require_security = security ∷ warehouse_manager ∷ ops_manager ∷ admin ∷ []

abbrev pub require_ops_or_admin : List Role
require_ops_or_admin = ops_manager ∷ admin ∷ fleet_manager ∷ warehouse_manager ∷ []

abbrev pub require_finance : List Role
require_finance = ops_manager ∷ admin ∷ finance ∷ []
