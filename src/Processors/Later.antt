-- ===== src/Processors/Later.antt =====
-- The order in which the processors move the database: nothing is lost, versions, odometers, stamps
-- and the change log only move on.
use renuzi_ops_platform.Prelude.{
  ◌≤◌, ◌≤ℤ◌, ◌≡◌, refl, sym, ◌∙◌, Bool, true, not, ◌||◌, arith, Extends, IsPreorder, Extends-refl,
  Extends-trans,
}
use mathlib.Core.Path.{subst}
use renuzi_ops_platform.Schema.{Row, Vehicle, Dispatch, Grn, Change}
use renuzi_ops_platform.Database.{Db}
use renuzi_ops_platform.Exec.Preserves.{Relation}
use renuzi_ops_platform.Processors.Laws.{SameTables}

-- A flag that is not taken back.
abbrev pub IsKept : Bool → Bool → Type 0
IsKept before after = (not before || after) ≡ true

abbrev pub SameEntity : {B : Type 0} → Row B → Row B → Type 0
SameEntity r s = (s.key ≡ r.key) × (s.business_key ≡ r.business_key) × (r.version_no ≤ s.version_no)

abbrev pub VehicleMoves : Row Vehicle → Row Vehicle → Type 0
VehicleMoves r s = SameEntity r s × (r.body.current_odometer ≤ℤ s.body.current_odometer)

abbrev pub DispatchMoves : Row Dispatch → Row Dispatch → Type 0
DispatchMoves r s =
    SameEntity r s
    × IsKept r.body.warehouse_stamp s.body.warehouse_stamp
    × IsKept r.body.security_stamp s.body.security_stamp
    × IsKept r.body.driver_acknowledged s.body.driver_acknowledged
    × IsKept r.body.customer_acknowledged s.body.customer_acknowledged

abbrev pub GrnMoves : Row Grn → Row Grn → Type 0
GrnMoves r s = SameEntity r s × IsKept r.body.finance_signoff s.body.finance_signoff

pub entity_preorder : {B : Type 0} → IsPreorder (SameEntity {B = B})
entity_preorder = record { same = λ x. ground arith; follows = λ {x} {y} {z} h k. ground arith }

pub vehicle_preorder : IsPreorder VehicleMoves
vehicle_preorder = record { same = λ x. ground arith; follows = λ {x} {y} {z} h k. ground arith }

pub dispatch_preorder : IsPreorder DispatchMoves
dispatch_preorder = record { same = λ x. ground arith; follows = λ {x} {y} {z} h k. ground arith }

pub grn_preorder : IsPreorder GrnMoves
grn_preorder = record { same = λ x. ground arith; follows = λ {x} {y} {z} h k. ground arith }

pub change_preorder : IsPreorder {A = Change} (λ x y. y ≡ x)
change_preorder = record { same = λ x. refl; follows = λ h k. k ∙ h }

-- The order in which the processors move the database.
pub record IsLater (a b : Db) : Type 0 where
  pub vehicles_move : Extends VehicleMoves a.vehicle_table b.vehicle_table
  pub routes_move : Extends SameEntity a.route_table b.route_table
  pub customers_move : Extends SameEntity a.customer_table b.customer_table
  pub products_move : Extends SameEntity a.product_table b.product_table
  pub dispatches_move : Extends DispatchMoves a.dispatch_table b.dispatch_table
  pub grns_move : Extends GrnMoves a.grn_table b.grn_table
  pub log_grows : Extends (λ x y. y ≡ x) a.change_log b.change_log
  pub same_queue : b.sync_queue ≡ a.sync_queue
  pub same_conflicts : b.conflict_log ≡ a.conflict_log
  pub keys_rise : a.next_identity ≤ b.next_identity

pub IsLater-refl : (db : Db) → IsLater db db
IsLater-refl db = record {
  vehicles_move = Extends-refl vehicle_preorder db.vehicle_table;
  routes_move = Extends-refl entity_preorder db.route_table;
  customers_move = Extends-refl entity_preorder db.customer_table;
  products_move = Extends-refl entity_preorder db.product_table;
  dispatches_move = Extends-refl dispatch_preorder db.dispatch_table;
  grns_move = Extends-refl grn_preorder db.grn_table;
  log_grows = Extends-refl change_preorder db.change_log;
  same_queue = refl;
  same_conflicts = refl;
  keys_rise = omega arith;
}

abbrev pub later : Relation
later = record {
  holds = IsLater;
  stays = IsLater-refl;
  follows = λ {a} {b} {c} h k. record {
    vehicles_move =
        Extends-trans vehicle_preorder a.vehicle_table b.vehicle_table c.vehicle_table
          h.vehicles_move k.vehicles_move;
    routes_move =
        Extends-trans entity_preorder a.route_table b.route_table c.route_table h.routes_move
          k.routes_move;
    customers_move =
        Extends-trans entity_preorder a.customer_table b.customer_table c.customer_table
          h.customers_move k.customers_move;
    products_move =
        Extends-trans entity_preorder a.product_table b.product_table c.product_table
          h.products_move k.products_move;
    dispatches_move =
        Extends-trans dispatch_preorder a.dispatch_table b.dispatch_table c.dispatch_table
          h.dispatches_move k.dispatches_move;
    grns_move =
        Extends-trans grn_preorder a.grn_table b.grn_table c.grn_table h.grns_move k.grns_move;
    log_grows =
        Extends-trans change_preorder a.change_log b.change_log c.change_log h.log_grows
          k.log_grows;
    same_queue = k.same_queue ∙ h.same_queue;
    same_conflicts = k.same_conflicts ∙ h.same_conflicts;
    keys_rise = let p = h.keys_rise in let q = k.keys_rise in omega arith;
  };
  counts = λ db. record {
    vehicles_move = Extends-refl vehicle_preorder db.vehicle_table;
    routes_move = Extends-refl entity_preorder db.route_table;
    customers_move = Extends-refl entity_preorder db.customer_table;
    products_move = Extends-refl entity_preorder db.product_table;
    dispatches_move = Extends-refl dispatch_preorder db.dispatch_table;
    grns_move = Extends-refl grn_preorder db.grn_table;
    log_grows = Extends-refl change_preorder db.change_log;
    same_queue = refl;
    same_conflicts = refl;
    keys_rise = omega arith;
  };
}

pub SameTables-IsLater : (a b : Db) → SameTables a b → IsLater a b
SameTables-IsLater a b (v, d, g, l, q, c, n, t, f, r, u, p) = record {
  vehicles_move =
      subst (Extends VehicleMoves a.vehicle_table) (sym v)
        (Extends-refl vehicle_preorder a.vehicle_table);
  routes_move =
      subst (Extends SameEntity a.route_table) (sym r) (Extends-refl entity_preorder a.route_table);
  customers_move =
      subst (Extends SameEntity a.customer_table) (sym u)
        (Extends-refl entity_preorder a.customer_table);
  products_move =
      subst (Extends SameEntity a.product_table) (sym p)
        (Extends-refl entity_preorder a.product_table);
  dispatches_move =
      subst (Extends DispatchMoves a.dispatch_table) (sym d)
        (Extends-refl dispatch_preorder a.dispatch_table);
  grns_move = subst (Extends GrnMoves a.grn_table) (sym g) (Extends-refl grn_preorder a.grn_table);
  log_grows =
      subst (Extends (λ x y. y ≡ x) a.change_log) (sym l)
        (Extends-refl change_preorder a.change_log);
  same_queue = q;
  same_conflicts = c;
  keys_rise = omega arith;
}
