-- ===== src/Processors/Laws.antt =====
-- What a relation on databases has to allow for all services to keep it: their writes, one by one.
use renuzi_ops_platform.Prelude.{ℕ, ◌+◌, ◌≤ℤ◌, ◌≡◌, Bool, true, Option, [], ◌∷◌, ◌++◌}
use renuzi_ops_platform.Constants.{ChangeOp, Dataset}
use renuzi_ops_platform.Schema.{Row, Vehicle, Grn, Snapshot}
use renuzi_ops_platform.Payload.{Actor, DispatchAck}
use renuzi_ops_platform.Database.{Db}
use renuzi_ops_platform.Exec.Preserves.{Relation}
use renuzi_ops_platform.Guards.{owned}
use renuzi_ops_platform.ChangeLog.{bump_table, log_row}
use renuzi_ops_platform.Fleet.Vehicles.{update_vehicles}
use renuzi_ops_platform.Warehouse.Custody.{Stage, update_dispatches, stamped}

-- Equal but for the fact tables that no pull dataset is made of.
abbrev pub SameTables : Db → Db → Type 0
SameTables a b =
    (b.vehicle_table ≡ a.vehicle_table)
    × (b.dispatch_table ≡ a.dispatch_table)
    × (b.grn_table ≡ a.grn_table)
    × (b.change_log ≡ a.change_log)
    × (b.sync_queue ≡ a.sync_queue)
    × (b.conflict_log ≡ a.conflict_log)
    × (b.next_identity ≡ a.next_identity)
    × (b.now ≡ a.now)
    × (b.config ≡ a.config)
    × (b.route_table ≡ a.route_table)
    × (b.customer_table ≡ a.customer_table)
    × (b.product_table ≡ a.product_table)

pub record ServiceLaws (R : Relation) : Type 0 where
  pub facts : (a b : Db) → SameTables a b → R.holds a b
  pub raise_vehicles :
      (p : Row Vehicle → Bool) (f : Vehicle → Vehicle) (db : Db)
      → ((r : Row Vehicle) → p r ≡ true → r.body.current_odometer ≤ℤ (f r.body).current_odometer)
      → R.holds db (update_vehicles p f db)
  pub insert_grn :
      (g : Row Grn) (db : Db) → R.holds db (record db { grn_table = db.grn_table ++ g ∷ [] })
  pub stamp :
      (s : Stage) (a : Actor) (k : ℕ) (p : DispatchAck) (n : ℕ) (db : Db)
      → R.holds db (update_dispatches (owned a.business_key k) (stamped s a p n) db)
  pub bump : (ds : Dataset) (b k : ℕ) (db : Db) → R.holds db (bump_table ds b k db)
  -- A row of the log, under the key that is drawn for it.
  pub log :
      (ds : Dataset) (b k : ℕ) (op : ChangeOp) (v : ℕ) (x : Option (Snapshot ds)) (db : Db)
      → R.holds db (
          log_row ds b k op v x db.next_identity
            (record db { next_identity = db.next_identity + 1 }))
