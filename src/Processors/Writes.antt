-- ===== src/Processors/Writes.antt =====
-- The kinds of writes that the services make, under a relation that allows them.
use renuzi_ops_platform.Prelude.{ℕ, ◌≤ℤ◌, ◌≡◌, Bool, true, Option}
use renuzi_ops_platform.Constants.{ChangeOp, upsert, delete, Dataset}
use renuzi_ops_platform.Schema.{Row, Vehicle, Snapshot}
use renuzi_ops_platform.Database.{Db}
use renuzi_ops_platform.Exec.{execute, identity, pure, ◌>>=◌}
use renuzi_ops_platform.Exec.Preserves.{Relation, Preserves, Preserves-execute, preserves_rules}
use renuzi_ops_platform.Guards.ReadOnly.{guard_rules}
use renuzi_ops_platform.ChangeLog.{Recorded, log_row, record_upsert, record_delete, record_change}
use renuzi_ops_platform.Fleet.Vehicles.{update_vehicles}
use renuzi_ops_platform.Processors.Laws.{SameTables, ServiceLaws}

module _ {R : Relation} (L : ServiceLaws R) where
  pub Preserves-facts : (f : Db → Db) → ((db : Db) → SameTables db (f db)) → Preserves R (execute f)
  Preserves-facts f h = Preserves-execute f (λ db. L.facts db (f db) (h db))

  Preserves-logged :
      (ds : Dataset) (b k : ℕ) (op : ChangeOp) (v : ℕ) (x : Option (Snapshot ds))
      (answer : ℕ → Recorded ds)
      → Preserves R
          (identity >>= λ key. execute (log_row ds b k op v x key) >>= λ _. pure (answer key))
  unfolding ◌>>=◌
  Preserves-logged ds b k op v x answer = record { at = λ db. L.log ds b k op v x db }

  Preserves-record_upsert : (ds : Dataset) (b k : ℕ) → Preserves R (record_upsert ds b k)
  unfolding record_upsert
  Preserves-record_upsert ds b k =
      search (Preserves-logged, preserves_rules, guard_rules, L.bump) depth 12

  Preserves-record_delete : (ds : Dataset) (b k : ℕ) → Preserves R (record_delete ds b k)
  unfolding record_delete
  Preserves-record_delete ds b k = search (Preserves-logged, preserves_rules, guard_rules) depth 12

  pub Preserves-record_change :
      (ds : Dataset) (b k : ℕ) (op : ChangeOp) → Preserves R (record_change ds b k op)
  unfolding record_change
  Preserves-record_change ds b k upsert = Preserves-record_upsert ds b k
  Preserves-record_change ds b k delete = Preserves-record_delete ds b k

  -- A write of vehicles that lowers no odometer.
  pub Preserves-raise :
      (p : Db → Row Vehicle → Bool) (f : Db → Vehicle → Vehicle)
      → ((db : Db) (r : Row Vehicle)
          → p db r ≡ true
          → r.body.current_odometer ≤ℤ (f db r.body).current_odometer)
      → Preserves R (execute (λ db. update_vehicles (p db) (f db) db))
  Preserves-raise p f h = Preserves-execute _ (λ db. L.raise_vehicles (p db) (f db) db (h db))
