-- ===== src/ChangeLog/Tables.antt =====
-- Which tables and which log the writes of recordChange leave as they are
-- (backend/src/services/changeLogService.js).
use renuzi_ops_platform.Prelude.{ℕ, ◌≡◌, refl, true, false, Option, List}
use renuzi_ops_platform.Constants.{
  ChangeOp, Dataset, same_dataset, vehicles, routes, customers, products, dispatches, grns,
}
use renuzi_ops_platform.Schema.{Row, Body, Snapshot}
use renuzi_ops_platform.Database.{Db, table, put_table, change_log-put_table}
use renuzi_ops_platform.ChangeLog.{bump_table, log_row}

pub table-log_row :
    (ds d : Dataset) (b k : ℕ) (op : ChangeOp) (v : ℕ) (x : Option (Snapshot d)) (key : ℕ) (db : Db)
    → table ds (log_row d b k op v x key db) ≡ table ds db
unfolding table
table-log_row vehicles d b k op v x key db = refl
table-log_row routes d b k op v x key db = refl
table-log_row customers d b k op v x key db = refl
table-log_row products d b k op v x key db = refl
table-log_row dispatches d b k op v x key db = refl
table-log_row grns d b k op v x key db = refl

pub table-identity :
    (ds : Dataset) (n : ℕ) (db : Db) → table ds (record db { next_identity = n }) ≡ table ds db
unfolding table
table-identity vehicles n db = refl
table-identity routes n db = refl
table-identity customers n db = refl
table-identity products n db = refl
table-identity dispatches n db = refl
table-identity grns n db = refl

pub table-put_other :
    (ds d : Dataset) (t : List (Row (Body d))) (db : Db)
    → same_dataset ds d ≡ false
    → table ds (put_table d t db) ≡ table ds db
unfolding table put_table
table-put_other vehicles vehicles t db h = cc
table-put_other routes routes t db h = cc
table-put_other customers customers t db h = cc
table-put_other products products t db h = cc
table-put_other dispatches dispatches t db h = cc
table-put_other grns grns t db h = cc
table-put_other _ _ t db h = refl

pub same_dataset-eq : (ds d : Dataset) → same_dataset ds d ≡ true → ds ≡ d
same_dataset-eq vehicles vehicles h = refl
same_dataset-eq routes routes h = refl
same_dataset-eq customers customers h = refl
same_dataset-eq products products h = refl
same_dataset-eq dispatches dispatches h = refl
same_dataset-eq grns grns h = refl
same_dataset-eq _ _ h = cc

pub change_log-bump_table :
    (d : Dataset) (b k : ℕ) (db : Db) → (bump_table d b k db).change_log ≡ db.change_log
unfolding bump_table
change_log-bump_table d b k db = change_log-put_table d _ db

pub table-bump_other :
    (ds d : Dataset) (b k : ℕ) (db : Db)
    → same_dataset ds d ≡ false
    → table ds (bump_table d b k db) ≡ table ds db
unfolding bump_table
table-bump_other ds d b k db h = table-put_other ds d _ db h
