-- ===== src/ChangeLog/Sweep.antt =====
-- backend/src/services/changeLogService.js: the sweep that mends the log where a write went past
-- it, and the purge of old changes (sp_sync_change_log_retention in
-- backend/database/05_pull_change_log.sql).
use renuzi_ops_platform.Prelude.{
  ℕ, ◌+◌, ◌-◌, ◌*◌, ℤ, pos, Bool, true, false, not, ◌&&◌, ◌||◌, Option, none, some, List, [], ◌∷◌,
  ◌++◌, ◌==◌, ltb, if◌then◌else◌, is_some, or_else, length, where_rows, first_row,
}
use renuzi_ops_platform.Constants.{
  ChangeOp, upsert, delete, Dataset, same_dataset, vehicles, routes, customers, products,
  dispatches, grns,
}
use renuzi_ops_platform.Schema.{Row, Body, Change}
use renuzi_ops_platform.Database.{Db, table}
use renuzi_ops_platform.Exec.{Exec, pure, query, try_catch, execute, ◌>>=◌, ◌>>◌}
use renuzi_ops_platform.Guards.{owned, config_value}
use renuzi_ops_platform.ChangeLog.{in_scope, record_change_standalone}

-- The join condition l.business_key, l.entity_type and l.entity_key.
abbrev pub same_entity : ℕ → Dataset → ℕ → Change → Bool
same_entity business_key ds entity_key c =
    in_scope business_key ds c && (c.entity_key == entity_key)

-- The LEFT JOIN finds a change with the row's version.
unfoldable pub is_logged : ℕ → Dataset → ℕ → ℕ → List Change → Bool
is_logged business_key ds entity_key version_no [] = false
is_logged business_key ds entity_key version_no (c ∷ log) =
    (same_entity business_key ds entity_key c && (c.version_no == version_no))
    || is_logged business_key ds entity_key version_no log

abbrev pub is_missing : (ds : Dataset) → List Change → Row (Body ds) → Bool
is_missing ds log r =
    not (r.business_key == 0) && not (is_logged r.business_key ds r.key r.version_no log)

-- (business_key, entity_key) of rows.
abbrev pub keys_of : {B : Type 0} → List (Row B) → List (ℕ × ℕ)
keys_of [] = []
keys_of (r ∷ rows) = (r.business_key, r.key) ∷ keys_of rows

-- Rows whose current version was never logged.
unfoldable pub missing_keys : Dataset → Db → List (ℕ × ℕ)
missing_keys ds db = keys_of (where_rows (is_missing ds db.change_log) (table ds db))

-- MAX(change_key) of the change's entity is its own.
unfoldable pub is_latest : Change → List Change → Bool
is_latest c [] = true
is_latest c (d ∷ log) =
    not (same_entity c.business_key c.entity_type c.entity_key d && ltb c.change_key d.change_key)
    && is_latest c log

abbrev pub is_delete : ChangeOp → Bool
is_delete delete = true
is_delete upsert = false

-- The latest change of an entity whose row is gone, unless it is a tombstone.
abbrev pub is_orphan : Dataset → Db → Change → Bool
is_orphan ds db c =
    same_dataset c.entity_type ds
    && is_latest c db.change_log
    && not (is_delete c.op)
    && not (is_some (first_row (owned c.business_key c.entity_key) (table ds db)))

abbrev entities_of : List Change → List (ℕ × ℕ)
entities_of [] = []
entities_of (c ∷ log) = (c.business_key, c.entity_key) ∷ entities_of log

unfoldable pub gone_keys : Dataset → Db → List (ℕ × ℕ)
gone_keys ds db = entities_of (where_rows (is_orphan ds db) db.change_log)

-- for (const row of rows) { try { await emit(row); n++; } catch { log } }
unfoldable pub record_each : Dataset → ChangeOp → List (ℕ × ℕ) → ℕ → Exec ℕ
record_each ds op [] n = pure n
record_each ds op ((b, k) ∷ rest) n = do
  m ← try_catch (do record_change_standalone ds b k op; pure (n + 1)) (λ e. pure n)
  record_each ds op rest m

pub record Swept : Type 0 where
  pub reemitted : ℕ
  pub tombstones : ℕ

-- Branch 2: tombstones.
unfoldable pub sweep_tombstones : Dataset → ℕ → Exec Swept
sweep_tombstones ds reemitted = do
  gone ← query (gone_keys ds)
  tombstones ← record_each ds delete gone 0
  pure (record { reemitted = reemitted; tombstones = tombstones })

-- Branch 1: rows that were never logged; then branch 2.
unfoldable pub sweep_dataset : Dataset → Exec Swept
sweep_dataset ds = do
  missing ← query (missing_keys ds)
  reemitted ← record_each ds upsert missing 0
  sweep_tombstones ds reemitted

pub record SweepSummary : Type 0 where
  pub swept : ℕ
  pub tombstoned : ℕ
  pub datasets : List (Dataset × Swept)

abbrev pub count_swept : Dataset → Swept → SweepSummary → SweepSummary
count_swept ds s total =
    if ltb 0 s.reemitted || ltb 0 s.tombstones
    then record {
      swept = total.swept + s.reemitted;
      tombstoned = total.tombstoned + s.tombstones;
      datasets = total.datasets ++ (ds, s) ∷ [];
    }
    else total

unfoldable pub sweep_datasets : List Dataset → SweepSummary → Exec SweepSummary
sweep_datasets [] total = pure total
sweep_datasets (ds ∷ rest) total = do
  s ← sweep_dataset ds
  sweep_datasets rest (count_swept ds s total)

abbrev pub dataset_order : List Dataset
dataset_order = vehicles ∷ routes ∷ customers ∷ products ∷ dispatches ∷ grns ∷ []

unfoldable pub sweep_changes : Exec SweepSummary
sweep_changes = sweep_datasets dataset_order (record { swept = 0; tombstoned = 0; datasets = [] })

-- NULL and a negative number are no window.
abbrev pub window : Option ℤ → ℕ
window (some (pos days)) = days
window _ = 30

-- @days: the argument, or the configured number if it is NULL.
abbrev pub retention_days : Option ℤ → Db → ℕ
retention_days (some days) db = window (some days)
retention_days none db =
    window (or_else (config_value "SYNC_CHANGE_LOG_RETENTION_DAYS" db.config) none)

-- created_at < DATEADD(DAY, -@days, GETDATE())
abbrev pub is_old : ℕ → ℕ → Change → Bool
is_old days now c = ltb c.created_at (now - days * 86400000)

unfoldable pub run_retention : Option ℤ → Exec ℕ
run_retention given = do
  days ← query (retention_days given)
  purged ← query (λ db. length (where_rows (is_old days db.now) db.change_log))
  execute
      (λ db. record db { change_log = where_rows (λ c. not (is_old days db.now c)) db.change_log })
  pure purged
