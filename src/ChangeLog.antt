-- ===== src/ChangeLog.antt =====
-- backend/src/services/changeLogService.js: the transactional outbox.
pub mod Laws
pub mod Upserts
pub mod Tables
pub mod Sweep
pub mod Coverage
pub mod Reach
pub mod Complete
use renuzi_ops_platform.Prelude.{
  ℕ, ◌+◌, max, Bool, true, false, not, ◌&&◌, Option, none, some, List, [], ◌∷◌, ◌++◌, ◌==◌, ltb,
  if◌then◌else◌, is_some, or_else, first_row, update_rows,
}
use renuzi_ops_platform.Constants.{ChangeOp, upsert, delete, Dataset, same_dataset}
use renuzi_ops_platform.Schema.{Row, Body, Snapshot, Change}
use renuzi_ops_platform.Payload.{plain}
use renuzi_ops_platform.Database.{Db, table, put_table}
use renuzi_ops_platform.Exec.{
  Exec, pure, throw, query, throw_if, with_transaction, execute, identity, ◌>>=◌, ◌>>◌,
}
use renuzi_ops_platform.Guards.{owned, or_throw}

abbrev pub bump_version : {B : Type 0} → Row B → Row B
bump_version r = record r { version_no = r.version_no + 1 }

-- UPDATE … SET version_no = version_no + 1 WHERE key AND business_key
unfoldable pub bump_table : Dataset → ℕ → ℕ → Db → Db
unfolding table put_table
bump_table ds business_key entity_key db =
    put_table ds (update_rows (owned business_key entity_key) bump_version (table ds db)) db

-- MAX(version_no) of the entity's rows of the log, 0 if it has none.
unfoldable pub last_logged : Dataset → ℕ → ℕ → List Change → ℕ
last_logged ds business_key entity_key [] = 0
last_logged ds business_key entity_key (c ∷ cs) =
    let later = last_logged ds business_key entity_key cs in
    if (c.business_key == business_key)
      && same_dataset c.entity_type ds
      && (c.entity_key == entity_key)
    then max c.version_no later
    else later

abbrev pub log_row : (ds : Dataset) → ℕ → ℕ → ChangeOp → ℕ → Option (Snapshot ds) → ℕ → Db → Db
log_row ds business_key entity_key op version_no payload_json change_key db = record db {
  change_log =
      db.change_log
      ++ record {
        change_key = change_key;
        business_key = business_key;
        entity_type = ds;
        entity_key = entity_key;
        op = op;
        version_no = version_no;
        payload_json = payload_json;
        created_at = db.now;
      }
        ∷ [];
}

pub record Recorded (ds : Dataset) : Type 0 where
  pub change_key : ℕ
  pub version_no : ℕ
  pub payload_json : Option (Snapshot ds)

-- recordChange with op UPSERT and no payload: bump, snapshot the row, log it.
unfoldable pub record_upsert : (ds : Dataset) → ℕ → ℕ → Exec (Recorded ds)
record_upsert ds business_key entity_key = do
  known ← query (λ db. is_some (first_row (owned business_key entity_key) (table ds db)))
  throw_if (not known)
      (plain "recordChange: ${dataset} entity ${entityKey} not found for business ${businessKey}")
  execute (bump_table ds business_key entity_key)
  row ← query (λ db. first_row (owned business_key entity_key) (table ds db))
  snapshot ← or_throw row (plain "recordChange: ${dataset} entity ${entityKey} vanished")
  let payload : Snapshot ds = record { row = snapshot; version_no = snapshot.version_no }
  change_key ← identity
  execute (log_row ds business_key entity_key upsert snapshot.version_no (some payload) change_key)
  pure (record {
    change_key = change_key;
    version_no = snapshot.version_no;
    payload_json = some payload;
  })

-- recordChange with op DELETE: a tombstone, one version after the last one logged.
unfoldable pub record_delete : (ds : Dataset) → ℕ → ℕ → Exec (Recorded ds)
record_delete ds business_key entity_key = do
  last ← query (λ db. last_logged ds business_key entity_key db.change_log)
  change_key ← identity
  execute (log_row ds business_key entity_key delete (last + 1) none change_key)
  pure (record { change_key = change_key; version_no = last + 1; payload_json = none })

unfoldable pub record_change : (ds : Dataset) → ℕ → ℕ → ChangeOp → Exec (Recorded ds)
record_change ds business_key entity_key upsert = record_upsert ds business_key entity_key
record_change ds business_key entity_key delete = record_delete ds business_key entity_key

unfoldable pub record_change_standalone : (ds : Dataset) → ℕ → ℕ → ChangeOp → Exec (Recorded ds)
record_change_standalone ds business_key entity_key op =
    with_transaction (record_change ds business_key entity_key op)

unfoldable pub emit_snapshot : (ds : Dataset) → ℕ → ℕ → Exec (Recorded ds)
emit_snapshot ds business_key entity_key =
    record_change_standalone ds business_key entity_key upsert

abbrev pub in_scope : ℕ → Dataset → Change → Bool
in_scope business_key ds c = (c.business_key == business_key) && same_dataset c.entity_type ds

abbrev pub least : ℕ → Option ℕ → ℕ
least k none = k
least k (some j) = if ltb j k then j else k

-- MIN(change_key) over a business and a dataset; `none` is SQL's NULL.
unfoldable pub oldest_row : ℕ → Dataset → List Change → Option ℕ
oldest_row business_key ds [] = none
oldest_row business_key ds (c ∷ cs) =
    let rest = oldest_row business_key ds cs in
    if in_scope business_key ds c then some (least c.change_key rest) else rest

-- The retention watermark, 0 if nothing is logged.
unfoldable pub oldest_change_key : ℕ → Dataset → Exec ℕ
oldest_change_key business_key ds = do
  oldest ← query (λ db. oldest_row business_key ds db.change_log)
  pure (or_else oldest 0)
