-- ===== src/ChangeLog/Laws.antt =====
-- What recordChange and the watermark of backend/src/services/changeLogService.js promise.
use renuzi_ops_platform.Prelude.{
  ℕ, ◌+◌, ◌≡◌, refl, none, some, first_row, update_rows, first_row-update_rows,
}
use renuzi_ops_platform.Constants.{upsert, Dataset}
use renuzi_ops_platform.Schema.{Row, Body}
use renuzi_ops_platform.Payload.{plain}
use renuzi_ops_platform.Database.{Db, table, table-put_table}
use renuzi_ops_platform.Exec.{ok, err, ◌>>=◌}
use renuzi_ops_platform.Guards.{owned}
use renuzi_ops_platform.ChangeLog.{bump_version, bump_table, log_row, Recorded, record_upsert}

module _ (ds : Dataset) (b e : ℕ) (db : Db) where
  pub table-bump_table :
      table ds (bump_table ds b e db) ≡ update_rows (owned b e) bump_version (table ds db)
  unfolding bump_table
  table-bump_table = table-put_table ds _ db

  pub found_after_bump :
      {row : Row (Body ds)}
      → first_row (owned b e) (table ds db) ≡ some row
      → first_row (owned b e) (table ds (bump_table ds b e db)) ≡ some (bump_version row)
  found_after_bump {row} h =
      rw table-bump_table
        (first_row-update_rows (owned b e) bump_version (table ds db) (λ y. refl) h)

  -- What the outbox has done for an entity whose row is there.
  abbrev pub recorded_upsert : Row (Body ds) → Recorded ds
  recorded_upsert row = record {
    change_key = (bump_table ds b e db).next_identity;
    version_no = row.version_no + 1;
    payload_json = some (record { row = bump_version row; version_no = row.version_no + 1 });
  }

  abbrev pub after_upsert : Row (Body ds) → Db
  after_upsert row =
      let bumped = bump_table ds b e db in
      log_row ds b e upsert (row.version_no + 1)
        (some (record { row = bump_version row; version_no = row.version_no + 1 }))
        bumped.next_identity (record bumped { next_identity = bumped.next_identity + 1 })

  -- Recording an upsert of an entity whose row is there bumps the version of the row, appends one
  -- change with that version and the bumped row as its snapshot under a fresh change key, and
  -- writes nothing else.
  pub record_upsert_lem :
      {row : Row (Body ds)}
      → first_row (owned b e) (table ds db) ≡ some row
      → record_upsert ds b e db ≡ (ok (recorded_upsert row), after_upsert row)
  unfolding record_upsert ◌>>=◌
  record_upsert_lem {row} h = rw h (rw (found_after_bump h) refl)

  -- Recording an upsert of an entity that the business does not have throws and writes nothing.
  pub record_upsert_missing :
      first_row (owned b e) (table ds db) ≡ none
      → record_upsert ds b e db ≡ (
        err (
            plain
              "recordChange: ${dataset} entity ${entityKey} not found for business ${businessKey}"),
        db,
      )
  unfolding record_upsert ◌>>=◌
  record_upsert_missing h = rw h refl
