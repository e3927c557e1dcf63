-- ===== src/ChangeLog/Upserts.antt =====
-- recordChange of backend/src/services/changeLogService.js with op UPSERT, on both of its ways: the
-- table, the change log, the identity and the answer.
use renuzi_ops_platform.Prelude.{
  ℕ, ◌+◌, ◌≡◌, refl, ap, ◌∙◌, Option, none, some, List, [], ◌∷◌, ◌++◌, first_row, update_rows,
}
use renuzi_ops_platform.Constants.{
  upsert, Dataset, vehicles, routes, customers, products, dispatches, grns,
}
use renuzi_ops_platform.Schema.{Row, Body, Snapshot, Change}
use renuzi_ops_platform.Payload.{plain}
use renuzi_ops_platform.Database.{Db, table, put_table, table-put_table}
use renuzi_ops_platform.Exec.{Result, ok, err}
use renuzi_ops_platform.Guards.{owned}
use renuzi_ops_platform.ChangeLog.{bump_table, Recorded, record_upsert}
use renuzi_ops_platform.ChangeLog.Laws.{
  recorded_upsert, after_upsert, record_upsert_lem, record_upsert_missing,
}

module _ (ds : Dataset) (b e : ℕ) (db : Db) where
  -- The table with the version of the entity's row one higher.
  abbrev pub next_rows : List (Row (Body ds))
  next_rows =
      update_rows (owned b e) (λ r. record r { version_no = r.version_no + 1 }) (table ds db)

  abbrev pub next_snapshot : Row (Body ds) → Snapshot ds
  next_snapshot row = record {
    row = record row { version_no = row.version_no + 1 };
    version_no = row.version_no + 1;
  }

  -- The change that is to be logged.
  abbrev pub next_change : Row (Body ds) → Change
  next_change row = record {
    change_key = db.next_identity;
    business_key = b;
    entity_type = ds;
    entity_key = e;
    op = upsert;
    version_no = row.version_no + 1;
    payload_json = some (next_snapshot row);
    created_at = db.now;
  }

  -- What recording has to give, by the row of the entity.
  abbrev pub IsRecorded : Option (Row (Body ds)) → Result (Recorded ds) × Db → Type 0
  IsRecorded none x = x ≡ (
    err (
        plain "recordChange: ${dataset} entity ${entityKey} not found for business ${businessKey}"),
    db,
  )
  IsRecorded (some row) x =
      (x.0
        ≡ ok (record {
          change_key = db.next_identity;
          version_no = row.version_no + 1;
          payload_json = some (next_snapshot row);
        }))
      × (table ds x.1 ≡ next_rows)
      × (x.1
          ≡ put_table ds next_rows (record db {
            next_identity = db.next_identity + 1;
            change_log = db.change_log ++ next_change row ∷ [];
          }))

after_upsert_lem :
    (ds : Dataset) (b e : ℕ) (db : Db) (row : Row (Body ds))
    → after_upsert ds b e db row
      ≡ put_table ds (next_rows ds b e db) (record db {
        next_identity = db.next_identity + 1;
        change_log = db.change_log ++ next_change ds b e db row ∷ [];
      })
unfolding bump_table table put_table
after_upsert_lem vehicles b e db row = refl
after_upsert_lem routes b e db row = refl
after_upsert_lem customers b e db row = refl
after_upsert_lem products b e db row = refl
after_upsert_lem dispatches b e db row = refl
after_upsert_lem grns b e db row = refl

recorded_upsert_lem :
    (ds : Dataset) (b e : ℕ) (db : Db) (row : Row (Body ds))
    → (recorded_upsert ds b e db row).change_key ≡ db.next_identity
unfolding bump_table put_table
recorded_upsert_lem vehicles b e db row = refl
recorded_upsert_lem routes b e db row = refl
recorded_upsert_lem customers b e db row = refl
recorded_upsert_lem products b e db row = refl
recorded_upsert_lem dispatches b e db row = refl
recorded_upsert_lem grns b e db row = refl

module _ (ds : Dataset) (b e : ℕ) (db : Db) where
  upsert-found :
      (o : Option (Row (Body ds)))
      → first_row (owned b e) (table ds db) ≡ o
      → IsRecorded ds b e db o (record_upsert ds b e db)
  upsert-found none h = record_upsert_missing ds b e db h
  upsert-found (some row) h =
      let all = record_upsert_lem ds b e db h in
      let after = ap (λ x. x.1) all ∙ after_upsert_lem ds b e db row in
      (
        ap (λ x. x.0) all
            ∙ ap
                (λ k. ok (record {
                  change_key = k;
                  version_no = row.version_no + 1;
                  payload_json = some (next_snapshot ds b e db row);
                }))
                (recorded_upsert_lem ds b e db row),
        ap (table ds) after ∙ table-put_table ds _ _,
        after,
      )

-- Recording an upsert of an entity that the business has makes the version in its row one higher,
-- appends one change for the entity under the next identity, with that version, the row with that
-- version as its snapshot and the time, moves the identity on by one, changes nothing else, and
-- answers with the key, the version and the snapshot of the change. For an entity that the
-- business does not have it throws and changes nothing.
pub record_upsert-IsRecorded :
    (ds : Dataset) (b e : ℕ) (db : Db)
    → IsRecorded ds b e db (first_row (owned b e) (table ds db)) (record_upsert ds b e db)
record_upsert-IsRecorded ds b e db = upsert-found ds b e db _ refl
