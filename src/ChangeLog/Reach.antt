-- ===== src/ChangeLog/Reach.antt =====
-- sweepChanges of backend/src/services/changeLogService.js over all its loops.
use renuzi_ops_platform.Prelude.{
  ℕ, ◌+◌, ◌≡◌, refl, sym, ap, ◌∙◌, inl, inr, true, false, Option, none, some, List, [], ◌∷◌, ◌++◌,
  first_row, first_row-matches, arith, Bool-cases, Option-cases,
}
use mathlib.Core.Path.{subst}
use renuzi_ops_platform.Constants.{ChangeOp, upsert, delete, Dataset, same_dataset}
use renuzi_ops_platform.Schema.{Row, Body, Snapshot, Change}
use renuzi_ops_platform.Database.{Db, table}
use renuzi_ops_platform.Payload.{Error, plain}
use renuzi_ops_platform.Exec.{ok, err, pure, with_transaction, ◌>>=◌}
use renuzi_ops_platform.Exec.Preserves.{
  Relation, Preserves, Preserves-with_transaction, preserves_rules,
}
use renuzi_ops_platform.Guards.{owned}
use renuzi_ops_platform.ChangeLog.{
  Recorded, bump_table, bump_version, log_row, record_delete, record_change_standalone,
  record_change,
}
use renuzi_ops_platform.ChangeLog.Laws.{
  table-bump_table, after_upsert, recorded_upsert, record_upsert_lem, record_upsert_missing,
}
use renuzi_ops_platform.ChangeLog.Tables.{
  table-log_row, table-identity, same_dataset-eq, change_log-bump_table, table-bump_other,
}
use renuzi_ops_platform.ChangeLog.Sweep.{
  record_each, sweep_tombstones, sweep_dataset, sweep_datasets, SweepSummary,
}
use renuzi_ops_platform.ChangeLog.Coverage.{
  CoveredIn, CoveredBut, CoveredIn-append, CoveredIn-more, CoveredIn-bump, CoveredIn-skip, Logs,
}

module _ (ds : Dataset) (todo : List (ℕ × ℕ)) where
  pub covered_by :
      {t t' : List (Row (Body ds))} {l l' : List Change}
      → t' ≡ t
      → l' ≡ l
      → CoveredIn ds todo t l
      → CoveredIn ds todo t' l'
  covered_by et el h = rw (et, el) h

-- The change that recordChange appends.
abbrev upserted : (ds : Dataset) → ℕ → ℕ → Row (Body ds) → Db → Change
upserted ds b k f db = record {
  change_key = (bump_table ds b k db).next_identity;
  business_key = b;
  entity_type = ds;
  entity_key = k;
  op = upsert;
  version_no = f.version_no + 1;
  payload_json = some (record { row = bump_version f; version_no = f.version_no + 1 });
  created_at = (bump_table ds b k db).now;
}

owned-Logs :
    (ds : Dataset) (b k : ℕ) (f : Row (Body ds)) (db : Db)
    → owned b k f ≡ true
    → Logs ds (bump_version f) (upserted ds b k f db)
owned-Logs ds b k f db h = (ground arith, refl, ground arith, refl)

module _ (ds : Dataset) (todo : List (ℕ × ℕ)) (b k : ℕ) (db : Db) where
  CoveredBut-upsert :
      (f : Row (Body ds))
      → first_row (owned b k) (table ds db) ≡ some f
      → CoveredBut ds ((b, k) ∷ todo) db
      → CoveredBut ds todo (after_upsert ds b k db f)
  CoveredBut-upsert f found h =
      covered_by ds todo
        (table-log_row ds ds b k _ _ _ _ _ ∙ table-identity ds _ _ ∙ table-bump_table ds b k db)
        (ap (λ l. l ++ upserted ds b k f db ∷ []) (change_log-bump_table ds b k db))
        (CoveredIn-bump ds b k todo (table ds db) db.change_log f (upserted ds b k f db) found
          (owned-Logs ds b k f db (first_row-matches (owned b k) (table ds db) found)) h)

  -- An entity of another dataset.
  CoveredBut-upsert_other :
      (d : Dataset) (f : Row (Body d))
      → same_dataset ds d ≡ false
      → CoveredBut ds todo db
      → CoveredBut ds todo (after_upsert d b k db f)
  CoveredBut-upsert_other d f apart h =
      covered_by ds todo
        (table-log_row ds d b k _ _ _ _ _
          ∙ table-identity ds _ _
          ∙ table-bump_other ds d b k db apart)
        (ap (λ l. l ++ upserted d b k f db ∷ []) (change_log-bump_table d b k db))
        (CoveredIn-append ds todo (table ds db) db.change_log (upserted d b k f db) h)

abbrev not_found : Error
not_found =
    plain "recordChange: ${dataset} entity ${entityKey} not found for business ${businessKey}"

-- What recording an upsert in a transaction of its own leaves behind.
module _ (d : Dataset) (b k : ℕ) (db : Db) where
  standalone-found :
      (f : Row (Body d))
      → first_row (owned b k) (table d db) ≡ some f
      → record_change_standalone d b k upsert db
        ≡ (ok (recorded_upsert d b k db f), after_upsert d b k db f)
  unfolding record_change_standalone record_change with_transaction
  standalone-found f found = rw (record_upsert_lem d b k db found) refl

  standalone-missing :
      first_row (owned b k) (table d db) ≡ none
      → record_change_standalone d b k upsert db ≡ (err not_found, db)
  unfolding record_change_standalone record_change with_transaction
  standalone-missing gone = rw (record_upsert_missing d b k db gone) refl

-- One round of the loop.
module _ (d : Dataset) (op : ChangeOp) (b k : ℕ) (rest : List (ℕ × ℕ)) (n : ℕ) (db : Db) where
  round-ok :
      (x : Recorded d) (db' : Db)
      → record_change_standalone d b k op db ≡ (ok x, db')
      → record_each d op ((b, k) ∷ rest) n db ≡ record_each d op rest (n + 1) db'
  unfolding record_each ◌>>=◌
  round-ok x db' e = rw e refl

  round-err :
      (e : Error)
      → record_change_standalone d b k op db ≡ (err e, db)
      → record_each d op ((b, k) ∷ rest) n db ≡ record_each d op rest n db
  unfolding record_each ◌>>=◌
  round-err x e = rw e refl

-- The loop covers all that is still to be recorded.
pub record_each-covers :
    (ds : Dataset) (todo : List (ℕ × ℕ)) (n : ℕ) (db : Db)
    → CoveredBut ds todo db
    → CoveredBut ds [] (record_each ds upsert todo n db).1
unfolding record_each pure
record_each-covers ds [] n db h = h
record_each-covers ds ((b, k) ∷ rest) n db h =
    elim (Option-cases (first_row (owned b k) (table ds db))) [
      | inl gone ↦
          let e = round-err ds upsert b k rest n db not_found (standalone-missing ds b k db gone) in
          subst (λ x. CoveredBut ds [] x.1) (sym e)
            (record_each-covers ds rest n db
              (CoveredIn-skip ds b k rest (table ds db) db.change_log gone h))
      | inr (f, found) ↦
          let e = round-ok ds upsert b k rest n db _ _ (standalone-found ds b k db f found) in
          subst (λ x. CoveredBut ds [] x.1) (sym e)
            (record_each-covers ds rest (n + 1) (after_upsert ds b k db f)
              (CoveredBut-upsert ds rest b k db f found h))
    ]

module _ (ds : Dataset) (todo : List (ℕ × ℕ)) where
  abbrev pub keeps_covered : Relation
  keeps_covered = record {
    holds = λ a b. CoveredBut ds todo a → CoveredBut ds todo b;
    stays = λ db h. h;
    follows = λ f g h. g (f h);
    counts = λ db h. covered_by ds todo (table-identity ds _ db) refl h;
  }

  log_row-covered :
      (d : Dataset) (b k : ℕ) (op : ChangeOp) (v : ℕ) (x : Option (Snapshot d)) (key : ℕ) (db : Db)
      → keeps_covered.holds db (log_row d b k op v x key db)
  log_row-covered d b k op v x key db h =
      covered_by ds todo (table-log_row ds d b k op v x key db) refl
        (CoveredIn-append ds todo (table ds db) db.change_log _ h)

  CoveredBut-upsert_any :
      (d : Dataset) (b k : ℕ) (db : Db) (f : Row (Body d))
      → first_row (owned b k) (table d db) ≡ some f
      → CoveredBut ds todo db
      → CoveredBut ds todo (after_upsert d b k db f)
  CoveredBut-upsert_any d b k db f found h = elim (Bool-cases (same_dataset ds d)) [
    | inr apart ↦ CoveredBut-upsert_other ds todo b k db d f apart h
    | inl same ↦
        subst
          (λ x.
            (r : Row (Body x))
            → first_row (owned b k) (table x db) ≡ some r
            → CoveredBut ds todo (after_upsert x b k db r))
          (same_dataset-eq ds d same)
          (λ r e.
            CoveredBut-upsert ds todo b k db r e
              (CoveredIn-more ds (b, k) todo (table ds db) db.change_log h))
          f found
  ]

  Preserves-standalone :
      (d : Dataset) (b k : ℕ) (op : ChangeOp)
      → Preserves keeps_covered (record_change_standalone d b k op)
  unfolding record_change_standalone record_change record_delete
  Preserves-standalone d b k delete =
      Preserves-with_transaction (record_delete d b k)
        (search (preserves_rules, log_row-covered) depth 12)
  Preserves-standalone d b k upsert = record {
    at = λ db h. elim (Option-cases (first_row (owned b k) (table d db))) [
      | inl gone ↦ subst (λ x. CoveredBut ds todo x.1) (sym (standalone-missing d b k db gone)) h
      | inr (f, found) ↦
          subst (λ x. CoveredBut ds todo x.1) (sym (standalone-found d b k db f found))
            (CoveredBut-upsert_any d b k db f found h)
    ];
  }

  pub Preserves-record_each :
      (d : Dataset) (op : ChangeOp) (keys : List (ℕ × ℕ)) (n : ℕ)
      → Preserves keeps_covered (record_each d op keys n)
  unfolding record_each
  Preserves-record_each d op [] n = search preserves_rules
  Preserves-record_each d op ((b, k) ∷ rest) n =
      search (preserves_rules, Preserves-standalone, Preserves-record_each d op rest) depth 12

  pub Preserves-sweep_tombstones :
      (d : Dataset) (n : ℕ) → Preserves keeps_covered (sweep_tombstones d n)
  unfolding sweep_tombstones
  Preserves-sweep_tombstones d n = search (preserves_rules, Preserves-record_each) depth 12

  pub Preserves-sweep_dataset : (d : Dataset) → Preserves keeps_covered (sweep_dataset d)
  unfolding sweep_dataset
  Preserves-sweep_dataset d =
      search (preserves_rules, Preserves-record_each, Preserves-sweep_tombstones) depth 12

  pub Preserves-sweep_datasets :
      (ds' : List Dataset) (total : SweepSummary)
      → Preserves keeps_covered (sweep_datasets ds' total)
  unfolding sweep_datasets
  Preserves-sweep_datasets [] total = search preserves_rules
  Preserves-sweep_datasets (d ∷ rest) total =
      search (preserves_rules, Preserves-sweep_dataset, Preserves-sweep_datasets rest) depth 12
