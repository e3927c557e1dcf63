-- ===== src/ChangeLog/Complete.antt =====
-- sweepChanges of backend/src/services/changeLogService.js as a whole: it never throws, and after it
-- the log has every row.
use renuzi_ops_platform.Prelude.{
  ℕ, ◌≡◌, refl, sym, ◌⊎◌, inl, inr, Bool, true, false, ◌&&◌, List, [], ◌∷◌, ◌==◌, where_rows, arith,
  All, All-map, Bool-cases,
}
use mathlib.Core.Path.{subst}
use renuzi_ops_platform.Constants.{
  ChangeOp, upsert, Dataset, same_dataset, vehicles, routes, customers, products, dispatches, grns,
}
use renuzi_ops_platform.Schema.{Row, Body, Change}
use renuzi_ops_platform.Database.{Db, table}
use renuzi_ops_platform.Exec.{is_ok, ◌>>=◌}
use renuzi_ops_platform.Exec.Total.{IsTotal, holds-after_total, total_rules}
use renuzi_ops_platform.Exec.Preserves.{holds-after}
use renuzi_ops_platform.ChangeLog.Sweep.{
  is_logged, is_missing, keys_of, missing_keys, record_each, sweep_tombstones, sweep_dataset,
  sweep_datasets, sweep_changes, dataset_order, count_swept, SweepSummary,
}
use renuzi_ops_platform.ChangeLog.Coverage.{
  IsCovered, HasUniqueKeys, IsPending, CoveredBut, Any, Logs,
}
use renuzi_ops_platform.ChangeLog.Tables.{same_dataset-eq}
use renuzi_ops_platform.ChangeLog.Reach.{
  record_each-covers, Preserves-sweep_tombstones, Preserves-sweep_dataset, Preserves-sweep_datasets,
}

IsTotal-record_each :
    (d : Dataset) (op : ChangeOp) (keys : List (ℕ × ℕ)) (n : ℕ) → IsTotal (record_each d op keys n)
unfolding record_each
IsTotal-record_each d op [] n = search total_rules
IsTotal-record_each d op ((b, k) ∷ rest) n =
    search (total_rules, IsTotal-record_each d op rest) depth 12

IsTotal-sweep_tombstones : (d : Dataset) (n : ℕ) → IsTotal (sweep_tombstones d n)
unfolding sweep_tombstones
IsTotal-sweep_tombstones d n = search (total_rules, IsTotal-record_each) depth 12

IsTotal-sweep_dataset : (d : Dataset) → IsTotal (sweep_dataset d)
unfolding sweep_dataset
IsTotal-sweep_dataset d =
    search (total_rules, IsTotal-record_each, IsTotal-sweep_tombstones) depth 12

IsTotal-sweep_datasets :
    (ds : List Dataset) (total : SweepSummary) → IsTotal (sweep_datasets ds total)
unfolding sweep_datasets
IsTotal-sweep_datasets [] total = search total_rules
IsTotal-sweep_datasets (d ∷ rest) total =
    search (total_rules, IsTotal-sweep_dataset, IsTotal-sweep_datasets rest) depth 12

module _ (ds : Dataset) where
  is_logged-Any :
      (r : Row (Body ds)) (log : List Change)
      → is_logged r.business_key ds r.key r.version_no log ≡ true
      → Any (Logs ds r) log
  unfolding is_logged
  is_logged-Any r [] h = cc
  is_logged-Any r (c ∷ log) h = elim (Bool-cases (same_dataset c.entity_type ds)) [
    | inr other ↦ inr (is_logged-Any r log (ground arith))
    | inl same ↦
        elim (Bool-cases (
          (c.business_key == r.business_key)
          && (c.entity_key == r.key)
          && (c.version_no == r.version_no))) [
            | inl this ↦
                inl
                  (ground arith, same_dataset-eq c.entity_type ds same, ground arith, ground arith)
            | inr not_this ↦ inr (is_logged-Any r log (ground arith))
          ]
  ]

  not-missing :
      (log : List Change) (r : Row (Body ds)) → is_missing ds log r ≡ false → IsCovered ds log r
  not-missing log r h = elim (Bool-cases (r.business_key == 0)) [
    | inl nobody ↦ inl (ground arith)
    | inr owner ↦ inr (is_logged-Any r log (ground arith))
  ]

  module _ (p : Row (Body ds) → Bool) (r : Row (Body ds)) (rows : List (Row (Body ds))) where
    where_hit : p r ≡ true → where_rows p (r ∷ rows) ≡ r ∷ where_rows p rows
    unfolding where_rows
    where_hit e = rw e refl

    where_miss : p r ≡ false → where_rows p (r ∷ rows) ≡ where_rows p rows
    unfolding where_rows
    where_miss e = rw e refl

  abbrev IsCoveredBut : List Change → List (Row (Body ds)) → Row (Body ds) → Type 0
  IsCoveredBut log todo x = IsCovered ds log x ⊎ IsPending (keys_of todo) x

  -- The rows that the query leaves out are covered.
  missing-covers :
      (log : List Change) (rows : List (Row (Body ds)))
      → All (IsCoveredBut log (where_rows (is_missing ds log) rows)) rows
  missing-covers log [] = tt
  missing-covers log (r ∷ rows) = elim (Bool-cases (is_missing ds log r)) [
    | inl e ↦
        subst (λ todo. All (IsCoveredBut log todo) (r ∷ rows))
          (sym (where_hit (is_missing ds log) r rows e))
          (inr (inl (refl, refl)), All-map _ _ rows later (missing-covers log rows))
    | inr e ↦
        subst (λ todo. All (IsCoveredBut log todo) (r ∷ rows))
          (sym (where_miss (is_missing ds log) r rows e))
          (inl (not-missing log r e), missing-covers log rows)
  ]
    where
      later :
          (x : Row (Body ds))
          → IsCoveredBut log (where_rows (is_missing ds log) rows) x
          → IsCoveredBut log (r ∷ where_rows (is_missing ds log) rows) x
      later x (inl h) = inl h
      later x (inr h) = inr (inr h)

  -- After its own sweep a dataset is covered.
  sweep_dataset-covers :
      (db : Db) → HasUniqueKeys (table ds db) → CoveredBut ds [] (sweep_dataset ds db).1
  unfolding sweep_dataset missing_keys ◌>>=◌
  sweep_dataset-covers db u =
      let todo = missing_keys ds db in
      let covered =
        record_each-covers ds todo 0 db (u, missing-covers db.change_log (table ds db)) in
      holds-after (CoveredBut ds []) (record_each ds upsert todo 0) (sweep_tombstones ds) db covered
        (λ n. (Preserves-sweep_tombstones ds [] ds n).at _ covered)

  all_pending : (db : Db) → HasUniqueKeys (table ds db) → CoveredBut ds (keys_of (table ds db)) db
  all_pending db u = (u, pending (table ds db))
    where
      later :
          (y : Row (Body ds)) (rows : List (Row (Body ds))) (x : Row (Body ds))
          → IsCoveredBut db.change_log rows x
          → IsCoveredBut db.change_log (y ∷ rows) x
      later y rows x (inl h) = inl h
      later y rows x (inr h) = inr (inr h)

      pending : (rows : List (Row (Body ds))) → All (IsCoveredBut db.change_log rows) rows
      pending [] = tt
      pending (r ∷ rows) = (inr (inl (refl, refl)), All-map _ _ rows (later r rows) (pending rows))

  -- The sweep of any dataset keeps the keys of this one unique.
  keys_kept :
      (d : Dataset) (db : Db)
      → HasUniqueKeys (table ds db)
      → HasUniqueKeys (table ds (sweep_dataset d db).1)
  keys_kept d db u =
      ((Preserves-sweep_dataset ds (keys_of (table ds db)) d).at db (all_pending db u)).0

  sweep_datasets-covers :
      (list : List Dataset) (total : SweepSummary) (db : Db)
      → Any (λ d. d ≡ ds) list
      → HasUniqueKeys (table ds db)
      → CoveredBut ds [] (sweep_datasets list total db).1
  unfolding sweep_datasets
  sweep_datasets-covers [] total db h u = absurd h
  sweep_datasets-covers (d ∷ rest) total db (inl here) u =
      let covered =
        subst (λ x. CoveredBut ds [] (sweep_dataset x db).1) (sym here)
          (sweep_dataset-covers db u) in
      holds-after (CoveredBut ds []) (sweep_dataset d) _ db covered
        (λ s. (Preserves-sweep_datasets ds [] rest (count_swept d s total)).at _ covered)
  sweep_datasets-covers (d ∷ rest) total db (inr later) u =
      holds-after_total (CoveredBut ds []) (sweep_dataset d) _ db (IsTotal-sweep_dataset d) (λ s.
        sweep_datasets-covers rest (count_swept d s total) (sweep_dataset d db).1 later
          (keys_kept d db u))

in_order : (ds : Dataset) → Any (λ d. d ≡ ds) dataset_order
in_order vehicles = inl refl
in_order routes = inr (inl refl)
in_order customers = inr (inr (inl refl))
in_order products = inr (inr (inr (inl refl)))
in_order dispatches = inr (inr (inr (inr (inl refl))))
in_order grns = inr (inr (inr (inr (inr (inl refl)))))

only-IsCovered :
    (ds : Dataset) (log : List Change) (r : Row (Body ds))
    → IsCovered ds log r ⊎ ⊥
    → IsCovered ds log r
only-IsCovered ds log r (inl h) = h
only-IsCovered ds log r (inr h) = absurd h

-- The sweep never throws, and after it the change log has the current version of every row of a
-- dataset whose keys were unique, but for the rows that belong to no business.
pub sweep_changes-covers :
    (ds : Dataset) (db : Db)
    → HasUniqueKeys (table ds db)
    → (is_ok (sweep_changes db).0 ≡ true)
      × All (IsCovered ds (sweep_changes db).1.change_log) (table ds (sweep_changes db).1)
unfolding sweep_changes
sweep_changes-covers ds db u = (
  (IsTotal-sweep_datasets dataset_order _).returns db,
  All-map _ _ _ (only-IsCovered ds _)
      (sweep_datasets-covers ds dataset_order _ db (in_order ds) u).1,
)
