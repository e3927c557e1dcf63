-- ===== src/Warehouse/Frame.antt =====
-- What the work of a stage of stampDispatchCustody (backend/src/services/warehouseService.js) does
-- to the header of its dispatch: nothing but the stamp.
use renuzi_ops_platform.Prelude.{
  ℕ, ℤ, ◌≡◌, refl, sym, Bool, true, false, Option, none, some, List, arith, first_row, update_rows,
  first_row-update_rows, first_row-update_rows-none, Option-cases, inl, inr,
}
use mathlib.Core.Path.{subst}
use renuzi_ops_platform.Constants.{Dataset, upsert}
use renuzi_ops_platform.Schema.{Row, Dispatch, DispatchLine, StockMovement, Snapshot}
use renuzi_ops_platform.Payload.{Actor, DispatchAck, LoadedQuantity, LineDelivery}
use renuzi_ops_platform.Database.{Db, table, put_table}
use renuzi_ops_platform.Exec.{execute}
use renuzi_ops_platform.Exec.Preserves.{Relation, Preserves, Preserves-execute, preserves_rules}
use renuzi_ops_platform.Guards.{owned}
use renuzi_ops_platform.Guards.ReadOnly.{guard_rules}
use renuzi_ops_platform.ChangeLog.{bump_table, bump_version, log_row, record_change, record_upsert}
use renuzi_ops_platform.Warehouse.Grn.{add_movement}
use renuzi_ops_platform.Warehouse.Custody.{
  Stage, warehouse, security, driver, customer, update_lines, stamped, stamp_header, emit,
  set_loaded, load_line, deliver_line, move_stock, move_line, apply_stage,
}

abbrev pub row_is : (Dispatch → Bool) → Option (Row Dispatch) → Bool
row_is Q none = false
row_is Q (some r) = Q r.body

module _ (Q : Dispatch → Bool) (b k : ℕ) where
  abbrev pub ready_at : List (Row Dispatch) → Bool
  ready_at rows = row_is Q (first_row (owned b k) rows)

  ready_after :
      (f : Row Dispatch → Row Dispatch) (rows : List (Row Dispatch))
      → ((r : Row Dispatch) → owned b k (f r) ≡ owned b k r)
      → ((r : Row Dispatch) → Q r.body ≡ true → Q (f r).body ≡ true)
      → ready_at rows ≡ true
      → ready_at (update_rows (owned b k) f rows) ≡ true
  ready_after f rows same keep h = elim (Option-cases (first_row (owned b k) rows)) [
    | inl empty ↦ rw (first_row-update_rows-none (owned b k) f rows empty) h
    | inr (r, found) ↦
        rw (first_row-update_rows (owned b k) f rows same found)
          (keep r (subst (λ x. row_is Q x ≡ true) found h))
  ]

-- What a stamp of the stage keeps of a dispatch, all of the stage's work keeps.
module _ (Q : Dispatch → Bool) (a : Actor) (k : ℕ) where
  abbrev pub keeps_ready : Relation
  keeps_ready = record {
    holds = λ x y.
        ready_at Q a.business_key k x.dispatch_table ≡ true
        → ready_at Q a.business_key k y.dispatch_table ≡ true;
    stays = λ db h. h;
    follows = λ f g h. g (f h);
    counts = λ db h. h;
  }

  same_dispatches :
      (f : Db → Db)
      → ((db : Db) → (f db).dispatch_table ≡ db.dispatch_table)
      → Preserves keeps_ready (execute f)
  same_dispatches f same =
      Preserves-execute f (λ db. subst (λ t. ready_at Q a.business_key k t ≡ true) (sym (same db)))

  stamp_keeps :
      (s : Stage) (p : DispatchAck)
      → ((now : ℕ) (d : Dispatch) → Q d ≡ true → Q (stamped s a p now d) ≡ true)
      → Preserves keeps_ready (stamp_header s a k p)
  unfolding stamp_header
  stamp_keeps s p kept = Preserves-execute _ (λ db.
      ready_after Q a.business_key k _ db.dispatch_table (λ r. refl) (λ r. kept db.now r.body))

  bump_keeps : (db : Db) → keeps_ready.holds db (bump_table Dataset.dispatches a.business_key k db)
  unfolding bump_table table put_table
  bump_keeps db =
      ready_after Q a.business_key k bump_version db.dispatch_table (λ r. refl) (λ r h. h)

  log_keeps :
      (n : ℕ) (x : Option (Snapshot Dataset.dispatches)) (key : ℕ) (db : Db)
      → keeps_ready.holds db (log_row Dataset.dispatches a.business_key k upsert n x key db)
  log_keeps n x key db = λ h. h

  emit_keeps : Preserves keeps_ready (emit a k)
  unfolding emit record_change record_upsert
  emit_keeps = search (bump_keeps, log_keeps, preserves_rules, guard_rules) depth 12

  load_keeps : (lq : LoadedQuantity) → Preserves keeps_ready (load_line k lq)
  unfolding load_line
  load_keeps lq = same_dispatches _ (λ db. set_loaded_same lq lq.loaded_qty db)
    where
      set_loaded_same :
          (lq : LoadedQuantity) (q : Option ℤ) (db : Db)
          → (set_loaded k lq q db).dispatch_table ≡ db.dispatch_table
      set_loaded_same lq none db = refl
      set_loaded_same lq (some q) db = ground arith

  lines_keep :
      (l : ℕ) (f : DispatchLine → DispatchLine)
      → Preserves keeps_ready (execute (update_lines k l f))
  lines_keep l f = same_dispatches _ (λ db. refl)

  deliver_keeps : (ld : LineDelivery) → Preserves keeps_ready (deliver_line k ld)
  unfolding deliver_line
  deliver_keeps ld = search (lines_keep, preserves_rules)

  movement_keeps : (m : StockMovement) → Preserves keeps_ready (execute (add_movement m))
  movement_keeps m = same_dispatches _ (λ db. refl)

  move_keeps : (d : ℕ) (l : DispatchLine) → Preserves keeps_ready (move_line a d k l)
  unfolding move_line move_stock
  move_keeps d l = search (movement_keeps, preserves_rules) depth 12

apply_stage_frame :
    (s : Stage) (Q : Dispatch → Bool) (a : Actor) (k : ℕ) (p : DispatchAck)
    → Preserves (keeps_ready Q a k) (stamp_header s a k p)
    → Preserves (keeps_ready Q a k) (apply_stage s a k p)
unfolding apply_stage
apply_stage_frame warehouse Q a k p header =
    search (load_keeps, emit_keeps, preserves_rules) depth 12
apply_stage_frame security Q a k p header = search (emit_keeps, preserves_rules) depth 12
apply_stage_frame driver Q a k p header = search (emit_keeps, preserves_rules) depth 12
apply_stage_frame customer Q a k p header =
    search (deliver_keeps, move_keeps, emit_keeps, preserves_rules, guard_rules) depth 16

pub apply_stage_keeps :
    (s : Stage) (Q : Dispatch → Bool) (a : Actor) (k : ℕ) (p : DispatchAck)
    → ((now : ℕ) (d : Dispatch) → Q d ≡ true → Q (stamped s a p now d) ≡ true)
    → Preserves (keeps_ready Q a k) (apply_stage s a k p)
apply_stage_keeps s Q a k p kept = apply_stage_frame s Q a k p (stamp_keeps Q a k s p kept)
