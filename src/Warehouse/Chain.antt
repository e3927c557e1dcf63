-- ===== src/Warehouse/Chain.antt =====
-- The chain of custody of stampDispatchCustody (backend/src/services/warehouseService.js).
use renuzi_ops_platform.Prelude.{
  ℕ, ◌≡◌, refl, ap, ◌∙◌, Bool, true, false, not, ◌&&◌, ◌||◌, Option, none, some, String, arith,
  first_row, is_some, Option-cases, inl, inr,
}
use mathlib.Core.Path.{subst}
use renuzi_ops_platform.Schema.{Row, Dispatch}
use renuzi_ops_platform.Payload.{Actor, DispatchAck}
use renuzi_ops_platform.Database.{Db}
use renuzi_ops_platform.Exec.{is_ok, ok, query, ◌>>=◌}
use renuzi_ops_platform.Exec.Preserves.{
  Relation, holds-bind_read, holds-bind, holds-if, Preserves-pure,
}
use renuzi_ops_platform.Guards.{owned}
use renuzi_ops_platform.Guards.ReadOnly.{or_throw-ok, IsReadOnly-or_throw}
use renuzi_ops_platform.Warehouse.Custody.{
  Stage, StampOpts, StampResult, warehouse, security, driver, customer, already_staged,
  prereq_missing, stamped, apply_stage, check_stage, stamp_dispatch_custody,
}
use renuzi_ops_platform.Warehouse.Frame.{row_is, apply_stage_keeps}
use renuzi_ops_platform.Warehouse.Outbound.{get_dispatch}
use renuzi_ops_platform.Warehouse.Atomicity.{IsReadOnly-get_dispatch, IsReadOnly-check_stage}

-- Nobody has stamped before the one before them in the chain.
unfoldable pub in_order : Dispatch → Bool
in_order d =
    (not d.security_stamp || d.warehouse_stamp)
    && (not d.driver_acknowledged || d.security_stamp)
    && (not d.customer_acknowledged || d.driver_acknowledged)

abbrev ready : Stage → Dispatch → Bool
ready s d = in_order d && not (is_some (prereq_missing s d))

abbrev order_row : Option (Row Dispatch) → Bool
order_row none = true
order_row (some r) = in_order r.body

-- The dispatch's custody is in order, if there is such a dispatch.
abbrev pub custody_in_order : ℕ → ℕ → Db → Bool
custody_in_order b k db = order_row (first_row (owned b k) db.dispatch_table)

stamped-ready :
    (s : Stage) (a : Actor) (p : DispatchAck) (now : ℕ) (d : Dispatch)
    → ready s d ≡ true
    → ready s (stamped s a p now d) ≡ true
unfolding in_order prereq_missing
stamped-ready warehouse a p now d h = ground arith
stamped-ready security a p now d h = ground arith
stamped-ready driver a p now d h = ground arith
stamped-ready customer a p now d h = ground arith

abbrev keeps_order : ℕ → ℕ → Relation
keeps_order b k = record {
  holds = λ x y. custody_in_order b k x ≡ true → custody_in_order b k y ≡ true;
  stays = λ db h. h;
  follows = λ f g h. g (f h);
  counts = λ db h. h;
}

ready_in_order :
    (s : Stage) (o : Option (Row Dispatch)) → row_is (ready s) o ≡ true → order_row o ≡ true
ready_in_order s none h = cc
ready_in_order s (some r) h = ground arith

check_stage-missing :
    (s : Stage) (o : StampOpts) (d : Row Dispatch) (p : DispatchAck) (db : Db) (m : String)
    → o.override_prereqs ≡ false
    → prereq_missing s d.body ≡ some m
    → is_ok (check_stage s o d p db).0 ≡ false
unfolding check_stage ◌>>=◌
check_stage-missing s o d p db m off missing = rw (off, missing) refl

pub check_stage-ok :
    (s : Stage) (o : StampOpts) (d : Row Dispatch) (p : DispatchAck) (db : Db)
    → o.override_prereqs ≡ false
    → (check_stage s o d p db).0 ≡ ok tt
    → is_some (prereq_missing s d.body) ≡ false
check_stage-ok s o d p db off h = elim (Option-cases (prereq_missing s d.body)) [
  | inl e ↦ ap is_some e
  | inr (m, e) ↦ let refused = check_stage-missing s o d p db m off e in let told = ap is_ok h in cc
]

apply_stage_order :
    (s : Stage) (a : Actor) (k : ℕ) (p : DispatchAck) (db : Db) (d : Row Dispatch)
    → first_row (owned a.business_key k) db.dispatch_table ≡ some d
    → is_some (prereq_missing s d.body) ≡ false
    → (keeps_order a.business_key k).holds db (apply_stage s a k p db).1
apply_stage_order s a k p db d found ready_now h =
    let chain : in_order d.body ≡ true = subst (λ o. order_row o ≡ true) found h in
    let before : row_is (ready s) (first_row (owned a.business_key k) db.dispatch_table) ≡ true =
      rw found (ground arith) in
    ready_in_order s (first_row (owned a.business_key k) (apply_stage s a k p db).1.dispatch_table)
      ((apply_stage_keeps s (ready s) a k p (stamped-ready s a p)).at db before)

pub get_dispatch-ok :
    (a : Actor) (k : ℕ) (db : Db) (found : Option (Row Dispatch))
    → (get_dispatch a k db).0 ≡ ok found
    → first_row (owned a.business_key k) db.dispatch_table ≡ found
unfolding get_dispatch query
get_dispatch-ok a k db found h = cc

abbrev pub already : ℕ → Row Dispatch → StampResult
already k d = record { dispatch_key = k; status = d.body.dispatch_status; already_stamped = true }

-- Without an override a stamp keeps the chain of custody: if nobody had stamped the dispatch
-- before the one before them in the chain warehouse, security, driver, customer, nobody has
-- afterwards, whether the stamp goes through, is refused or was there already.
pub stamp_dispatch_custody-in_order :
    (a : Actor) (k : ℕ) (s : Stage) (p : DispatchAck) (o : StampOpts) (db : Db)
    → o.override_prereqs ≡ false
    → custody_in_order a.business_key k db ≡ true
    → custody_in_order a.business_key k (stamp_dispatch_custody a k s p o db).1 ≡ true
unfolding stamp_dispatch_custody
stamp_dispatch_custody-in_order a k s p o db off h =
    let R = keeps_order a.business_key k in
    holds-bind_read R (get_dispatch a k) _ db (IsReadOnly-get_dispatch a k)
      (λ found read. holds-bind_read R _ _ db (IsReadOnly-or_throw found _) (λ d given.
        let here = get_dispatch-ok a k db found read ∙ or_throw-ok found _ db d given in
        holds-if R (already_staged s d.body) _ _ db ((Preserves-pure {R = R} (already k d)).at db)
          (λ _. holds-bind_read R _ _ db (IsReadOnly-check_stage s o d p) (λ _ passed.
            holds-bind R _ _ db
              (apply_stage_order s a k p db d here (check_stage-ok s o d p db off passed))
              (λ status. Preserves-pure _)))))
      h
