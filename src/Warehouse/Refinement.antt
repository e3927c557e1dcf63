-- ===== src/Warehouse/Refinement.antt =====
-- The custody of a dispatch as an abstract machine, and stampDispatchCustody
-- (backend/src/services/warehouseService.js) as its implementation.
use renuzi_ops_platform.Prelude.{
  ℕ, ◌≡◌, refl, sym, ◌∙◌, Bool, true, false, not, ◌&&◌, Option, none, some, ◌⊎◌, inl, inr, arith,
  first_row, is_some, if◌then◌else◌, Bool-cases,
}
use mathlib.Core.Path.{subst}
use renuzi_ops_platform.Schema.{Row, Dispatch}
use renuzi_ops_platform.Payload.{Actor, DispatchAck}
use renuzi_ops_platform.Database.{Db}
use renuzi_ops_platform.Exec.{Exec, ◌>>◌, pure, ◌>>=◌}
use renuzi_ops_platform.Exec.Preserves.{
  Relation, holds-bind_read, holds-bind, holds-if, Preserves-pure,
}
use renuzi_ops_platform.Guards.{owned}
use renuzi_ops_platform.Guards.ReadOnly.{or_throw-ok, IsReadOnly-or_throw}
use renuzi_ops_platform.Warehouse.Custody.{
  Stage, StampOpts, StampResult, warehouse, security, driver, customer, already_staged,
  prereq_missing, stamped, apply_stage, check_stage, stamp_dispatch_custody,
}
use renuzi_ops_platform.Warehouse.Frame.{row_is, apply_stage_keeps}
use renuzi_ops_platform.Warehouse.Chain.{in_order, get_dispatch-ok, check_stage-ok, already}
use renuzi_ops_platform.Warehouse.Outbound.{get_dispatch}
use renuzi_ops_platform.Warehouse.Atomicity.{IsReadOnly-get_dispatch, IsReadOnly-check_stage}

-- Who has the goods.
pub data Holder : Type 0 where
  packed released cleared carried handed_over : Holder

-- One step of the machine; each stage has just one.
pub data Advances : Stage → Holder → Holder → Type 0 where
  release : Advances warehouse packed released
  clear : Advances security released cleared
  carry : Advances driver cleared carried
  hand_over : Advances customer carried handed_over

-- The abstraction: the last stamp in the chain.
unfoldable pub holder : Dispatch → Holder
holder d =
    if d.customer_acknowledged
    then handed_over
    else if d.driver_acknowledged
    then carried
    else if d.security_stamp
    then cleared
    else if d.warehouse_stamp
    then released
    else packed

-- All stamps before the stage's and none after it.
unfoldable at_stage : Stage → Dispatch → Bool
at_stage warehouse d =
    not d.security_stamp && (not d.driver_acknowledged && not d.customer_acknowledged)
at_stage security d =
    d.warehouse_stamp && (not d.driver_acknowledged && not d.customer_acknowledged)
at_stage driver d = d.warehouse_stamp && (d.security_stamp && not d.customer_acknowledged)
at_stage customer d = d.warehouse_stamp && (d.security_stamp && d.driver_acknowledged)

abbrev before : Stage → Holder
before warehouse = packed
before security = released
before driver = cleared
before customer = carried

abbrev after : Stage → Holder
after warehouse = released
after security = cleared
after driver = carried
after customer = handed_over

advance : (s : Stage) → Advances s (before s) (after s)
advance warehouse = release
advance security = clear
advance driver = carry
advance customer = hand_over

holder-before :
    (s : Stage) (d : Dispatch)
    → at_stage s d ≡ true
    → already_staged s d ≡ false
    → holder d ≡ before s
unfolding holder at_stage already_staged
holder-before warehouse d h e = ground arith
holder-before security d h e = ground arith
holder-before driver d h e = ground arith
holder-before customer d h e = ground arith

holder-after :
    (s : Stage) (d : Dispatch)
    → at_stage s d ≡ true
    → already_staged s d ≡ true
    → holder d ≡ after s
unfolding holder at_stage already_staged
holder-after warehouse d h e = ground arith
holder-after security d h e = ground arith
holder-after driver d h e = ground arith
holder-after customer d h e = ground arith

stamped-at_stage :
    (s : Stage) (a : Actor) (p : DispatchAck) (now : ℕ) (d : Dispatch)
    → at_stage s d ≡ true
    → at_stage s (stamped s a p now d) ≡ true
unfolding at_stage
stamped-at_stage warehouse a p now d h = h
stamped-at_stage security a p now d h = h
stamped-at_stage driver a p now d h = h
stamped-at_stage customer a p now d h = h

in_order-at_stage :
    (s : Stage) (d : Dispatch)
    → in_order d ≡ true
    → already_staged s d ≡ false
    → is_some (prereq_missing s d) ≡ false
    → at_stage s d ≡ true
unfolding in_order at_stage already_staged prereq_missing
in_order-at_stage warehouse d h e m = ground arith
in_order-at_stage security d h e m = ground arith
in_order-at_stage driver d h e m = ground arith
in_order-at_stage customer d h e m = ground arith

-- The dispatch is there, and its holder is h or the one to whom the stage hands on from h.
abbrev pub Follows : Stage → Holder → Actor → ℕ → Db → Type 0
Follows s h a k db =
    (r : Row Dispatch) × (first_row (owned a.business_key k) db.dispatch_table ≡ some r)
    × ((holder r.body ≡ h) ⊎ Advances s h (holder r.body))

some_injective : {x y : Row Dispatch} → some x ≡ some y → x ≡ y
some_injective e = cc

row_is-some :
    (Q : Dispatch → Bool) (o : Option (Row Dispatch))
    → row_is Q o ≡ true
    → (r : Row Dispatch) × (o ≡ some r) × (Q r.body ≡ true)
row_is-some Q none h = cc
row_is-some Q (some r) h = (r, refl, h)

-- A dispatch that is at the stage has been handed on once or not yet.
at_stage-Advances :
    (s : Stage) (d : Dispatch)
    → at_stage s d ≡ true
    → (holder d ≡ before s) ⊎ Advances s (before s) (holder d)
at_stage-Advances s d h = elim (Bool-cases (already_staged s d)) [
  | inl e ↦ inr (subst (Advances s (before s)) (sym (holder-after s d h e)) (advance s))
  | inr e ↦ inl (holder-before s d h e)
]

module _ (s : Stage) (a : Actor) (k : ℕ) (p : DispatchAck) where
  apply_stage-Follows :
      (db : Db) (r : Row Dispatch)
      → first_row (owned a.business_key k) db.dispatch_table ≡ some r
      → at_stage s r.body ≡ true
      → already_staged s r.body ≡ false
      → Follows s (holder r.body) a k (apply_stage s a k p db).1
  apply_stage-Follows db r found h e =
      let there = subst (λ o. row_is (at_stage s) o ≡ true) (sym found) h in
      let (r', found', h') =
        row_is-some (at_stage s) _
          ((apply_stage_keeps s (at_stage s) a k p (stamped-at_stage s a p)).at db there) in
      (
        r',
        found',
        subst (λ b. (holder r'.body ≡ b) ⊎ Advances s b (holder r'.body))
            (sym (holder-before s r.body h e)) (at_stage-Advances s r'.body h'),
      )

  abbrev follows : Holder → Relation
  follows h = record {
    holds = λ x y. Follows s h a k x → Follows s h a k y;
    stays = λ db f. f;
    follows = λ f g x. g (f x);
    counts = λ db f. f;
  }

  -- What stands after the read of the header.
  stamp_row : StampOpts → Row Dispatch → Exec StampResult
  stamp_row o d = do
    check_stage s o d p
    status ← apply_stage s a k p
    pure (record { dispatch_key = k; status = status; already_stamped = false })

  stamp_row-Follows :
      (o : StampOpts) (db : Db) (d : Row Dispatch)
      → o.override_prereqs ≡ false
      → first_row (owned a.business_key k) db.dispatch_table ≡ some d
      → in_order d.body ≡ true
      → already_staged s d.body ≡ false
      → (follows (holder d.body)).holds db (stamp_row o d db).1
  unfolding stamp_row
  stamp_row-Follows o db d off here chain fresh =
      let R = follows (holder d.body) in
      holds-bind_read R _ _ db (IsReadOnly-check_stage s o d p) (λ _ passed.
        holds-bind R _ _ db
          (λ _.
            apply_stage-Follows db d here
              (in_order-at_stage s d.body chain fresh (check_stage-ok s o d p db off passed)) fresh)
          (λ status. Preserves-pure _))

  -- Without an override, the stamps of a dispatch implement a machine that hands the goods on from
  -- the packer through the warehouse, security and the driver to the customer: for a dispatch whose
  -- stamps are in order, the dispatch is still there after a stamp of a stage and its holder is the
  -- same or the next one by that stage's only step.
  pub stamp_dispatch_custody-Follows :
      (o : StampOpts) (db : Db) (r : Row Dispatch)
      → o.override_prereqs ≡ false
      → first_row (owned a.business_key k) db.dispatch_table ≡ some r
      → in_order r.body ≡ true
      → Follows s (holder r.body) a k (stamp_dispatch_custody a k s p o db).1
  unfolding stamp_dispatch_custody stamp_row pure
  stamp_dispatch_custody-Follows o db r off here chain =
      let R = follows (holder r.body) in
      holds-bind_read R (get_dispatch a k) _ db (IsReadOnly-get_dispatch a k)
        (λ found read. holds-bind_read R _ _ db (IsReadOnly-or_throw found _) (λ d given.
          let same = get_dispatch-ok a k db found read ∙ or_throw-ok found _ db d given in
          let eq = some_injective (sym same ∙ here) in
          subst
            (λ x.
              (follows (holder x.body)).holds db
                ((if already_staged s d.body then pure (already k d) else stamp_row o d) db).1)
            eq
            (holds-if (follows (holder d.body)) (already_staged s d.body) _ _ db (λ f. f)
              (stamp_row-Follows o db d off same
                (subst (λ x. in_order x.body ≡ true) (sym eq) chain)))))
        (r, here, inl refl)
