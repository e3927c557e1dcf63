-- ===== src/Http/Work.antt =====
-- The workflow of maintenance tickets (PUT /maintenance/:maintenanceKey/status of
-- backend/src/routes/fleet.js): no work on a ticket that may not be worked on.
use renuzi_ops_platform.Prelude.{
  ℕ, ◌≡◌, refl, sym, ap, ◌∙◌, Bool, true, false, not, ◌&&◌, Option, none, some, List, [], ◌∷◌, inl,
  inr, arith, first_row, update_rows, first_row-matches, if◌then◌else◌, if-holds, Bool-cases,
}
use mathlib.Core.Path.{subst}
use renuzi_ops_platform.Constants.{MaintenanceStatus}
use renuzi_ops_platform.Schema.{User, Maintenance}
use renuzi_ops_platform.Database.{Db}
use renuzi_ops_platform.Exec.{Exec, pure, query, execute, ◌>>=◌}
use renuzi_ops_platform.Fleet.Maintenance.{owned_ticket, set_ticket}
use renuzi_ops_platform.Http.Message.{Response}
use renuzi_ops_platform.Http.FleetRoutes.{
  WorkForm, is_work, may_work, worked, set_work, checked_work, put_work_status,
}

-- Every ticket in progress or completed has passed the test of the route.
abbrev pub WorkIsApproved : Db → Type 0
WorkIsApproved db =
    (b k : ℕ) (m : Maintenance)
    → first_row (owned_ticket b k) db.maintenance ≡ some m
    → is_work m.maintenance_status ≡ true
    → may_work m.approval_status ≡ true

some_injective : {x y : Maintenance} → some x ≡ some y → x ≡ y
some_injective e = cc

row_here :
    (p : Maintenance → Bool) (x : Maintenance) (xs : List Maintenance)
    → p x ≡ true
    → first_row p (x ∷ xs) ≡ some x
unfolding first_row
row_here p x xs t = rw t refl

row_later :
    (p : Maintenance → Bool) (x : Maintenance) (xs : List Maintenance)
    → p x ≡ false
    → first_row p (x ∷ xs) ≡ first_row p xs
unfolding first_row
row_later p x xs t = rw t refl

-- The first match after an update is the first match before it, updated or not.
pub first_row-of_update :
    (p q : Maintenance → Bool) (f : Maintenance → Maintenance) (xs : List Maintenance)
    (y : Maintenance)
    → ((x : Maintenance) → p (f x) ≡ p x)
    → first_row p (update_rows q f xs) ≡ some y
    → (x : Maintenance) × (first_row p xs ≡ some x) × (y ≡ (if q x then f x else x))
unfolding first_row update_rows
first_row-of_update p q f [] y keep h = cc
first_row-of_update p q f (x ∷ xs) y keep h =
    let kept = if-holds (λ z. p z ≡ p x) (q x) (f x) x (λ _. keep x) (λ _. refl) in
    elim (Bool-cases (p x)) [
      | inl t ↦
          let now : p (if q x then f x else x) ≡ true = kept ∙ t in
          let head = rw now at h in (x, row_here p x xs t, some_injective (sym head))
      | inr t ↦
          let now : p (if q x then f x else x) ≡ false = kept ∙ t in
          let tail = rw now at h in
          let (z, hz, e) = first_row-of_update p q f xs y keep tail in
          (z, row_later p x xs t ∙ hz, e)
    ]

same_ticket :
    (b k b' k' : ℕ) (m : Maintenance)
    → owned_ticket b k m ≡ true
    → owned_ticket b' k' m ≡ true
    → (b ≡ b') × (k ≡ k')
same_ticket b k b' k' m h h' = (ground arith, ground arith)

not_blocked : (b c : Bool) → b && not c ≡ false → b ≡ true → c ≡ true
not_blocked true true e h = refl
not_blocked true false e h = sym e
not_blocked false c e h = cc

module _ (u : User) (key : ℕ) (status : MaintenanceStatus) (p : WorkForm) (db : Db) where
  -- A ticket after the UPDATE.
  updated-approved :
      (m : Maintenance)
      → WorkIsApproved db
      → first_row (owned_ticket u.business_key key) db.maintenance ≡ some m
      → is_work status && not (may_work m.approval_status) ≡ false
      → WorkIsApproved (set_ticket u.business_key key (worked status p db.now) db)
  updated-approved m good here test b k y found =
      let f = worked status p db.now in
      let (x, before, e) =
        first_row-of_update (owned_ticket b k) (owned_ticket u.business_key key) f db.maintenance y
          (λ z. refl) found in
      subst (λ z. is_work z.maintenance_status ≡ true → may_work z.approval_status ≡ true) (sym e)
        (if-holds (λ z. is_work z.maintenance_status ≡ true → may_work z.approval_status ≡ true)
          (owned_ticket u.business_key key x) (f x) x
          (λ own work.
            let (eb, ek) =
              same_ticket b k u.business_key key x
                (first_row-matches (owned_ticket b k) db.maintenance before) own in
            let same : some x ≡ some m =
              sym before ∙ ap (λ w. first_row w db.maintenance) (rw (eb, ek) refl) ∙ here in
            let eq = some_injective same in
            subst (λ z. may_work z.approval_status ≡ true) (sym eq)
              (not_blocked (is_work status) (may_work m.approval_status) test work))
          (λ other. good b k x before))

  set_work-approved :
      (o : Option Maintenance)
      → WorkIsApproved db
      → first_row (owned_ticket u.business_key key) db.maintenance ≡ o
      → WorkIsApproved (set_work key status p u o db).1
  unfolding pure execute ◌>>=◌
  set_work-approved none good here = good
  set_work-approved (some m) good here =
      if-holds (λ (a : Exec Response). WorkIsApproved (a db).1)
        (is_work status && not (may_work m.approval_status)) _ _ (λ _. good)
        (λ test. updated-approved m good here test)

checked_work-approved :
    (key : ℕ) (o : Option MaintenanceStatus) (p : WorkForm) (u : User) (db : Db)
    → WorkIsApproved db
    → WorkIsApproved (checked_work key o p u db).1
unfolding pure query ◌>>=◌
checked_work-approved key none p u db good = good
checked_work-approved key (some status) p u db good =
    set_work-approved u key status p db (first_row (owned_ticket u.business_key key) db.maintenance)
      good refl

-- The route for the work on a maintenance ticket keeps it that every ticket in progress or
-- completed has passed its test.
pub put_work_status-approved :
    (key : ℕ) (p : WorkForm) (u : User) (db : Db)
    → WorkIsApproved db
    → WorkIsApproved (put_work_status key p u db).1
unfolding put_work_status
put_work_status-approved key p u db good =
    checked_work-approved key p.maintenance_status p u db good
