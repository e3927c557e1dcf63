-- ===== src/Http/Tickets.antt =====
-- The routes of backend/src/routes/fleet.js that report, approve and work on a maintenance ticket.
use renuzi_ops_platform.Prelude.{
  ℕ, ◌≡◌, ◌⊎◌, refl, sym, ap, ◌∙◌, Bool, true, false, String, Option, none, some, List, [], ◌∷◌,
  ◌++◌, inl, inr, first_row, if-holds, Bool-cases, Option-cases, first_row-append_none,
}
use mathlib.Core.Path.{subst}
use renuzi_ops_platform.Constants.{ApprovalStatus, MaintenanceStatus}
use renuzi_ops_platform.Schema.{User, Maintenance}
use renuzi_ops_platform.Payload.{Actor, MaintenanceReport}
use renuzi_ops_platform.Database.{Db}
use renuzi_ops_platform.Exec.{Exec, execute}
use renuzi_ops_platform.Exec.Preserves.{
  Relation, Preserves, Preserves-execute, Preserves-pure, Preserves-throw_if, Preserves-bind,
  Preserves-try_catch, preserves_rules,
}
use renuzi_ops_platform.Guards.ReadOnly.{guard_rules}
use renuzi_ops_platform.Fleet.Maintenance.{
  Level, ops, md, owned_ticket, set_ticket, approve_ops, approve_md, approve_at,
  approve_maintenance, report_maintenance,
}
use renuzi_ops_platform.Fleet.Atomicity.{IsReadOnly-check_type}
use renuzi_ops_platform.Http.Message.{Response, respond}
use renuzi_ops_platform.Http.FleetRoutes.{
  WorkForm, is_work, may_work, post_maintenance, put_approval, put_work_status,
}
use renuzi_ops_platform.Http.Work.{WorkIsApproved, first_row-of_update, put_work_status-approved}

abbrev keeps_approval : Relation
keeps_approval = record {
  holds = λ a b. WorkIsApproved a → WorkIsApproved b;
  stays = λ db h. h;
  follows = λ f g h. g (f h);
  counts = λ db h. h;
}

-- An update that approves.
approving-keeps :
    (b k : ℕ) (f : Maintenance → Maintenance)
    → ((c j : ℕ) (m : Maintenance) → owned_ticket c j (f m) ≡ owned_ticket c j m)
    → ((m : Maintenance) → may_work (f m).approval_status ≡ true)
    → Preserves keeps_approval (execute (set_ticket b k f))
approving-keeps b k f same good = Preserves-execute _ (λ db h c j y found work.
    let (x, before, e) =
      first_row-of_update (owned_ticket c j) (owned_ticket b k) f db.maintenance y (same c j)
        found in
    subst (λ z. may_work z.approval_status ≡ true) (sym e)
      (if-holds (λ z. is_work z.maintenance_status ≡ true → may_work z.approval_status ≡ true)
        (owned_ticket b k x) (f x) x (λ _ _. good x) (λ _ w. h c j x before w)
        (subst (λ z. is_work z.maintenance_status ≡ true) e work)))

approve_at-keeps :
    (l : Level) (a : Actor) (k : ℕ) (s : ApprovalStatus) (needs_md : Bool)
    → Preserves keeps_approval (approve_at l a k s needs_md)
unfolding approve_ops approve_md
approve_at-keeps ops a k s true = Preserves-bind _ _ (Preserves-throw_if _ _) (λ _.
    Preserves-bind _ _ (approving-keeps a.business_key k _ (λ c j m. refl) (λ m. refl))
      (λ _. Preserves-pure true))
approve_at-keeps ops a k s false = Preserves-bind _ _ (Preserves-throw_if _ _) (λ _.
    Preserves-bind _ _ (approving-keeps a.business_key k _ (λ c j m. refl) (λ m. refl))
      (λ _. Preserves-pure false))
approve_at-keeps md a k s n = Preserves-bind _ _ (Preserves-throw_if _ _) (λ _.
    Preserves-bind _ _ (Preserves-throw_if _ _) (λ _.
      Preserves-bind _ _ (approving-keeps a.business_key k _ (λ c j m. refl) (λ m. refl))
        (λ _. Preserves-pure n)))

approve_maintenance-keeps :
    (a : Actor) (k : ℕ) (l : Level) → Preserves keeps_approval (approve_maintenance a k l)
unfolding approve_maintenance
approve_maintenance-keeps a k l = search (approve_at-keeps, preserves_rules, guard_rules) depth 12

first_append :
    (p : Maintenance → Bool) (xs more : List Maintenance) (x : Maintenance)
    → first_row p xs ≡ some x
    → first_row p (xs ++ more) ≡ some x
unfolding first_row
first_append p [] more x h = cc
first_append p (y ∷ xs) more x h = elim (Bool-cases (p y)) [
  | inl t ↦ rw t (rw t at h)
  | inr t ↦ rw t (first_append p xs more x (rw t at h))
]

only_row : (p : Maintenance → Bool) (m y : Maintenance) → first_row p (m ∷ []) ≡ some y → m ≡ y
unfolding first_row
only_row p m y = if-holds (λ o. o ≡ some y → m ≡ y) (p m) (some m) none (λ _ h. cc) (λ _ h. cc)

-- A ticket that is not being worked on.
add_ticket-approved :
    (m : Maintenance) (db : Db)
    → is_work m.maintenance_status ≡ false
    → WorkIsApproved db
    → WorkIsApproved (record db { maintenance = db.maintenance ++ m ∷ [] })
add_ticket-approved m db idle h c j y found work =
    elim (Option-cases (first_row (owned_ticket c j) db.maintenance)) [
      | inl none_yet ↦
          let same = only_row (owned_ticket c j) m y (
            sym (first_row-append_none (owned_ticket c j) db.maintenance (m ∷ []) none_yet)
            ∙ found) in
          let busy : is_work m.maintenance_status ≡ true =
            subst (λ z. is_work z.maintenance_status ≡ true) (sym same) work in
          cc
      | inr (x, old) ↦
          h c j y
            (old ∙ sym (first_append (owned_ticket c j) db.maintenance (m ∷ []) x old) ∙ found) work
    ]

insert-keeps :
    (m : Maintenance)
    → is_work m.maintenance_status ≡ false
    → Preserves keeps_approval
        (execute (λ db. record db { maintenance = db.maintenance ++ m ∷ [] }))
insert-keeps m idle = Preserves-execute _ (λ db. add_ticket-approved m db idle)

report_maintenance-keeps :
    (a : Actor) (p : MaintenanceReport) → Preserves keeps_approval (report_maintenance a p)
unfolding report_maintenance
report_maintenance-keeps a p =
    search (insert-keeps, IsReadOnly-check_type, preserves_rules, guard_rules) depth 12

respond-keeps :
    {A : Type 0} (work : Exec A) (answer : A → Response) (fallback : String)
    → Preserves keeps_approval work
    → Preserves keeps_approval (respond work answer fallback)
unfolding respond
respond-keeps work answer fallback h =
    Preserves-try_catch _ _ (Preserves-bind _ _ h (λ a. Preserves-pure _)) (λ e. Preserves-pure _)

put_approval-keeps :
    (k : ℕ) (o : Option Level) (u : User) → Preserves keeps_approval (put_approval k o u)
unfolding put_approval
put_approval-keeps k none u = Preserves-pure _
put_approval-keeps k (some l) u = respond-keeps _ _ _ (approve_maintenance-keeps _ k l)

abbrev pub IsWorkedOn : MaintenanceStatus → Type 0
IsWorkedOn s = (s ≡ MaintenanceStatus.in_progress) ⊎ (s ≡ MaintenanceStatus.completed)

abbrev pub IsPassed : ApprovalStatus → Type 0
IsPassed s = (s ≡ ApprovalStatus.ops_approved) ⊎ (s ≡ ApprovalStatus.md_approved)

-- Every ticket in progress or completed is OPS_APPROVED or MD_APPROVED.
abbrev pub WorkIsPassed : Db → Type 0
WorkIsPassed db =
    (b k : ℕ) (m : Maintenance)
    → first_row (owned_ticket b k) db.maintenance ≡ some m
    → IsWorkedOn m.maintenance_status
    → IsPassed m.approval_status

is_work-of : (s : MaintenanceStatus) → IsWorkedOn s → is_work s ≡ true
is_work-of s (inl e) = ap is_work e
is_work-of s (inr e) = ap is_work e

IsWorkedOn-of : (s : MaintenanceStatus) → is_work s ≡ true → IsWorkedOn s
IsWorkedOn-of MaintenanceStatus.opened h = cc
IsWorkedOn-of MaintenanceStatus.in_progress h = inl refl
IsWorkedOn-of MaintenanceStatus.completed h = inr refl
IsWorkedOn-of MaintenanceStatus.cancelled h = cc

may_work-of : (s : ApprovalStatus) → IsPassed s → may_work s ≡ true
may_work-of s (inl e) = ap may_work e
may_work-of s (inr e) = ap may_work e

IsPassed-of : (s : ApprovalStatus) → may_work s ≡ true → IsPassed s
IsPassed-of ApprovalStatus.pending h = cc
IsPassed-of ApprovalStatus.ops_approved h = inl refl
IsPassed-of ApprovalStatus.md_approved h = inr refl
IsPassed-of ApprovalStatus.rejected h = cc

WorkIsPassed-of : (db : Db) → WorkIsApproved db → WorkIsPassed db
WorkIsPassed-of db h b k m found work =
    IsPassed-of m.approval_status (h b k m found (is_work-of m.maintenance_status work))

WorkIsApproved-of : (db : Db) → WorkIsPassed db → WorkIsApproved db
WorkIsApproved-of db h b k m found work =
    may_work-of m.approval_status (h b k m found (IsWorkedOn-of m.maintenance_status work))

-- The routes that report, approve and work on a maintenance ticket each keep it, whatever they
-- answer, that every ticket in progress or completed has the approval status OPS_APPROVED or
-- MD_APPROVED, a ticket being the first with its key and its business.
pub ticket_routes-approved :
    (device : Option String) (r : MaintenanceReport) (k : ℕ) (o : Option Level) (p : WorkForm)
    (u : User) (db : Db)
    → WorkIsPassed db
    → WorkIsPassed (post_maintenance device r u db).1
      × WorkIsPassed (put_approval k o u db).1
      × WorkIsPassed (put_work_status k p u db).1
unfolding post_maintenance
ticket_routes-approved device r k o p u db passed =
    let h = WorkIsApproved-of db passed in
    (
      WorkIsPassed-of (post_maintenance device r u db).1
          ((respond-keeps _ _ _ (report_maintenance-keeps _ r)).at db h),
      WorkIsPassed-of (put_approval k o u db).1 ((put_approval-keeps k o u).at db h),
      WorkIsPassed-of (put_work_status k p u db).1 (put_work_status-approved k p u db h),
    )
