-- ===== src/Fleet/Approvals.antt =====
-- approveMaintenance of backend/src/services/fleetService.js as a state machine: a ticket goes from
-- PENDING over OPS_APPROVED to MD_APPROVED, or straight to MD_APPROVED within the threshold.
use renuzi_ops_platform.Prelude.{
  ℕ, ℤ, pos, ◌≡◌, refl, sym, ap, ◌∙◌, Bool, true, false, Option, none, some, first_row,
  first_row-update_rows, Bool-cases, Option-cases, inl, inr, or_else, if◌then◌else◌,
}
use mathlib.Core.Path.{subst}
use renuzi_ops_platform.Constants.{ApprovalStatus}
use renuzi_ops_platform.Schema.{Maintenance}
use renuzi_ops_platform.Payload.{Actor}
use renuzi_ops_platform.Database.{Db}
use renuzi_ops_platform.Exec.{Result, ok, err, is_ok, ◌>>=◌}
use renuzi_ops_platform.Guards.{config_value}
use renuzi_ops_platform.Fleet.Threshold.{Needs, ticket_needs_md-Needs}
use renuzi_ops_platform.Fleet.Maintenance
use renuzi_ops_platform.Fleet.Maintenance.{
  Level, owned_ticket, ticket_needs_md, default_threshold, approve_at, approve_ops, approve_md,
  approve_maintenance, set_ticket, is_ops_approved,
}
use renuzi_ops_platform.Fleet.Signatures.{
  Approves, within_threshold, first_signature, second_signature, signed_by_ops, signed_by_md,
  status-is_pending, status-is_ops_approved,
}

abbrev after_ops : Bool → ApprovalStatus
after_ops b = if b then ApprovalStatus.ops_approved else ApprovalStatus.md_approved

abbrev answer : Result Bool → Bool
answer (ok b) = b
answer (err _) = false

-- The ticket is there afterwards and has taken one step.
abbrev pub HasStepped : Actor → ℕ → Maintenance → Level → Bool → Db → Type 0
HasStepped a k m level needs_md after =
    (m' : Maintenance) × (first_row (owned_ticket a.business_key k) after.maintenance ≡ some m')
    × Approves a.user_key level needs_md m m'

module _ (a : Actor) (k : ℕ) (m : Maintenance) (db : Db) where
  signed :
      (level : Level) (b : Bool) (f : Maintenance → Maintenance)
      → ((x : Maintenance) → owned_ticket a.business_key k (f x) ≡ owned_ticket a.business_key k x)
      → first_row (owned_ticket a.business_key k) db.maintenance ≡ some m
      → Approves a.user_key level b m (f m)
      → HasStepped a k m level b (set_ticket a.business_key k f db)
  signed level b f keep found step =
      (f m, first_row-update_rows (owned_ticket a.business_key k) f db.maintenance keep found, step)

  landed :
      (level : Level) (c b : Bool) (after : Db) (x : Result Bool × Db)
      → x ≡ (ok c, after)
      → x.0 ≡ ok b
      → HasStepped a k m level c after
      → HasStepped a k m level b x.1
  landed level c b after x e h step =
      let same : c ≡ b = ap answer (sym (ap (λ y. y.0) e) ∙ h) in
      subst (λ q. HasStepped a k m level q x.1) same
        (subst (λ y. HasStepped a k m level c y.1) (sym e) step)

  module _ (s : ApprovalStatus) (b : Bool) where
    ops_open :
        Maintenance.is_pending s ≡ true
        → approve_ops a k s b db
          ≡ (ok b, set_ticket a.business_key k (signed_by_ops a.user_key (after_ops b)) db)
    unfolding approve_ops ◌>>=◌
    ops_open h = rw h refl

    ops_closed : Maintenance.is_pending s ≡ false → is_ok (approve_ops a k s b db).0 ≡ false
    unfolding approve_ops ◌>>=◌
    ops_closed h = rw h refl

    md_early : is_ops_approved s ≡ false → is_ok (approve_md a k s b db).0 ≡ false
    unfolding approve_md ◌>>=◌
    md_early h = rw h refl

    md_idle : is_ops_approved s ≡ true → b ≡ false → is_ok (approve_md a k s b db).0 ≡ false
    unfolding approve_md ◌>>=◌
    md_idle h e = rw (h, e) refl

    md_open :
        is_ops_approved s ≡ true
        → b ≡ true
        → approve_md a k s b db
          ≡ (ok true, set_ticket a.business_key k (signed_by_md a.user_key) db)
    unfolding approve_md ◌>>=◌
    md_open h e = rw (h, e) refl

  -- An approval that succeeds answers with the flag that it has computed.
  flag-approve_at :
      (level : Level) (s : ApprovalStatus) (needs_md b : Bool)
      → (approve_at level a k s needs_md db).0 ≡ ok b
      → needs_md ≡ b
  flag-approve_at Level.ops s needs_md b h = elim (Bool-cases (Maintenance.is_pending s)) [
    | inr closed ↦ let refused = ops_closed s needs_md closed in let told = ap is_ok h in cc
    | inl waiting ↦ ap answer (sym (ap (λ x. x.0) (ops_open s needs_md waiting)) ∙ h)
  ]
  flag-approve_at Level.md s needs_md b h = elim (Bool-cases (is_ops_approved s)) [
    | inr early ↦ let refused = md_early s needs_md early in let told = ap is_ok h in cc
    | inl ready ↦ elim (Bool-cases needs_md) [
      | inr idle ↦ let refused = md_idle s needs_md ready idle in let told = ap is_ok h in cc
      | inl needed ↦ needed ∙ ap answer (sym (ap (λ x. x.0) (md_open s needs_md ready needed)) ∙ h)
    ]
  ]

  first_step :
      (b : Bool)
      → Maintenance.is_pending m.approval_status ≡ true
      → Approves a.user_key Level.ops b m (signed_by_ops a.user_key (after_ops b) m)
  first_step true h = first_signature m (status-is_pending m.approval_status h)
  first_step false h = within_threshold m (status-is_pending m.approval_status h)

  module _ (found : first_row (owned_ticket a.business_key k) db.maintenance ≡ some m) where
    by_ops :
        (needs_md b : Bool)
        → (approve_ops a k m.approval_status needs_md db).0 ≡ ok b
        → HasStepped a k m Level.ops b (approve_ops a k m.approval_status needs_md db).1
    by_ops needs_md b h = elim (Bool-cases (Maintenance.is_pending m.approval_status)) [
      | inr closed ↦
          let refused = ops_closed m.approval_status needs_md closed in let told = ap is_ok h in cc
      | inl waiting ↦
          landed Level.ops needs_md b _ _ (ops_open m.approval_status needs_md waiting) h (
            signed Level.ops needs_md (signed_by_ops a.user_key (after_ops needs_md)) (λ x. refl)
              found (first_step needs_md waiting))
    ]

    by_md :
        (needs_md b : Bool)
        → (approve_md a k m.approval_status needs_md db).0 ≡ ok b
        → HasStepped a k m Level.md b (approve_md a k m.approval_status needs_md db).1
    by_md needs_md b h = elim (Bool-cases (is_ops_approved m.approval_status)) [
      | inr early ↦
          let refused = md_early m.approval_status needs_md early in let told = ap is_ok h in cc
      | inl ready ↦ elim (Bool-cases needs_md) [
        | inr idle ↦
            let refused = md_idle m.approval_status needs_md ready idle in
            let told = ap is_ok h in cc
        | inl needed ↦
            landed Level.md true b _ _ (md_open m.approval_status needs_md ready needed) h (
              signed Level.md true (signed_by_md a.user_key) (λ x. refl) found
                (second_signature m (status-is_ops_approved m.approval_status ready)))
      ]
    ]

    by_level :
        (level : Level) (needs_md b : Bool)
        → (approve_at level a k m.approval_status needs_md db).0 ≡ ok b
        → HasStepped a k m level b (approve_at level a k m.approval_status needs_md db).1
    by_level Level.ops = by_ops
    by_level Level.md = by_md

    with_threshold :
        (level : Level) (v : Option ℤ)
        → config_value "MAINTENANCE_MD_THRESHOLD" db.config ≡ some v
        → approve_maintenance a k level db
          ≡ approve_at level a k m.approval_status
              (ticket_needs_md m.estimated_cost (or_else v default_threshold))
              db
    unfolding approve_maintenance ◌>>=◌
    with_threshold level v e = rw (found, e) refl

    without_threshold :
        (level : Level)
        → config_value "MAINTENANCE_MD_THRESHOLD" db.config ≡ none
        → is_ok (approve_maintenance a k level db).0 ≡ false
    unfolding approve_maintenance ◌>>=◌
    without_threshold level e = rw (found, e) refl

-- The ticket is there afterwards and has taken one step; the flag says that its cost is above the
-- configured threshold, which is 100,000 if the configured value is no number.
abbrev pub IsApproved : Actor → ℕ → Maintenance → Level → Bool → Db → Db → Type 0
IsApproved a k m level needs_md before after =
    ((configured : Option ℤ) × (config_value "MAINTENANCE_MD_THRESHOLD" before.config
        ≡ some configured)
      × Needs needs_md m.estimated_cost (or_else configured (pos 10000000)))
    × HasStepped a k m level needs_md after

-- For a ticket of the business, an approval that succeeds, with a flag that says if the MD is
-- needed, leaves the ticket with one step taken: from PENDING by the OPS level to MD_APPROVED
-- without the flag and to OPS_APPROVED with it, or from OPS_APPROVED by the MD level to
-- MD_APPROVED, with the flag only, signed with the key of the user. A threshold is configured,
-- and the flag says that the estimated cost of the ticket is there, is not 0 and is above it, or
-- above 100000 if the configured value is no number.
pub approve_maintenance-IsApproved :
    (a : Actor) (k : ℕ) (m : Maintenance) (db : Db) (level : Level) (needs_md : Bool)
    → first_row (owned_ticket a.business_key k) db.maintenance ≡ some m
    → (approve_maintenance a k level db).0 ≡ ok needs_md
    → IsApproved a k m level needs_md db (approve_maintenance a k level db).1
approve_maintenance-IsApproved a k m db level needs_md found h =
    elim (Option-cases (config_value "MAINTENANCE_MD_THRESHOLD" db.config)) [
      | inl absent ↦
          let refused = without_threshold a k m db found level absent in let told = ap is_ok h in cc
      | inr (v, e) ↦
          let e' = with_threshold a k m db found level v e in
          let h' = sym (ap (λ y. y.0) e') ∙ h in
          let flag = flag-approve_at a k m db level m.approval_status _ needs_md h' in
          (
            (
              v,
              e,
              subst (λ b. Needs b m.estimated_cost (or_else v (pos 10000000))) flag
                  (ticket_needs_md-Needs m.estimated_cost (or_else v default_threshold)),
            ),
            subst (λ y. HasStepped a k m level needs_md y.1) (sym e')
                (by_level a k m db found level _ needs_md h'),
          )
    ]
