-- ===== src/Fleet/Signatures.antt =====
-- The signatures under a maintenance ticket (approveMaintenance of
-- backend/src/services/fleetService.js), as the steps of a state machine.
use renuzi_ops_platform.Prelude.{ℕ, ◌≡◌, refl, Bool, true, false}
use renuzi_ops_platform.Constants.{ApprovalStatus}
use renuzi_ops_platform.Schema.{Maintenance}
use renuzi_ops_platform.Fleet.Maintenance
use renuzi_ops_platform.Fleet.Maintenance.{
  Level, owned_ticket, ticket_needs_md, default_threshold, approve_at, approve_ops, approve_md,
  approve_maintenance, set_ticket, is_ops_approved,
}

abbrev pub signed_by_ops : ℕ → ApprovalStatus → Maintenance → Maintenance
signed_by_ops user status m = record m { ops_approved_by_key = user; approval_status = status }

abbrev pub signed_by_md : ℕ → Maintenance → Maintenance
signed_by_md user m = record m {
  md_approved_by_key = user;
  approval_status = ApprovalStatus.md_approved;
}

-- One approval of a ticket, by a user at a level; the flag says that the ticket needs the MD.
pub data Approves (user : ℕ) : Level → Bool → Maintenance → Maintenance → Type 0 where
  within_threshold :
      (m : Maintenance)
      → m.approval_status ≡ ApprovalStatus.pending
      → Approves user Level.ops false m (signed_by_ops user ApprovalStatus.md_approved m)
  first_signature :
      (m : Maintenance)
      → m.approval_status ≡ ApprovalStatus.pending
      → Approves user Level.ops true m (signed_by_ops user ApprovalStatus.ops_approved m)
  second_signature :
      (m : Maintenance)
      → m.approval_status ≡ ApprovalStatus.ops_approved
      → Approves user Level.md true m (signed_by_md user m)

pub status-is_pending :
    (s : ApprovalStatus) → Maintenance.is_pending s ≡ true → s ≡ ApprovalStatus.pending
status-is_pending ApprovalStatus.pending h = refl
status-is_pending ApprovalStatus.ops_approved h = cc
status-is_pending ApprovalStatus.md_approved h = cc
status-is_pending ApprovalStatus.rejected h = cc

pub status-is_ops_approved :
    (s : ApprovalStatus) → is_ops_approved s ≡ true → s ≡ ApprovalStatus.ops_approved
status-is_ops_approved ApprovalStatus.pending h = cc
status-is_ops_approved ApprovalStatus.ops_approved h = refl
status-is_ops_approved ApprovalStatus.md_approved h = cc
status-is_ops_approved ApprovalStatus.rejected h = cc
