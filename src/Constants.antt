-- ===== src/Constants.antt =====
-- The enumerations of backend/src/constants.js that the services branch on.
use renuzi_ops_platform.Prelude.{Bool, true, false}

pub data VehicleStatus : Type 0 where
  active in_workshop on_route retired sold : VehicleStatus

pub data TripStatus : Type 0 where
  planned started in_progress completed cancelled : TripStatus

pub data CheckStatus : Type 0 where
  pass fail pass_with_issues : CheckStatus

pub data FuelRequestStatus : Type 0 where
  pending approved rejected : FuelRequestStatus

pub data ApprovalStatus : Type 0 where
  pending ops_approved md_approved rejected : ApprovalStatus

pub data MaintenanceStatus : Type 0 where
  opened in_progress completed cancelled : MaintenanceStatus

-- `unknown` is any string outside the enumeration.
pub data MaintenanceType : Type 0 where
  missing scheduled repair accident inspection unknown : MaintenanceType

pub data DispatchStatus : Type 0 where
  pending picked loaded in_transit delivered returned : DispatchStatus

pub data ReceiptStatus : Type 0 where
  pending partial complete rejected : ReceiptStatus

pub data MovementType : Type 0 where
  receipt dispatch transfer_in transfer_out adjustment damaged expired count : MovementType
  missing unknown : MovementType

pub data ReturnType : Type 0 where
  damaged expired wrong_order quality_issue unknown : ReturnType

pub data ReturnStatus : Type 0 where
  pending confirmed credit_issued rejected : ReturnStatus

pub data SyncStatus : Type 0 where
  pending processing synced failed conflict dead_letter : SyncStatus

pub data ChangeOp : Type 0 where
  upsert delete : ChangeOp

pub data ConflictResolution : Type 0 where
  server_wins client_wins merged pending unknown : ConflictResolution

-- The keys of PULL_DATASETS.
pub data Dataset : Type 0 where
  vehicles routes customers products dispatches grns : Dataset

abbrev pub same_dataset : Dataset → Dataset → Bool
same_dataset vehicles vehicles = true
same_dataset routes routes = true
same_dataset customers customers = true
same_dataset products products = true
same_dataset dispatches dispatches = true
same_dataset grns grns = true
same_dataset _ _ = false

-- USER_ROLES. `finance` stands in a role list and in no user, `unknown` is any other string.
pub data Role : Type 0 where
  driver fleet_manager warehouse_manager warehouse_staff ops_manager security admin : Role
  finance unknown : Role
