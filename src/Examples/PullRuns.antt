-- ===== src/Examples/PullRuns.antt =====
-- A fuel request that is decided twice, a change log that is read in two pages, and one that grows.
use renuzi_ops_platform.Prelude.{
  ℕ, List, ◌≡◌, ◌++◌, refl, none, some, [], ◌∷◌, arith, pos, first_row,
}
use renuzi_ops_platform.Constants.{Dataset, ChangeOp, FuelRequestStatus}
use renuzi_ops_platform.Schema.{Change, FuelRequest}
use renuzi_ops_platform.Payload.{Payload, http}
use renuzi_ops_platform.Database.{Db}
use renuzi_ops_platform.Exec.{ok, err, ◌>>=◌}
use renuzi_ops_platform.Fleet.Fuel.{Decision, decide_fuel_request}
use renuzi_ops_platform.Fleet.Decisions.{decide_fuel_request_once}
use renuzi_ops_platform.Pull.Changes.{after_cursor, delta_rows, next_cursor}
use renuzi_ops_platform.Pull.Retention.{after_cursor-purged}
use renuzi_ops_platform.ChangeLog.{oldest_row}
use renuzi_ops_platform.Pull.Resume.{RisesFrom, delta_rows-resume}
use renuzi_ops_platform.Processors.{process}
use renuzi_ops_platform.Processors.Ledger.{IsLedger, process-IsLedger}
use renuzi_ops_platform.Fixtures.{company, ann, signature}

abbrev fuel_request : FuelRequest
fuel_request = record {
  fuel_request_key = 3;
  business_key = 1;
  vehicle_key = 7;
  driver_key = 11;
  date_key = 20260829;
  request_type = "FUEL";
  amount_requested = pos 20000;
  liters_requested = none;
  reason = none;
  approval_status = FuelRequestStatus.pending;
  approved_by_key = 0;
  approval_notes = none;
  disbursed_amount = none;
  mobile_device_id = none;
}

abbrev waiting : Db
waiting = record company { fuel_requests = fuel_request ∷ [] }

abbrev refusal : Decision
refusal = record {
  approval_status = FuelRequestStatus.rejected;
  approval_notes = "";
  disbursed_amount = pos 0;
}

refused_first : (decide_fuel_request ann 3 refusal waiting).0 ≡ ok tt
unfolding decide_fuel_request first_row ◌>>=◌
refused_first = refl

decide_fuel_request_once_example :
    decide_fuel_request ann 3 refusal (decide_fuel_request ann 3 refusal waiting).1
    ≡ (err (http 409 "Fuel request already decided"), (decide_fuel_request ann 3 refusal waiting).1)
decide_fuel_request_once_example =
    decide_fuel_request_once ann ann 3 refusal refusal waiting refl refl refused_first

abbrev changed : ℕ → ℕ → Change
changed k v = record {
  change_key = k;
  business_key = 1;
  entity_type = Dataset.vehicles;
  entity_key = 7;
  op = ChangeOp.upsert;
  version_no = v;
  payload_json = none;
  created_at = 1000;
}

abbrev log : List Change
log = changed 2 4 ∷ changed 5 5 ∷ changed 9 6 ∷ []

log-RisesFrom : RisesFrom 0 log
log-RisesFrom = (omega arith, (omega arith, (omega arith, tt)))

delta_rows-resume_example :
    delta_rows 1 Dataset.vehicles 1 2 log
      ++ delta_rows 1 Dataset.vehicles 5 (next_cursor 2 (delta_rows 1 Dataset.vehicles 1 2 log)) log
    ≡ delta_rows 1 Dataset.vehicles 6 2 log
delta_rows-resume_example = delta_rows-resume 1 Dataset.vehicles 1 5 2 log log-RisesFrom

company-IsLedger : IsLedger company
company-IsLedger = (omega arith, tt, tt)

process-IsLedger_example : IsLedger (process ann (Payload.dispatch_ack signature) company).1
process-IsLedger_example =
    process-IsLedger ann (Payload.dispatch_ack signature) company company-IsLedger

oldest_is_five : oldest_row 1 Dataset.vehicles (changed 5 5 ∷ changed 9 6 ∷ []) ≡ some 5
unfolding oldest_row
oldest_is_five = refl

after_cursor-purged_example :
    after_cursor 1 Dataset.vehicles 5 (changed 2 4 ∷ changed 5 5 ∷ changed 9 6 ∷ [])
    ≡ after_cursor 1 Dataset.vehicles 5 (changed 5 5 ∷ changed 9 6 ∷ [])
after_cursor-purged_example =
    after_cursor-purged 1 Dataset.vehicles 5 5 0 (changed 2 4 ∷ []) (changed 5 5 ∷ changed 9 6 ∷ [])
      log-RisesFrom oldest_is_five (omega arith) refl
