-- ===== src/Examples/ServiceRuns.antt =====
-- The services, the outbox and the backoff on the company of Fixtures.
use renuzi_ops_platform.Prelude.{◌*◌, ◌≡◌, ◌≤◌, refl, true, arith, count_rows, first_row, min}
use renuzi_ops_platform.Constants.{Dataset}
use renuzi_ops_platform.Payload.{Payload}
use renuzi_ops_platform.Database.{table}
use renuzi_ops_platform.Exec.Atomic.{IsAtomic}
use renuzi_ops_platform.Guards.{owned}
use renuzi_ops_platform.ChangeLog.{record_upsert}
use renuzi_ops_platform.ChangeLog.Upserts.{IsRecorded, record_upsert-IsRecorded}
use renuzi_ops_platform.Fleet.Trips.{start_trip}
use renuzi_ops_platform.Fleet.OpenTrips.{open_trips, start_trip-one_open}
use renuzi_ops_platform.Warehouse.Custody.{Stage, stamp_dispatch_custody}
use renuzi_ops_platform.Warehouse.Chain.{
  custody_in_order, in_order, stamp_dispatch_custody-in_order,
}
use renuzi_ops_platform.Processors.{process, stamp_opts}
use renuzi_ops_platform.Processors.Atomicity.{process-IsAtomic}
use renuzi_ops_platform.Processors.Later.{IsLater}
use renuzi_ops_platform.Processors.Monotone.{process-IsLater}
use renuzi_ops_platform.Backoff.{backoff_delay_ms, capped_seconds, default_max_seconds}
use renuzi_ops_platform.Backoff.Bounds.{backoff_delay_ms-le, capped_seconds-suc}
use renuzi_ops_platform.Fixtures.{company, ann, online, early_trip, rolled_back_trip, signature}

process-IsAtomic_example : IsAtomic (process ann (Payload.trip_start rolled_back_trip))
process-IsAtomic_example = process-IsAtomic ann (Payload.trip_start rolled_back_trip)

process-IsLater_example : IsLater company (process ann (Payload.dispatch_ack signature) company).1
process-IsLater_example = process-IsLater ann (Payload.dispatch_ack signature) company

no_trips : open_trips 1 7 company ≤ 1
unfolding count_rows
no_trips = omega arith

start_trip-one_open_example : open_trips 1 7 (start_trip ann early_trip online company).1 ≤ 1
start_trip-one_open_example =
    start_trip-one_open ann early_trip online 1 7 company refl refl no_trips

in_order_before : custody_in_order 1 40 company ≡ true
unfolding first_row in_order
in_order_before = refl

stamp_dispatch_custody-in_order_example :
    custody_in_order 1 40
      (stamp_dispatch_custody ann 40 Stage.security signature (stamp_opts ann) company).1
    ≡ true
stamp_dispatch_custody-in_order_example =
    stamp_dispatch_custody-in_order ann 40 Stage.security signature (stamp_opts ann) company refl
      in_order_before

record_upsert-IsRecorded_example :
    IsRecorded Dataset.vehicles 1 7 company
      (first_row (owned 1 7) (table Dataset.vehicles company))
      (record_upsert Dataset.vehicles 1 7 company)
record_upsert-IsRecorded_example = record_upsert-IsRecorded Dataset.vehicles 1 7 company

backoff_delay_ms-le_example :
    (backoff_delay_ms 30 4 3 8 ≤ capped_seconds 30 default_max_seconds 4 * 1000)
    × (backoff_delay_ms 30 4 3 8 ≤ 86400000)
backoff_delay_ms-le_example = backoff_delay_ms-le 30 4 3 8 (omega arith)

capped_seconds-suc_example :
    (capped_seconds 30 86400 11 ≤ capped_seconds 30 86400 12)
    × (capped_seconds 30 86400 12 ≡ min (2 * capped_seconds 30 86400 11) 86400)
capped_seconds-suc_example = capped_seconds-suc 30 86400 11
