-- ===== src/Examples/JobRuns.antt =====
-- The jobs on the company of Fixtures: a drained queue and a swept log.
use renuzi_ops_platform.Prelude.{
  ℕ, zero, suc, ◌^◌, ◌<◌, ◌≡◌, refl, true, [], ◌∷◌, All, arith, count_rows, update_rows,
}
use native.Mathlib.Nat.{pow-suc}
use renuzi_ops_platform.Constants.{Dataset}
use renuzi_ops_platform.Database.{Db, table}
use renuzi_ops_platform.Exec.{is_ok, ◌>>=◌}
use renuzi_ops_platform.Guards.{config_value, get_config}
use renuzi_ops_platform.Backoff.{backoff_delay_ms, jittered_ms, capped_seconds}
use renuzi_ops_platform.Processors.{process}
use renuzi_ops_platform.Queue.{
  process_queue, claim_batch, claim_rows, is_claimable, process_rows, process_row, mark_failed,
}
use renuzi_ops_platform.Queue.Rounds.{Waits}
use renuzi_ops_platform.Jobs.Scheduler.{drain_queue}
use renuzi_ops_platform.Jobs.Drain.{due, drain_queue-IsDrained}
use renuzi_ops_platform.ChangeLog.Sweep.{sweep_changes}
use renuzi_ops_platform.ChangeLog.Coverage.{IsCovered, HasUniqueKeys, has_key}
use renuzi_ops_platform.ChangeLog.Complete.{sweep_changes-covers}
use renuzi_ops_platform.Fixtures.{company, server, second_item}

pow_pos : (n : ℕ) → 0 < 2 ^ n
pow_pos zero = omega arith
pow_pos (suc n) = rw pow-suc (omega (arith, pow_pos n))

server-Waits : Waits server
unfolding backoff_delay_ms jittered_ms capped_seconds
server-Waits retries k = omega (arith, pow_pos retries)

-- One item, of a type that has no processor.
abbrev one_item : Db
one_item = record company { sync_queue = second_item ∷ [] }

drained : is_ok (drain_queue server 1 20 one_item).0 ≡ true
unfolding drain_queue process_queue claim_batch claim_rows is_claimable process_rows process_row
    process mark_failed backoff_delay_ms jittered_ms capped_seconds get_config config_value
    update_rows ◌>>=◌
drained = refl

few : due server 1 one_item ≡ 1
unfolding count_rows is_claimable config_value
few = refl

drain_queue-IsDrained_example : due server 1 (drain_queue server 1 20 one_item).1 ≡ 0
unfolding config_value
drain_queue-IsDrained_example =
    drain_queue-IsDrained server 1 20 one_item (omega arith) server-Waits (omega arith)
      (omega (arith, few)) drained

vehicle_keys : HasUniqueKeys (table Dataset.vehicles company)
unfolding table has_key
vehicle_keys = (refl, tt)

sweep_changes-covers_example :
    (is_ok (sweep_changes company).0 ≡ true)
    × All
        (IsCovered Dataset.vehicles (sweep_changes company).1.change_log)
        (table Dataset.vehicles (sweep_changes company).1)
sweep_changes-covers_example = sweep_changes-covers Dataset.vehicles company vehicle_keys
