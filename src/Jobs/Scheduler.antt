-- ===== src/Jobs/Scheduler.antt =====
-- backend/src/jobs/scheduler.js: the passes that cron starts. What they log is left out.
use renuzi_ops_platform.Prelude.{
  ℕ, zero, suc, ℤ, Bool, true, false, Option, none, List, [], ◌∷◌, ◌==◌, if◌then◌else◌, where_rows,
}
use renuzi_ops_platform.Schema.{Business}
use renuzi_ops_platform.Exec.{Exec, pure, query, try_catch, for_each, ◌>>=◌, ◌>>◌}
use renuzi_ops_platform.Queue.{Worker, QueueOpts, process_queue}
use renuzi_ops_platform.ChangeLog.Sweep.{sweep_changes, run_retention}
use renuzi_ops_platform.Jobs.AutoClose.{run_grn_auto_close}

abbrev keys_of_businesses : List Business → List ℕ
keys_of_businesses [] = []
keys_of_businesses (b ∷ bs) = b.business_key ∷ keys_of_businesses bs

unfoldable pub active_business_keys : Exec (List ℕ)
active_business_keys =
    query (λ db. keys_of_businesses (where_rows (λ (b : Business). b.is_active) db.businesses))

-- processQueue without options.
abbrev pub no_options : QueueOpts
no_options = record {
  batch_size = none;
  max_retry = none;
  stuck_minutes = none;
  skip_backoff = false;
}

-- for (pass = 0; pass < n; pass++): until a pass claims nothing.
unfoldable pub drain_queue : Worker → ℕ → ℕ → Exec (Unit {0})
drain_queue w business_key zero = pure tt
drain_queue w business_key (suc passes) =
    let rest = drain_queue w business_key passes in
    process_queue w business_key no_options >>= λ s. if s.processed == 0 then pure tt else rest

-- catch (err) { console.error(…) }
abbrev swallow : Exec (Unit {0}) → Exec (Unit {0})
swallow work = try_catch work (λ e. pure tt)

-- The flag queueRunning comes in, and goes out as `finally` leaves it.
unfoldable pub process_all_queues : Worker → Bool → Exec Bool
process_all_queues w true = pure true
process_all_queues w false = do
  swallow (active_business_keys >>= λ keys. for_each keys (λ k. drain_queue w k 20))
  pure false

unfoldable pub escalate_all_grns : Exec (Unit {0})
escalate_all_grns =
    swallow
      (active_business_keys >>= λ keys. for_each keys (λ k. run_grn_auto_close k >>= λ e. pure tt))

unfoldable pub sweep_change_log : Exec (Unit {0})
sweep_change_log = swallow (sweep_changes >>= λ s. pure tt)

unfoldable pub purge_change_log : Option ℤ → Exec (Unit {0})
purge_change_log days = swallow (run_retention days >>= λ n. pure tt)
