-- ===== src/Jobs/Drain.antt =====
-- The loop of processAllQueues in backend/src/jobs/scheduler.js over one business.
use renuzi_ops_platform.Prelude.{
  ℕ, zero, suc, ◌+◌, ◌-◌, ◌*◌, ◌≤◌, ◌<◌, ◌≡◌, refl, sym, ap, ◌∙◌, ℤ, pos, pos_part, String, Bool,
  true, false, Option, none, List, arith, ◌==◌, ==_iff, min, or_else, length, if◌then◌else◌,
}
use mathlib.Core.Path.{subst}
use renuzi_ops_platform.Database.{Db, QueueRow}
use renuzi_ops_platform.Exec.{Result, ok, err, is_ok, Exec, pure, continue, ◌>>=◌}
use renuzi_ops_platform.Guards.{config_value, get_config}
use renuzi_ops_platform.Processors.Clock.{SameClock}
use renuzi_ops_platform.Queue.{
  Worker, ClaimOpts, Summary, claim_rows, claim_batch, process_rows, process_queue, no_rows,
}
use renuzi_ops_platform.Queue.Progress.{due_rows, due-claim_rows, length-claimed}
use renuzi_ops_platform.Queue.Rounds.{Waits, HasProcessed, Advances-rows}
use renuzi_ops_platform.Jobs.Scheduler.{no_options, drain_queue}

-- A number of app_config, as processQueue reads it.
abbrev pub configured : String → ℕ → List (String × Option ℤ) → ℕ
configured name fallback config =
    pos_part (or_else (or_else (config_value name config) none) (pos fallback))

abbrev pub batch_size : Db → ℕ
batch_size db = configured "SYNC_BATCH_SIZE" 50 db.config

-- What a pass for the business claims with.
abbrev pub pass_opts : Worker → ℕ → List (String × Option ℤ) → ClaimOpts
pass_opts w business_key config = record {
  worker_id = w.worker_id;
  business_key = business_key;
  max_retry = configured "SYNC_RETRY_MAX" w.retry_max_default config;
  stuck_minutes = w.stuck_minutes;
  ignore_backoff = false;
}

-- The items of the business that are due.
abbrev pub due : Worker → ℕ → Db → ℕ
due w business_key db = due_rows (pass_opts w business_key db.config) db.now db.sync_queue

module _ (w : Worker) (business_key : ℕ) (db : Db) where
  abbrev claimed_db : Db
  claimed_db = record db {
    sync_queue =
        (claim_rows (pass_opts w business_key db.config) db.now (batch_size db) db.sync_queue).1;
  }

  abbrev claimed_list : List QueueRow
  claimed_list =
      (claim_rows (pass_opts w business_key db.config) db.now (batch_size db) db.sync_queue).0

  process_queue-run :
      process_queue w business_key no_options db
      ≡ process_rows w
          (configured "SYNC_RETRY_MAX" w.retry_max_default db.config)
          false
          claimed_list
          no_rows
          claimed_db
  unfolding process_queue get_config claim_batch ◌>>=◌
  process_queue-run = refl

batch_off : (p n before after : ℕ) → before ≤ suc p * n → after ≤ before - n → after ≤ p * n
batch_off p n before after h k = grind arith

-- The result of a pass: fewer rows are due, by a batch.
abbrev IsPass : Worker → ℕ → Db → Result Summary × Db → Type 0
IsPass w k db x =
    SameClock db x.1
    × (due w k x.1 ≤ due w k db - batch_size db)
    × HasProcessed (min (batch_size db) (due w k db)) x.0

module _ (w : Worker) (k : ℕ) (patient : 0 < w.stuck_minutes) (waits : Waits w) where
  -- The same rows are due under the same clock and configuration.
  due-same :
      (a b : Db) → SameClock a b → due_rows (pass_opts w k a.config) a.now b.sync_queue ≡ due w k b
  due-same a b (t, f) =
      ap (λ n. due_rows (pass_opts w k a.config) n b.sync_queue) (sym t)
      ∙ ap (λ c. due_rows (pass_opts w k c) b.now b.sync_queue) (sym f)

  process_queue-IsPass : (db : Db) → IsPass w k db (process_queue w k no_options db)
  process_queue-IsPass db =
      let o = pass_opts w k db.config in
      let n = batch_size db in
      let mid = claimed_db w k db in
      let x = process_rows w o.max_retry false (claimed_list w k db) no_rows mid in
      let ((clock, falls), count) =
        Advances-rows o w o.max_retry refl waits (claimed_list w k db) no_rows mid in
      let there = due-same db x.1 clock in
      let claim = due-claim_rows o db.now patient n db.sync_queue in
      let handed : 0 + length (claimed_list w k db) ≡ min n (due w k db) =
        omega (arith, length-claimed o db.now patient n db.sync_queue) in
      subst (IsPass w k db) (sym (process_queue-run w k db))
        (clock, omega arith, subst (λ m. HasProcessed m x.0) handed count)

  abbrev next_pass : Exec (Unit {0}) → Summary → Exec (Unit {0})
  next_pass rest s = if s.processed == 0 then pure tt else rest

  -- After a pass: done, or the rest of the passes do it.
  drained-after :
      (passes : ℕ) (rest : Exec (Unit {0})) (db : Db) (x : Result Summary × Db)
      → 0 < batch_size db
      → due w k db ≤ suc passes * batch_size db
      → IsPass w k db x
      → ((d : Db)
          → batch_size d ≡ batch_size db
          → due w k d ≤ passes * batch_size d
          → is_ok (rest d).0 ≡ true
          → due w k (rest d).1 ≡ 0)
      → is_ok (continue x.0 (next_pass rest) x.1).0 ≡ true
      → due w k (continue x.0 (next_pass rest) x.1).1 ≡ 0
  unfolding pure
  drained-after passes rest db (err e, d) some_batch enough pass later = λ h. cc
  drained-after passes rest db (ok s, d) some_batch enough (clock, falls, count) later =
      next (s.processed == 0) refl
    where
      next :
          (b : Bool)
          → (s.processed == 0) ≡ b
          → is_ok ((if b then pure tt else rest) d).0 ≡ true
          → due w k ((if b then pure tt else rest) d).1 ≡ 0
      next true e h = let none_left : s.processed ≡ 0 = (==_iff s.processed 0).0 e in omega arith
      next false e h =
          let same : batch_size d ≡ batch_size db =
            ap (λ c. configured "SYNC_BATCH_SIZE" 50 c) clock.1 in
          later d same
            (subst (λ m. due w k d ≤ passes * m) (sym same)
              (batch_off passes (batch_size db) (due w k db) (due w k d) enough falls))
            h

-- Where every failure is put off by some time, a claim is not stuck at once and the configured
-- batch is above 0: if a business has at most as many due items as its passes can claim, and no
-- pass throws, then no item of the business is due after the drain.
pub drain_queue-IsDrained :
    (w : Worker) (k passes : ℕ) (db : Db)
    → 0 < w.stuck_minutes
    → Waits w
    → 0 < batch_size db
    → due w k db ≤ passes * batch_size db
    → is_ok (drain_queue w k passes db).0 ≡ true
    → due w k (drain_queue w k passes db).1 ≡ 0
unfolding drain_queue pure ◌>>=◌
drain_queue-IsDrained w k zero db patient waits some_batch enough h = omega arith
drain_queue-IsDrained w k (suc passes) db patient waits some_batch enough h =
    drained-after w k patient waits passes (drain_queue w k passes) db
      (process_queue w k no_options db) some_batch enough
      (process_queue-IsPass w k patient waits db)
      (λ d same fits ok'. drain_queue-IsDrained w k passes d patient waits (omega arith) fits ok') h
