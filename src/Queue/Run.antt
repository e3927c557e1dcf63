-- ===== src/Queue/Run.antt =====
-- processQueue of backend/src/services/syncQueueService.js as a whole: the claim, then the loop.
use renuzi_ops_platform.Prelude.{
  String, ℕ, zero, suc, ◌<◌, ◌≡◌, ◌∙◌, true, false, Option, none, some, List, [], ◌∷◌, arith, All,
  ℤ, pos, pos_part, ap, refl, or_else, Bool-cases, inl, inr,
}
use renuzi_ops_platform.Constants.{
  SyncStatus, pending, processing, synced, failed, dead_letter, conflict,
}
use renuzi_ops_platform.Database.{Db, QueueRow}
use renuzi_ops_platform.Exec.{ok, ◌>>=◌}
use renuzi_ops_platform.Guards.{config_value, get_config}
use renuzi_ops_platform.Exec.Preserves.{holds-after_read}
use renuzi_ops_platform.Exec.Atomic.{IsReadOnly, read_only_rules}
use renuzi_ops_platform.Guards.ReadOnly.{guard_rules}
use renuzi_ops_platform.Queue.{
  Worker, ClaimOpts, QueueOpts, is_runnable, is_claimable, claimed, claim_rows, claim_batch,
  process_rows, process_queue, or_config, no_rows,
}
use renuzi_ops_platform.Queue.Claim.{HasUniqueIds, has_id, has_id-claim_rows, claimed_from_table}
use renuzi_ops_platform.Queue.Budget.{IsBudgeted, IsLive, InHand, Within, process_rows-budget}

claimed-IsBudgeted :
    (o : ClaimOpts) (now : ℕ) (r : QueueRow)
    → is_claimable o now r ≡ true
    → IsBudgeted o.max_retry r
    → IsBudgeted o.max_retry (claimed o now r)
unfolding is_claimable
claimed-IsBudgeted o now r c h = runnable_below r.sync_status (ground arith) h
  where
    runnable_below :
        (s : SyncStatus)
        → is_runnable o now s r ≡ true
        → Within o.max_retry s r.retry_count
        → r.retry_count < o.max_retry
    runnable_below pending c h = h
    runnable_below processing c h = h
    runnable_below failed c h = h
    runnable_below synced c h = cc
    runnable_below conflict c h = cc
    runnable_below dead_letter c h = cc

claim_rows-IsBudgeted :
    (o : ClaimOpts) (now n : ℕ) (rows : List QueueRow)
    → All (IsBudgeted o.max_retry) rows
    → All (IsBudgeted o.max_retry) (claim_rows o now n rows).1
unfolding claim_rows
claim_rows-IsBudgeted o now zero rows h = h
claim_rows-IsBudgeted o now (suc n) [] h = tt
claim_rows-IsBudgeted o now (suc n) (r ∷ rs) h = elim (Bool-cases (is_claimable o now r)) [
  | inl e ↦ rw e (claimed-IsBudgeted o now r e h.0, claim_rows-IsBudgeted o now n rs h.1)
  | inr e ↦ rw e (h.0, claim_rows-IsBudgeted o now (suc n) rs h.1)
]

claim_rows-HasUniqueIds :
    (o : ClaimOpts) (now n : ℕ) (rows : List QueueRow)
    → HasUniqueIds rows
    → HasUniqueIds (claim_rows o now n rows).0
unfolding claim_rows
claim_rows-HasUniqueIds o now zero rows h = tt
claim_rows-HasUniqueIds o now (suc n) [] h = tt
claim_rows-HasUniqueIds o now (suc n) (r ∷ rs) h = elim (Bool-cases (is_claimable o now r)) [
  | inl e ↦
      rw e (claimed_from_table o now n r.queue_id rs h.0, claim_rows-HasUniqueIds o now n rs h.1)
  | inr e ↦ rw e (claim_rows-HasUniqueIds o now (suc n) rs h.1)
]

-- No row of a table without the id has it.
IsLive-absent : (k : ℕ) (table : List QueueRow) → has_id k table ≡ false → All (IsLive k) table
unfolding has_id
IsLive-absent k [] h = tt
IsLive-absent k (r ∷ table) h = (ground arith, IsLive-absent k table (ground arith))

InHand-cons :
    (x : QueueRow) (todo table : List QueueRow)
    → has_id x.queue_id todo ≡ false
    → InHand todo table
    → InHand todo (x ∷ table)
unfolding has_id
InHand-cons x [] table h l = tt
InHand-cons x (r ∷ todo) table h l =
    ((ground arith, l.0), InHand-cons x todo table (ground arith) l.1)

claim_rows-InHand :
    (o : ClaimOpts) (now n : ℕ) (rows : List QueueRow)
    → HasUniqueIds rows
    → InHand (claim_rows o now n rows).0 (claim_rows o now n rows).1
unfolding claim_rows
claim_rows-InHand o now zero rows u = tt
claim_rows-InHand o now (suc n) [] u = tt
claim_rows-InHand o now (suc n) (r ∷ rs) u = elim (Bool-cases (is_claimable o now r)) [
  | inl e ↦ rw e (
    (ground arith, IsLive-absent r.queue_id _ (has_id-claim_rows o now n r.queue_id rs ∙ u.0)),
    InHand-cons (claimed o now r) _ _ (claimed_from_table o now n r.queue_id rs u.0)
        (claim_rows-InHand o now n rs u.1),
  )
  | inr e ↦ rw e (
      InHand-cons r _ _ (claimed_from_table o now (suc n) r.queue_id rs u.0)
        (claim_rows-InHand o now (suc n) rs u.1))
]

abbrev claim_opts : Worker → ℕ → QueueOpts → ℕ → ClaimOpts
claim_opts w business_key opts max_retry = record {
  worker_id = w.worker_id;
  business_key = business_key;
  max_retry = max_retry;
  stuck_minutes = or_else opts.stuck_minutes w.stuck_minutes;
  ignore_backoff = opts.skip_backoff;
}

-- A given number, else the configured one, else the default: what the source writes as
-- `opts.x ?? await getConfig(name, fallback)`.
abbrev pub setting : Option ℕ → Option (Option ℤ) → ℕ → ℕ
setting (some n) configured fallback = n
setting none (some (some v)) fallback = pos_part v
setting none (some none) fallback = fallback
setting none none fallback = fallback

-- How often a run may try a row.
abbrev pub retry_limit : Worker → QueueOpts → Db → ℕ
retry_limit w opts db =
    setting opts.max_retry (config_value "SYNC_RETRY_MAX" db.config) w.retry_max_default

or_config_lem :
    (given : Option ℕ) (name : String) (fallback : ℕ) (db : Db)
    → or_config given name fallback db
      ≡ (ok (setting given (config_value name db.config) fallback), db)
unfolding get_config ◌>>=◌
or_config_lem (some n) name fallback db = refl
or_config_lem none name fallback db =
    ap (λ n. (ok n, db)) (configured-setting (config_value name db.config))
  where
    configured-setting :
        (v : Option (Option ℤ))
        → pos_part (or_else (or_else v none) (pos fallback)) ≡ setting none v fallback
    configured-setting none = refl
    configured-setting (some none) = refl
    configured-setting (some (some v)) = refl

claimed_run-IsBudgeted :
    (w : Worker) (business_key : ℕ) (opts : QueueOpts) (db : Db) (n : ℕ)
    → HasUniqueIds db.sync_queue
    → All (IsBudgeted (retry_limit w opts db)) db.sync_queue
    → All
        (IsBudgeted (retry_limit w opts db))
        ((do
          max ← or_config opts.max_retry "SYNC_RETRY_MAX" w.retry_max_default
          rows ← claim_batch (claim_opts w business_key opts max) n
          process_rows w max opts.skip_backoff rows no_rows)
          db).1.sync_queue
unfolding claim_batch ◌>>=◌
claimed_run-IsBudgeted w business_key opts db n u h =
    let max_retry = retry_limit w opts db in
    let o = claim_opts w business_key opts max_retry in
    rw (or_config_lem opts.max_retry "SYNC_RETRY_MAX" w.retry_max_default db) (
      process_rows-budget w max_retry opts.skip_backoff (claim_rows o db.now n db.sync_queue).0
        no_rows _ (claim_rows-HasUniqueIds o db.now n db.sync_queue u)
        (claim_rows-IsBudgeted o db.now n db.sync_queue h)
        (claim_rows-InHand o db.now n db.sync_queue u))

IsReadOnly-or_config :
    (given : Option ℕ) (name : String) (fallback : ℕ) → IsReadOnly (or_config given name fallback)
IsReadOnly-or_config none name fallback = search (read_only_rules, guard_rules)
IsReadOnly-or_config (some n) name fallback = search read_only_rules

-- A run of the queue with any options, on a queue with unique ids whose dead letters have a retry
-- count equal to the retry limit and whose other rows a smaller one, leaves a queue of which the
-- same holds, however the processors answer. The limit is the one given, else the configured
-- SYNC_RETRY_MAX, else the default of the worker.
pub process_queue-IsBudgeted :
    (w : Worker) (business_key : ℕ) (opts : QueueOpts) (db : Db)
    → HasUniqueIds db.sync_queue
    → All (IsBudgeted (retry_limit w opts db)) db.sync_queue
    → All (IsBudgeted (retry_limit w opts db)) (process_queue w business_key opts db).1.sync_queue
unfolding process_queue
process_queue-IsBudgeted w business_key opts db u h =
    holds-after_read (λ d. All (IsBudgeted (retry_limit w opts db)) d.sync_queue) _ _ db
      (IsReadOnly-or_config opts.batch_size "SYNC_BATCH_SIZE" 50) h
      (λ n. claimed_run-IsBudgeted w business_key opts db n u h)
