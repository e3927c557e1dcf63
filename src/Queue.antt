-- ===== src/Queue.antt =====
-- backend/src/services/syncQueueService.js: the queue engine.
pub mod Claim
pub mod Budget
pub mod Run
pub mod Failure
pub mod Outcome
pub mod Progress
pub mod Rounds
pub mod Kept
use renuzi_ops_platform.Prelude.{
  ℕ, zero, suc, ◌+◌, ◌-◌, ◌/◌, ℤ, pos, pos_part, String, Bool, true, false, not, ◌&&◌, ◌||◌, Option,
  none, some, List, [], ◌∷◌, ◌++◌, ◌==◌, ltb, leb, str_eq, if◌then◌else◌, is_some, or_else,
  first_row, update_rows,
}
use renuzi_ops_platform.Constants.{
  SyncStatus, pending, processing, synced, failed, dead_letter, conflict,
}
use renuzi_ops_platform.Payload
use renuzi_ops_platform.Payload.{Payload, Actor, Error, reference_error}
use renuzi_ops_platform.Database.{Db, QueueRow}
use renuzi_ops_platform.Exec.{Exec, pure, throw, query, try_catch, execute, identity, ◌>>=◌, ◌>>◌}
use renuzi_ops_platform.Guards.{get_config}
use renuzi_ops_platform.Backoff.{backoff_delay_ms}
use renuzi_ops_platform.Processors.{process}

-- What the process is configured with: WORKER_ID, env.sync, and the numbers that Math.random()
-- returns, one for the failure of each row.
pub record Worker : Type 0 where
  pub worker_id : String
  pub stuck_minutes : ℕ
  pub backoff_base : ℕ
  pub retry_max_default : ℕ
  pub random : ℕ → ℕ
  pub random_scale : ℕ

-- sync_queue.entity_type
abbrev pub entity_type : Payload → String
entity_type (Payload.vehicle_check p) = "VEHICLE_CHECK"
entity_type (Payload.trip_start p) = "TRIP_START"
entity_type (Payload.trip_end p) = "TRIP_END"
entity_type (Payload.fuel_request p) = "FUEL_REQUEST"
entity_type (Payload.fuel_log p) = "FUEL_LOG"
entity_type (Payload.maintenance p) = "MAINTENANCE"
entity_type (Payload.grn p) = "GRN"
entity_type (Payload.dispatch_ack p) = "DISPATCH_ACK"
entity_type (Payload.stock_count p) = "STOCK_COUNT"
entity_type (Payload.stock_movement p) = "STOCK_MOVEMENT"
entity_type (Payload.goods_return p) = "GOODS_RETURN"
entity_type (Payload.odometer_update p) = "ODOMETER"
entity_type (Payload.unknown t) = t

pub record Item : Type 0 where
  pub device_id : String
  pub user_key : ℕ
  pub business_key : ℕ
  pub client_ref : String
  pub payload : Payload

pub data EnqueueStatus : Type 0 where
  queued duplicate_ack already_queued : EnqueueStatus

-- The columns of the unique index UX_sync_queue_client_ref.
abbrev pub same_ref : Item → QueueRow → Bool
same_ref i r =
    str_eq r.device_id i.device_id
    && (r.user_key == i.user_key)
    && str_eq (entity_type r.payload_json) (entity_type i.payload)
    && str_eq r.client_ref i.client_ref

abbrev pub queue_row : Item → ℕ → QueueRow
queue_row i queue_id = record {
  queue_id = queue_id;
  device_id = i.device_id;
  user_key = i.user_key;
  business_key = i.business_key;
  entity_key = 0;
  client_ref = i.client_ref;
  payload_json = i.payload;
  sync_status = pending;
  retry_count = 0;
  next_retry_at = none;
  claimed_at = none;
  claimed_by = none;
  processed_at = none;
}

abbrev pub is_synced : SyncStatus → Bool
is_synced synced = true
is_synced _ = false

abbrev pub receipt : QueueRow → EnqueueStatus × ℕ
receipt r = (if is_synced r.sync_status then duplicate_ack else already_queued, r.queue_id)

-- A violation of the index is answered with the row that is there.
abbrev pub insert_or_ack : Item → Option QueueRow → Exec (EnqueueStatus × ℕ)
insert_or_ack i (some r) = pure (receipt r)
insert_or_ack i none = do
  queue_id ← identity
  execute (λ db. record db { sync_queue = db.sync_queue ++ queue_row i queue_id ∷ [] })
  pure (queued, queue_id)

unfoldable pub enqueue_item : Item → Exec (EnqueueStatus × ℕ)
enqueue_item i = do
  existing ← query (λ db. first_row (same_ref i) db.sync_queue)
  insert_or_ack i existing

pub record ClaimOpts : Type 0 where
  pub worker_id : String
  pub business_key : ℕ
  pub max_retry : ℕ
  pub stuck_minutes : ℕ
  pub ignore_backoff : Bool

-- DATEDIFF(MINUTE, a, b): the minute boundaries between two times.
abbrev pub minutes_between : ℕ → ℕ → ℕ
minutes_between a b = b / 60000 - a / 60000

abbrev pub is_due : ℕ → Option ℕ → Bool
is_due now none = true
is_due now (some t) = leb t now

abbrev pub is_stuck : ℕ → ℕ → Option ℕ → Bool
is_stuck now stuck_minutes none = false
is_stuck now stuck_minutes (some t) = leb stuck_minutes (minutes_between t now)

abbrev pub is_runnable : ClaimOpts → ℕ → SyncStatus → QueueRow → Bool
is_runnable o now pending r =
    ltb r.retry_count o.max_retry && (o.ignore_backoff || is_due now r.next_retry_at)
is_runnable o now failed r =
    ltb r.retry_count o.max_retry && (o.ignore_backoff || is_due now r.next_retry_at)
is_runnable o now processing r = is_stuck now o.stuck_minutes r.claimed_at
is_runnable o now _ r = false

-- The WHERE of the claim.
unfoldable pub is_claimable : ClaimOpts → ℕ → QueueRow → Bool
is_claimable o now r = (r.business_key == o.business_key) && is_runnable o now r.sync_status r

abbrev pub claimed : ClaimOpts → ℕ → QueueRow → QueueRow
claimed o now r = record r {
  sync_status = processing;
  claimed_at = some now;
  claimed_by = some o.worker_id;
}

-- UPDATE … WHERE queue_id IN (SELECT TOP (n) … ORDER BY queue_id): the rows that it outputs, and
-- the table after it. Rows are in the order of their ids.
unfoldable pub claim_rows : ClaimOpts → ℕ → ℕ → List QueueRow → List QueueRow × List QueueRow
claim_rows o now zero rows = ([], rows)
claim_rows o now (suc n) [] = ([], [])
claim_rows o now (suc n) (r ∷ rs) =
    let taken = claim_rows o now n rs in
    let passed = claim_rows o now (suc n) rs in
    if is_claimable o now r
    then (claimed o now r ∷ taken.0, claimed o now r ∷ taken.1)
    else (passed.0, r ∷ passed.1)

unfoldable pub claim_batch : ClaimOpts → ℕ → Exec (List QueueRow)
claim_batch o batch_size = do
  rows ← query (λ db. (claim_rows o db.now batch_size db.sync_queue).0)
  execute (λ db. record db { sync_queue = (claim_rows o db.now batch_size db.sync_queue).1 })
  pure rows

abbrev pub update_queue : ℕ → (QueueRow → QueueRow) → Db → Db
update_queue queue_id f db = record db {
  sync_queue = update_rows (λ r. r.queue_id == queue_id) f db.sync_queue;
}

abbrev pub synced_row : ℕ → ℕ → QueueRow → QueueRow
synced_row now entity_key r = record r {
  sync_status = synced;
  processed_at = some now;
  entity_key = entity_key;
}

unfoldable pub mark_synced : ℕ → Option ℕ → Exec (Unit {0})
mark_synced queue_id entity_key =
    execute (λ db. update_queue queue_id (synced_row db.now (or_else entity_key 0)) db)

abbrev pub conflict_row : ℕ → QueueRow → QueueRow
conflict_row now r = record r { sync_status = conflict; processed_at = some now }

-- The parameters of its INSERT name `clientVersion`, which is bound nowhere: a ReferenceError
-- after the UPDATE.
unfoldable pub mark_conflict : ℕ → Exec (Unit {0})
mark_conflict queue_id = do
  execute (λ db. update_queue queue_id (conflict_row db.now) db)
  throw (reference_error "clientVersion")

abbrev pub failed_row : ℕ → Option ℕ → ℕ → QueueRow → QueueRow
failed_row max_retry next_retry_at now r = record r {
  retry_count = r.retry_count + 1;
  sync_status = if leb max_retry (r.retry_count + 1) then dead_letter else failed;
  next_retry_at = if leb max_retry (r.retry_count + 1) then none else next_retry_at;
  processed_at = some now;
}

unfoldable pub mark_failed : Worker → ℕ → ℕ → ℕ → Exec (Unit {0})
mark_failed w queue_id max_retry retry_count =
    let delay_ms = backoff_delay_ms w.backoff_base retry_count (w.random queue_id) w.random_scale in
    execute
      (λ db. update_queue queue_id (failed_row max_retry (some (db.now + delay_ms)) db.now) db)

-- The update without backoff, for instant retries.
unfoldable pub mark_failed_now : ℕ → ℕ → Exec (Unit {0})
mark_failed_now queue_id max_retry =
    execute (λ db. update_queue queue_id (failed_row max_retry none db.now) db)

pub record Summary : Type 0 where
  pub processed : ℕ
  pub synced : ℕ
  pub failed : ℕ
  pub conflicts : ℕ
  pub dead_lettered : ℕ
  pub reclaimed : ℕ

pub record QueueOpts : Type 0 where
  pub batch_size : Option ℕ
  pub max_retry : Option ℕ
  pub stuck_minutes : Option ℕ
  pub skip_backoff : Bool

abbrev pub row_actor : QueueRow → Actor
row_actor r = record {
  user_key = r.user_key;
  business_key = r.business_key;
  device_id = some r.device_id;
  conflict_override = false;
}

abbrev pub bit : Bool → ℕ
bit true = 1
bit false = 0

abbrev pub count_failed : ℕ → QueueRow → Summary → Summary
count_failed max_retry r s = record s {
  failed = s.failed + 1;
  dead_lettered = s.dead_lettered + bit (leb max_retry (r.retry_count + 1));
}

-- The catch block.
abbrev pub handle_failure : Worker → ℕ → Bool → QueueRow → Summary → Error → Exec Summary
handle_failure w max_retry skip r s (Payload.conflict message server p) = do
  mark_conflict r.queue_id
  pure (record s { conflicts = s.conflicts + 1 })
handle_failure w max_retry skip r s e = do
  if skip
      then mark_failed_now r.queue_id max_retry
      else mark_failed w r.queue_id max_retry r.retry_count
  pure (count_failed max_retry r s)

-- One round of the loop over the claimed rows.
unfoldable pub process_row : Worker → ℕ → Bool → QueueRow → Summary → Exec Summary
process_row w max_retry skip r s =
    let s' = record s {
      processed = s.processed + 1;
      reclaimed = s.reclaimed + bit (ltb 0 r.retry_count);
    } in
    try_catch
      (do
        entity_key ← process (row_actor r) r.payload_json
        mark_synced r.queue_id entity_key
        pure (record s' { synced = s'.synced + 1 }))
      (handle_failure w max_retry skip r s')

unfoldable pub process_rows : Worker → ℕ → Bool → List QueueRow → Summary → Exec Summary
process_rows w max_retry skip [] s = pure s
process_rows w max_retry skip (r ∷ rs) s =
    process_row w max_retry skip r s >>= λ s'. process_rows w max_retry skip rs s'

abbrev pub no_rows : Summary
no_rows = record {
  processed = 0;
  synced = 0;
  failed = 0;
  conflicts = 0;
  dead_lettered = 0;
  reclaimed = 0;
}

-- `given ?? await getConfig(name, fallback)`
abbrev pub or_config : Option ℕ → String → ℕ → Exec ℕ
or_config (some n) name fallback = pure n
or_config none name fallback = do v ← get_config name (pos fallback); pure (pos_part v)

unfoldable pub process_queue : Worker → ℕ → QueueOpts → Exec Summary
process_queue w business_key opts = do
  batch_size ← or_config opts.batch_size "SYNC_BATCH_SIZE" 50
  max_retry ← or_config opts.max_retry "SYNC_RETRY_MAX" w.retry_max_default
  rows ←
      claim_batch
        (record {
          worker_id = w.worker_id;
          business_key = business_key;
          max_retry = max_retry;
          stuck_minutes = or_else opts.stuck_minutes w.stuck_minutes;
          ignore_backoff = opts.skip_backoff;
        })
        batch_size
  process_rows w max_retry opts.skip_backoff rows no_rows

abbrev pub is_retryable : SyncStatus → Bool
is_retryable failed = true
is_retryable dead_letter = true
is_retryable _ = false

abbrev pub requeueable : ℕ → ℕ → QueueRow → Bool
requeueable business_key queue_id r =
    (r.queue_id == queue_id) && (r.business_key == business_key) && is_retryable r.sync_status

abbrev pub requeued : QueueRow → QueueRow
requeued r = record r { sync_status = pending; retry_count = 0; next_retry_at = none }

unfoldable pub requeue_queue_row : ℕ → ℕ → Exec Bool
requeue_queue_row business_key queue_id = do
  found ← query (λ db. is_some (first_row (requeueable business_key queue_id) db.sync_queue))
  execute (λ db. record db {
    sync_queue = update_rows (requeueable business_key queue_id) requeued db.sync_queue;
  })
  pure found
