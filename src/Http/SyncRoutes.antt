-- ===== src/Http/SyncRoutes.antt =====
-- The routes of backend/src/routes/sync.js that change state.
use renuzi_ops_platform.Prelude.{
  ℕ, ℤ, pos, ltb_ℤ, eq_ℤ, String, Bool, true, false, Option, none, some, List, [], ◌∷◌, length,
  str_eq, if◌then◌else◌, or_else,
}
use renuzi_ops_platform.Constants.{ConflictResolution}
use renuzi_ops_platform.Schema.{User}
use renuzi_ops_platform.Payload.{Payload}
use renuzi_ops_platform.Database.{Db}
use renuzi_ops_platform.Exec.{Exec, pure, query, try_catch, ◌>>=◌}
use renuzi_ops_platform.Guards.{config_value}
use renuzi_ops_platform.Queue.{
  Worker, Item, EnqueueStatus, Summary, QueueOpts, enqueue_item, process_queue, no_rows,
  requeue_queue_row,
}
use renuzi_ops_platform.Conflicts.{resolve_conflict}
use renuzi_ops_platform.Http.Message.{Response, reply, respond, actor_of}

-- An item of a batch; no payload stands for an item without entityType or payload.
pub record BatchItem : Type 0 where
  pub client_ref : String
  pub payload : Option Payload

pub data Outcome : Type 0 where
  rejected : String → Outcome
  taken : EnqueueStatus → ℕ → Outcome

-- SYNC_ENTITY_TYPES.includes(entityType)
abbrev pub is_entity_type : Payload → Bool
is_entity_type (Payload.unknown t) = false
is_entity_type (Payload.odometer_update p) = false
is_entity_type _ = true

abbrev pub item_of : String → User → String → Payload → Item
item_of device u client_ref p = record {
  device_id = device;
  user_key = u.user_key;
  business_key = u.business_key;
  client_ref = client_ref;
  payload = p;
}

abbrev pub accept_known : String → User → String → Payload → Exec Outcome
accept_known device u client_ref p =
    if is_entity_type p
    then try_catch (enqueue_item (item_of device u client_ref p) >>= λ r. pure (taken r.0 r.1))
        (λ e. pure (rejected "Queue write failed"))
    else pure (rejected "Unknown entityType ${entityType}")

abbrev pub accept_payload : String → User → String → Option Payload → Exec Outcome
accept_payload device u client_ref none =
    pure (rejected "clientRef, entityType and payload are required")
accept_payload device u client_ref (some p) =
    if str_eq client_ref ""
    then pure (rejected "clientRef, entityType and payload are required")
    else accept_known device u client_ref p

-- One round of the loop over the items.
unfoldable pub accept_item : String → User → BatchItem → Exec Outcome
accept_item device u i = accept_payload device u i.client_ref i.payload

unfoldable pub accept_items : String → User → List BatchItem → Exec (List Outcome)
accept_items device u [] = pure []
accept_items device u (i ∷ items) = do
  outcome ← accept_item device u i
  rest ← accept_items device u items
  pure (outcome ∷ rest)

-- `parseInt(config_value, 10) || 50`
abbrev pub max_batch : Db → ℤ
max_batch db = or_fifty (or_else (or_else (config_value "SYNC_BATCH_SIZE" db.config) none) (pos 0))
  where
    or_fifty : ℤ → ℤ
    or_fifty n = if eq_ℤ n (pos 0) then pos 50 else n

abbrev pub immediate : QueueOpts
immediate = record {
  batch_size = none;
  max_retry = none;
  stuck_minutes = none;
  skip_backoff = false;
}

pub record BatchAnswer : Type 0 where
  pub response : Response
  pub results : List Outcome
  pub processing : Summary

abbrev pub refused : String → BatchAnswer
refused message = record { response = reply 400 message; results = []; processing = no_rows }

unfoldable pub take_batch : Worker → String → List BatchItem → User → Exec BatchAnswer
take_batch w device items u = do
  results ← accept_items device u items
  processing ← try_catch (process_queue w u.business_key immediate) (λ e. pure no_rows)
  pure (record {
    response = reply 200 "Batch received: ${queued} queued, ${processed} processed";
    results = results;
    processing = processing;
  })

abbrev pub sized_batch : Worker → String → List BatchItem → User → Exec BatchAnswer
sized_batch w device items u = do
  limit ← query max_batch
  if ltb_ℤ limit (pos (length items))
      then pure (refused "Batch too large. Max ${maxBatchSize} items per batch.")
      else take_batch w device items u

unfoldable pub post_batch : Worker → String → List BatchItem → User → Exec BatchAnswer
post_batch w device [] u = pure (refused "deviceId and a non-empty items array are required")
post_batch w device (i ∷ items) u =
    if str_eq device ""
    then pure (refused "deviceId and a non-empty items array are required")
    else sized_batch w device (i ∷ items) u

-- catch (err) { return fail(…) }: every error is a 500.
abbrev pub or_fail : String → Exec Response → Exec Response
or_fail fallback work = try_catch work (λ e. pure (reply 500 fallback))

unfoldable pub post_process : Worker → User → Exec Response
post_process w u = or_fail "Failed to process sync queue" (
    process_queue w u.business_key immediate >>= λ s.
    pure (reply 200 "Processed ${processed} items"))

unfoldable pub put_resolution :
    ℕ → ConflictResolution → Option (Payload → Payload) → User → Exec Response
put_resolution key resolution merged u =
    respond (resolve_conflict (actor_of u none) key resolution merged)
      (λ r. reply 200 "Conflict resolved as ${resolution}; winner re-applied (${applied})")
      "Failed to resolve conflict"

abbrev pub requeue_answer : Bool → Response
requeue_answer true = reply 200 "Queue row reset to PENDING"
requeue_answer false = reply 404 "No retryable row found for that queueId"

unfoldable pub post_requeue : ℕ → User → Exec Response
post_requeue queue_id u =
    or_fail "Failed to requeue row"
      (requeue_queue_row u.business_key queue_id >>= λ reset. pure (requeue_answer reset))
