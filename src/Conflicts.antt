-- ===== src/Conflicts.antt =====
-- backend/src/services/conflictService.js: resolveConflict.
pub mod Outcome
use renuzi_ops_platform.Prelude.{
  ℕ, String, Bool, true, false, not, ◌&&◌, Option, none, some, List, [], ◌∷◌, ◌==◌, is_some,
  if◌then◌else◌, first_row,
}
use renuzi_ops_platform.Constants.{
  ConflictResolution, server_wins, client_wins, merged, pending, unknown,
}
use renuzi_ops_platform.Payload
use renuzi_ops_platform.Payload.{Payload, Actor, Error, http, conflict, reference_error}
use renuzi_ops_platform.Database.{Db, QueueRow, ConflictRow}
use renuzi_ops_platform.Exec.{
  Exec, pure, throw, query, throw_if, with_transaction, try_catch, ◌>>=◌, ◌>>◌,
}
use renuzi_ops_platform.Guards.{or_throw}
use renuzi_ops_platform.Processors.{process}

pub data Applied : Type 0 where
  server_kept client_applied merge_applied : Applied

pub record Resolved : Type 0 where
  pub conflict_key : ℕ
  pub resolution : ConflictResolution
  pub applied : Applied
  pub entity_key : Option ℕ

abbrev is_choice : ConflictResolution → Bool
is_choice server_wins = true
is_choice client_wins = true
is_choice merged = true
is_choice _ = false

abbrev is_merged : ConflictResolution → Bool
is_merged merged = true
is_merged _ = false

abbrev is_pending : ConflictResolution → Bool
is_pending pending = true
is_pending _ = false

-- sync_conflict_log JOIN sync_queue ON queue_id, for one conflict of one business.
abbrev join_row : ℕ → List QueueRow → Option ConflictRow → Option (ConflictRow × QueueRow)
join_row business queue none = none
join_row business queue (some c) =
    pair_with c (first_row (λ r. (r.queue_id == c.queue_id) && (r.business_key == business)) queue)
  where
    pair_with : ConflictRow → Option QueueRow → Option (ConflictRow × QueueRow)
    pair_with c none = none
    pair_with c (some r) = some (c, r)

unfoldable pub find_conflict : ℕ → ℕ → Db → Option (ConflictRow × QueueRow)
find_conflict business conflict_key db =
    join_row business db.sync_queue
      (first_row (λ c. c.conflict_key == conflict_key) db.conflict_log)

-- The parameters of its first statement name `resolutionNotes`, which is an argument of
-- resolveConflict and not of this function: a ReferenceError before anything is written.
unfoldable pub finalize_resolution : Exec (Unit {0})
finalize_resolution = with_transaction (throw (reference_error "resolutionNotes"))

-- The actor of the device, with the guards told to yield.
abbrev pub override_actor : Actor → QueueRow → Actor
override_actor actor r = record {
  user_key = r.user_key;
  business_key = actor.business_key;
  device_id = some r.device_id;
  conflict_override = true;
}

abbrev pub not_forced : Error → Error
not_forced (conflict message server p) = http 409 "Cannot apply resolved version: ${err.message}"
not_forced e = e

-- `{ ...clientPayload, ...mergedPayload }` is the merged payload as a function of the client's, of
-- the same entity type.
abbrev pub payload_to_apply : Option (Payload → Payload) → ConflictResolution → Payload → Payload
payload_to_apply (some merge) merged p = merge p
payload_to_apply _ _ p = p

-- getProcessor(conflict.entity_type) is not null.
abbrev pub has_processor : Payload → Bool
has_processor (Payload.odometer_update p) = false
has_processor (Payload.unknown t) = false
has_processor _ = true

unfoldable pub apply_winner :
    Actor → ConflictResolution → Option (Payload → Payload) → QueueRow → Exec (Option ℕ)
apply_winner actor resolution merged_payload r = do
  throw_if (not (has_processor r.payload_json))
      (http 500 "No processor available to re-apply entity type ${conflict.entity_type}")
  try_catch
      (process (override_actor actor r) (payload_to_apply merged_payload resolution r.payload_json))
      (λ e. throw (not_forced e))

abbrev is_server_wins : ConflictResolution → Bool
is_server_wins server_wins = true
is_server_wins _ = false

-- SERVER_WINS: the facts of the server stay, the payload is dropped.
unfoldable pub keep_server : ℕ → ConflictResolution → Exec Resolved
keep_server conflict_key resolution = do
  finalize_resolution
  pure (record {
    conflict_key = conflict_key;
    resolution = resolution;
    applied = server_kept;
    entity_key = none;
  })

-- CLIENT_WINS and MERGED: the winner goes through the processor.
unfoldable pub re_apply :
    Actor → ℕ → ConflictResolution → Option (Payload → Payload) → QueueRow → Exec Resolved
re_apply actor conflict_key resolution merged_payload r = do
  entity_key ← apply_winner actor resolution merged_payload r
  finalize_resolution
  pure (record {
    conflict_key = conflict_key;
    resolution = resolution;
    applied = if is_merged resolution then merge_applied else client_applied;
    entity_key = entity_key;
  })

unfoldable pub resolve_conflict :
    Actor → ℕ → ConflictResolution → Option (Payload → Payload) → Exec Resolved
resolve_conflict actor conflict_key resolution merged_payload = do
  throw_if (not (is_choice resolution))
      (http 400 "resolution must be SERVER_WINS, CLIENT_WINS or MERGED")
  throw_if (is_merged resolution && not (is_some merged_payload))
      (http 400 "mergedPayload is required for MERGED resolution")
  found ← query (find_conflict actor.business_key conflict_key)
  row ← or_throw found (http 404 "Conflict not found")
  throw_if (not (is_pending row.0.resolution))
      (http 409 "Conflict already resolved as ${conflict.current_resolution}")
  if is_server_wins resolution
      then keep_server conflict_key resolution
      else re_apply actor conflict_key resolution merged_payload row.1
