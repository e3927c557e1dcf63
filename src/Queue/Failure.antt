-- ===== src/Queue/Failure.antt =====
-- What one round of the loop of processQueue does on each of its three ways, and what an enqueue
-- promises to a device that sends twice (backend/src/services/syncQueueService.js).
use renuzi_ops_platform.Prelude.{
  String, ℕ, ◌+◌, ◌≡◌, refl, sym, ap, ◌∙◌, Bool, true, false, Option, none, some, [], ◌∷◌, ◌++◌,
  ltb, or_else, arith, if◌then◌else◌, count_rows, count_rows-append, count_rows-none,
  count_rows-some, count_rows-one, ◌≤◌, first_row, first_row-append_none, first_row-head,
  Option-cases, inl, inr, str_eq_refl, ==-refl,
}
use renuzi_ops_platform.Payload
use renuzi_ops_platform.Payload.{Payload, Actor, Error, reference_error, ServerVersion}
use renuzi_ops_platform.Database.{Db, QueueRow}
use renuzi_ops_platform.Exec.{Result, ok, err, pure, ◌>>=◌, ◌>>◌}
use renuzi_ops_platform.Processors.{process}
use renuzi_ops_platform.Processors.Atomicity.{process-IsAtomic}
use renuzi_ops_platform.Backoff.{backoff_delay_ms}
use renuzi_ops_platform.Queue.{
  entity_type, Worker, Item, EnqueueStatus, Summary, row_actor, bit, count_failed, synced_row,
  failed_row, conflict_row, update_queue, mark_synced, mark_failed, mark_failed_now, mark_conflict,
  handle_failure, process_row, enqueue_item, same_ref, queue_row, receipt, queued,
}

-- The summary that a round starts from.
abbrev pub counted : QueueRow → Summary → Summary
counted r s = record s {
  processed = s.processed + 1;
  reclaimed = s.reclaimed + bit (ltb 0 r.retry_count);
}

abbrev pub is_conflict : Error → Bool
is_conflict (Payload.conflict m v p) = true
is_conflict _ = false

-- The time of the next try, or none where retries are instant.
abbrev pub next_try : Worker → Bool → QueueRow → Db → Option ℕ
next_try w true r db = none
next_try w false r db =
    some
      (db.now + backoff_delay_ms w.backoff_base r.retry_count (w.random r.queue_id) w.random_scale)

failed_write :
    (w : Worker) (max_retry : ℕ) (skip : Bool) (r : QueueRow) (s : Summary) (db : Db)
    → (do
      if skip
          then mark_failed_now r.queue_id max_retry
          else mark_failed w r.queue_id max_retry r.retry_count
      pure (count_failed max_retry r s))
        db
      ≡ (
        ok (count_failed max_retry r s),
        update_queue r.queue_id (failed_row max_retry (next_try w skip r db) db.now) db,
      )
unfolding mark_failed mark_failed_now ◌>>=◌
failed_write w max_retry true r s db = refl
failed_write w max_retry false r s db = refl

handle_failure-failed :
    (w : Worker) (max_retry : ℕ) (skip : Bool) (r : QueueRow) (s : Summary) (db : Db) (e : Error)
    → is_conflict e ≡ false
    → handle_failure w max_retry skip r s e db ≡ (
      ok (count_failed max_retry r s),
      update_queue r.queue_id (failed_row max_retry (next_try w skip r db) db.now) db,
    )
handle_failure-failed w max_retry skip r s db (Payload.conflict m v p) h = cc
handle_failure-failed w max_retry skip r s db (Payload.http c m) h =
    failed_write w max_retry skip r s db
handle_failure-failed w max_retry skip r s db (Payload.plain m) h =
    failed_write w max_retry skip r s db
handle_failure-failed w max_retry skip r s db (Payload.sql_error m) h =
    failed_write w max_retry skip r s db
handle_failure-failed w max_retry skip r s db (Payload.reference_error m) h =
    failed_write w max_retry skip r s db

module _ (w : Worker) (max_retry : ℕ) (skip : Bool) (r : QueueRow) (s : Summary) where
  -- A queued item whose processor succeeds ends as SYNCED with the key that the processor returned,
  -- on top of what the processor wrote.
  pub process_row-synced :
      (db db' : Db) (key : Option ℕ)
      → process (row_actor r) r.payload_json db ≡ (ok key, db')
      → process_row w max_retry skip r s db ≡ (
        ok (record (counted r s) { synced = s.synced + 1 }),
        update_queue r.queue_id (synced_row db'.now (or_else key 0)) db',
      )
  unfolding process_row mark_synced ◌>>=◌
  process_row-synced db db' key h = rw h refl

  -- A queued item whose processor reports a conflict ends as CONFLICT in the queue and nothing else
  -- changes, no conflict is logged, and the ReferenceError of markConflict leaves the loop.
  pub process_row-conflict :
      (db : Db) (m : String) (v : ServerVersion) (p : Payload)
      → (process (row_actor r) r.payload_json db).0 ≡ err (Payload.conflict m v p)
      → process_row w max_retry skip r s db
        ≡ (err (reference_error "clientVersion"), update_queue r.queue_id (conflict_row db.now) db)
  unfolding process_row mark_conflict ◌>>=◌
  process_row-conflict db m v p h =
      let same = (process-IsAtomic (row_actor r) r.payload_json).at db _ h in
      let all : process (row_actor r) r.payload_json db ≡ (err (Payload.conflict m v p), db) = cc in
      rw all refl

  -- A queued item whose processor throws anything but a conflict changes only its own row of the
  -- queue: one more try, FAILED with its backoff or DEAD_LETTER if the budget is used up, and the
  -- loop goes on.
  pub process_row-failed :
      (db : Db) (e : Error)
      → (process (row_actor r) r.payload_json db).0 ≡ err e
      → is_conflict e ≡ false
      → process_row w max_retry skip r s db ≡ (
        ok (count_failed max_retry r (counted r s)),
        update_queue r.queue_id (failed_row max_retry (next_try w skip r db) db.now) db,
      )
  unfolding process_row ◌>>=◌
  process_row-failed db e h c =
      let same = (process-IsAtomic (row_actor r) r.payload_json).at db _ h in
      let all : process (row_actor r) r.payload_json db ≡ (err e, db) = cc in
      rw all (handle_failure-failed w max_retry skip r (counted r s) db e c)

abbrev pub queue_id_of : Result (EnqueueStatus × ℕ) → Option ℕ
queue_id_of (ok (s, k)) = some k
queue_id_of (err e) = none

same_ref-queue_row : (i : Item) (k : ℕ) → same_ref i (queue_row i k) ≡ true
same_ref-queue_row i k = rw (str_eq_refl i.device_id) (
    rw (==-refl i.user_key)
      (rw (str_eq_refl (entity_type i.payload)) (rw (str_eq_refl i.client_ref) refl)))

module _ (i : Item) (db : Db) where
  enqueue_item-known :
      (r : QueueRow)
      → first_row (same_ref i) db.sync_queue ≡ some r
      → enqueue_item i db ≡ (ok (receipt r), db)
  unfolding enqueue_item ◌>>=◌
  enqueue_item-known r h = rw h refl

  enqueue_item-new :
      first_row (same_ref i) db.sync_queue ≡ none
      → enqueue_item i db ≡ (
        ok (queued, db.next_identity),
        record db {
          next_identity = db.next_identity + 1;
          sync_queue = db.sync_queue ++ queue_row i db.next_identity ∷ [];
        },
      )
  unfolding enqueue_item ◌>>=◌
  enqueue_item-new h = rw h refl

  -- The row that holds the item after an enqueue.
  pub enqueued :
      (r : QueueRow) × ((first_row (same_ref i) (enqueue_item i db).1.sync_queue ≡ some r)
        × (queue_id_of (enqueue_item i db).0 ≡ some r.queue_id))
  enqueued = elim (Option-cases (first_row (same_ref i) db.sync_queue)) [
    | inl none_yet ↦
        let row = queue_row i db.next_identity in
        let new = enqueue_item-new none_yet in
        (
          row,
          (
            ap (λ x. first_row (same_ref i) x.1.sync_queue) new
                ∙ first_row-append_none (same_ref i) db.sync_queue (row ∷ []) none_yet
                ∙ first_row-head (same_ref i) row [] (same_ref-queue_row i db.next_identity),
            ap (λ x. queue_id_of x.0) new,
          ),
        )
    | inr (r, found) ↦
        let known = enqueue_item-known r found in
        (
          r,
          (
            ap (λ x. first_row (same_ref i) x.1.sync_queue) known ∙ found,
            ap (λ x. queue_id_of x.0) known,
          ),
        )
  ]

-- Enqueueing an item again writes nothing and answers with the queue id of the first time.
pub enqueue_item-twice :
    (i : Item) (db : Db)
    → ((enqueue_item i (enqueue_item i db).1).1 ≡ (enqueue_item i db).1)
      × (queue_id_of (enqueue_item i (enqueue_item i db).1).0 ≡ queue_id_of (enqueue_item i db).0)
enqueue_item-twice i db =
    let (r, (found, id)) = enqueued i db in
    let again = enqueue_item-known i (enqueue_item i db).1 r found in
    (ap (λ x. x.1) again, ap (λ x. queue_id_of x.0) again ∙ sym id)

-- An item that is in the queue at most once, by device, user, entity type and client reference,
-- is in it exactly once after it is enqueued.
pub enqueue_item_unique :
    (i : Item) (db : Db)
    → count_rows (same_ref i) db.sync_queue ≤ 1
    → count_rows (same_ref i) (enqueue_item i db).1.sync_queue ≡ 1
enqueue_item_unique i db h = elim (Option-cases (first_row (same_ref i) db.sync_queue)) [
  | inl none_yet ↦
      let row = queue_row i db.next_identity in
      let before = count_rows-none (same_ref i) db.sync_queue none_yet in
      let one = count_rows-one (same_ref i) row (same_ref-queue_row i db.next_identity) in
      let both = count_rows-append (same_ref i) db.sync_queue (row ∷ []) in
      ap (λ x. count_rows (same_ref i) x.1.sync_queue) (enqueue_item-new i db none_yet)
      ∙ (omega arith)
  | inr (r, found) ↦
      ap (λ x. count_rows (same_ref i) x.1.sync_queue) (enqueue_item-known i db r found)
      ∙ (let some_row = count_rows-some (same_ref i) db.sync_queue found in omega arith)
]
