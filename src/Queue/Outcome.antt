-- ===== src/Queue/Outcome.antt =====
-- One round of the loop of processQueue (backend/src/services/syncQueueService.js), by what the
-- processor answers: the row of the queue, the summary and the rest of the database.
use renuzi_ops_platform.Prelude.{
  ℕ, ◌+◌, ◌≡◌, ◌≢◌, ◌≤◌, ◌<◌, ◌⊎◌, refl, ap, Bool, false, Option, none, some, List, [], ◌∷◌, inl,
  inr, arith, or_else, ltb, leb, ◌==◌, update_rows, Bool-cases,
}
use renuzi_ops_platform.Constants.{synced, failed, dead_letter, conflict}
use renuzi_ops_platform.Payload
use renuzi_ops_platform.Payload.{Error, reference_error}
use renuzi_ops_platform.Database.{Db, QueueRow}
use renuzi_ops_platform.Exec.{Result, ok, err}
use renuzi_ops_platform.Processors.{process}
use renuzi_ops_platform.Queue.{
  Worker, Summary, row_actor, synced_row, failed_row, conflict_row, process_row, update_queue,
  count_failed,
}
use renuzi_ops_platform.Queue.Failure.{
  counted, is_conflict, next_try, process_row-synced, process_row-failed, process_row-conflict,
}

-- The tables hold the same rows in the same order, but for those with the id.
abbrev pub Rewrites : ℕ → (QueueRow → QueueRow → Type 0) → List QueueRow → List QueueRow → Type 0
Rewrites k P [] [] = Unit {0}
Rewrites k P (x ∷ xs) (y ∷ ys) =
    (((x.queue_id ≡ k) × P x y) ⊎ ((x.queue_id ≢ k) × (y ≡ x))) × Rewrites k P xs ys
Rewrites k P _ _ = ⊥

-- How often the summary has counted a row that was tried before.
abbrev pub Reclaims : QueueRow → Summary → ℕ → Type 0
Reclaims r s n =
    ((1 ≤ r.retry_count) × (n ≡ s.reclaimed + 1)) ⊎ ((r.retry_count ≡ 0) × (n ≡ s.reclaimed))

-- The row is done, with the key that the processor has returned, or 0.
abbrev pub IsDone : ℕ → Option ℕ → QueueRow → QueueRow → Type 0
IsDone now key x y =
    y ≡ record x { sync_status = synced; processed_at = some now; entity_key = or_else key 0 }

abbrev pub IsInConflict : ℕ → QueueRow → QueueRow → Type 0
IsInConflict now x y = y ≡ record x { sync_status = conflict; processed_at = some now }

-- The row has failed once more: it waits for its next try, or it was the last one.
abbrev pub HasFailed : ℕ → Option ℕ → ℕ → QueueRow → QueueRow → Type 0
HasFailed max_retry at now x y =
    ((x.retry_count + 1 < max_retry)
      × (y ≡ record x {
        retry_count = x.retry_count + 1;
        sync_status = failed;
        next_retry_at = at;
        processed_at = some now;
      }))
    ⊎ ((max_retry ≤ x.retry_count + 1)
        × (y ≡ record x {
          retry_count = x.retry_count + 1;
          sync_status = dead_letter;
          next_retry_at = none;
          processed_at = some now;
        }))

-- The queue has changed in the row with the id, and nothing else has.
abbrev pub OnlyRow : ℕ → (QueueRow → QueueRow → Type 0) → Db → Db → Type 0
OnlyRow k P before after =
    (queue : List QueueRow) × Rewrites k P before.sync_queue queue
    × (after ≡ record before { sync_queue = queue })

-- The dead letters that a failure adds to the summary.
abbrev pub Buries : ℕ → QueueRow → Summary → ℕ → Type 0
Buries max_retry r s n =
    ((r.retry_count + 1 < max_retry) × (n ≡ s.dead_lettered))
    ⊎ ((max_retry ≤ r.retry_count + 1) × (n ≡ s.dead_lettered + 1))

module _ (w : Worker) (max_retry : ℕ) (skip : Bool) (r : QueueRow) (s : Summary) (db : Db) where
  abbrev pub HasSynced : Option ℕ → Db → Result Summary × Db → Type 0
  HasSynced key written x =
      (reclaimed : ℕ) × Reclaims r s reclaimed
      × (x.0
          ≡ ok (record s {
            processed = s.processed + 1;
            synced = s.synced + 1;
            reclaimed = reclaimed;
          }))
      × OnlyRow r.queue_id (IsDone written.now key) written x.1

  abbrev pub HasRetried : Result Summary × Db → Type 0
  HasRetried x =
      (reclaimed : ℕ) × (dead : ℕ) × Reclaims r s reclaimed
      × Buries max_retry r s dead
      × (x.0
          ≡ ok (record s {
            processed = s.processed + 1;
            failed = s.failed + 1;
            dead_lettered = dead;
            reclaimed = reclaimed;
          }))
      × OnlyRow r.queue_id (HasFailed max_retry (next_try w skip r db) db.now) db x.1

  -- What a round has to give, by the answer of the processor.
  abbrev pub IsOutcome : Result (Option ℕ) × Db → Result Summary × Db → Type 0
  IsOutcome (ok key, written) x = HasSynced key written x
  IsOutcome (err (Payload.conflict m v p), _) x =
      (x.0 ≡ err (reference_error "clientVersion"))
      × OnlyRow r.queue_id (IsInConflict db.now) db x.1
  IsOutcome (err _, _) x = HasRetried x

Rewrites-update_rows :
    (k : ℕ) (P : QueueRow → QueueRow → Type 0) (f : QueueRow → QueueRow) (xs : List QueueRow)
    → ((x : QueueRow) → P x (f x))
    → Rewrites k P xs (update_rows (λ t. t.queue_id == k) f xs)
unfolding update_rows
Rewrites-update_rows k P f [] h = tt
Rewrites-update_rows k P f (x ∷ xs) h = (
  elim (Bool-cases (x.queue_id == k)) [
    | inl e ↦ rw e (inl ((ground arith), h x))
    | inr e ↦ rw e (inr ((λ same. ground arith), refl))
  ],
  Rewrites-update_rows k P f xs h,
)

OnlyRow-of :
    (k : ℕ) (P : QueueRow → QueueRow → Type 0) (f : QueueRow → QueueRow) (before after : Db)
    → ((x : QueueRow) → P x (f x))
    → after ≡ update_queue k f before
    → OnlyRow k P before after
OnlyRow-of k P f before after h e = (
  update_rows (λ t. t.queue_id == k) f before.sync_queue,
  Rewrites-update_rows k P f before.sync_queue h,
  e,
)

failed_row-HasFailed :
    (max_retry : ℕ) (at : Option ℕ) (now : ℕ) (x : QueueRow)
    → HasFailed max_retry at now x (failed_row max_retry at now x)
failed_row-HasFailed max_retry at now x = elim (Bool-cases (leb max_retry (x.retry_count + 1))) [
  | inl e ↦ inr (ground arith, rw e refl)
  | inr e ↦ inl (ground arith, rw e refl)
]

module _ (w : Worker) (max_retry : ℕ) (skip : Bool) (r : QueueRow) (s : Summary) (db : Db) where
  counted-Reclaims : Reclaims r s (counted r s).reclaimed
  counted-Reclaims = elim (Bool-cases (ltb 0 r.retry_count)) [
    | inl e ↦ inl (ground arith, rw e refl)
    | inr e ↦ inr (ground arith, rw e (omega arith))
  ]

  count_failed-Buries : Buries max_retry r s (count_failed max_retry r (counted r s)).dead_lettered
  count_failed-Buries = elim (Bool-cases (leb max_retry (r.retry_count + 1))) [
    | inl e ↦ inr (ground arith, rw e refl)
    | inr e ↦ inl (ground arith, rw e (omega arith))
  ]

  failed_round :
      (e : Error)
      → (process (row_actor r) r.payload_json db).0 ≡ err e
      → is_conflict e ≡ false
      → HasRetried w max_retry skip r s db (process_row w max_retry skip r s db)
  failed_round e h c =
      let all = process_row-failed w max_retry skip r s db e h c in
      (
        (counted r s).reclaimed,
        (count_failed max_retry r (counted r s)).dead_lettered,
        counted-Reclaims,
        count_failed-Buries,
        ap (λ x. x.0) all,
        OnlyRow-of r.queue_id _ (failed_row max_retry (next_try w skip r db) db.now) db _
            (failed_row-HasFailed max_retry (next_try w skip r db) db.now) (ap (λ x. x.1) all),
      )

  round :
      (x : Result (Option ℕ) × Db)
      → process (row_actor r) r.payload_json db ≡ x
      → IsOutcome w max_retry skip r s db x (process_row w max_retry skip r s db)
  round (ok key, written) h =
      let all = process_row-synced w max_retry skip r s db written key h in
      (
        (counted r s).reclaimed,
        counted-Reclaims,
        ap (λ x. x.0) all,
        OnlyRow-of r.queue_id (IsDone written.now key) (synced_row written.now (or_else key 0))
            written _ (λ x. refl) (ap (λ x. x.1) all),
      )
  round (err (Payload.conflict m v p), after) h =
      let all = process_row-conflict w max_retry skip r s db m v p (ap (λ x. x.0) h) in
      (
        ap (λ x. x.0) all,
        OnlyRow-of r.queue_id (IsInConflict db.now) (conflict_row db.now) db _ (λ x. refl)
            (ap (λ x. x.1) all),
      )
  round (err (Payload.http c m), after) h = failed_round _ (ap (λ x. x.0) h) refl
  round (err (Payload.plain m), after) h = failed_round _ (ap (λ x. x.0) h) refl
  round (err (Payload.sql_error m), after) h = failed_round _ (ap (λ x. x.0) h) refl
  round (err (Payload.reference_error m), after) h = failed_round _ (ap (λ x. x.0) h) refl

-- One round of the loop over the queue, by the answer of the processor. If it succeeds, the
-- summary counts a processed and a synced row, and the rows of the queue with the id of the item
-- become SYNCED, processed now and with the key that the processor returned, or 0 if it returned
-- none, on top of what the processor wrote. If it reports a conflict, these rows become CONFLICT,
-- processed now, nothing else changes, and the round throws the ReferenceError on clientVersion.
-- If it throws anything else, the summary counts a processed and a failed row, and these rows
-- have one more retry, processed now: they are FAILED, due after the backoff, or with no time if
-- the run skips it, while the retries are below the limit, and DEAD_LETTER, with no next try,
-- once they reach it; the summary counts the dead letter by the retries of the item; nothing else
-- changes. A round that does not throw counts the item as reclaimed if it had a retry before.
pub process_row-IsOutcome :
    (w : Worker) (max_retry : ℕ) (skip : Bool) (r : QueueRow) (s : Summary) (db : Db)
    → IsOutcome w max_retry skip r s db
        (process (row_actor r) r.payload_json db)
        (process_row w max_retry skip r s db)
process_row-IsOutcome w max_retry skip r s db = round w max_retry skip r s db _ refl
