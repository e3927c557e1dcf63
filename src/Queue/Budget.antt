-- ===== src/Queue/Budget.antt =====
-- The retry counts of backend/src/services/syncQueueService.js over a whole run of processQueue:
-- how the retry_count of a row and its status go with the limit of the run.
use renuzi_ops_platform.Prelude.{
  ℕ, ◌+◌, ◌<◌, ◌≡◌, refl, sym, ap, ◌∙◌, Bool, true, false, not, ◌||◌, Option, List, [], ◌∷◌, arith,
  All, All-update_rows_to, All-both, ◌==◌, leb, or_else, if◌then◌else◌, update_rows,
}
use mathlib.Core.Path.{subst}
use renuzi_ops_platform.Constants.{
  SyncStatus, pending, processing, synced, failed, dead_letter, conflict,
}
use renuzi_ops_platform.Payload
use renuzi_ops_platform.Payload.{Error}
use renuzi_ops_platform.Database.{Db, QueueRow}
use renuzi_ops_platform.Exec.{Result, ok, err, pure}
use renuzi_ops_platform.Exec.Preserves.{holds-after}
use renuzi_ops_platform.Processors.{process}
use renuzi_ops_platform.Processors.Monotone.{process-IsLater}
use renuzi_ops_platform.Queue.{
  Worker, Summary, row_actor, synced_row, failed_row, conflict_row, process_row, process_rows,
}
use renuzi_ops_platform.Queue.Claim.{HasUniqueIds, has_id}
use renuzi_ops_platform.Queue.Failure.{
  is_conflict, next_try, process_row-synced, process_row-failed, process_row-conflict,
}

abbrev pub Within : ℕ → SyncStatus → ℕ → Type 0
Within max_retry dead_letter n = n ≡ max_retry
Within max_retry _ n = n < max_retry

-- The tries are all used up in a dead letter, and in no other row.
abbrev pub IsBudgeted : ℕ → QueueRow → Type 0
IsBudgeted max_retry r = Within max_retry r.sync_status r.retry_count

abbrev pub is_processing : SyncStatus → Bool
is_processing processing = true
is_processing _ = false

-- A row with this id is being processed.
abbrev pub IsLive : ℕ → QueueRow → Type 0
IsLive k r = (not (r.queue_id == k) || is_processing r.sync_status) ≡ true

-- The three ways in which a round marks its row.
record Marks (max_retry : ℕ) (f : QueueRow → QueueRow) : Type 0 where
  same_id : (r : QueueRow) → (f r).queue_id ≡ r.queue_id
  budget :
      (r : QueueRow)
      → is_processing r.sync_status ≡ true
      → r.retry_count < max_retry
      → IsBudgeted max_retry (f r)

Marks-synced : (m now key : ℕ) → Marks m (synced_row now key)
Marks-synced m now key = record { same_id = λ r. refl; budget = λ r p h. h }

Marks-conflict : (m now : ℕ) → Marks m (conflict_row now)
Marks-conflict m now = record { same_id = λ r. refl; budget = λ r p h. h }

failed-Within :
    (m n : ℕ) (b : Bool)
    → leb m (n + 1) ≡ b
    → n < m
    → Within m (if b then dead_letter else failed) (n + 1)
failed-Within m n true e h = ground arith
failed-Within m n false e h = ground arith

Marks-failed : (m : ℕ) (t : Option ℕ) (now : ℕ) → Marks m (failed_row m t now)
Marks-failed m t now = record {
  same_id = λ r. refl;
  budget = λ r p h. failed-Within m r.retry_count _ refl h;
}

-- What a round does to the queue, by the ways of processQueue.
record Round (max_retry k : ℕ) (before after : List QueueRow) : Type 0 where
  mark : QueueRow → QueueRow
  is_mark : Marks max_retry mark
  marked : after ≡ update_rows (λ r. r.queue_id == k) mark before

module _ (w : Worker) (max_retry : ℕ) (skip : Bool) (r : QueueRow) (s : Summary) (db : Db) where
  Round-failed :
      (e : Error)
      → (process (row_actor r) r.payload_json db).0 ≡ err e
      → is_conflict e ≡ false
      → Round max_retry r.queue_id db.sync_queue (process_row w max_retry skip r s db).1.sync_queue
  Round-failed e h c = record {
    mark = failed_row max_retry (next_try w skip r db) db.now;
    is_mark = Marks-failed max_retry (next_try w skip r db) db.now;
    marked = ap (λ x. x.1.sync_queue) (process_row-failed w max_retry skip r s db e h c);
  }

  Round-of :
      (x : Result (Option ℕ) × Db)
      → process (row_actor r) r.payload_json db ≡ x
      → Round max_retry r.queue_id db.sync_queue (process_row w max_retry skip r s db).1.sync_queue
  Round-of (ok key, db') h = record {
    mark = synced_row db'.now (or_else key 0);
    is_mark = Marks-synced max_retry db'.now (or_else key 0);
    marked =
        ap (λ x. x.1.sync_queue) (process_row-synced w max_retry skip r s db db' key h)
        ∙ ap (update_rows (λ t. t.queue_id == r.queue_id) (synced_row db'.now (or_else key 0))) (
            sym (ap (λ x. x.1.sync_queue) h)
            ∙ (process-IsLater (row_actor r) r.payload_json db).same_queue);
  }
  Round-of (err (Payload.conflict m v p), db') h = record {
    mark = conflict_row db.now;
    is_mark = Marks-conflict max_retry db.now;
    marked =
        ap (λ x. x.1.sync_queue)
          (process_row-conflict w max_retry skip r s db m v p (ap (λ x. x.0) h));
  }
  Round-of (err (Payload.http c m), db') h = Round-failed _ (ap (λ x. x.0) h) refl
  Round-of (err (Payload.plain m), db') h = Round-failed _ (ap (λ x. x.0) h) refl
  Round-of (err (Payload.sql_error m), db') h = Round-failed _ (ap (λ x. x.0) h) refl
  Round-of (err (Payload.reference_error m), db') h = Round-failed _ (ap (λ x. x.0) h) refl

module _ (max_retry k : ℕ) {before after : List QueueRow} (R : Round max_retry k before after) where
  live_mark :
      (t : QueueRow)
      → (t.queue_id == k) ≡ true
      → IsBudgeted max_retry t × IsLive k t
      → IsBudgeted max_retry (R.mark t)
  live_mark t e h =
      R.is_mark.budget t (ground arith) (live_below t.sync_status t.retry_count (ground arith) h.0)
    where
      live_below :
          (s : SyncStatus) (n : ℕ) → is_processing s ≡ true → Within max_retry s n → n < max_retry
      live_below processing n p b = b
      live_below pending n p b = cc
      live_below synced n p b = cc
      live_below failed n p b = cc
      live_below conflict n p b = cc
      live_below dead_letter n p b = cc

  budget_kept :
      All (IsBudgeted max_retry) before → All (IsLive k) before → All (IsBudgeted max_retry) after
  budget_kept hb hl = subst (All (IsBudgeted max_retry)) (sym R.marked) (
      All-update_rows_to (λ t. IsBudgeted max_retry t × IsLive k t) (IsBudgeted max_retry) _ R.mark
        before live_mark (λ t e h. h.0) (All-both _ _ before hb hl))

  IsLive-other :
      (j : ℕ) (t : QueueRow) → (k == j) ≡ false → (t.queue_id == k) ≡ true → IsLive j (R.mark t)
  IsLive-other j t apart e = let same = R.is_mark.same_id t in ground arith

  IsLive-kept : (j : ℕ) → (k == j) ≡ false → All (IsLive j) before → All (IsLive j) after
  IsLive-kept j apart h = subst (All (IsLive j)) (sym R.marked) (
      All-update_rows_to (IsLive j) (IsLive j) _ R.mark before (λ t e _. IsLive-other j t apart e)
        (λ t e l. l) h)

-- The rows still to do are live.
abbrev pub InHand : List QueueRow → List QueueRow → Type 0
InHand todo table = All (λ r. All (IsLive r.queue_id) table) todo

InHand-kept :
    (max_retry k : ℕ) {before after : List QueueRow} (R : Round max_retry k before after)
    → (todo : List QueueRow) → has_id k todo ≡ false
    → InHand todo before
    → InHand todo after
unfolding has_id
InHand-kept max_retry k R [] h l = tt
InHand-kept max_retry k R (r ∷ todo) h l = (
  IsLive-kept max_retry k R r.queue_id (ground arith) l.0,
  InHand-kept max_retry k R todo (ground arith) l.1,
)

pub process_rows-budget :
    (w : Worker) (max_retry : ℕ) (skip : Bool) (todo : List QueueRow) (s : Summary) (db : Db)
    → HasUniqueIds todo
    → All (IsBudgeted max_retry) db.sync_queue
    → InHand todo db.sync_queue
    → All (IsBudgeted max_retry) (process_rows w max_retry skip todo s db).1.sync_queue
unfolding process_rows pure
process_rows-budget w max_retry skip [] s db u b l = b
process_rows-budget w max_retry skip (r ∷ todo) s db u b l =
    let round = Round-of w max_retry skip r s db _ refl in
    let b' = budget_kept max_retry r.queue_id round b l.0 in
    holds-after (λ d. All (IsBudgeted max_retry) d.sync_queue) (process_row w max_retry skip r s)
      (λ s'. process_rows w max_retry skip todo s') db b'
      (λ s'.
        process_rows-budget w max_retry skip todo s' _ u.1 b'
          (InHand-kept max_retry r.queue_id round todo u.0 l.1))
