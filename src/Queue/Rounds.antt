-- ===== src/Queue/Rounds.antt =====
-- The loop of processQueue of backend/src/services/syncQueueService.js makes no row due.
use renuzi_ops_platform.Prelude.{
  ℕ, suc, ◌+◌, ◌≤◌, ◌<◌, ◌≡◌, refl, sym, ap, ◌∙◌, false, Option, some, List, [], ◌∷◌, arith, ◌==◌,
  leb, or_else, length, update_rows, Bool-cases, inl, inr,
}
use mathlib.Core.Path.{subst}
use native.Mathlib.Nat.{le_trans}
use renuzi_ops_platform.Payload
use renuzi_ops_platform.Payload.{Error}
use renuzi_ops_platform.Database.{Db, QueueRow}
use renuzi_ops_platform.Exec.{Result, ok, err, pure, continue, ◌>>=◌}
use renuzi_ops_platform.Processors.{process}
use renuzi_ops_platform.Processors.Monotone.{process-IsLater}
use renuzi_ops_platform.Processors.Clock.{SameClock, process-SameClock}
use renuzi_ops_platform.Backoff.{backoff_delay_ms}
use renuzi_ops_platform.Queue.{
  Worker, ClaimOpts, Summary, row_actor, is_claimable, synced_row, failed_row, conflict_row,
  process_row, process_rows,
}
use renuzi_ops_platform.Queue.Progress.{due_rows, count-update_rows-le}
use renuzi_ops_platform.Queue.Failure.{
  is_conflict, process_row-synced, process_row-failed, process_row-conflict,
}

-- Every failure is put off by some time.
abbrev pub Waits : Worker → Type 0
Waits w = (retries k : ℕ) → 0 < backoff_delay_ms w.backoff_base retries (w.random k) w.random_scale

-- What a run may do to the database: the clock stands, and no row becomes due.
abbrev pub Passes : ClaimOpts → Db → Db → Type 0
Passes o before after =
    SameClock before after
    × (due_rows o before.now after.sync_queue ≤ due_rows o before.now before.sync_queue)

abbrev pub HasProcessed : ℕ → Result Summary → Type 0
HasProcessed n (ok s) = s.processed ≡ n
HasProcessed n (err e) = Unit

abbrev pub Advances : ClaimOpts → Db → ℕ → Result Summary × Db → Type 0
Advances o db n x = Passes o db x.1 × HasProcessed n x.0

module _ (o : ClaimOpts) where
  synced_not_due : (now t key : ℕ) (r : QueueRow) → is_claimable o now (synced_row t key r) ≡ false
  unfolding is_claimable
  synced_not_due now t key r = ground arith

  conflict_not_due : (now t : ℕ) (r : QueueRow) → is_claimable o now (conflict_row t r) ≡ false
  unfolding is_claimable
  conflict_not_due now t r = ground arith

  failed_not_due :
      (max_retry now delay : ℕ) (r : QueueRow)
      → o.ignore_backoff ≡ false
      → 0 < delay
      → is_claimable o now (failed_row max_retry (some (now + delay)) now r) ≡ false
  unfolding is_claimable
  failed_not_due max_retry now delay r strict h =
      elim (Bool-cases (leb max_retry (r.retry_count + 1))) [
        | inl dead ↦ rw dead (ground arith)
        | inr more ↦ rw more (ground arith)
      ]

  Passes-trans : (a b c : Db) → Passes o a b → Passes o b c → Passes o a c
  Passes-trans a b c ((t, f), h) ((t', f'), h') = (
    (t' ∙ t, f' ∙ f),
    le_trans (subst (λ n. due_rows o n c.sync_queue ≤ due_rows o n b.sync_queue) t h') h,
  )

  module _ (w : Worker) (max_retry : ℕ) (r : QueueRow) (s : Summary) (db : Db)
      (strict : o.ignore_backoff ≡ false) (waits : Waits w) where
    Advances-failed :
        (e : Error)
        → (process (row_actor r) r.payload_json db).0 ≡ err e
        → is_conflict e ≡ false
        → Advances o db (s.processed + 1) (process_row w max_retry false r s db)
    Advances-failed e h c =
        let delay =
          backoff_delay_ms w.backoff_base r.retry_count (w.random r.queue_id) w.random_scale in
        subst (Advances o db (s.processed + 1))
          (sym (process_row-failed w max_retry false r s db e h c))
          (
            (
              (refl, refl),
              count-update_rows-le (is_claimable o db.now) (λ t. t.queue_id == r.queue_id) _
                  db.sync_queue
                  (λ x.
                    failed_not_due max_retry db.now delay x strict
                      (waits r.retry_count r.queue_id)),
            ),
            refl,
          )

    Advances-row :
        (x : Result (Option ℕ) × Db)
        → process (row_actor r) r.payload_json db ≡ x
        → Advances o db (s.processed + 1) (process_row w max_retry false r s db)
    Advances-row (ok key, db') h =
        let clock : SameClock db db' =
          subst (λ y. SameClock db y.1) h (process-SameClock (row_actor r) r.payload_json db) in
        let queue : db'.sync_queue ≡ db.sync_queue =
          sym (ap (λ y. y.1.sync_queue) h)
          ∙ (process-IsLater (row_actor r) r.payload_json db).same_queue in
        let mark = synced_row db'.now (or_else key 0) in
        subst (Advances o db (s.processed + 1))
          (sym (process_row-synced w max_retry false r s db db' key h))
          (
            (
              clock,
              subst
                  (λ q.
                    due_rows o db.now (update_rows (λ t. t.queue_id == r.queue_id) mark q)
                    ≤ due_rows o db.now db.sync_queue)
                  (sym queue)
                  (count-update_rows-le (is_claimable o db.now) (λ t. t.queue_id == r.queue_id) mark
                    db.sync_queue (synced_not_due db.now db'.now (or_else key 0))),
            ),
            refl,
          )
    Advances-row (err (Payload.conflict m v p), db') h =
        subst (Advances o db (s.processed + 1))
          (sym (process_row-conflict w max_retry false r s db m v p (ap (λ x. x.0) h)))
          (
            (
              (refl, refl),
              count-update_rows-le (is_claimable o db.now) (λ t. t.queue_id == r.queue_id) _
                  db.sync_queue (conflict_not_due db.now db.now),
            ),
            tt,
          )
    Advances-row (err (Payload.http c m), db') h = Advances-failed _ (ap (λ x. x.0) h) refl
    Advances-row (err (Payload.plain m), db') h = Advances-failed _ (ap (λ x. x.0) h) refl
    Advances-row (err (Payload.sql_error m), db') h = Advances-failed _ (ap (λ x. x.0) h) refl
    Advances-row (err (Payload.reference_error m), db') h = Advances-failed _ (ap (λ x. x.0) h) refl

module _ (o : ClaimOpts) (w : Worker) (max_retry : ℕ) (strict : o.ignore_backoff ≡ false)
    (waits : Waits w) where
  Advances-then :
      (n : ℕ) (a b : Db) (x : Result Summary × Db)
      → Passes o a b
      → Advances o b n x
      → Advances o a n x
  Advances-then n a b x first (rest, count) = (Passes-trans o a b x.1 first rest, count)

  -- The rest of the loop, after a round.
  Advances-continue :
      (todo : List QueueRow) (n : ℕ) (db : Db) (x : Result Summary × Db)
      → ((s : Summary) (d : Db)
          → Advances o d (s.processed + length todo) (process_rows w max_retry false todo s d))
      → Advances o db (n + 1) x
      → Advances o db
          (n + suc (length todo))
          (continue x.0 (λ s'. process_rows w max_retry false todo s') x.1)
  Advances-continue todo n db (err e, d) rest (pass, count) = (pass, tt)
  Advances-continue todo n db (ok s, d) rest (pass, count) =
      let total : s.processed + length todo ≡ n + suc (length todo) = omega arith in
      subst (λ m. Advances o db m (process_rows w max_retry false todo s d)) total
        (Advances-then _ db d (process_rows w max_retry false todo s d) pass (rest s d))

  -- The loop over the claimed rows counts every row, unless it is left by an exception, and makes no
  -- row due.
  pub Advances-rows :
      (todo : List QueueRow) (s : Summary) (db : Db)
      → Advances o db (s.processed + length todo) (process_rows w max_retry false todo s db)
  unfolding process_rows pure ◌>>=◌
  Advances-rows [] s db = ((((refl, refl), omega arith)), omega arith)
  Advances-rows (r ∷ todo) s db =
      Advances-continue todo s.processed db (process_row w max_retry false r s db)
        (Advances-rows todo) (Advances-row o w max_retry r s db strict waits _ refl)
