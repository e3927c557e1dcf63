-- ===== src/Queue/Kept.antt =====
-- An item that has been received stays in the queue (backend/src/services/syncQueueService.js),
-- whatever is processed.
use renuzi_ops_platform.Prelude.{
  ℕ, zero, suc, ◌≡◌, refl, sym, Bool, true, String, Option, none, some, List, [], ◌∷◌, ◌++◌, inl,
  inr, is_some, ◌==◌, first_row, update_rows, Bool-cases, if-holds,
}
use mathlib.Core.Path.{subst}
use renuzi_ops_platform.Constants.{Dataset, vehicles, routes, customers, products, dispatches, grns}
use renuzi_ops_platform.Payload
use renuzi_ops_platform.Payload.{Error}
use renuzi_ops_platform.Database.{Db, QueueRow, put_table}
use renuzi_ops_platform.Exec.{execute}
use renuzi_ops_platform.Exec.Preserves.{
  Relation, Preserves, Preserves-execute, Preserves-bind, Preserves-throw, Preserves-pure,
  Preserves-query, Preserves-identity, preserves_rules,
}
use renuzi_ops_platform.Guards.ReadOnly.{guard_rules}
use renuzi_ops_platform.ChangeLog.{bump_table}
use renuzi_ops_platform.Processors.Laws.{SameTables, ServiceLaws}
use renuzi_ops_platform.Processors.Keeps.{Preserves-process}
use renuzi_ops_platform.Queue.{
  Worker, Item, Summary, QueueOpts, ClaimOpts, same_ref, enqueue_item, insert_or_ack, is_claimable,
  claim_rows, claim_batch, update_queue, conflict_row, queue_row, mark_synced, mark_conflict,
  mark_failed, mark_failed_now, handle_failure, process_row, process_rows, or_config, process_queue,
}

-- The item is in the queue.
abbrev pub is_queued : Item → Db → Bool
is_queued i db = is_some (first_row (same_ref i) db.sync_queue)

module _ (i : Item) where
  abbrev pub keeps_item : Relation
  keeps_item = record {
    holds = λ a b. is_queued i a ≡ true → is_queued i b ≡ true;
    stays = λ db h. h;
    follows = λ f g h. g (f h);
    counts = λ db h. h;
  }

  SameTables-keeps : (a b : Db) → SameTables a b → keeps_item.holds a b
  SameTables-keeps a b (v, d, g, l, q, c, n, t, f, r, u, p) h =
      subst (λ t. is_some (first_row (same_ref i) t) ≡ true) (sym q) h

  bump-keeps : (ds : Dataset) (b k : ℕ) (db : Db) → keeps_item.holds db (bump_table ds b k db)
  unfolding bump_table put_table
  bump-keeps vehicles b k db h = h
  bump-keeps routes b k db h = h
  bump-keeps customers b k db h = h
  bump-keeps products b k db h = h
  bump-keeps dispatches b k db h = h
  bump-keeps grns b k db h = h

  item_laws : ServiceLaws keeps_item
  item_laws = record {
    facts = SameTables-keeps;
    raise_vehicles = λ p f db up h. h;
    insert_grn = λ g db h. h;
    stamp = λ s a k p n db h. h;
    bump = bump-keeps;
    log = λ ds b k op v x db h. h;
  }

  some-update_rows :
      (q : QueueRow → Bool) (f : QueueRow → QueueRow) (rows : List QueueRow)
      → ((r : QueueRow) → same_ref i (f r) ≡ same_ref i r)
      → is_some (first_row (same_ref i) (update_rows q f rows))
        ≡ is_some (first_row (same_ref i) rows)
  unfolding first_row update_rows
  some-update_rows q f [] keep = refl
  some-update_rows q f (r ∷ rows) keep =
      let kept =
        if-holds (λ z. same_ref i z ≡ same_ref i r) (q r) (f r) r (λ _. keep r) (λ _. refl) in
      elim (Bool-cases (same_ref i r)) [
        | inl t ↦ rw (kept, t) refl
        | inr t ↦ rw (kept, t) (some-update_rows q f rows keep)
      ]

  some-claim_rows :
      (o : ClaimOpts) (now n : ℕ) (rows : List QueueRow)
      → is_some (first_row (same_ref i) (claim_rows o now n rows).1)
        ≡ is_some (first_row (same_ref i) rows)
  unfolding first_row claim_rows
  some-claim_rows o now zero rows = refl
  some-claim_rows o now (suc n) [] = refl
  some-claim_rows o now (suc n) (r ∷ rows) = elim (Bool-cases (is_claimable o now r)) [
    | inl e ↦ elim (Bool-cases (same_ref i r)) [
      | inl t ↦ rw (e, t) refl
      | inr t ↦ rw (e, t) (some-claim_rows o now n rows)
    ]
    | inr e ↦ elim (Bool-cases (same_ref i r)) [
      | inl t ↦ rw (e, t) refl
      | inr t ↦ rw (e, t) (some-claim_rows o now (suc n) rows)
    ]
  ]

  update_queue-keeps :
      (k : ℕ) (f : QueueRow → QueueRow) (db : Db)
      → ((r : QueueRow) → same_ref i (f r) ≡ same_ref i r)
      → keeps_item.holds db (update_queue k f db)
  update_queue-keeps k f db keep h =
      rw (some-update_rows (λ r. r.queue_id == k) f db.sync_queue keep) h

  marks-keep :
      (k : ℕ) (f : ℕ → QueueRow → QueueRow)
      → ((n : ℕ) (r : QueueRow) → same_ref i (f n r) ≡ same_ref i r)
      → Preserves keeps_item (execute (λ db. update_queue k (f db.now) db))
  marks-keep k f keep = Preserves-execute _ (λ db. update_queue-keeps k (f db.now) db (keep db.now))

  mark_synced-keeps : (k : ℕ) (e : Option ℕ) → Preserves keeps_item (mark_synced k e)
  unfolding mark_synced
  mark_synced-keeps k e = marks-keep k _ (λ n r. refl)

  mark_conflict-keeps : (k : ℕ) → Preserves keeps_item (mark_conflict k)
  unfolding mark_conflict
  mark_conflict-keeps k =
      let marked = marks-keep k conflict_row (λ n r. refl) in
      Preserves-bind _ _ marked (λ _. Preserves-throw _)

  mark_failed-keeps : (w : Worker) (k m n : ℕ) → Preserves keeps_item (mark_failed w k m n)
  unfolding mark_failed
  mark_failed-keeps w k m n = Preserves-execute _ (λ db. update_queue-keeps k _ db (λ r. refl))

  mark_failed_now-keeps : (k m : ℕ) → Preserves keeps_item (mark_failed_now k m)
  unfolding mark_failed_now
  mark_failed_now-keeps k m = Preserves-execute _ (λ db. update_queue-keeps k _ db (λ r. refl))

  ruleset mark_rules =
      (mark_synced-keeps, mark_conflict-keeps, mark_failed-keeps, mark_failed_now-keeps)

  handle_failure-keeps :
      (w : Worker) (m : ℕ) (skip : Bool) (r : QueueRow) (s : Summary) (e : Error)
      → Preserves keeps_item (handle_failure w m skip r s e)
  handle_failure-keeps w m skip r s (Payload.conflict t v p) =
      search (mark_rules, preserves_rules) depth 12
  handle_failure-keeps w m skip r s (Payload.http c t) =
      search (mark_rules, preserves_rules) depth 12
  handle_failure-keeps w m skip r s (Payload.plain t) =
      search (mark_rules, preserves_rules) depth 12
  handle_failure-keeps w m skip r s (Payload.sql_error t) =
      search (mark_rules, preserves_rules) depth 12
  handle_failure-keeps w m skip r s (Payload.reference_error t) =
      search (mark_rules, preserves_rules) depth 12

  process_row-keeps :
      (w : Worker) (m : ℕ) (skip : Bool) (r : QueueRow) (s : Summary)
      → Preserves keeps_item (process_row w m skip r s)
  unfolding process_row
  process_row-keeps w m skip r s =
      search (Preserves-process item_laws, handle_failure-keeps, mark_rules, preserves_rules) depth
        12

  process_rows-keeps :
      (w : Worker) (m : ℕ) (skip : Bool) (rs : List QueueRow) (s : Summary)
      → Preserves keeps_item (process_rows w m skip rs s)
  unfolding process_rows
  process_rows-keeps w m skip [] s = Preserves-pure s
  process_rows-keeps w m skip (r ∷ rs) s =
      Preserves-bind _ _ (process_row-keeps w m skip r s) (process_rows-keeps w m skip rs)

  claim_batch-keeps : (o : ClaimOpts) (n : ℕ) → Preserves keeps_item (claim_batch o n)
  unfolding claim_batch
  claim_batch-keeps o n =
      let claims =
        Preserves-execute {R = keeps_item} _
          (λ db h. rw (some-claim_rows o db.now n db.sync_queue) h) in
      Preserves-bind _ _ (Preserves-query _)
        (λ rows. Preserves-bind _ _ claims (λ _. Preserves-pure rows))

  or_config-keeps :
      (given : Option ℕ) (name : String) (fallback : ℕ)
      → Preserves keeps_item (or_config given name fallback)
  or_config-keeps none name fallback = search (preserves_rules, guard_rules) depth 12
  or_config-keeps (some n) name fallback = Preserves-pure n

  pub process_queue-keeps :
      (w : Worker) (b : ℕ) (opts : QueueOpts) → Preserves keeps_item (process_queue w b opts)
  unfolding process_queue
  process_queue-keeps w b opts =
      search (or_config-keeps, claim_batch-keeps, process_rows-keeps, preserves_rules) depth 12

  some-append :
      (rows more : List QueueRow)
      → is_some (first_row (same_ref i) rows) ≡ true
      → is_some (first_row (same_ref i) (rows ++ more)) ≡ true
  unfolding first_row
  some-append [] more h = cc
  some-append (r ∷ rows) more h = elim (Bool-cases (same_ref i r)) [
    | inl t ↦ rw t refl
    | inr t ↦ rw t (some-append rows more (rw t at h))
  ]

  pub enqueue_item-keeps : (j : Item) → Preserves keeps_item (enqueue_item j)
  unfolding enqueue_item
  enqueue_item-keeps j = Preserves-bind _ _ (Preserves-query _) (insert-keeps j)
    where
      insert-keeps : (j : Item) (o : Option QueueRow) → Preserves keeps_item (insert_or_ack j o)
      insert-keeps j (some r) = Preserves-pure _
      insert-keeps j none = Preserves-bind _ _ Preserves-identity (λ k.
          Preserves-bind _ _
            (Preserves-execute _ (λ db h. some-append db.sync_queue (queue_row j k ∷ []) h))
            (λ _. Preserves-pure _))
