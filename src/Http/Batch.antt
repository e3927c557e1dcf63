-- ===== src/Http/Batch.antt =====
-- A batch that a device sends (POST /api/sync/batch of backend/src/routes/sync.js) is received in
-- full.
use renuzi_ops_platform.Prelude.{
  ◌≡◌, ap, pos, ltb_ℤ, String, Bool, true, false, Option, none, some, List, [], ◌∷◌, ◌++◌, length,
  str_eq, if◌then◌else◌, is_some, if-holds,
}
use renuzi_ops_platform.Schema.{User}
use renuzi_ops_platform.Payload.{Payload, Error}
use renuzi_ops_platform.Database.{Db}
use renuzi_ops_platform.Exec.{Exec, Result, ok, err, pure, query, try_catch, recover, ◌>>=◌}
use renuzi_ops_platform.Exec.Preserves.{
  Preserves, Preserves-bind, Preserves-pure, Preserves-try_catch, holds-after, preserves_rules,
}
use renuzi_ops_platform.Exec.Total.{IsTotal, IsTotal-pure, IsTotal-try_catch, holds-after_total}
use renuzi_ops_platform.Queue.{Worker, Item, enqueue_item}
use renuzi_ops_platform.Queue.Failure.{enqueued}
use renuzi_ops_platform.Queue.Kept.{is_queued, keeps_item, process_queue-keeps, enqueue_item-keeps}
use renuzi_ops_platform.Http.SyncRoutes.{
  BatchItem, Outcome, is_entity_type, item_of, accept_payload, taken, rejected, accept_item,
  accept_items, max_batch, immediate, take_batch, sized_batch, post_batch,
}

module _ (device : String) (u : User) where
  accept_payload-keeps :
      (i : Item) (ref : String) (o : Option Payload)
      → Preserves (keeps_item i) (accept_payload device u ref o)
  accept_payload-keeps i ref none = Preserves-pure _
  accept_payload-keeps i ref (some p) = search (enqueue_item-keeps, preserves_rules) depth 12

  accept_item-keeps : (i : Item) (b : BatchItem) → Preserves (keeps_item i) (accept_item device u b)
  unfolding accept_item
  accept_item-keeps i b = accept_payload-keeps i b.client_ref b.payload

  accept_known-IsTotal :
      (ref : String) (p : Payload) (b : Bool)
      → IsTotal (
          if b
          then try_catch
              (enqueue_item (item_of device u ref p) >>= λ r. pure (taken r.0 r.1))
              (λ e. pure (rejected "Queue write failed"))
          else pure (rejected "Unknown entityType ${entityType}"))
  accept_known-IsTotal ref p true = IsTotal-try_catch _ _ (λ e. IsTotal-pure _)
  accept_known-IsTotal ref p false = IsTotal-pure _

  accept_payload-IsTotal :
      (ref : String) (o : Option Payload) → IsTotal (accept_payload device u ref o)
  accept_payload-IsTotal ref none = IsTotal-pure _
  accept_payload-IsTotal ref (some p) =
      if-holds (λ m. IsTotal m) (str_eq ref "") _ _ (λ _. IsTotal-pure _)
        (λ _. accept_known-IsTotal ref p (is_entity_type p))

  accept_item-IsTotal : (b : BatchItem) → IsTotal (accept_item device u b)
  unfolding accept_item
  accept_item-IsTotal b = accept_payload-IsTotal b.client_ref b.payload

  accept_items-keeps :
      (i : Item) (items : List BatchItem) → Preserves (keeps_item i) (accept_items device u items)
  unfolding accept_items
  accept_items-keeps i [] = Preserves-pure []
  accept_items-keeps i (b ∷ items) =
      Preserves-bind _ _ (accept_item-keeps i b)
        (λ o. Preserves-bind _ _ (accept_items-keeps i items) (λ rest. Preserves-pure _))

module _ (device : String) (u : User) (ref : String) (p : Payload) where
  abbrev pub item : BatchItem
  item = record { client_ref = ref; payload = some p }

  abbrev pub Received : Db → Type 0
  Received db = is_queued (item_of device u ref p) db ≡ true

  enqueue-Received : (db : Db) → Received (enqueue_item (item_of device u ref p) db).1
  enqueue-Received db =
      let (r, (found, id)) = enqueued (item_of device u ref p) db in ap is_some found

  after_try :
      (work : Exec Outcome) (handle : Error → Exec Outcome) (db : Db)
      → Received (work db).1
      → ((e : Error) → Preserves (keeps_item (item_of device u ref p)) (handle e))
      → Received (try_catch work handle db).1
  unfolding try_catch
  after_try work handle db h keep = recovered (work db).0 handle (work db).1 h keep
    where
      recovered :
          (r : Result Outcome) (handle : Error → Exec Outcome) (d : Db)
          → Received d
          → ((e : Error) → Preserves (keeps_item (item_of device u ref p)) (handle e))
          → Received (recover r handle d).1
      recovered (ok a) handle d h keep = h
      recovered (err e) handle d h keep = (keep e).at d h

  accept_item-Received :
      (db : Db)
      → is_entity_type p ≡ true
      → str_eq ref "" ≡ false
      → Received (accept_item device u item db).1
  unfolding accept_item
  accept_item-Received db known named =
      rw (named, known)
        (after_try _ _ db
          (holds-after (λ d. Received d) _ _ db (enqueue-Received db)
            (λ r.
              (Preserves-pure {R = keeps_item (item_of device u ref p)} _).at _
                (enqueue-Received db)))
          (λ e. Preserves-pure _))

  accept_items-Received :
      (before more : List BatchItem) (db : Db)
      → is_entity_type p ≡ true
      → str_eq ref "" ≡ false
      → Received (accept_items device u (before ++ (item ∷ more)) db).1
  unfolding accept_items
  accept_items-Received [] more db known named =
      let first = accept_item-Received db known named in
      holds-after (λ d. Received d) _ _ db first
        (λ o.
          (Preserves-bind _ _ (accept_items-keeps device u (item_of device u ref p) more)
              (λ rest. Preserves-pure _)).at
            _ first)
  accept_items-Received (b ∷ before) more db known named =
      holds-after_total (λ d. Received d) _ _ db (accept_item-IsTotal device u b)
        (λ o.
          let rest = accept_items-Received before more (accept_item device u b db).1 known named in
          holds-after (λ d. Received d) _ _ _ rest
            (λ outcomes. (Preserves-pure {R = keeps_item (item_of device u ref p)} _).at _ rest))

  take_batch-Received :
      (w : Worker) (before more : List BatchItem) (db : Db)
      → is_entity_type p ≡ true
      → str_eq ref "" ≡ false
      → Received (take_batch w device (before ++ (item ∷ more)) u db).1
  unfolding take_batch
  take_batch-Received w before more db known named =
      let rest = accept_items-Received before more db known named in
      holds-after (λ d. Received d) _ _ db rest
        (λ outcomes.
          (Preserves-bind _ _
              (Preserves-try_catch _ _
                (process_queue-keeps (item_of device u ref p) w u.business_key immediate)
                (λ e. Preserves-pure _))
              (λ s. Preserves-pure _)).at
            _ rest)

  sized_batch-Received :
      (w : Worker) (before more : List BatchItem) (db : Db)
      → is_entity_type p ≡ true
      → str_eq ref "" ≡ false
      → ltb_ℤ (max_batch db) (pos (length (before ++ (item ∷ more)))) ≡ false
      → Received (sized_batch w device (before ++ (item ∷ more)) u db).1
  unfolding query ◌>>=◌
  sized_batch-Received w before more db known named fits =
      rw fits (take_batch-Received w before more db known named)

  -- An item of a batch that has a client reference and a known type of entity is in the queue after
  -- the request, wherever it stands in the batch, whatever the other items are and however the
  -- processing that follows ends, if the device is named and the batch is within the limit.
  pub post_batch-Received :
      (w : Worker) (before more : List BatchItem) (db : Db)
      → str_eq device "" ≡ false
      → is_entity_type p ≡ true
      → str_eq ref "" ≡ false
      → ltb_ℤ (max_batch db) (pos (length (before ++ (item ∷ more)))) ≡ false
      → Received (post_batch w device (before ++ (item ∷ more)) u db).1
  unfolding post_batch
  post_batch-Received w [] more db hd known named fits =
      rw hd (sized_batch-Received w [] more db known named fits)
  post_batch-Received w (b ∷ before) more db hd known named fits =
      rw hd (sized_batch-Received w (b ∷ before) more db known named fits)
