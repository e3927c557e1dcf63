-- ===== src/Processors/WarehouseKeeps.antt =====
-- The warehouse processors keep every relation that allows their writes.
use renuzi_ops_platform.Prelude.{ℕ, ℤ, Option, none, some, List, [], ◌∷◌, ◌++◌, arith}
use renuzi_ops_platform.Constants.{MovementType}
use renuzi_ops_platform.Schema.{
  Grn, GrnLine, StockMovement, StockCount, GoodsReturn, Row, DispatchLine,
}
use renuzi_ops_platform.Payload.{
  Actor, GrnForm, GrnLineForm, DispatchAck, LoadedQuantity, LineDelivery, MovementForm, CountForm,
  ReturnForm,
}
use renuzi_ops_platform.Database.{Db}
use renuzi_ops_platform.Exec.{execute}
use renuzi_ops_platform.Exec.Preserves.{Relation, Preserves, Preserves-execute, preserves_rules}
use renuzi_ops_platform.Exec.Atomic.{IsReadOnly, read_only_rules}
use renuzi_ops_platform.Guards.ReadOnly.{guard_rules}
use renuzi_ops_platform.Warehouse.Grn.{add_movement, insert_line, create_grn}
use renuzi_ops_platform.Warehouse.Custody.{
  update_lines, Stage, StampOpts, warehouse, security, driver, customer, set_loaded, load_line,
  deliver_line, move_stock, move_line, stamp_header, emit, apply_stage, stamp_dispatch_custody,
}
use renuzi_ops_platform.Warehouse.Stock.{
  record_stock_movement, record_stock_count, record_goods_return,
}
use renuzi_ops_platform.Warehouse.Atomicity.{
  IsReadOnly-check_lines, IsReadOnly-check_stage, IsReadOnly-get_dispatch,
}
use renuzi_ops_platform.DocNumbers.{Kind, next_doc_number}
use renuzi_ops_platform.Processors.Laws.{SameTables, ServiceLaws}
use renuzi_ops_platform.Processors.Writes.{Preserves-facts, Preserves-record_change}

same_lines :
    (k : ℕ) (lq : LoadedQuantity) (q : Option ℤ) (db : Db) → SameTables db (set_loaded k lq q db)
same_lines k lq none db = ground arith
same_lines k lq (some q) db = ground arith

module _ {R : Relation} (L : ServiceLaws R) where
  Preserves-insert_grn :
      (g : Db → Row Grn)
      → Preserves R (execute (λ db. record db { grn_table = db.grn_table ++ g db ∷ [] }))
  Preserves-insert_grn g = Preserves-execute _ (λ db. L.insert_grn (g db) db)

  Preserves-insert_grn_line :
      (x : GrnLine) → Preserves R (execute (λ db. record db { grn_lines = db.grn_lines ++ x ∷ [] }))
  Preserves-insert_grn_line x = search (Preserves-facts L)

  Preserves-add_movement : (m : StockMovement) → Preserves R (execute (add_movement m))
  Preserves-add_movement m = search (Preserves-facts L)

  Preserves-insert_line :
      (a : Actor) (d g : ℕ) (l : GrnLineForm) → Preserves R (insert_line a d g l)
  unfolding insert_line
  Preserves-insert_line a d g l =
      search (Preserves-insert_grn_line, Preserves-add_movement, preserves_rules) depth 12

  IsReadOnly-next_doc_number : (k : Kind) (b : List ℕ) (d : ℕ) → IsReadOnly (next_doc_number k b d)
  unfolding next_doc_number
  IsReadOnly-next_doc_number k b d = search read_only_rules

  pub Preserves-create_grn : (a : Actor) (p : GrnForm) → Preserves R (create_grn a p)
  unfolding create_grn
  Preserves-create_grn a p =
      search
        (
          Preserves-insert_grn,
          Preserves-insert_line,
          Preserves-record_change L,
          IsReadOnly-next_doc_number,
          IsReadOnly-check_lines,
          preserves_rules,
          guard_rules,
        )
        depth 16

  Preserves-stamp_header :
      (s : Stage) (a : Actor) (k : ℕ) (p : DispatchAck) → Preserves R (stamp_header s a k p)
  unfolding stamp_header
  Preserves-stamp_header s a k p = Preserves-execute _ (λ db. L.stamp s a k p db.now db)

  Preserves-emit : (a : Actor) (k : ℕ) → Preserves R (emit a k)
  unfolding emit
  Preserves-emit a k = search (Preserves-record_change L, preserves_rules)

  Preserves-load_line : (k : ℕ) (lq : LoadedQuantity) → Preserves R (load_line k lq)
  unfolding load_line
  Preserves-load_line k lq = Preserves-facts L _ (λ db. same_lines k lq lq.loaded_qty db)

  Preserves-update_lines :
      (k l : ℕ) (f : DispatchLine → DispatchLine) → Preserves R (execute (update_lines k l f))
  Preserves-update_lines k l f = search (Preserves-facts L)

  Preserves-deliver_line : (k : ℕ) (ld : LineDelivery) → Preserves R (deliver_line k ld)
  unfolding deliver_line
  Preserves-deliver_line k ld = search (Preserves-update_lines, preserves_rules)

  Preserves-move_stock :
      (a : Actor) (d k : ℕ) (t : MovementType) (p : ℕ) (q : ℤ)
      → Preserves R (move_stock a d k t p q)
  unfolding move_stock
  Preserves-move_stock a d k t p q = search (Preserves-add_movement, preserves_rules)

  Preserves-move_line : (a : Actor) (d k : ℕ) (l : DispatchLine) → Preserves R (move_line a d k l)
  unfolding move_line
  Preserves-move_line a d k l = search (Preserves-move_stock, preserves_rules)

  Preserves-apply_stage :
      (s : Stage) (a : Actor) (k : ℕ) (p : DispatchAck) → Preserves R (apply_stage s a k p)
  unfolding apply_stage
  Preserves-apply_stage warehouse a k p =
      search (Preserves-load_line, Preserves-stamp_header, Preserves-emit, preserves_rules) depth 12
  Preserves-apply_stage security a k p =
      search (Preserves-stamp_header, Preserves-emit, preserves_rules) depth 12
  Preserves-apply_stage driver a k p =
      search (Preserves-stamp_header, Preserves-emit, preserves_rules) depth 12
  Preserves-apply_stage customer a k p =
      search
        (
          Preserves-deliver_line, Preserves-stamp_header, Preserves-move_line, Preserves-emit,
          preserves_rules, guard_rules,
        )
        depth 16

  pub Preserves-stamp_dispatch_custody :
      (a : Actor) (k : ℕ) (s : Stage) (p : DispatchAck) (o : StampOpts)
      → Preserves R (stamp_dispatch_custody a k s p o)
  unfolding stamp_dispatch_custody
  Preserves-stamp_dispatch_custody a k s p o =
      search
        (
          Preserves-apply_stage, IsReadOnly-check_stage, IsReadOnly-get_dispatch, preserves_rules,
          guard_rules,
        )
        depth 12

  pub Preserves-record_stock_movement :
      (a : Actor) (p : MovementForm) → Preserves R (record_stock_movement a p)
  unfolding record_stock_movement
  Preserves-record_stock_movement a p = search (preserves_rules, guard_rules) depth 12

  Preserves-insert_count :
      (x : StockCount)
      → Preserves R (execute (λ db. record db { stock_counts = db.stock_counts ++ x ∷ [] }))
  Preserves-insert_count x = search (Preserves-facts L)

  pub Preserves-record_stock_count :
      (a : Actor) (p : CountForm) → Preserves R (record_stock_count a p)
  unfolding record_stock_count
  Preserves-record_stock_count a p =
      search (Preserves-insert_count, preserves_rules, guard_rules) depth 12

  Preserves-insert_return :
      (x : GoodsReturn)
      → Preserves R (execute (λ db. record db { goods_returns = db.goods_returns ++ x ∷ [] }))
  Preserves-insert_return x = search (Preserves-facts L)

  pub Preserves-record_goods_return :
      (a : Actor) (p : ReturnForm) → Preserves R (record_goods_return a p)
  unfolding record_goods_return
  Preserves-record_goods_return a p =
      search (Preserves-insert_return, Preserves-add_movement, preserves_rules, guard_rules) depth
        14
