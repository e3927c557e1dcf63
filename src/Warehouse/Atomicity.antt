-- ===== src/Warehouse/Atomicity.antt =====
-- Every operation of the warehouse service is atomic.
use renuzi_ops_platform.Prelude.{ℕ, String, Bool, Option, none, some, List, [], ◌∷◌}
use renuzi_ops_platform.Schema.{Row, Dispatch}
use renuzi_ops_platform.Payload.{
  Actor, GrnForm, GrnLineForm, DispatchForm, DispatchAck, MovementForm, CountForm, ReturnForm,
}
use renuzi_ops_platform.Exec.Atomic.{
  IsReadOnly, IsAtomic, IsReadOnly-pure, IsReadOnly-throw, IsReadOnly-for_each, read_only_rules,
  atomic_rules,
}
use renuzi_ops_platform.Guards.ReadOnly.{guard_rules}
use renuzi_ops_platform.Warehouse.Grn.{check_line, check_lines, create_grn, signoff_grn_finance}
use renuzi_ops_platform.Warehouse.Outbound.{create_dispatch, get_dispatch}
use renuzi_ops_platform.Warehouse.Custody.{
  Stage, StampOpts, warehouse, security, driver, customer, check_prereq, check_stage, apply_stage,
  stamp_dispatch_custody,
}
use renuzi_ops_platform.Warehouse.Stock.{
  record_stock_movement, record_stock_count, record_goods_return,
}

IsReadOnly-check_line : (l : GrnLineForm) → IsReadOnly (check_line l)
unfolding check_line
IsReadOnly-check_line l = search read_only_rules

pub IsReadOnly-check_lines : (ls : List GrnLineForm) → IsReadOnly (check_lines ls)
IsReadOnly-check_lines [] = IsReadOnly-throw _
IsReadOnly-check_lines (l ∷ ls) = IsReadOnly-for_each (l ∷ ls) check_line IsReadOnly-check_line

pub create_grn-IsAtomic : (a : Actor) (body : GrnForm) → IsAtomic (create_grn a body)
unfolding create_grn
create_grn-IsAtomic a body = search (atomic_rules, guard_rules, IsReadOnly-check_lines) depth 12

pub signoff_grn_finance-IsAtomic :
    (a : Actor) (k : ℕ) (issued : Bool) (number : String)
    → IsAtomic (signoff_grn_finance a k issued number)
unfolding signoff_grn_finance
signoff_grn_finance-IsAtomic a k issued number = search (atomic_rules, guard_rules) depth 12

pub create_dispatch-IsAtomic : (a : Actor) (body : DispatchForm) → IsAtomic (create_dispatch a body)
unfolding create_dispatch
create_dispatch-IsAtomic a body = search (atomic_rules, guard_rules) depth 12

IsReadOnly-check_prereq :
    (o : StampOpts) (d : Row Dispatch) (p : DispatchAck) (m : Option String)
    → IsReadOnly (check_prereq o d p m)
IsReadOnly-check_prereq o d p none = IsReadOnly-pure tt
IsReadOnly-check_prereq o d p (some m) = IsReadOnly-throw _

pub IsReadOnly-check_stage :
    (s : Stage) (o : StampOpts) (d : Row Dispatch) (p : DispatchAck)
    → IsReadOnly (check_stage s o d p)
unfolding check_stage
IsReadOnly-check_stage s o d p = search (read_only_rules, IsReadOnly-check_prereq) depth 8

pub IsReadOnly-get_dispatch : (a : Actor) (k : ℕ) → IsReadOnly (get_dispatch a k)
unfolding get_dispatch
IsReadOnly-get_dispatch a k = search read_only_rules

apply_stage-IsAtomic :
    (s : Stage) (a : Actor) (k : ℕ) (p : DispatchAck) → IsAtomic (apply_stage s a k p)
unfolding apply_stage
apply_stage-IsAtomic warehouse a k p = search (atomic_rules, guard_rules) depth 8
apply_stage-IsAtomic security a k p = search (atomic_rules, guard_rules) depth 8
apply_stage-IsAtomic driver a k p = search (atomic_rules, guard_rules) depth 8
apply_stage-IsAtomic customer a k p = search (atomic_rules, guard_rules) depth 8

pub stamp_dispatch_custody-IsAtomic :
    (a : Actor) (k : ℕ) (s : Stage) (p : DispatchAck) (o : StampOpts)
    → IsAtomic (stamp_dispatch_custody a k s p o)
unfolding stamp_dispatch_custody
stamp_dispatch_custody-IsAtomic a k s p o =
    search
      (
        atomic_rules, guard_rules, IsReadOnly-get_dispatch, IsReadOnly-check_stage,
        apply_stage-IsAtomic,
      )
      depth 12

pub record_stock_movement-IsAtomic :
    (a : Actor) (p : MovementForm) → IsAtomic (record_stock_movement a p)
unfolding record_stock_movement
record_stock_movement-IsAtomic a p = search (atomic_rules, guard_rules) depth 12

pub record_stock_count-IsAtomic : (a : Actor) (p : CountForm) → IsAtomic (record_stock_count a p)
unfolding record_stock_count
record_stock_count-IsAtomic a p = search (atomic_rules, guard_rules) depth 12

pub record_goods_return-IsAtomic : (a : Actor) (p : ReturnForm) → IsAtomic (record_goods_return a p)
unfolding record_goods_return
record_goods_return-IsAtomic a p = search (atomic_rules, guard_rules) depth 12
