-- ===== src/Examples/QueueRuns.antt =====
-- The queue engine on the company of Fixtures.
use renuzi_ops_platform.Prelude.{false, ◌≡◌, ◌≤◌, refl, All, length, arith, count_rows}
use renuzi_ops_platform.Processors.{process}
use renuzi_ops_platform.Guards.{config_value}
use renuzi_ops_platform.Queue.{
  claim_rows, process_queue, process_row, no_rows, enqueue_item, same_ref, row_actor,
}
use renuzi_ops_platform.Queue.Claim.{
  HasUniqueIds, has_id, Disjoint, IsClaimed, claim_rows-Disjoint, claim_rows-IsClaimed,
  length-claim_rows,
}
use renuzi_ops_platform.Queue.Budget.{IsBudgeted}
use renuzi_ops_platform.Queue.Run.{retry_limit, process_queue-IsBudgeted}
use renuzi_ops_platform.Queue.Failure.{queue_id_of, enqueue_item-twice, enqueue_item_unique}
use renuzi_ops_platform.Jobs.Scheduler.{no_options}
use renuzi_ops_platform.Queue.Outcome.{IsOutcome, process_row-IsOutcome}
use renuzi_ops_platform.Fixtures.{company, checked_item, server, claim, sent_item}

unique : HasUniqueIds company.sync_queue
unfolding has_id
unique = (refl, (refl, tt))

process_queue-IsBudgeted_example :
    All
      (IsBudgeted (retry_limit server no_options company))
      (process_queue server 1 no_options company).1.sync_queue
unfolding config_value
process_queue-IsBudgeted_example =
    process_queue-IsBudgeted server 1 no_options company unique (omega arith, (omega arith, tt))

claim_rows-Disjoint_example :
    Disjoint
      (claim_rows claim 600000 1 company.sync_queue).0
      (claim_rows claim 660000 5 (claim_rows claim 600000 1 company.sync_queue).1).0
claim_rows-Disjoint_example =
    claim_rows-Disjoint claim claim 600000 660000 (omega arith) 1 5 company.sync_queue unique

claim_rows-IsClaimed_example :
    All (IsClaimed claim 600000) (claim_rows claim 600000 2 company.sync_queue).0
claim_rows-IsClaimed_example = claim_rows-IsClaimed claim 600000 2 company.sync_queue

length-claim_rows_example : length (claim_rows claim 600000 1 company.sync_queue).0 ≤ 1
length-claim_rows_example = length-claim_rows claim 600000 1 company.sync_queue

process_row-IsOutcome_example :
    IsOutcome server 3 false checked_item no_rows company
      (process (row_actor checked_item) checked_item.payload_json company)
      (process_row server 3 false checked_item no_rows company)
process_row-IsOutcome_example = process_row-IsOutcome server 3 false checked_item no_rows company

enqueue_item-twice_example :
    ((enqueue_item sent_item (enqueue_item sent_item company).1).1
      ≡ (enqueue_item sent_item company).1)
    × (queue_id_of (enqueue_item sent_item (enqueue_item sent_item company).1).0
        ≡ queue_id_of (enqueue_item sent_item company).0)
enqueue_item-twice_example = enqueue_item-twice sent_item company

not_queued_yet : count_rows (same_ref sent_item) company.sync_queue ≤ 1
unfolding count_rows
not_queued_yet = omega arith

enqueue_item_unique_example :
    count_rows (same_ref sent_item) (enqueue_item sent_item company).1.sync_queue ≡ 1
enqueue_item_unique_example = enqueue_item_unique sent_item company not_queued_yet
