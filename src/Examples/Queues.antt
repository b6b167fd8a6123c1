-- ===== src/Examples/Queues.antt =====
-- The theorems on the deploy queue and on eviction, applied.
use mathlib.Core.List.{Perm}
use muvee.Prelude.{◌≡◌, List, [], arith, All, none, select, ◌==◌}
use muvee.Db.{NodeDataset}
use muvee.Db.Eviction.{IsByLastUse, IsEnough, lru-frees}
use muvee.Db.Nodes.{get_lru_datasets_for_node}
use muvee.Queue.{advance_deploy_queue}
use muvee.Queue.Counts.{UniqueIds}
use muvee.Queue.Contract.{Contract, advance-Contract}
use muvee.Queue.Stable.{advance-idempotent}
use muvee.Queue.Progress.{IsStale, Dispatched, advance-unblocks}
use muvee.Queue.Serial.{IsSerial, advance-IsSerial}
use muvee.Scheduler.{default_deploy_queue_policy}
use muvee.Examples.{noon, busy}

pub busy-UniqueIds : UniqueIds busy.deployments
busy-UniqueIds n = ground arith

pub busy-IsSerial : IsSerial busy
busy-IsSerial = record { unique = busy-UniqueIds; one = λ p. ground arith }

advance-IsSerial_example : IsSerial (advance_deploy_queue noon default_deploy_queue_policy 7 busy).1
advance-IsSerial_example = advance-IsSerial noon default_deploy_queue_policy 7 busy busy-IsSerial

advance-Contract_example :
    Contract noon default_deploy_queue_policy 7 busy
      (advance_deploy_queue noon default_deploy_queue_policy 7 busy).0
      (advance_deploy_queue noon default_deploy_queue_policy 7 busy).1
advance-Contract_example = advance-Contract noon default_deploy_queue_policy 7 busy busy-UniqueIds

advance-idempotent_example :
    advance_deploy_queue noon default_deploy_queue_policy 7
      (advance_deploy_queue noon default_deploy_queue_policy 7 busy).1
    ≡ (
      record { dispatch = none; superseded = []; reaped = [] },
      (advance_deploy_queue noon default_deploy_queue_policy 7 busy).1,
    )
advance-idempotent_example =
    advance-idempotent noon default_deploy_queue_policy 7 busy busy-UniqueIds

busy-IsStale : All (IsStale noon default_deploy_queue_policy 7) busy.deployments
busy-IsStale = (
  λ h. ground (arith, h),
  (
    (λ h. omega arith),
    ((λ h. ground (arith, h)), ((λ h. ground (arith, h)), ((λ h. ground (arith, h)), tt))),
  ),
)

advance-unblocks_example :
    Dispatched noon 7 busy
      (advance_deploy_queue noon default_deploy_queue_policy 7 busy).0
      (advance_deploy_queue noon default_deploy_queue_policy 7 busy).1
advance-unblocks_example =
    advance-unblocks noon default_deploy_queue_policy 7 busy busy-UniqueIds busy-IsStale
      (ground arith)

lru-frees_example :
    (rows : List NodeDataset) × Perm rows (select (λ r. r.node_id == 2) busy.node_datasets)
    × IsByLastUse rows
    × IsEnough 6 rows (get_lru_datasets_for_node 2 6 busy)
lru-frees_example = lru-frees 2 6 busy
