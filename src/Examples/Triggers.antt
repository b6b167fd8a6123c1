-- ===== src/Examples/Triggers.antt =====
-- The theorems on triggering, placing and recovering deployments, applied.
use muvee.Prelude.{refl, true, some, [], ◌∷◌}
use muvee.Db.{Db, Node, Project}
use muvee.Scheduler.{M, raise, no_deploy_nodes}
use muvee.Scheduler.Pick.{pick_deploy_node}
use muvee.Scheduler.Trigger.{trigger_deployment}
use muvee.Scheduler.Serial.Triggers.{trigger-IsSerial}
use muvee.Scheduler.Placement.{Fits, pick_deploy_node-Fits}
use muvee.Db.{DeploymentStatus, TaskType}
use muvee.Scheduler.Dispatch.{dispatch_deploy}
use muvee.Scheduler.FirstTask.{AddsTask, dispatch_deploy-AddsTask}
use muvee.Examples.{row}
use muvee.Queue.Serial.{IsSerial}
use muvee.Examples.{noon, busy, in_order, web}
use muvee.Examples.Queues.{busy-IsSerial}

trigger-IsSerial_example : IsSerial (trigger_deployment in_order noon 7 busy).1
trigger-IsSerial_example = trigger-IsSerial in_order noon 7 busy refl busy-IsSerial

abbrev stopped_web : Db
stopped_web = record busy { projects = record web { paused = true } ∷ [] }

pick_deploy_node-Fits_example : Fits noon (pick_deploy_node in_order noon (4 ∷ []) busy).0
pick_deploy_node-Fits_example = pick_deploy_node-Fits in_order noon (4 ∷ []) busy (λ p xs. refl)

abbrev pinned_web : Project
pinned_web = record web { pinned_node_id = some 2 }

abbrev fixed_web : Project
fixed_web = record web { fixed_node_id = some 2 }

abbrev no_fallback : M Node
no_fallback = raise no_deploy_nodes

dispatch_deploy-AddsTask_example :
    AddsTask TaskType.deploy 11 busy
      (dispatch_deploy in_order noon (row 11 DeploymentStatus.pending 0) web "web:1" busy)
dispatch_deploy-AddsTask_example =
    dispatch_deploy-AddsTask in_order noon (row 11 DeploymentStatus.pending 0) web "web:1" busy
