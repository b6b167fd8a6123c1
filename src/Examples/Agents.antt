-- ===== src/Examples/Agents.antt =====
-- The theorems on the agents' reports, applied.
use muvee.Prelude.{◌≡◌, refl, arith}
use muvee.Db.{Task, DeploymentStatus, TaskType, TaskStatus}
use muvee.Db.Deployments.{get_deployment}
use muvee.Db.Tasks.{get_task}
use muvee.Db.Projects.{get_project}
use muvee.Queue.Counts.{in_flight_count}
use muvee.Scheduler.Settled.{AllRuns}
use muvee.Agent.{complete_task}
use muvee.Queue.Serial.{IsSerial}
use muvee.Agent.Retire.{RunsAlone}
use muvee.Agent.Complete.{complete-RunsAlone}
use muvee.Db.Deployments.{update_deployment_status, create_deployment, set_deployment_node}
use muvee.Db.Tasks.{create_task}
use muvee.Db.Nodes.{get_deploy_nodes}
use muvee.Scheduler.Pick.{
  resolve_fixed_deploy_node, pick_deploy_node, pick_among, score_active, take_best,
}
use muvee.Scheduler.Dispatch.{dispatch_deploy, dispatch_container_deploy, fixed_or, send_deploy}
use muvee.Agent.Loops.{complete_build, prepare, replace}
use muvee.Agent.Builds.{complete_build-IsSerial}
use muvee.Agent.Failover.{replace-adds}
use muvee.Examples.{deploy_node}
use muvee.Prelude.{◌+◌}
use muvee.Agent.Reports.{complete-IsSerial}
use muvee.Agent.Serial.{late_start-two_in_flight}
use muvee.Examples.{noon, busy, in_order, web, json, report, task, row}
use muvee.Examples.Queues.{busy-UniqueIds, busy-IsSerial}

complete-RunsAlone_example :
    AllRuns
      (RunsAlone 7 11)
      (complete_task json in_order noon 20 (report TaskStatus.completed 8080) busy)
unfolding get_task get_deployment get_project
complete-RunsAlone_example =
    complete-RunsAlone json in_order noon 20 (report TaskStatus.completed 8080)
      (task 20 TaskType.deploy 11) (row 11 DeploymentStatus.deploying 0) web busy busy-UniqueIds
      refl refl refl (omega arith) refl refl

late_start-two_in_flight_example :
    in_flight_count 7 (complete_task json in_order noon 22 (report TaskStatus.running 0) busy) ≡ 2
unfolding get_task get_deployment get_project
late_start-two_in_flight_example =
    late_start-two_in_flight json in_order noon 22 (report TaskStatus.running 0)
      (task 22 TaskType.build 14) (row 14 DeploymentStatus.failed 0) busy busy-IsSerial refl refl
      refl refl refl refl

complete-IsSerial_example :
    IsSerial (complete_task json in_order noon 20 (report TaskStatus.failed 0) busy)
unfolding get_task
complete-IsSerial_example =
    complete-IsSerial json in_order noon 20 (report TaskStatus.failed 0)
      (task 20 TaskType.deploy 11) busy busy-IsSerial refl (λ h k d e. cc)

replace-adds_example :
    in_flight_count 7
      (replace in_order noon deploy_node (row 10 DeploymentStatus.running 0) web busy)
    ≡ in_flight_count 7 busy + 1
unfolding get_deployment prepare update_deployment_status create_deployment dispatch_deploy
    dispatch_container_deploy fixed_or resolve_fixed_deploy_node pick_deploy_node get_deploy_nodes
    pick_among score_active take_best send_deploy set_deployment_node create_task
replace-adds_example =
    replace-adds in_order noon deploy_node (row 10 DeploymentStatus.running 0)
      (row 10 DeploymentStatus.running 0) web busy busy-UniqueIds refl refl refl refl

abbrev built : Task
built = record (task 23 TaskType.build 11) { status = TaskStatus.completed; result = "web:1" }

complete_build-IsSerial_example : IsSerial (complete_build json in_order noon built busy)
unfolding get_deployment get_project
complete_build-IsSerial_example =
    complete_build-IsSerial json in_order noon built (row 11 DeploymentStatus.deploying 0) web busy
      busy-IsSerial refl refl refl refl
