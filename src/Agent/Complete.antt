-- ===== src/Agent/Complete.antt =====
-- What completeTask leaves when an agent reports that a deploy has completed.
use muvee.Prelude.{
  ℕ, ◌<◌, ◌≡◌, refl, ap, ◌∙◌, inl, inr, String, Option, some, List, [], ◌∷◌, arith, ◌==◌, update,
  All, Bool-cases,
}
use muvee.Db.{Db, Deployment, DeploymentStatus, Project, Task, TaskType, TaskStatus}
use muvee.Db.Rows.{has_id}
use muvee.Db.Deployments.{
  get_deployment, update_deployment_status, set_deployment_host_port, stale_run, stop, set_status,
  log_line,
}
use muvee.Db.Projects.{get_project}
use muvee.Db.Tasks.{get_task, update_task_status}
use muvee.Queue.Counts.{UniqueIds, UniqueIds-update}
use muvee.Scheduler.{Scheduler}
use muvee.Scheduler.Trigger.{advance_deploy_queue_for}
use muvee.Scheduler.Settled.{AllRuns, advance_for-AllRuns}
use muvee.Agent.{Json, Report, finish_deploy, on_completed, react, result_of, complete_task}
use muvee.Agent.Inspect.{reported}
use muvee.Agent.Retire.{
  RunsAlone, RunsAlone-IsSettled, HasFailed, HasFailed-IsSettled, retired, hosted, finish-with_port,
  finish_deploy-running,
}

UniqueIds-with_port :
    (now port : ℕ) (t : Task) (d : Deployment) (p : Project) (db : Db)
    → UniqueIds db.deployments
    → 0 < port
    → get_deployment t.deployment_id db ≡ some d
    → get_project d.project_id db ≡ some p
    → UniqueIds (finish_deploy now port t db).deployments
unfolding retired set_deployment_host_port
UniqueIds-with_port now port t d p db u h e f = rw (finish-with_port now port t d p db h e f) (
    UniqueIds-update (stale_run d.project_id t.deployment_id) (stop now) _ (λ x. refl)
      (UniqueIds-update (has_id t.deployment_id) (hosted now port) db.deployments (λ x. refl) u))

-- What the task's row does not matter for.
complete-db :
    (json : Json) (s : Scheduler) (now id : ℕ) (r : Report) (t : Task) (db : Db)
    → get_task id db ≡ some t
    → t.kind ≡ TaskType.deploy
    → r.status ≡ TaskStatus.completed
    → complete_task json s now id r db ≡ (
        let db' = update_task_status id r.status (result_of json r) db in
        let t' = record t { status = r.status; result = result_of json r } in
        advance_deploy_queue_for s now t.deployment_id (finish_deploy now r.host_port t' db'))
unfolding complete_task react on_completed
complete-db json s now id r t db e k c =
    let db' = update_task_status id r.status (result_of json r) db in
    let t' = record t { status = r.status; result = result_of json r } in
    ap (λ (o : Option Task). react s now r o db') (reported id r.status (result_of json r) db t e)
    ∙ rw c (rw k refl)

-- A report that a deploy has completed, with the port that it listens on: afterwards, whatever the
-- project's queue does next, no other deployment of the project is running.
pub complete-RunsAlone :
    (json : Json) (s : Scheduler) (now id : ℕ) (r : Report) (t : Task) (d : Deployment)
    (p : Project) (db : Db)
    → UniqueIds db.deployments
    → get_task id db ≡ some t
    → t.kind ≡ TaskType.deploy
    → r.status ≡ TaskStatus.completed
    → 0 < r.host_port
    → get_deployment t.deployment_id db ≡ some d
    → get_project d.project_id db ≡ some p
    → AllRuns (RunsAlone d.project_id t.deployment_id) (complete_task json s now id r db)
complete-RunsAlone json s now id r t d p db u e k c h f g =
    let db' = update_task_status id r.status (result_of json r) db in
    let t' = record t { status = r.status; result = result_of json r } in
    let f' : get_deployment t.deployment_id db' ≡ some d =
      unfold get_deployment update_task_status in f in
    let g' : get_project d.project_id db' ≡ some p = unfold get_project update_task_status in g in
    let u' : UniqueIds db'.deployments = unfold update_task_status in u in
    rw (complete-db json s now id r t db e k c) (
      advance_for-AllRuns (RunsAlone d.project_id t.deployment_id)
        (RunsAlone-IsSettled d.project_id t.deployment_id) s now t.deployment_id
        (finish_deploy now r.host_port t' db')
        (UniqueIds-with_port now r.host_port t' d p db' u' h f' g')
        (finish_deploy-running now r.host_port t' d p db' h f' g').1)

failed-rows :
    (now n : ℕ) (msg : String) (ds : List Deployment)
    → All
        (λ d. HasFailed n (d.id, d.project_id, d.status))
        (update (has_id n) (set_status now DeploymentStatus.failed (log_line msg)) ds)
failed-rows now n msg [] = tt
failed-rows now n msg (d ∷ ds) = elim (Bool-cases (d.id == n)) [
  | inl e ↦ rw e ((λ i. refl), failed-rows now n msg ds)
  | inr e ↦ rw e ((λ i. ground (arith, e, i)), failed-rows now n msg ds)
]

-- A report that a deploy has completed, with no port: the deployment has failed, whatever the
-- project's queue does next.
pub complete-no_port :
    (json : Json) (s : Scheduler) (now id : ℕ) (r : Report) (t : Task) (db : Db)
    → UniqueIds db.deployments
    → get_task id db ≡ some t
    → t.kind ≡ TaskType.deploy
    → r.status ≡ TaskStatus.completed
    → r.host_port ≡ 0
    → AllRuns (HasFailed t.deployment_id) (complete_task json s now id r db)
unfolding result_of
complete-no_port json s now id r t db u e k c h =
    let db' = update_task_status id r.status (result_of json r) db in
    let t' = record t { status = r.status; result = result_of json r } in
    let u' : UniqueIds db'.deployments = unfold update_task_status in u in
    let msg : String = "deploy completed but no host_port reported" in
    rw (complete-db json s now id r t db e k c) (
      advance_for-AllRuns (HasFailed t.deployment_id) (HasFailed-IsSettled t.deployment_id) s now
        t.deployment_id (finish_deploy now r.host_port t' db')
        (unfold finish_deploy update_deployment_status in
          rw h (
            UniqueIds-update (has_id t.deployment_id)
              (set_status now DeploymentStatus.failed (log_line msg)) db'.deployments (λ x. refl)
              u'))
        (unfold finish_deploy update_deployment_status in
          rw h (failed-rows now t.deployment_id msg db'.deployments)))
