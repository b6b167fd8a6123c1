-- ===== src/Agent.antt =====
-- The agents' side of internal/api/server.go: registerNode, pollTasks, completeTask and
-- appendDeploymentLog; and the two control loops of cmd/muvee/server.go, over completed builds and
-- over dead nodes. Each is a function on the database. The project events that the handlers push
-- do not act on it and are left out.
pub mod Loops
pub mod Inspect
pub mod Retire
pub mod Complete
pub mod Serial
pub mod Reports
pub mod Failover
pub mod Builds
use muvee.Prelude.{
  ℕ, ◌+◌, ◌*◌, String, Bool, true, false, Option, none, some, List, [], ◌∷◌, ◌==◌, ◌&&◌, ltb, leb,
  not, any, select, take, if◌then◌else◌, str_append,
}
use muvee.Db.{
  Db, Deployment, DeploymentStatus, Task, TaskType, TaskStatus, Node, NodeRole, Project,
  ProjectType, minute,
}
use muvee.Db.Rows.{is_build, is_rollout, is_completed_task, is_building, is_running, at}
use muvee.Db.Deployments.{
  create_deployment, get_deployment, update_deployment_status, set_deployment_image_tag,
  set_deployment_host_port, append_deployment_log, stop_project_deployments,
}
use muvee.Db.Tasks.{get_task, poll_tasks_for_node, update_task_status}
use muvee.Db.Nodes.{same_role, list_nodes, touch_node, upsert_node}
use muvee.Db.Projects.{get_project, set_project_last_image_tag}
use muvee.Scheduler.{Scheduler, Result, ok, err, Error, message}
use muvee.Scheduler.Dispatch.{dispatch_cleanup, dispatch_deploy}
use muvee.Scheduler.Payload.{is_empty}
use muvee.Scheduler.Trigger.{
  advance_queue, advance_deploy_queue_for, trigger_deployment, recover_agent_restart,
}

-- encoding/json, for the object {"image_tag": …} of a build's result. What does not parse has an
-- empty tag.
pub record Json : Type 0 where
  pub marshal_tag : String → String
  pub unmarshal_tag : String → String

-- The body of a task's report. A host port of 0 or less is 0.
pub record Report : Type 0 where
  pub status : TaskStatus
  pub result : String
  pub image_tag : String
  pub host_port : ℕ

-- registerNode: the row is inserted or updated, and what the agent had been running is lost.
unfoldable pub register_node : Scheduler → ℕ → String → NodeRole → String → ℕ → ℕ → Db → ℕ × Db
unfolding upsert_node recover_agent_restart
register_node s now hostname role ip size used db =
    let (node, db') = upsert_node now hostname role ip size used db in
    (node, recover_agent_restart s now node db')

-- pollTasks; `none` is the answer 500 for a node that is not there.
unfoldable pub poll_tasks : ℕ → ℕ → Db → Option (List Task × Db)
poll_tasks now node db = elim (touch_node now node db) [
  | none ↦ none
  | some db' ↦ some (poll_tasks_for_node node db', db')
]

-- A report that the task has started.
unfoldable pub on_running : ℕ → Option Task → Db → Db
on_running now none db = db
on_running now (some t) db =
    if is_build t.kind
    then update_deployment_status now t.deployment_id DeploymentStatus.building "" db
    else db

unfoldable pub on_failed : Scheduler → ℕ → String → Option Task → Db → Db
on_failed s now result none db = db
on_failed s now result (some t) db =
    let why = if is_empty result then "task failed" else result in
    let db' = update_deployment_status now t.deployment_id DeploymentStatus.failed why db in
    if is_rollout t.kind then advance_deploy_queue_for s now t.deployment_id db' else db

-- *old.NodeID != *task.NodeID, where both are there; the node of `old`.
unfoldable pub left_behind : Option ℕ → Option ℕ → Option ℕ
left_behind none new = none
left_behind (some m) none = none
left_behind (some m) (some n) = if m == n then none else some m

-- A cleanup task for each stopped deployment that ran on another node.
unfoldable pub clean_up : ℕ → Task → String → List Deployment → Db → Db
unfolding left_behind
clean_up now t prefix [] db = db
clean_up now t prefix (old ∷ olds) db =
    clean_up now t prefix olds (elim (left_behind old.node_id t.node_id) [
      | none ↦ db
      | some node ↦ (dispatch_cleanup now node old.id prefix db).1
    ])

-- The other running deployments of the project are stopped.
unfoldable pub retire_others : ℕ → Task → Deployment → Option Project → Db → Db
unfolding clean_up
retire_others now t dep none db = db
retire_others now t dep (some p) db =
    let (stopped, db') = stop_project_deployments now dep.project_id t.deployment_id db in
    clean_up now t p.domain_prefix stopped db'

unfoldable pub retire_of : ℕ → Task → Option Deployment → Db → Db
unfolding retire_others
retire_of now t none db = db
retire_of now t (some dep) db = retire_others now t dep (get_project dep.project_id db) db

unfoldable pub retire : ℕ → Task → Db → Db
unfolding retire_of
retire now t db = retire_of now t (get_deployment t.deployment_id db) db

unfoldable pub finish_deploy : ℕ → ℕ → Task → Db → Db
unfolding retire
finish_deploy now port t db =
    if ltb 0 port
    then retire now t (set_deployment_host_port now t.deployment_id port db)
    else update_deployment_status now t.deployment_id DeploymentStatus.failed
        "deploy completed but no host_port reported" db

abbrev pub is_deploy : TaskType → Bool
is_deploy TaskType.deploy = true
is_deploy _ = false

unfoldable pub on_completed : Scheduler → ℕ → ℕ → Option Task → Db → Db
unfolding finish_deploy
on_completed s now port none db = db
on_completed s now port (some t) db =
    let db' = finish_deploy now port t db in
    if is_deploy t.kind then advance_deploy_queue_for s now t.deployment_id db' else db

-- What is stored as the task's result.
unfoldable pub result_of : Json → Report → String
result_of json r = if is_empty r.image_tag then r.result else json.marshal_tag r.image_tag

-- completeTask, after the task's row was written.
unfoldable pub react : Scheduler → ℕ → Report → Option Task → Db → Db
unfolding on_running on_failed on_completed
react s now r t db = elim r.status [
  | TaskStatus.running ↦ on_running now t db
  | TaskStatus.failed ↦ on_failed s now r.result t db
  | TaskStatus.completed ↦ on_completed s now r.host_port t db
  | TaskStatus.pending ↦ db
]

unfoldable pub complete_task : Json → Scheduler → ℕ → ℕ → Report → Db → Db
unfolding result_of react
complete_task json s now id r db =
    let db' = update_task_status id r.status (result_of json r) db in
    react s now r (get_task id db') db'
