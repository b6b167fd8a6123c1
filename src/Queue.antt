-- ===== src/Queue.antt =====
-- The deploy queue of internal/store/store.go: AdvanceDeployQueue and FailOrphanedTasksForNode.
-- AdvanceDeployQueue runs in one transaction under the project's advisory lock, so it is one
-- function on the database. Each of its statements is a definition of its own.
pub mod Counts
pub mod Order
pub mod Reap
pub mod Lost
pub mod Reaped
pub mod Advance
pub mod Outcome
pub mod Contract
pub mod Stable
pub mod Progress
pub mod Serial
use muvee.Prelude.{
  ℕ, zero, ◌+◌, String, Bool, true, false, Option, none, some, List, [], ◌∷◌, ◌++◌, map, ◌==◌, ◌&&◌,
  ◌||◌, not, ltb, if◌then◌else◌, select, count, any, update, has,
}
use muvee.Db.{
  Db, Deployment, DeploymentStatus, LogLine, line, superseded_by, Task, TaskStatus, Node,
}
use muvee.Db.Rows.{
  in_flight_of, queued_of, is_rollout, is_build, is_open, is_completed_task, is_building,
  is_running_task, in_flight, at, has_id, is_queued,
}
use muvee.Db.Deployments.{with_deployments, get_deployment, set_status}

-- DeployQueuePolicy
pub record DeployQueuePolicy : Type 0 where
  pub grace : ℕ
  pub hard_timeout : ℕ

-- DeployQueueAdvance
pub record DeployQueueAdvance : Type 0 where
  pub dispatch : Option Deployment
  pub superseded : List ℕ
  pub reaped : List ℕ

-- n.last_seen_at > NOW() - grace, where n is the node of the task; a task with no node has none.
pub node_alive : ℕ → ℕ → List Node → Option ℕ → Bool
node_alive now grace nodes node = any (λ v. at node v.id && ltb now (v.last_seen_at + grace)) nodes

-- The task keeps the deployment alive: it is open on a live node, or it is a completed build whose
-- deploy has not been dispatched.
pub keeps_alive : ℕ → ℕ → List Node → Deployment → Task → Bool
keeps_alive now grace nodes d t =
    (t.deployment_id == d.id)
    && is_rollout t.kind
    && ((is_open t.status && node_alive now grace nodes t.node_id)
        || (is_build t.kind && is_completed_task t.status && is_building d.status))

unfoldable pub is_lost : ℕ → DeployQueuePolicy → List Node → List Task → Deployment → Bool
is_lost now policy nodes tasks d =
    ltb (d.updated_at + policy.hard_timeout) now
    || (ltb (d.updated_at + policy.grace) now
        && not (any (keeps_alive now policy.grace nodes d) tasks))

unfoldable pub lost_of : ℕ → DeployQueuePolicy → ℕ → Db → Deployment → Bool
lost_of now policy p db d = in_flight_of p d && is_lost now policy db.nodes db.tasks d

abbrev pub presumed_lost : LogLine
presumed_lost =
    line
      "marked failed: agent task presumed lost (no live build/deploy task); unblocking the deploy queue"

abbrev pub ids : List Deployment → List ℕ
ids = map λ d. d.id

unfoldable pub fail_deployment : ℕ → LogLine → Deployment → Deployment
fail_deployment now why = set_status now DeploymentStatus.failed (why ∷ [])

-- deployment_id = ANY($1) AND type IN ('build','deploy') AND status IN ('pending','running')
pub open_task_of : List ℕ → Task → Bool
open_task_of deps t = has t.deployment_id deps && is_rollout t.kind && is_open t.status

pub fail_task : String → Task → Task
fail_task why t = record t { status = TaskStatus.failed; result = why }

-- Step 1: the lost deployments and their open tasks fail.
unfoldable pub reap : ℕ → DeployQueuePolicy → ℕ → Db → List ℕ × Db
unfolding fail_deployment fail_task lost_of open_task_of
reap now policy p db =
    let lost = ids (select (lost_of now policy p db) db.deployments) in
    (
      lost,
      record db {
        deployments =
            update (lost_of now policy p db) (fail_deployment now presumed_lost) db.deployments;
        tasks = update (open_task_of lost) (fail_task "deployment presumed lost") db.tasks;
      },
    )

-- ORDER BY created_at DESC, id DESC
pub newer : Deployment → Deployment → Bool
newer a b = ltb b.created_at a.created_at || ((a.created_at == b.created_at) && not (ltb a.id b.id))

pub insert_newer : Deployment → List Deployment → List Deployment
insert_newer d [] = d ∷ []
insert_newer d (x ∷ xs) = if newer d x then d ∷ x ∷ xs else x ∷ insert_newer d xs

pub newest_first : List Deployment → List Deployment
newest_first [] = []
newest_first (x ∷ xs) = insert_newer x (newest_first xs)

pub queue : ℕ → Db → List ℕ
queue p db = ids (newest_first (select (queued_of p) db.deployments))

unfoldable pub start : ℕ → Deployment → Deployment
start now d = record d { status = DeploymentStatus.pending; updated_at = now }

unfoldable pub supersede : ℕ → ℕ → Deployment → Deployment
supersede now by = set_status now DeploymentStatus.superseded (superseded_by by ∷ [])

-- Step 3, for the newest queued id and the others.
pub promote : ℕ → ℕ → List ℕ → Db → Db
unfolding start supersede
promote now newest rest db =
    let started = update (has_id newest) (start now) db.deployments in
    with_deployments db (update (λ d. has d.id rest) (supersede now newest) started)

pub pick_next : ℕ → List ℕ → List ℕ → Db → DeployQueueAdvance × Db
unfolding promote get_deployment
pick_next now reaped [] db = (record { dispatch = none; superseded = []; reaped = reaped }, db)
pick_next now reaped (newest ∷ rest) db =
    let db' = promote now newest rest db in
    (record { dispatch = get_deployment newest db'; superseded = rest; reaped = reaped }, db')

-- Step 2: whatever is still in flight keeps the queue waiting.
pub release_next : ℕ → ℕ → List ℕ → Db → DeployQueueAdvance × Db
unfolding pick_next queue
release_next now p reaped db =
    if ltb 0 (count (in_flight_of p) db.deployments)
    then (record { dispatch = none; superseded = []; reaped = reaped }, db)
    else pick_next now reaped (queue p db) db

unfoldable pub advance_deploy_queue : ℕ → DeployQueuePolicy → ℕ → Db → DeployQueueAdvance × Db
unfolding reap release_next
advance_deploy_queue now policy p db =
    let (reaped, db') = reap now policy p db in release_next now p reaped db'

-- A new id is one that was not seen before.
pub distinct : List ℕ → List ℕ → List ℕ
distinct seen [] = []
distinct seen (n ∷ ns) = let rest = distinct (n ∷ seen) ns in if has n seen then rest else n ∷ rest

-- ListProjectsWithQueuedDeployments: SELECT DISTINCT project_id.
unfoldable pub list_projects_with_queued_deployments : Db → List ℕ
unfolding distinct
list_projects_with_queued_deployments db =
    distinct [] (map (λ d. d.project_id) (select (λ d. is_queued d.status) db.deployments))

pub orphan_of : ℕ → Task → Bool
orphan_of node t = at t.node_id node && is_running_task t.status && is_rollout t.kind

-- FailOrphanedTasksForNode: the projects whose deployments failed are returned.
unfoldable pub fail_orphaned_tasks_for_node : ℕ → ℕ → String → Db → List ℕ × Db
unfolding orphan_of fail_task fail_deployment distinct
fail_orphaned_tasks_for_node now node reason db =
    let deps = map (λ t. t.deployment_id) (select (orphan_of node) db.tasks) in
    let hit = λ (d : Deployment). has d.id deps && in_flight d.status in
    (
      distinct [] (map (λ d. d.project_id) (select hit db.deployments)),
      record db {
        tasks = update (orphan_of node) (fail_task reason) db.tasks;
        deployments = update hit (fail_deployment now (line reason)) db.deployments;
      },
    )
