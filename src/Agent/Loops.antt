-- ===== src/Agent/Loops.antt =====
-- The control loops of cmd/muvee/server.go: checkBuildCompletions with
-- autoTriggerDownstreamRedeploys, and checkNodeFailovers. Each is one tick of its ticker.
use muvee.Prelude.{
  ℕ, ◌+◌, ◌*◌, String, Bool, none, some, List, [], ◌∷◌, ◌&&◌, ltb, not, any, select, take,
  if◌then◌else◌, str_append,
}
use muvee.Db.{
  Db, Deployment, DeploymentStatus, Task, TaskStatus, Node, NodeRole, Project, ProjectType, minute,
}
use muvee.Db.Rows.{is_build, is_completed_task, is_building, is_running, at, has_id}
use muvee.Db.Deployments.{
  create_deployment, get_deployment, update_deployment_status, set_deployment_image_tag,
  set_deployment_host_port,
}
use muvee.Db.Tasks.{update_task_status}
use muvee.Db.Nodes.{same_role, list_nodes}
use muvee.Db.Projects.{get_project, set_project_last_image_tag}
use muvee.Scheduler.{Scheduler, Result, ok, err, message}
use muvee.Scheduler.Dispatch.{dispatch_deploy}
use muvee.Scheduler.Payload.{is_empty}
use muvee.Scheduler.Trigger.{advance_queue, trigger_deployment}
use muvee.Agent.{Json}

-- autoTriggerDownstreamRedeploys; a failure is logged and the next one goes on.
unfoldable pub trigger_downstream : Scheduler → ℕ → List ℕ → Db → Db
unfolding trigger_deployment
trigger_downstream s now [] db = db
trigger_downstream s now (p ∷ ps) db = trigger_downstream s now ps (trigger_deployment s now p db).1

-- The build's deploy has been dispatched: its result is no JSON object any more.
abbrev pub mark_dispatched : Task → Db → Db
mark_dispatched t = update_task_status t.id TaskStatus.completed (str_append t.result "_dispatched")

-- A build-only project: the tag is the project's, and nothing is deployed.
unfoldable pub finish_build_only : Scheduler → ℕ → String → Task → Project → Db → Db
unfolding trigger_downstream
finish_build_only s now tag t p db =
    let tagged = set_project_last_image_tag p.id tag db in
    let ran = update_deployment_status now t.deployment_id DeploymentStatus.running "" tagged in
    let marked = mark_dispatched t (set_deployment_host_port now t.deployment_id 0 ran) in
    trigger_downstream s now p.triggers_redeploy_of (advance_queue s now p.id marked).1

-- The end of a deploy that follows a build.
unfoldable pub after_deploy : Scheduler → ℕ → Task → Project → Result (Unit {0}) × Db → Db
unfolding message
after_deploy s now t p (ok _, db) = mark_dispatched t db
after_deploy s now t p (err e, db) =
    let failed =
      update_deployment_status now t.deployment_id DeploymentStatus.failed (message e) db in
    (advance_queue s now p.id (mark_dispatched t failed)).1

unfoldable pub deploy_build : Scheduler → ℕ → String → Task → Deployment → Project → Db → Db
unfolding after_deploy
deploy_build s now tag t dep p db =
    let db' = update_deployment_status now t.deployment_id DeploymentStatus.deploying "" db in
    after_deploy s now t p (dispatch_deploy s now dep p tag db')

unfoldable pub finish_build : Scheduler → ℕ → String → Task → Deployment → Project → Db → Db
unfolding finish_build_only deploy_build
finish_build s now tag t dep p db =
    let db' = set_deployment_image_tag now t.deployment_id tag db in
    elim p.project_type [
      | ProjectType.build ↦ finish_build_only s now tag t p db'
      | _ ↦ deploy_build s now tag t dep p db'
    ]

-- One row of the query.
unfoldable pub complete_build : Json → Scheduler → ℕ → Task → Db → Db
unfolding finish_build
complete_build json s now t db =
    let tag = json.unmarshal_tag t.result in
    if is_empty tag then db else elim (get_deployment t.deployment_id db) [
      | none ↦ db
      | some dep ↦ elim (get_project dep.project_id db) [
        | none ↦ db
        | some p ↦ finish_build s now tag t dep p db
      ]
    ]

-- A completed build whose deployment is still building.
abbrev pub is_built : Db → Task → Bool
is_built db t =
    is_build t.kind
    && is_completed_task t.status
    && any (λ d. has_id t.deployment_id d && is_building d.status) db.deployments

unfoldable pub complete_builds : Json → Scheduler → ℕ → List Task → Db → Db
unfolding complete_build
complete_builds json s now [] db = db
complete_builds json s now (t ∷ ts) db =
    complete_builds json s now ts (complete_build json s now t db)

-- The rows are those of one query, and at most twenty.
unfoldable pub check_build_completions : Json → Scheduler → ℕ → Db → Db
unfolding complete_builds
check_build_completions json s now db =
    complete_builds json s now (take 20 (select (is_built db) db.tasks)) db

abbrev pub dead_node_threshold : ℕ
dead_node_threshold = 3 * minute

-- The end of a replacement's deploy.
unfoldable pub after_failover : Scheduler → ℕ → ℕ → ℕ → Result (Unit {0}) × Db → Db
unfolding message
after_failover s now p dep (ok _, db) = db
after_failover s now p dep (err e, db) =
    (advance_queue s now p
      (update_deployment_status now dep DeploymentStatus.failed (message e) db)).1

-- The deployment of the dead node is stopped, and its replacement is deploying at once: it does not
-- wait in the project's queue.
unfoldable pub prepare : ℕ → Node → Deployment → Db → Deployment × Db
prepare now node dep db =
    let stopped =
      update_deployment_status now dep.id DeploymentStatus.stopped
        (str_append "evicted: node " (str_append node.hostname " offline")) db in
    let (new, created) =
      create_deployment now dep.project_id dep.image_tag DeploymentStatus.pending stopped in
    (new, update_deployment_status now new.id DeploymentStatus.deploying "" created)

unfoldable pub replace : Scheduler → ℕ → Node → Deployment → Project → Db → Db
unfolding prepare after_failover
replace s now node dep p db =
    let (new, moving) = prepare now node dep db in
    after_failover s now p.id new.id (dispatch_deploy s now new p new.image_tag moving)

unfoldable pub evict_deployment : Scheduler → ℕ → Node → Deployment → Db → Db
unfolding replace
evict_deployment s now node dep db = elim (get_project dep.project_id db) [
  | none ↦ db
  | some p ↦
      if p.paused then db else if is_empty dep.image_tag then db else replace s now node dep p db
]

unfoldable pub evict_deployments : Scheduler → ℕ → Node → List Deployment → Db → Db
unfolding evict_deployment
evict_deployments s now node [] db = db
evict_deployments s now node (d ∷ ds) db =
    evict_deployments s now node ds (evict_deployment s now node d db)

-- GetRunningDeploymentsByNode
abbrev pub running_on : ℕ → Db → List Deployment
running_on node db = select (λ d. at d.node_id node && is_running d.status) db.deployments

abbrev pub is_dead : ℕ → Node → Bool
is_dead now n =
    same_role n.role NodeRole.deploy && not (ltb now (n.last_seen_at + dead_node_threshold))

unfoldable pub fail_over : Scheduler → ℕ → List Node → Db → Db
unfolding evict_deployments
fail_over s now [] db = db
fail_over s now (n ∷ ns) db =
    fail_over s now ns
      (if is_dead now n then evict_deployments s now n (running_on n.id db) db else db)

unfoldable pub check_node_failovers : Scheduler → ℕ → Db → Db
unfolding fail_over
check_node_failovers s now db = fail_over s now (list_nodes db) db
