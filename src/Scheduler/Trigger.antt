-- ===== src/Scheduler/Trigger.antt =====
-- The deploy queue in internal/scheduler/scheduler.go: what starts a deployment, and what moves
-- its project's queue on.
use muvee.Prelude.{ℕ, Option, none, some, List, [], ◌∷◌, ◌==◌, if◌then◌else◌}
use muvee.Db.{Db, Deployment, DeploymentStatus, Project, ProjectType}
use muvee.Db.Deployments.{create_deployment, get_deployment, update_deployment_status}
use muvee.Db.Projects.{get_project}
use muvee.Queue.{
  advance_deploy_queue, list_projects_with_queued_deployments, fail_orphaned_tasks_for_node,
}
use muvee.Scheduler.{
  Error, project_not_found, domain_only_project, project_paused, message, Result, ok, err, M, pure,
  raise, wrap, Scheduler,
}
use muvee.Scheduler.Dispatch.{dispatch_build, dispatch_deploy}

-- The first task of the chain, by the project's type.
unfoldable pub first_task : Scheduler → ℕ → Deployment → Project → M (Unit {0})
first_task s now dep p = elim p.project_type [
  | ProjectType.compose ↦ wrap "dispatch deploy: " (dispatch_deploy s now dep p "")
  | ProjectType.image ↦ wrap "dispatch deploy: " (dispatch_deploy s now dep p "")
  | _ ↦ wrap "dispatch build: " (dispatch_build s now dep p)
]

unfoldable pub dispatch_chain : Scheduler → ℕ → Deployment → M (Unit {0})
unfolding first_task
dispatch_chain s now dep db = elim (get_project dep.project_id db) [
  | none ↦ raise project_not_found db
  | some p ↦ (if p.paused then raise project_paused else first_task s now dep p) db
]

-- The end of AdvanceDeployQueue: a deployment whose dispatch failed is marked failed.
unfoldable pub settle_dispatch : ℕ → Deployment → Result (Unit {0}) × Db → (ℕ × Option Error) × Db
unfolding message
settle_dispatch now dep (ok _, db) = ((dep.id, none), db)
settle_dispatch now dep (err e, db) =
    ((dep.id, some e), update_deployment_status now dep.id DeploymentStatus.failed (message e) db)

-- The id of the dispatched deployment, or uuid.Nil, which is 0, and the error of dispatching it.
unfoldable pub advance_queue : Scheduler → ℕ → ℕ → Db → (ℕ × Option Error) × Db
unfolding settle_dispatch dispatch_chain
advance_queue s now p db =
    let (adv, db') = advance_deploy_queue now s.policy p db in
    elim adv.dispatch [
      | none ↦ ((0, none), db')
      | some dep ↦ settle_dispatch now dep (dispatch_chain s now dep db')
    ]

-- The row as it now stands, or else as it was created.
unfoldable pub latest : Deployment → M Deployment
latest dep db = elim (get_deployment dep.id db) [ none ↦ pure dep db | some d ↦ pure d db ]

unfoldable pub finish_trigger : Deployment → ℕ × Option Error → M Deployment
unfolding latest
finish_trigger dep (id, none) = latest dep
finish_trigger dep (id, some e) = if id == dep.id then raise e else latest dep

-- The deployment is queued, and the queue moves on.
unfoldable pub enqueue : Scheduler → ℕ → ℕ → M Deployment
unfolding advance_queue finish_trigger
enqueue s now p db =
    let (dep, db') = create_deployment now p "" DeploymentStatus.queued db in
    let (out, db'') = advance_queue s now p db' in finish_trigger dep out db''

unfoldable pub admit : Scheduler → ℕ → ℕ → Project → M Deployment
unfolding enqueue
admit s now id p = elim p.project_type [
  | ProjectType.domain_only ↦ raise domain_only_project
  | _ ↦ if p.paused then raise project_paused else enqueue s now id
]

unfoldable pub trigger_deployment : Scheduler → ℕ → ℕ → M Deployment
unfolding admit
trigger_deployment s now p db = elim (get_project p db) [
  | none ↦ raise project_not_found db
  | some project ↦ admit s now p project db
]

unfoldable pub advance_deploy_queue_for : Scheduler → ℕ → ℕ → Db → Db
unfolding advance_queue
advance_deploy_queue_for s now dep db = elim (get_deployment dep db) [
  | none ↦ db
  | some d ↦ (advance_queue s now d.project_id db).1
]

-- The queues of several projects move on, one after the other.
unfoldable pub advance_each : Scheduler → ℕ → List ℕ → Db → Db
unfolding advance_queue
advance_each s now [] db = db
advance_each s now (p ∷ ps) db = advance_each s now ps (advance_queue s now p db).1

unfoldable pub sweep_deploy_queues : Scheduler → ℕ → Db → Db
unfolding advance_each
sweep_deploy_queues s now db = advance_each s now (list_projects_with_queued_deployments db) db

unfoldable pub recover_agent_restart : Scheduler → ℕ → ℕ → Db → Db
unfolding advance_each
recover_agent_restart s now node db =
    let (ps, db') = fail_orphaned_tasks_for_node now node "agent restarted; task lost" db in
    advance_each s now ps db'
