-- ===== src/Scheduler/FirstTask.antt =====
-- The task that the dispatch of a deployment creates.
use muvee.Prelude.{
  not, ℕ, ◌≡◌, refl, ap, ◌∙◌, String, Bool, true, false, List, [], ◌∷◌, ◌++◌, ◌==◌, ◌&&◌, ◌||◌,
  if◌then◌else◌, map, select,
}
use muvee.Db.{
  Db, Deployment, Node, Project, ProjectDataset, ProjectType, Task, TaskType, TaskStatus,
}
use muvee.Db.Deployments.{set_deployment_node}
use muvee.Db.Nodes.{remove_node_dataset}
use muvee.Db.Projects.{set_project_pinned_node}
use muvee.Db.Tasks.{create_task}
use muvee.Db.Rows.{is_hosted}
use muvee.Scheduler.{
  no_git_url, no_expose, no_image_ref, no_container_port, Error, Result, ok, err, M, raise, after,
  ◌>>=◌, Scheduler,
}
use muvee.Scheduler.Pick.{pick_builder_node, pick_deploy_node, pick_or_reuse_pinned_node}
use muvee.Scheduler.Dispatch.{
  send_build, dispatch_build, send_deploy, fixed_or, dispatch_compose_deploy, dispatch_image_deploy,
  dispatch_container_deploy, dispatch_deploy,
}
use muvee.Scheduler.Payload.{
  Payload, compose_payload, image_payload, container_payload, is_empty, is_dependency,
}
use muvee.Scheduler.Keeps.{Relation, Keeps, IsKeptByChoice}
use muvee.Scheduler.Keeps.Picks.{
  pick_builder_node-Keeps, pick_deploy_node-Keeps, pinned-Keeps, fixed_or-Keeps,
}

same_tasks : Relation
same_tasks = record { rel = λ a b. b.tasks ≡ a.tasks; stay = λ db. refl; step = λ a b c h k. k ∙ h }

same_tasks-IsKeptByChoice : IsKeptByChoice same_tasks
unfolding same_tasks set_project_pinned_node remove_node_dataset
same_tasks-IsKeptByChoice = record { pin = λ p node db. refl; drop_dataset = λ node ds db. refl }

-- A task for the deployment that waits for its agent.
abbrev pub IsFirstTask : TaskType → ℕ → Task → Type 0
IsFirstTask kind dep t = (t.kind ≡ kind) × (t.deployment_id ≡ dep) × (t.status ≡ TaskStatus.pending)

-- A success adds such a task, and a failure adds none.
abbrev pub AddsTask : TaskType → ℕ → Db → Result (Unit {0}) × Db → Type 0
AddsTask kind dep db (ok _, db') =
    (t : Task) × (db'.tasks ≡ db.tasks ++ t ∷ []) × IsFirstTask kind dep t
AddsTask kind dep db (err e, db') = db'.tasks ≡ db.tasks

abbrev Adds : TaskType → ℕ → M (Unit {0}) → Type 0
Adds kind dep m = (db : Db) → AddsTask kind dep db (m db)

-- A choice of a node that leaves the tasks, followed by a creation.
choose-Adds :
    (kind : TaskType) (dep : ℕ) (m : M Node) (f : Node → M (Unit {0}))
    → Keeps same_tasks m
    → ((n : Node) → Adds kind dep (f n))
    → Adds kind dep (m >>= f)
unfolding same_tasks
choose-Adds kind dep m f h k db = go (m db).0 (m db).1 (h db)
  where
    moved :
        (db' : Db) (out : Result (Unit {0}) × Db)
        → db'.tasks ≡ db.tasks
        → AddsTask kind dep db' out
        → AddsTask kind dep db out
    moved db' (ok _, c) e (t, r, i) = (t, r ∙ ap (λ (ts : List Task). ts ++ t ∷ []) e, i)
    moved db' (err _, c) e r = r ∙ e

    go : (r : Result Node) (db' : Db) → db'.tasks ≡ db.tasks → AddsTask kind dep db (after r f db')
    go (ok n) db' e = moved db' (f n db') e (k n db')
    go (err e) db' h = h

if-Adds :
    (kind : TaskType) (dep : ℕ) (b : Bool) (e : Error) (m : M (Unit {0}))
    → Adds kind dep m
    → Adds kind dep (if b then raise e else m)
if-Adds kind dep true e m h db = refl
if-Adds kind dep false e m h db = h db

send_deploy-Adds :
    (now : ℕ) (dep : Deployment) (node : Node) (payload_of : Db → Payload)
    → Adds TaskType.deploy dep.id (send_deploy now dep node payload_of)
unfolding send_deploy set_deployment_node create_task
send_deploy-Adds now dep node payload_of db = (_, refl, (refl, refl, refl))

send_build-Adds :
    (s : Scheduler) (now : ℕ) (dep : Deployment) (p : Project)
    → Adds TaskType.build dep.id (send_build s now dep p)
unfolding send_build create_task
send_build-Adds s now dep p =
    choose-Adds TaskType.build dep.id (pick_builder_node now) _
      (pick_builder_node-Keeps same_tasks same_tasks-IsKeptByChoice now)
      (λ n db. (_, refl, (refl, refl, refl)))

place-Adds :
    (now : ℕ) (dep : Deployment) (p : Project) (fallback : M Node) (payload_of : Db → Payload)
    → Keeps same_tasks fallback
    → Adds TaskType.deploy dep.id
        (fixed_or now p fallback >>= λ node. send_deploy now dep node payload_of)
place-Adds now dep p fallback payload_of h =
    choose-Adds TaskType.deploy dep.id (fixed_or now p fallback)
      (λ node. send_deploy now dep node payload_of)
      (fixed_or-Keeps same_tasks same_tasks-IsKeptByChoice now p fallback h)
      (λ n. send_deploy-Adds now dep n payload_of)

compose-Adds :
    (s : Scheduler) (now : ℕ) (dep : Deployment) (p : Project)
    → Adds TaskType.deploy dep.id (dispatch_compose_deploy s now dep p)
unfolding dispatch_compose_deploy
compose-Adds s now dep p =
    let place : M (Unit {0}) = fixed_or now p (pick_or_reuse_pinned_node s now p) >>= λ node.
    send_deploy now dep node (compose_payload s dep p) in
    let no_place : Bool = is_empty p.expose_service || (p.expose_port == 0) in
    if-Adds TaskType.deploy dep.id (not (is_hosted p.git_source) && is_empty p.git_url) no_git_url
      (if no_place then raise no_expose else place)
      (if-Adds TaskType.deploy dep.id no_place no_expose place (
        place-Adds now dep p (pick_or_reuse_pinned_node s now p) (compose_payload s dep p)
          (pinned-Keeps same_tasks same_tasks-IsKeptByChoice s now p p.pinned_node_id)))

image-Adds :
    (s : Scheduler) (now : ℕ) (dep : Deployment) (p : Project)
    → Adds TaskType.deploy dep.id (dispatch_image_deploy s now dep p)
unfolding dispatch_image_deploy
image-Adds s now dep p =
    let place : M (Unit {0}) = fixed_or now p (pick_or_reuse_pinned_node s now p) >>= λ node.
    send_deploy now dep node (image_payload dep p) in
    let no_place : Bool = p.container_port == 0 in
    if-Adds TaskType.deploy dep.id (is_empty p.image_ref) no_image_ref
      (if no_place then raise no_container_port else place)
      (if-Adds TaskType.deploy dep.id no_place no_container_port place (
        place-Adds now dep p (pick_or_reuse_pinned_node s now p) (image_payload dep p)
          (pinned-Keeps same_tasks same_tasks-IsKeptByChoice s now p p.pinned_node_id)))

container-Adds :
    (s : Scheduler) (now : ℕ) (dep : Deployment) (p : Project) (tag : String)
    → Adds TaskType.deploy dep.id (dispatch_container_deploy s now dep p tag)
unfolding dispatch_container_deploy
container-Adds s now dep p tag db =
    let wanted : List ℕ =
      map (λ (d : ProjectDataset). d.dataset_id)
        (select (λ d. is_dependency d.mount_mode) (db.project_datasets p.id)) in
    place-Adds now dep p (pick_deploy_node s now wanted) (container_payload dep p tag)
      (pick_deploy_node-Keeps same_tasks same_tasks-IsKeptByChoice s now wanted) db

deploy_of-Adds :
    (s : Scheduler) (now : ℕ) (dep : Deployment) (p : Project) (tag : String) (k : ProjectType)
    → Adds TaskType.deploy dep.id (dispatch_deploy s now dep (record p { project_type = k }) tag)
unfolding dispatch_deploy
deploy_of-Adds s now dep p tag ProjectType.domain_only db = refl
deploy_of-Adds s now dep p tag ProjectType.compose db =
    compose-Adds s now dep (record p { project_type = ProjectType.compose }) db
deploy_of-Adds s now dep p tag ProjectType.image db =
    image-Adds s now dep (record p { project_type = ProjectType.image }) db
deploy_of-Adds s now dep p tag ProjectType.deployment db =
    container-Adds s now dep (record p { project_type = ProjectType.deployment }) tag db
deploy_of-Adds s now dep p tag ProjectType.build db =
    container-Adds s now dep (record p { project_type = ProjectType.build }) tag db

-- DispatchDeploy, whatever the project's type, creates exactly one task, a pending deploy of this
-- deployment; if it fails, it creates none.
pub dispatch_deploy-AddsTask :
    (s : Scheduler) (now : ℕ) (dep : Deployment) (p : Project) (tag : String) (db : Db)
    → AddsTask TaskType.deploy dep.id db (dispatch_deploy s now dep p tag db)
dispatch_deploy-AddsTask s now dep p tag db = deploy_of-Adds s now dep p tag p.project_type db

build_of-Adds :
    (s : Scheduler) (now : ℕ) (dep : Deployment) (p : Project) (k : ProjectType)
    → Adds TaskType.build dep.id (dispatch_build s now dep (record p { project_type = k }))
unfolding dispatch_build
build_of-Adds s now dep p ProjectType.domain_only db = refl
build_of-Adds s now dep p ProjectType.compose db = refl
build_of-Adds s now dep p ProjectType.image db = refl
build_of-Adds s now dep p ProjectType.deployment db =
    send_build-Adds s now dep (record p { project_type = ProjectType.deployment }) db
build_of-Adds s now dep p ProjectType.build db =
    send_build-Adds s now dep (record p { project_type = ProjectType.build }) db

-- DispatchBuild creates exactly one task, a pending build of this deployment; if it fails, it
-- creates none.
pub dispatch_build-AddsTask :
    (s : Scheduler) (now : ℕ) (dep : Deployment) (p : Project) (db : Db)
    → AddsTask TaskType.build dep.id db (dispatch_build s now dep p db)
dispatch_build-AddsTask s now dep p db = build_of-Adds s now dep p p.project_type db
