-- ===== src/Pause/Undone.antt =====
-- What a pause stops, and what a resumption gives back.
use mathlib.Core.Option
use muvee.Prelude.{
  ℕ, ◌≡◌, refl, sym, ap, ◌∙◌, Bool, true, false, Option, none, some, String, first, ◌==◌,
  if◌then◌else◌,
}
use muvee.Prelude.Keys.{first-update, first-holds}
use muvee.Db.{Db, Deployment, Project, ProjectType, TaskType}
use muvee.Db.Deployments.{get_deployment}
use muvee.Db.Tasks.{create_task}
use muvee.Db.Projects.{get_project, set_project_paused}
use muvee.Scheduler.{Error, err, domain_only_project, project_paused, Scheduler}
use muvee.Scheduler.Dispatch.{dispatch_simple}
use muvee.Scheduler.Trigger.{trigger_deployment}
use muvee.Scheduler.Refusals.{refusal, trigger-refused}
use muvee.Pause.{
  dispatch_on, dispatch_loaded, dispatch_running, get_running_deployment_by_project, trigger_pause,
  trigger_resume,
}

dispatch_on-projects :
    (kind : TaskType) (now : ℕ) (prefix : String) (d : Deployment) (o : Option ℕ) (db : Db)
    → (dispatch_on kind now prefix d o db).1.projects ≡ db.projects
unfolding dispatch_on dispatch_simple create_task
dispatch_on-projects kind now prefix d none db = refl
dispatch_on-projects kind now prefix d (some node) db = refl

dispatch_loaded-projects :
    (kind : TaskType) (now : ℕ) (prefix : String) (o : Option Deployment) (db : Db)
    → (dispatch_loaded kind now prefix o db).1.projects ≡ db.projects
unfolding dispatch_loaded
dispatch_loaded-projects kind now prefix none db = refl
dispatch_loaded-projects kind now prefix (some d) db =
    dispatch_on-projects kind now prefix d d.node_id db

-- A task for the running deployment changes no project.
dispatch_running-projects :
    (kind : TaskType) (now : ℕ) (o : Option (Deployment × String)) (db : Db)
    → (dispatch_running kind now o db).1.projects ≡ db.projects
unfolding dispatch_running
dispatch_running-projects kind now none db = refl
dispatch_running-projects kind now (some (d, prefix)) db =
    dispatch_loaded-projects kind now prefix (get_deployment d.id db) db

-- The row that a project has after its flag was written.
paused-row :
    (n : ℕ) (b : Bool) (db : Db) (p : Project)
    → get_project n db ≡ some p
    → get_project n (set_project_paused n b db) ≡ some (record p { paused = b })
unfolding get_project set_project_paused
paused-row n b db p h =
    first-update (λ x. x.id == n) (λ x. x.id == n) (λ x. record x { paused = b }) db.projects
      (λ x. refl)
    ∙ ap (Option.map (λ x. if x.id == n then record x { paused = b } else x)) h
    ∙ rw (first-holds (λ x. x.id == n) db.projects p h) refl

pause-row :
    (now n : ℕ) (db : Db) (p : Project)
    → get_project n db ≡ some p
    → get_project n (trigger_pause true now n db).1 ≡ some (record p { paused = true })
unfolding trigger_pause get_project
pause-row now n db p h =
    let marked : Db = set_project_paused n true db in
    ap (first (λ q. q.id == n)) (
      dispatch_running-projects TaskType.pause now (get_running_deployment_by_project n marked)
        marked)
    ∙ paused-row n true db p h

resume-row :
    (now n : ℕ) (db : Db) (p : Project)
    → get_project n db ≡ some p
    → get_project n (trigger_resume true now n db).1 ≡ some (record p { paused = false })
unfolding trigger_resume get_project
resume-row now n db p h =
    let (task, db') =
      dispatch_running TaskType.unpause now (get_running_deployment_by_project n db) db in
    paused-row n false db' p (
      ap (first (λ q. q.id == n))
        (dispatch_running-projects TaskType.unpause now (get_running_deployment_by_project n db) db)
      ∙ h)

-- Why a paused project of a type is not deployed.
abbrev pub paused_error : ProjectType → Error
paused_error ProjectType.domain_only = domain_only_project
paused_error _ = project_paused

refusal-paused :
    (p : Project) (k : ProjectType)
    → refusal (some (record p { project_type = k; paused = true })) ≡ some (paused_error k)
unfolding refusal
refusal-paused p ProjectType.domain_only = refl
refusal-paused p _ = refl

pub pause-refuses :
    (s : Scheduler) (now later n : ℕ) (p : Project) (db : Db)
    → get_project n db ≡ some p
    → let db' : Db = (trigger_pause true now n db).1 in
      trigger_deployment s later n db' ≡ (err (paused_error p.project_type), db')
pause-refuses s now later n p db h =
    trigger-refused s later n (paused_error p.project_type) (trigger_pause true now n db).1
      (ap refusal (pause-row now n db p h) ∙ refusal-paused p p.project_type)

-- For a project that is there and was not paused: after a pause, a deployment of it is refused,
-- with nothing written, since it is paused, or since it is domain-only if it is; and a resumption
-- then gives back its row as it was.
pub resume-pause :
    (s : Scheduler) (now later n : ℕ) (p : Project) (db : Db)
    → get_project n db ≡ some p
    → p.paused ≡ false
    → let db' : Db = (trigger_pause true now n db).1 in
      (trigger_deployment s later n db' ≡ (err (paused_error p.project_type), db'))
      × (get_project n (trigger_resume true later n db').1 ≡ some p)
resume-pause s now later n p db h f = (
  pause-refuses s now later n p db h,
  resume-row later n (trigger_pause true now n db).1 (record p { paused = true })
        (pause-row now n db p h)
      ∙ ap (λ b. some (record p { paused = b })) (sym f),
)
