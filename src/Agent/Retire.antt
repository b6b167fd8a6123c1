-- ===== src/Agent/Retire.antt =====
-- What a report on a completed deploy leaves of the project's deployments.
use mathlib.Core.Option
use muvee.Prelude.Keys.{update-map, first-map}
use muvee.Prelude.{
  ℕ, ◌<◌, ◌≡◌, refl, ap, ◌∙◌, inl, inr, String, true, Option, none, some, List, [], ◌∷◌, arith,
  ◌==◌, ◌&&◌, if◌then◌else◌, lt→ltb, first, update, All, Bool-cases,
}
use muvee.Db.{Db, Deployment, DeploymentStatus, Project, Task, TaskType}
use muvee.Db.Rows.{is_running, has_id}
use muvee.Db.Deployments.{
  get_deployment, set_deployment_host_port, stop_project_deployments, stale_run, stop,
}
use muvee.Db.Projects.{get_project}
use muvee.Db.Tasks.{create_task}
use muvee.Scheduler.Dispatch.{dispatch_simple}
use muvee.Scheduler.Settled.{Run, IsSettled}
use muvee.Agent.{left_behind, clean_up, retire, retire_of, retire_others, finish_deploy}
use muvee.Agent.Inspect.{first-update}

-- Of the project, no deployment but this one runs.
abbrev pub RunsAlone : ℕ → ℕ → Run → Type 0
RunsAlone p n r = (r.1 == p) && is_running r.2 ≡ true → r.0 ≡ n

pub RunsAlone-IsSettled : (p n : ℕ) → IsSettled (RunsAlone p n)
RunsAlone-IsSettled p n = record {
  to_failed = λ m q st h k. ground arith;
  to_pending = λ m q h k. ground arith;
  to_superseded = λ m q h k. ground arith;
}

abbrev pub HasFailed : ℕ → Run → Type 0
HasFailed n r = r.0 ≡ n → r.2 ≡ DeploymentStatus.failed

pub HasFailed-IsSettled : (n : ℕ) → IsSettled (HasFailed n)
HasFailed-IsSettled n = record {
  to_failed = λ m q st h k. refl;
  to_pending = λ m q h k. cc (h k);
  to_superseded = λ m q h k. cc (h k);
}

pub clean_up-db :
    (now : ℕ) (t : Task) (prefix : String) (olds : List Deployment) (db : Db)
    → (clean_up now t prefix olds db).deployments ≡ db.deployments
unfolding clean_up dispatch_simple create_task
clean_up-db now t prefix [] db = refl
clean_up-db now t prefix (old ∷ olds) db =
    clean_up-db now t prefix olds _ ∙ one (left_behind old.node_id t.node_id)
  where
    one :
        (o : Option ℕ)
        → (elim o as (λ _. Db) [
          | none ↦ db
          | some node ↦ (dispatch_simple now TaskType.cleanup node old.id prefix db).1
        ]).deployments
          ≡ db.deployments
    one none = refl
    one (some node) = refl

-- The rows that `retire` leaves.
unfoldable pub retired : ℕ → ℕ → ℕ → List Deployment → List Deployment
retired now p n ds = update (stale_run p n) (stop now) ds

retire-db :
    (now : ℕ) (t : Task) (d : Deployment) (p : Project) (db : Db)
    → get_deployment t.deployment_id db ≡ some d
    → get_project d.project_id db ≡ some p
    → (retire now t db).deployments ≡ retired now d.project_id t.deployment_id db.deployments
unfolding retire retire_of retire_others retired stop_project_deployments
retire-db now t d p db e f =
    ap (λ (o : Option Deployment). (retire_of now t o db).deployments) e
    ∙ ap (λ (o : Option Project). (retire_others now t d o db).deployments) f
    ∙ (let out = stop_project_deployments now d.project_id t.deployment_id db in
        clean_up-db now t p.domain_prefix out.0 out.1)

pub retired-alone :
    (now p n : ℕ) (ds : List Deployment)
    → All (λ d. RunsAlone p n (d.id, d.project_id, d.status)) (retired now p n ds)
unfolding retired
retired-alone now p n [] = tt
retired-alone now p n (d ∷ ds) = (row, retired-alone now p n ds)
  where
    row :
        let x : Deployment = if stale_run p n d then stop now d else d in
        RunsAlone p n (x.id, x.project_id, x.status)
    row h = elim (Bool-cases (d.id == n)) [ inl e ↦ ground (arith, e) | inr e ↦ ground (arith, e) ]

-- A row that is found has the id, and `retire` leaves it.
has-first :
    (n : ℕ) (ds : List Deployment) (d : Deployment)
    → first (has_id n) ds ≡ some d
    → (d.id == n) ≡ true
has-first n [] d h = cc
has-first n (x ∷ xs) d h = ground (arith, has-first n xs d)

first-retired :
    (now p n : ℕ) (d : Deployment) (ds : List Deployment)
    → (d.id == n) ≡ true
    → first (has_id n) ds ≡ some d
    → first (has_id n) (retired now p n ds) ≡ some d
unfolding retired
first-retired now p n d ds i e =
    let f : Deployment → Deployment = λ x. if stale_run p n x then stop now x else x in
    ap (first (has_id n)) (update-map (stale_run p n) (stop now) ds)
    ∙ first-map (λ (x : Deployment). x.id) f n ds (λ x. ground arith)
    ∙ ap (Option.map f) e
    ∙ ground (arith, i)

-- The deployment as the report leaves it.
abbrev pub hosted : ℕ → ℕ → Deployment → Deployment
hosted now port d = record d {
  host_port = port;
  status = DeploymentStatus.running;
  updated_at = now;
}

host-port :
    (now n port : ℕ) (d : Deployment) (db : Db)
    → get_deployment n db ≡ some d
    → get_deployment n (set_deployment_host_port now n port db) ≡ some (hosted now port d)
unfolding get_deployment set_deployment_host_port
host-port now n port d db e =
    first-update (has_id n) (hosted now port) db.deployments (λ x. refl)
    ∙ ap (Option.map (hosted now port)) e

-- What `finish_deploy` does with a port.
pub finish-with_port :
    (now port : ℕ) (t : Task) (d : Deployment) (p : Project) (db : Db)
    → 0 < port
    → get_deployment t.deployment_id db ≡ some d
    → get_project d.project_id db ≡ some p
    → (finish_deploy now port t db).deployments
      ≡ retired now d.project_id t.deployment_id
          (set_deployment_host_port now t.deployment_id port db).deployments
unfolding finish_deploy
finish-with_port now port t d p db h e f = rw (lt→ltb 0 port h) (
    retire-db now t (hosted now port d) p (set_deployment_host_port now t.deployment_id port db)
      (host-port now t.deployment_id port d db e)
      (unfold get_project set_deployment_host_port in f))

-- A completed deploy that reports a port: the deployment is running on that port, and no other
-- deployment of its project is.
pub finish_deploy-running :
    (now port : ℕ) (t : Task) (d : Deployment) (p : Project) (db : Db)
    → 0 < port
    → get_deployment t.deployment_id db ≡ some d
    → get_project d.project_id db ≡ some p
    → (get_deployment t.deployment_id (finish_deploy now port t db) ≡ some (hosted now port d))
      × All
          (λ x. RunsAlone d.project_id t.deployment_id (x.id, x.project_id, x.status))
          (finish_deploy now port t db).deployments
unfolding get_deployment
finish_deploy-running now port t d p db h e f =
    let rows = finish-with_port now port t d p db h e f in
    let n = t.deployment_id in
    let written = (set_deployment_host_port now n port db).deployments in
    (
      ap (first (has_id n)) rows
          ∙ first-retired now d.project_id n (hosted now port d) written
              (has-first n db.deployments d e) (host-port now n port d db e),
      rw rows (retired-alone now d.project_id n written),
    )
