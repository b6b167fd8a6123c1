-- ===== src/Agent/Builds.antt =====
-- What follows a completed build, and the invariant of the deployments.
use mathlib.Core.Option
use muvee.Prelude.{
  ℕ, ◌≡◌, refl, sym, ◌∙◌, inl, inr, String, true, Option, none, some, [], arith, Bool-cases,
}
use muvee.Db.{Db, Deployment, DeploymentStatus, Project, ProjectType, Task}
use muvee.Db.Rows.{in_flight, has_id}
use muvee.Db.Deployments.{
  get_deployment, update_deployment_status, set_deployment_image_tag, set_deployment_host_port,
  set_status,
}
use muvee.Db.Projects.{get_project, set_project_last_image_tag}
use muvee.Db.Tasks.{update_task_status}
use muvee.Queue.Serial.{IsSerial, update-IsSerial}
use muvee.Scheduler.{Result, ok, err, message, Scheduler}
use muvee.Scheduler.Dispatch.{dispatch_deploy}
use muvee.Scheduler.Payload.{is_empty}
use muvee.Scheduler.Keeps.Dispatches.{dispatch_deploy-Keeps}
use muvee.Scheduler.Serial.{
  same_runs, runs-IsKept, runs-IsSerial, fail-IsSerial, advance_queue-IsSerial,
}
use muvee.Agent.{Json}
use muvee.Agent.Inspect.{first-update}
use muvee.Agent.Reports.{stay-IsSerial}
use muvee.Agent.Loops.{
  trigger_downstream, finish_build_only, after_deploy, deploy_build, finish_build, complete_build,
  mark_dispatched,
}

-- The deployment of this id, if there is one, is in flight.
abbrev pub InFlight : ℕ → Db → Type 0
InFlight n db = (d : Deployment) → get_deployment n db ≡ some d → in_flight d.status ≡ true

mark-IsSerial : (t : Task) (db : Db) → IsSerial db → IsSerial (mark_dispatched t db)
unfolding update_task_status
mark-IsSerial t db v = record { unique = v.unique; one = v.one }

after_deploy-IsSerial :
    (s : Scheduler) (now : ℕ) (t : Task) (p : Project) (r : Result (Unit {0})) (db : Db)
    → IsSerial db
    → IsSerial (after_deploy s now t p (r, db))
unfolding after_deploy
after_deploy-IsSerial s now t p (ok _) db v = mark-IsSerial t db v
after_deploy-IsSerial s now t p (err e) db v =
    advance_queue-IsSerial s now p.id _
      (mark-IsSerial t _ (fail-IsSerial now t.deployment_id (message e) db v))

deploy_build-IsSerial :
    (s : Scheduler) (now : ℕ) (tag : String) (t : Task) (dep : Deployment) (p : Project) (db : Db)
    → IsSerial db
    → InFlight t.deployment_id db
    → IsSerial (deploy_build s now tag t dep p db)
unfolding deploy_build
deploy_build-IsSerial s now tag t dep p db v h =
    let db' = update_deployment_status now t.deployment_id DeploymentStatus.deploying "" db in
    let out = dispatch_deploy s now dep p tag db' in
    after_deploy-IsSerial s now t p out.0 out.1 (
      runs-IsSerial db' out.1
        (unfold same_runs in dispatch_deploy-Keeps same_runs runs-IsKept s now dep p tag db')
        (stay-IsSerial now t.deployment_id DeploymentStatus.deploying db v refl h))

-- A project that triggers no others.
finish_build_only-IsSerial :
    (s : Scheduler) (now : ℕ) (tag : String) (t : Task) (p : Project) (db : Db)
    → IsSerial db
    → p.triggers_redeploy_of ≡ []
    → IsSerial (finish_build_only s now tag t p db)
unfolding finish_build_only trigger_downstream set_project_last_image_tag update_deployment_status
    set_deployment_host_port
finish_build_only-IsSerial s now tag t p db v e =
    let f : Deployment → Deployment = set_status now DeploymentStatus.running [] in
    let g : Deployment → Deployment =
      λ d. record d { host_port = 0; status = DeploymentStatus.running; updated_at = now } in
    let tagged = set_project_last_image_tag p.id tag db in
    let ran = update_deployment_status now t.deployment_id DeploymentStatus.running "" tagged in
    rw e (
      advance_queue-IsSerial s now p.id _ (
        mark-IsSerial t _ (
          update-IsSerial (has_id t.deployment_id) g ran (λ d. refl) (λ q d k. ground arith)
            (update-IsSerial (has_id t.deployment_id) f tagged (λ d. refl) (λ q d k. ground arith)
              (record { unique = v.unique; one = v.one })))))

tagged-status :
    (now : ℕ) (tag : String) (o : Option Deployment) (d : Deployment)
    → Option.map (λ (x : Deployment). record x { image_tag = tag; updated_at = now }) o ≡ some d
    → ((x : Deployment) → o ≡ some x → in_flight x.status ≡ true)
    → in_flight d.status ≡ true
tagged-status now tag none d e h = cc
tagged-status now tag (some x) d e h = ground (arith, h x refl, e)

tag-InFlight :
    (now n : ℕ) (tag : String) (db : Db)
    → InFlight n db
    → InFlight n (set_deployment_image_tag now n tag db)
unfolding get_deployment set_deployment_image_tag
tag-InFlight now n tag db h d e =
    tagged-status now tag (get_deployment n db) d
      (sym (
          first-update (has_id n) (λ x. record x { image_tag = tag; updated_at = now })
            db.deployments (λ x. refl))
        ∙ e)
      h

tag-IsSerial :
    (now n : ℕ) (tag : String) (db : Db)
    → IsSerial db
    → IsSerial (set_deployment_image_tag now n tag db)
unfolding set_deployment_image_tag
tag-IsSerial now n tag db v =
    update-IsSerial (has_id n) (λ x. record x { image_tag = tag; updated_at = now }) db (λ d. refl)
      (λ p d h. h) v

finish_build-IsSerial :
    (s : Scheduler) (now : ℕ) (tag : String) (t : Task) (dep : Deployment) (p : Project)
    (k : ProjectType) (db : Db)
    → IsSerial db
    → InFlight t.deployment_id db
    → p.triggers_redeploy_of ≡ []
    → IsSerial (finish_build s now tag t dep (record p { project_type = k }) db)
unfolding finish_build
finish_build-IsSerial s now tag t dep p ProjectType.build db v h e =
    finish_build_only-IsSerial s now tag t (record p { project_type = ProjectType.build }) _
      (tag-IsSerial now t.deployment_id tag db v) e
finish_build-IsSerial s now tag t dep p ProjectType.deployment db v h e =
    deploy_build-IsSerial s now tag t dep (record p { project_type = ProjectType.deployment }) _
      (tag-IsSerial now t.deployment_id tag db v) (tag-InFlight now t.deployment_id tag db h)
finish_build-IsSerial s now tag t dep p ProjectType.compose db v h e =
    deploy_build-IsSerial s now tag t dep (record p { project_type = ProjectType.compose }) _
      (tag-IsSerial now t.deployment_id tag db v) (tag-InFlight now t.deployment_id tag db h)
finish_build-IsSerial s now tag t dep p ProjectType.image db v h e =
    deploy_build-IsSerial s now tag t dep (record p { project_type = ProjectType.image }) _
      (tag-IsSerial now t.deployment_id tag db v) (tag-InFlight now t.deployment_id tag db h)
finish_build-IsSerial s now tag t dep p ProjectType.domain_only db v h e =
    deploy_build-IsSerial s now tag t dep (record p { project_type = ProjectType.domain_only }) _
      (tag-IsSerial now t.deployment_id tag db v) (tag-InFlight now t.deployment_id tag db h)

-- The handling of one completed build, whose deployment is in flight, keeps the invariant of the
-- deployments, whatever the dispatch of its deploy returns. The build's project triggers no others.
pub complete_build-IsSerial :
    (json : Json) (s : Scheduler) (now : ℕ) (t : Task) (d : Deployment) (p : Project) (db : Db)
    → IsSerial db
    → get_deployment t.deployment_id db ≡ some d
    → in_flight d.status ≡ true
    → get_project d.project_id db ≡ some p
    → p.triggers_redeploy_of ≡ []
    → IsSerial (complete_build json s now t db)
unfolding complete_build
complete_build-IsSerial json s now t d p db v e i f g =
    let tag = json.unmarshal_tag t.result in
    let h : InFlight t.deployment_id db = λ x k. found x (sym e ∙ k) in
    elim (Bool-cases (is_empty tag)) [
      | inl b ↦ rw b v
      | inr b ↦ rw b (rw (e, f) (finish_build-IsSerial s now tag t d p p.project_type db v h g))
    ]
  where
    found : (x : Deployment) → some d ≡ some x → in_flight x.status ≡ true
    found x k = ground (arith, i, k)
