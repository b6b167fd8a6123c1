-- ===== src/Scheduler/Refusals.antt =====
-- When TriggerDeployment refuses, and what a failed dispatch leaves.
use muvee.Prelude.{ℕ, ◌≡◌, Option, none, some, arith, if◌then◌else◌}
use muvee.Db.{Db, Deployment, Project, ProjectType}
use muvee.Db.Projects.{get_project}
use muvee.Scheduler.{
  Error, project_not_found, domain_only_project, project_paused, Result, err, Scheduler,
}
use muvee.Scheduler.Trigger.{admit, trigger_deployment}

-- Why a project cannot be deployed at all.
unfoldable pub refusal : Option Project → Option Error
refusal none = some project_not_found
refusal (some p) = elim p.project_type [
  | ProjectType.domain_only ↦ some domain_only_project
  | _ ↦ if p.paused then some project_paused else none
]

refused-admit :
    (s : Scheduler) (now id : ℕ) (p : Project) (k : ProjectType) (e : Error) (db : Db)
    → refusal (some (record p { project_type = k })) ≡ some e
    → admit s now id (record p { project_type = k }) db ≡ (err e, db)
unfolding refusal admit
refused-admit s now id p ProjectType.domain_only e db h = cc
refused-admit s now id p _ e db h = ground (arith, h)

refused-case :
    (s : Scheduler) (now id : ℕ) (o : Option Project) (e : Error) (db : Db)
    → refusal o ≡ some e
    → (let r : Result Deployment × Db = elim o [
      | none ↦ (err project_not_found, db)
      | some p ↦ admit s now id p db
    ] in
        r)
      ≡ (err e, db)
unfolding refusal
refused-case s now id none e db h = cc
refused-case s now id (some p) e db h = refused-admit s now id p p.project_type e db h

pub trigger-refused :
    (s : Scheduler) (now p : ℕ) (e : Error) (db : Db)
    → refusal (get_project p db) ≡ some e
    → trigger_deployment s now p db ≡ (err e, db)
unfolding trigger_deployment
trigger-refused s now p e db h = refused-case s now p (get_project p db) e db h
