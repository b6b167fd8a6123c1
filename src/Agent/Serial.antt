-- ===== src/Agent/Serial.antt =====
-- What an agent's report does to the invariant of the deployments.
use muvee.Prelude.{
  ℕ, ◌+◌, ◌≤◌, ◌≡◌, refl, ap, ◌∙◌, Bool, true, false, Option, some, List, [], ◌∷◌, arith, ◌==◌,
  count, first, update, ==_refl,
}
use muvee.Db.{Db, Deployment, DeploymentStatus, LogLine, Task, TaskType, TaskStatus}
use muvee.Db.Rows.{in_flight, in_flight_of, has_id}
use muvee.Db.Deployments.{get_deployment, update_deployment_status, set_status}
use muvee.Db.Tasks.{get_task, update_task_status}
use muvee.Queue.Counts.{in_flight_count}
use muvee.Queue.Serial.{IsSerial}
use muvee.Scheduler.{Scheduler}
use muvee.Agent.{Json, Report, on_running, react, result_of, complete_task}
use muvee.Agent.Inspect.{reported}

pub count-untouched :
    (q p : Deployment → Bool) (f : Deployment → Deployment) (ds : List Deployment)
    → count p ds ≡ 0
    → count q (update p f ds) ≡ count q ds
count-untouched q p f [] h = refl
count-untouched q p f (d ∷ ds) h = ground (arith, count-untouched q p f ds)

-- A row that was not in flight and is put there makes one more.
pub count-start :
    (now p n : ℕ) (st : DeploymentStatus) (log : List LogLine) (d : Deployment)
    (ds : List Deployment)
    → in_flight st ≡ true
    → count (has_id n) ds ≤ 1
    → first (has_id n) ds ≡ some d
    → (d.project_id == p) ≡ true
    → in_flight d.status ≡ false
    → count (in_flight_of p) (update (has_id n) (set_status now st log) ds)
      ≡ count (in_flight_of p) ds + 1
count-start now p n st log d [] i u e g f = cc
count-start now p n st log d (x ∷ xs) i u e g f = ground (
  arith,
  count-start now p n st log d xs i,
  count-untouched (in_flight_of p) (has_id n) (set_status now st log) xs,
)

-- A report that a build has started, on a deployment that is not in flight any more, puts it back
-- there: UpdateDeploymentStatus does not look at the state that it replaces. If another deployment
-- of the project was in flight, two of them are afterwards.
pub late_start-two_in_flight :
    (json : Json) (s : Scheduler) (now id : ℕ) (r : Report) (t : Task) (d : Deployment) (db : Db)
    → IsSerial db
    → get_task id db ≡ some t
    → t.kind ≡ TaskType.build
    → r.status ≡ TaskStatus.running
    → get_deployment t.deployment_id db ≡ some d
    → in_flight d.status ≡ false
    → in_flight_count d.project_id db ≡ 1
    → in_flight_count d.project_id (complete_task json s now id r db) ≡ 2
unfolding complete_task react on_running update_deployment_status
late_start-two_in_flight json s now id r t d db v e k c f g h =
    let db' = update_task_status id r.status (result_of json r) db in
    ap (λ (o : Option Task). in_flight_count d.project_id (react s now r o db'))
      (reported id r.status (result_of json r) db t e)
    ∙ rw (c, k)
        (unfold update_task_status get_deployment in
          omega (
            arith,
            h,
            count-start now d.project_id t.deployment_id DeploymentStatus.building [] d
                db.deployments refl (v.unique t.deployment_id) f (==_refl d.project_id) g,
          ))
