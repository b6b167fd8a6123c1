-- ===== src/Scheduler/Serial.antt =====
-- TriggerDeployment and the functions that move a queue on, and the invariant of the deployments.
pub mod Triggers
use muvee.Prelude.{
  ℕ, ◌≡◌, refl, ap, ◌∙◌, inl, inr, String, Bool, Option, none, some, List, [], ◌∷◌, map, arith,
  ◌==◌, ◌&&◌, count, update, Bool-cases, count-append, ==_iff,
}
use muvee.Db.{Db, Deployment, DeploymentStatus, Project, ProjectType}
use muvee.Db.Rows.{in_flight, in_flight_of, has_id}
use muvee.Db.Deployments.{
  create_deployment, get_deployment, set_deployment_node, update_deployment_status, set_status,
  log_line,
}
use muvee.Db.Nodes.{remove_node_dataset}
use muvee.Db.Projects.{get_project, set_project_pinned_node}
use muvee.Db.Tasks.{create_task}
use muvee.Queue.{
  advance_deploy_queue, list_projects_with_queued_deployments, fail_orphaned_tasks_for_node,
}
use muvee.Queue.Serial.{IsSerial, advance-IsSerial, update-IsSerial, orphaned-IsSerial}
use muvee.Scheduler.{Error, project_not_found, Result, ok, err, message, Scheduler}
use muvee.Scheduler.Trigger.{
  dispatch_chain, settle_dispatch, advance_queue, latest, finish_trigger, enqueue, admit,
  trigger_deployment, advance_deploy_queue_for, advance_each, sweep_deploy_queues,
  recover_agent_restart,
}
use muvee.Scheduler.Keeps.{Relation, IsKept}
use muvee.Scheduler.Keeps.Dispatches.{dispatch_chain-Keeps}

-- What the invariant reads of a row.
abbrev pub run_of : Deployment → ℕ × ℕ × DeploymentStatus
run_of d = (d.id, d.project_id, d.status)

abbrev pub runs : Db → List (ℕ × ℕ × DeploymentStatus)
runs db = map run_of db.deployments

unfoldable pub same_runs : Relation
same_runs = record { rel = λ a b. runs b ≡ runs a; stay = λ db. refl; step = λ a b c h k. k ∙ h }

given_runs :
    (now dep node : ℕ) (ds : List Deployment)
    → map run_of (update (has_id dep) (λ d. record d { node_id = some node; updated_at = now }) ds)
      ≡ map run_of ds
given_runs now dep node [] = refl
given_runs now dep node (d ∷ ds) = elim (Bool-cases (d.id == dep)) [
  | inl e ↦ rw e (ap (◌∷◌ (run_of d)) (given_runs now dep node ds))
  | inr e ↦ rw e (ap (◌∷◌ (run_of d)) (given_runs now dep node ds))
]

pub runs-IsKept : IsKept same_runs
unfolding same_runs create_task set_deployment_node set_project_pinned_node remove_node_dataset
runs-IsKept = record {
  create = λ now kind node dep payload db. refl;
  give = λ now dep node db. given_runs now dep node db.deployments;
  choice = record { pin = λ p node db. refl; drop_dataset = λ node ds db. refl };
}

pub count-runs :
    (p : ℕ × ℕ × DeploymentStatus → Bool) (ds : List Deployment)
    → count p (map run_of ds) ≡ count (λ d. p (run_of d)) ds
count-runs p [] = refl
count-runs p (d ∷ ds) = ground (arith, count-runs p ds)

pub runs-IsSerial : (a b : Db) → runs b ≡ runs a → IsSerial a → IsSerial b
runs-IsSerial a b e s = record {
  unique = λ n.
      let q : ℕ × ℕ × DeploymentStatus → Bool = λ r. r.0 == n in
      omega
        (arith, s.unique n, count-runs q a.deployments, count-runs q b.deployments, ap (count q) e);
  one = λ p.
      let q : ℕ × ℕ × DeploymentStatus → Bool = λ r. (r.1 == p) && in_flight r.2 in
      omega
        (arith, s.one p, count-runs q a.deployments, count-runs q b.deployments, ap (count q) e);
}

pub fail-IsSerial :
    (now n : ℕ) (msg : String) (db : Db)
    → IsSerial db
    → IsSerial (update_deployment_status now n DeploymentStatus.failed msg db)
unfolding update_deployment_status
fail-IsSerial now n msg db s =
    update-IsSerial (has_id n) (set_status now DeploymentStatus.failed (log_line msg)) db
      (λ d. refl) (λ p d h. ground arith) s

settle_dispatch-IsSerial :
    (now : ℕ) (dep : Deployment) (r : Result (Unit {0})) (db : Db)
    → IsSerial db
    → IsSerial (settle_dispatch now dep (r, db)).1
unfolding settle_dispatch
settle_dispatch-IsSerial now dep (ok _) db s = s
settle_dispatch-IsSerial now dep (err e) db s = fail-IsSerial now dep.id (message e) db s

dispatched-IsSerial :
    (s : Scheduler) (now : ℕ) (o : Option Deployment) (db : Db)
    → IsSerial db
    → IsSerial
        (let out : (ℕ × Option Error) × Db = elim o [
          | none ↦ ((0, none), db)
          | some dep ↦ settle_dispatch now dep (dispatch_chain s now dep db)
        ] in
          out).1
dispatched-IsSerial s now none db h = h
dispatched-IsSerial s now (some dep) db h =
    settle_dispatch-IsSerial now dep (dispatch_chain s now dep db).0 (dispatch_chain s now dep db).1
      (runs-IsSerial db _
        (unfold same_runs in dispatch_chain-Keeps same_runs runs-IsKept s now dep db) h)

pub advance_queue-IsSerial :
    (s : Scheduler) (now p : ℕ) (db : Db) → IsSerial db → IsSerial (advance_queue s now p db).1
unfolding advance_queue
advance_queue-IsSerial s now p db h =
    dispatched-IsSerial s now (advance_deploy_queue now s.policy p db).0.dispatch
      (advance_deploy_queue now s.policy p db).1 (advance-IsSerial now s.policy p db h)

pub advance_each-IsSerial :
    (s : Scheduler) (now : ℕ) (ps : List ℕ) (db : Db)
    → IsSerial db
    → IsSerial (advance_each s now ps db)
unfolding advance_each
advance_each-IsSerial s now [] db h = h
advance_each-IsSerial s now (p ∷ ps) db h =
    advance_each-IsSerial s now ps _ (advance_queue-IsSerial s now p db h)

for_deployment :
    (s : Scheduler) (now : ℕ) (o : Option Deployment) (db : Db)
    → IsSerial db
    → IsSerial
        (elim o as (λ _. Db) [ none ↦ db | some d ↦ (advance_queue s now d.project_id db).1 ])
for_deployment s now none db h = h
for_deployment s now (some d) db h = advance_queue-IsSerial s now d.project_id db h

pub advance_for-IsSerial :
    (s : Scheduler) (now dep : ℕ) (db : Db)
    → IsSerial db
    → IsSerial (advance_deploy_queue_for s now dep db)
unfolding advance_deploy_queue_for
advance_for-IsSerial s now dep db h = for_deployment s now (get_deployment dep db) db h
