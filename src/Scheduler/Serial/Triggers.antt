-- ===== src/Scheduler/Serial/Triggers.antt =====
-- TriggerDeployment, the sweep and the recovery from an agent's restart, and the invariant of the
-- deployments.
use muvee.Prelude.{
  ℕ, ◌≡◌, refl, inl, inr, String, Option, none, some, [], ◌∷◌, arith, ◌==◌, count, Bool-cases,
  count-append, ==_iff,
}
use muvee.Db.{Db, Deployment, DeploymentStatus, Project, ProjectType}
use muvee.Db.Rows.{in_flight_of, has_id}
use muvee.Db.Deployments.{create_deployment, get_deployment}
use muvee.Db.Projects.{get_project}
use muvee.Queue.{list_projects_with_queued_deployments, fail_orphaned_tasks_for_node}
use muvee.Queue.Serial.{IsSerial, orphaned-IsSerial}
use muvee.Scheduler.{Error, project_not_found, Result, ok, err, Scheduler}
use muvee.Scheduler.Trigger.{
  advance_queue, latest, finish_trigger, enqueue, admit, trigger_deployment, sweep_deploy_queues,
  recover_agent_restart,
}
use muvee.Scheduler.Serial.{advance_queue-IsSerial, advance_each-IsSerial}

-- uuid.New() returns an id that no deployment has.
abbrev pub IsFresh : Db → Type 0
IsFresh db = count (has_id (db.uuids 0)) db.deployments ≡ 0

-- A queued deployment under a new id is no deployment in flight.
pub create-IsSerial :
    (now p : ℕ) (tag : String) (db : Db)
    → IsFresh db
    → IsSerial db
    → IsSerial (create_deployment now p tag DeploymentStatus.queued db).1
unfolding create_deployment
create-IsSerial now p tag db f h =
    let (d, db') = create_deployment now p tag DeploymentStatus.queued db in
    record {
      unique = λ n. elim (Bool-cases (db.uuids 0 == n)) [
        | inl e ↦ ground (
          arith,
          h.unique n,
          f,
          (==_iff (db.uuids 0) n).0 e,
          count-append (has_id n) db.deployments (d ∷ []),
        )
        | inr e ↦ ground (arith, h.unique n, count-append (has_id n) db.deployments (d ∷ []))
      ];
      one = λ q. ground (arith, h.one q, count-append (in_flight_of q) db.deployments (d ∷ []));
    }

latest-db :
    (dep : Deployment) (o : Option Deployment) (db : Db)
    → (let out : Result Deployment × Db = elim o [ none ↦ (ok dep, db) | some d ↦ (ok d, db) ] in
        out).1
      ≡ db
latest-db dep none db = refl
latest-db dep (some d) db = refl

finish-db :
    (dep : Deployment) (out : ℕ × Option Error) (db : Db) → (finish_trigger dep out db).1 ≡ db
unfolding finish_trigger latest
finish-db dep (id, none) db = latest-db dep (get_deployment dep.id db) db
finish-db dep (id, some e) db = elim (Bool-cases (id == dep.id)) [
  | inl h ↦ rw h refl
  | inr h ↦ rw h (latest-db dep (get_deployment dep.id db) db)
]

enqueue-IsSerial :
    (s : Scheduler) (now p : ℕ) (db : Db)
    → IsFresh db
    → IsSerial db
    → IsSerial (enqueue s now p db).1
unfolding enqueue
enqueue-IsSerial s now p db f h =
    let (dep, db') = create_deployment now p "" DeploymentStatus.queued db in
    let (out, db'') = advance_queue s now p db' in
    rw (finish-db dep out db'')
      (advance_queue-IsSerial s now p db' (create-IsSerial now p "" db f h))

admit-IsSerial :
    (s : Scheduler) (now id : ℕ) (p : Project) (k : ProjectType) (db : Db)
    → IsFresh db
    → IsSerial db
    → IsSerial (admit s now id (record p { project_type = k }) db).1
unfolding admit
admit-IsSerial s now id p ProjectType.domain_only db f h = h
admit-IsSerial s now id p _ db f h = elim (Bool-cases p.paused) [
  | inl e ↦ rw e h
  | inr e ↦ rw e (enqueue-IsSerial s now id db f h)
]

trigger_case :
    (s : Scheduler) (now p : ℕ) (o : Option Project) (db : Db)
    → IsFresh db
    → IsSerial db
    → IsSerial
        (let out : Result Deployment × Db = elim o [
          | none ↦ (err project_not_found, db)
          | some q ↦ admit s now p q db
        ] in
          out).1
trigger_case s now p none db f h = h
trigger_case s now p (some q) db f h = admit-IsSerial s now p q q.project_type db f h

-- Triggering a deployment, whatever it returns, keeps the invariant: ids stay unique, and of no
-- project is more than one deployment in flight. The new id is assumed not to be in use.
pub trigger-IsSerial :
    (s : Scheduler) (now p : ℕ) (db : Db)
    → IsFresh db
    → IsSerial db
    → IsSerial (trigger_deployment s now p db).1
unfolding trigger_deployment
trigger-IsSerial s now p db f h = trigger_case s now p (get_project p db) db f h

-- The sweep over all queues and the recovery from an agent's restart keep the invariant.
pub recovery-IsSerial :
    (s : Scheduler) (now node : ℕ) (db : Db)
    → IsSerial db
    → IsSerial (sweep_deploy_queues s now db) × IsSerial (recover_agent_restart s now node db)
unfolding sweep_deploy_queues recover_agent_restart
recovery-IsSerial s now node db h = (
  advance_each-IsSerial s now (list_projects_with_queued_deployments db) db h,
  advance_each-IsSerial s now
      (fail_orphaned_tasks_for_node now node "agent restarted; task lost" db).0 _
      (orphaned-IsSerial now node "agent restarted; task lost" db h),
)
