-- ===== src/Agent/Reports.antt =====
-- The reports of agents and the invariant of the deployments.
use mathlib.Core.Path.{subst}
use muvee.Prelude.{
  ℕ, ◌≤◌, ◌≡◌, refl, sym, ap, inl, inr, true, Option, none, some, List, [], ◌∷◌, arith, ◌==◌,
  if◌then◌else◌, ltb, count, first, update, Bool-cases,
}
use muvee.Db.{Db, Deployment, DeploymentStatus, Project, Task, TaskType, TaskStatus}
use muvee.Db.Rows.{in_flight, in_flight_of, is_rollout, has_id}
use muvee.Db.Deployments.{
  get_deployment, update_deployment_status, set_deployment_host_port, set_status, stop, stale_run,
  stop_project_deployments,
}
use muvee.Db.Projects.{get_project}
use muvee.Db.Tasks.{get_task, update_task_status}
use muvee.Queue.Counts.{UniqueIds-update}
use muvee.Queue.Serial.{IsSerial, update-IsSerial}
use muvee.Scheduler.{Scheduler}
use muvee.Scheduler.Serial.{advance_for-IsSerial, fail-IsSerial}
use muvee.Scheduler.Payload.{is_empty}
use muvee.Agent.{
  Json, Report, on_running, on_failed, retire_others, retire_of, retire, finish_deploy,
  on_completed, react, result_of, complete_task,
}
use muvee.Agent.Inspect.{reported}
use muvee.Agent.Retire.{hosted, clean_up-db}
use muvee.Agent.Serial.{count-untouched}

IsSerial-of_rows : (a b : Db) → b.deployments ≡ a.deployments → IsSerial a → IsSerial b
IsSerial-of_rows a b e s = record {
  unique = λ n. omega (arith, s.unique n, ap (count (has_id n)) e);
  one = λ p. omega (arith, s.one p, ap (count (in_flight_of p)) e);
}

-- A row that was in flight and stays there leaves the count as it is.
count-restart :
    (now p n : ℕ) (st : DeploymentStatus) (ds : List Deployment)
    → in_flight st ≡ true
    → count (has_id n) ds ≤ 1
    → ((d : Deployment) → first (has_id n) ds ≡ some d → in_flight d.status ≡ true)
    → count (in_flight_of p) (update (has_id n) (set_status now st []) ds)
      ≡ count (in_flight_of p) ds
count-restart now p n st [] i u h = refl
count-restart now p n st (x ∷ xs) i u h = elim (Bool-cases (x.id == n)) [
  | inl e ↦ ground (
    arith,
    e,
    i,
    h x (rw e refl),
    count-untouched (in_flight_of p) (has_id n) (set_status now st []) xs,
  )
  | inr e ↦
      ground (arith, e, count-restart now p n st xs i (ground (arith, u, e)) (λ d k. h d (rw e k)))
]

-- A report that a build has started finds its deployment in flight.
abbrev pub StartsInFlight : Report → Task → Db → Type 0
StartsInFlight r t db =
    r.status ≡ TaskStatus.running
    → t.kind ≡ TaskType.build
    → (d : Deployment) → get_deployment t.deployment_id db ≡ some d
    → in_flight d.status ≡ true

pub stay-IsSerial :
    (now n : ℕ) (st : DeploymentStatus) (db : Db)
    → IsSerial db
    → in_flight st ≡ true
    → ((d : Deployment) → get_deployment n db ≡ some d → in_flight d.status ≡ true)
    → IsSerial (update_deployment_status now n st "" db)
unfolding update_deployment_status get_deployment
stay-IsSerial now n st db s i h = record {
  unique = UniqueIds-update (has_id n) (set_status now st []) db.deployments (λ d. refl) s.unique;
  one = λ p. omega (arith, s.one p, count-restart now p n st db.deployments i (s.unique n) h);
}

retire-IsSerial : (now : ℕ) (t : Task) (db : Db) → IsSerial db → IsSerial (retire now t db)
unfolding retire retire_of retire_others stop_project_deployments
retire-IsSerial now t db s = of (get_deployment t.deployment_id db)
  where
    others : (d : Deployment) (o : Option Project) → IsSerial (retire_others now t d o db)
    others d none = s
    others d (some p) =
        let out = stop_project_deployments now d.project_id t.deployment_id db in
        IsSerial-of_rows out.1 _ (clean_up-db now t p.domain_prefix out.0 out.1) (
          update-IsSerial (stale_run d.project_id t.deployment_id) (stop now) db (λ x. refl)
            (λ q x h. ground arith) s)

    of : (o : Option Deployment) → IsSerial (retire_of now t o db)
    of none = s
    of (some d) = others d (get_project d.project_id db)

finish_deploy-IsSerial :
    (now port : ℕ) (t : Task) (db : Db) → IsSerial db → IsSerial (finish_deploy now port t db)
unfolding finish_deploy set_deployment_host_port
finish_deploy-IsSerial now port t db s = elim (Bool-cases (ltb 0 port)) [
  | inl e ↦ rw e (
      retire-IsSerial now t (set_deployment_host_port now t.deployment_id port db) (
        update-IsSerial (has_id t.deployment_id) (hosted now port) db (λ x. refl)
          (λ q x h. ground arith) s))
  | inr e ↦
      rw e (fail-IsSerial now t.deployment_id "deploy completed but no host_port reported" db s)
]

react-IsSerial :
    (s : Scheduler) (now : ℕ) (r : Report) (st : TaskStatus) (t : Task) (k : TaskType) (db : Db)
    → IsSerial db
    → StartsInFlight (record r { status = st }) (record t { kind = k }) db
    → IsSerial (react s now (record r { status = st }) (some (record t { kind = k })) db)
unfolding react on_running on_failed on_completed
react-IsSerial s now r TaskStatus.pending t k db v h = v
react-IsSerial s now r TaskStatus.running t TaskType.build db v h =
    stay-IsSerial now t.deployment_id DeploymentStatus.building db v refl (h refl refl)
react-IsSerial s now r TaskStatus.running t _ db v h = v
react-IsSerial s now r TaskStatus.failed t k db v h =
    let why = if is_empty r.result then "task failed" else r.result in
    elim (Bool-cases (is_rollout k)) [
      | inl e ↦ rw e (
          advance_for-IsSerial s now t.deployment_id _ (fail-IsSerial now t.deployment_id why db v))
      | inr e ↦ rw e v
    ]
react-IsSerial s now r TaskStatus.completed t TaskType.deploy db v h =
    advance_for-IsSerial s now t.deployment_id _
      (finish_deploy-IsSerial now r.host_port (record t { kind = TaskType.deploy }) db v)
react-IsSerial s now r TaskStatus.completed t _ db v h = v

-- Every report of an agent, whatever its task and its result, keeps the invariant, if a report that
-- a build has started finds its deployment in flight.
pub complete-IsSerial :
    (json : Json) (s : Scheduler) (now id : ℕ) (r : Report) (t : Task) (db : Db)
    → IsSerial db
    → get_task id db ≡ some t
    → StartsInFlight r t db
    → IsSerial (complete_task json s now id r db)
unfolding complete_task update_task_status get_deployment
complete-IsSerial json s now id r t db v e h =
    let result = result_of json r in
    let db' = update_task_status id r.status result db in
    let t' = record t { status = r.status; result = result } in
    subst (λ (o : Option Task). IsSerial (react s now r o db'))
      (sym (reported id r.status result db t e))
      (react-IsSerial s now r r.status t' t.kind db' (record { unique = v.unique; one = v.one }) h)
