-- ===== src/Agent/Inspect.antt =====
-- Reports on tasks that are neither builds nor deploys.
use mathlib.Core.Option
use muvee.Prelude.{
  ℕ, ◌≡◌, refl, ap, ◌∙◌, String, Bool, false, Option, some, List, [], ◌∷◌, arith, first, update,
}
use muvee.Db.{Db, Task, TaskType, TaskStatus}
use muvee.Db.Rows.{is_rollout}
use muvee.Db.Tasks.{has_task_id, get_task, update_task_status}
use muvee.Scheduler.{Scheduler}
use muvee.Agent.{Json, Report, on_running, on_failed, on_completed, react, result_of, complete_task}

pub first-update :
    {A : Type 0} (p : A → Bool) (f : A → A) (xs : List A)
    → ((x : A) → p (f x) ≡ p x)
    → first p (update p f xs) ≡ Option.map f (first p xs)
first-update p f [] h = refl
first-update p f (x ∷ xs) h = ground (arith, h x, first-update p f xs h)

-- The task as it stands after the report.
pub reported :
    (id : ℕ) (st : TaskStatus) (result : String) (db : Db) (t : Task)
    → get_task id db ≡ some t
    → get_task id (update_task_status id st result db)
      ≡ some (record t { status = st; result = result })
unfolding get_task update_task_status
reported id st result db t e =
    first-update (has_task_id id) (λ u. record u { status = st; result = result }) db.tasks
      (λ u. refl)
    ∙ ap (Option.map (λ (u : Task). record u { status = st; result = result })) e

react-inspection :
    (s : Scheduler) (now : ℕ) (r : Report) (st : TaskStatus) (t : Task) (k : TaskType) (db : Db)
    → is_rollout k ≡ false
    → (react s now (record r { status = st }) (some (record t { kind = k })) db).deployments
      ≡ db.deployments
unfolding react on_running on_failed on_completed
react-inspection s now r TaskStatus.pending t k db h = refl
react-inspection s now r TaskStatus.running t TaskType.build db h = cc
react-inspection s now r TaskStatus.running t TaskType.deploy db h = cc
react-inspection s now r TaskStatus.running t _ db h = refl
react-inspection s now r TaskStatus.failed t k db h = rw h refl
react-inspection s now r TaskStatus.completed t TaskType.build db h = cc
react-inspection s now r TaskStatus.completed t TaskType.deploy db h = cc
react-inspection s now r TaskStatus.completed t _ db h = refl

-- Whatever an agent reports on a task that is neither a build nor a deploy (a cleanup, a restart, a
-- pause, an inspection), no deployment changes.
pub complete-inspection :
    (json : Json) (s : Scheduler) (now id : ℕ) (r : Report) (t : Task) (db : Db)
    → get_task id db ≡ some t
    → is_rollout t.kind ≡ false
    → (complete_task json s now id r db).deployments ≡ db.deployments
unfolding complete_task
complete-inspection json s now id r t db e h =
    let result = result_of json r in
    let db' = update_task_status id r.status result db in
    ap (λ (o : Option Task). (react s now r o db').deployments) (reported id r.status result db t e)
    ∙ react-inspection s now r r.status (record t { status = r.status; result = result }) t.kind db'
        h
    ∙ unfold update_task_status in refl
