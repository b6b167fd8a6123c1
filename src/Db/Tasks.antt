-- ===== src/Db/Tasks.antt =====
-- The tasks table of internal/store/store.go.
use muvee.Prelude.{
  ℕ, String, Bool, Option, List, [], ◌∷◌, ◌++◌, ◌==◌, ◌&&◌, select, first, update, take,
}
use muvee.Db.{Db, Task, TaskType, TaskStatus, Value, fresh}
use muvee.Db.Rows.{at, is_pending_task}

-- CreateTask: the row is pending, under a new id.
unfoldable pub create_task : ℕ → TaskType → Option ℕ → ℕ → List (String × Value) → Db → Task × Db
create_task now kind node dep payload db =
    let (n, db') = fresh db in
    let t : Task = record {
      id = n;
      kind = kind;
      node_id = node;
      deployment_id = dep;
      payload = payload;
      status = TaskStatus.pending;
      result = "";
      created_at = now;
    } in
    (t, record db' { tasks = db'.tasks ++ t ∷ [] })

abbrev pub has_task_id : ℕ → Task → Bool
has_task_id n t = t.id == n

unfoldable pub get_task : ℕ → Db → Option Task
get_task n db = first (has_task_id n) db.tasks

-- The agent is handed at most ten pending tasks of its node; they stay pending. Rows are kept in
-- the order of their creation, which is ORDER BY created_at.
unfoldable pub poll_tasks_for_node : ℕ → Db → List Task
poll_tasks_for_node node db =
    take 10 (select (λ t. at t.node_id node && is_pending_task t.status) db.tasks)

unfoldable pub update_task_status : ℕ → TaskStatus → String → Db → Db
update_task_status n status result db = record db {
  tasks = update (has_task_id n) (λ t. record t { status = status; result = result }) db.tasks;
}
