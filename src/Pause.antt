-- ===== src/Pause.antt =====
-- The handlers of internal/api/server.go that stop, start and restart a project's containers. A
-- handler gets `allowed`, which CanAccessProject has answered. The events that they push and the
-- warning for a node that is offline are not modelled.
pub mod Undone
use muvee.Prelude.{
  ℕ, Bool, true, false, ◌&&◌, not, Option, none, some, List, [], ◌∷◌, ◌==◌, leb, ltb, String,
  str_eq, if◌then◌else◌, select, first,
}
use muvee.Db.{Db, Deployment, Node, Project, TaskType}
use muvee.Db.Rows.{running_of}
use muvee.Db.Deployments.{get_deployment}
use muvee.Db.Nodes.{get_node}
use muvee.Db.Projects.{get_project, set_project_paused}
use muvee.Scheduler.Dispatch.{dispatch_simple}

abbrev has_address : Option Node → Bool
has_address none = false
has_address (some n) = not (str_eq n.host_ip "")

abbrev on_node : Option ℕ → Db → Bool
on_node none db = false
on_node (some n) db = has_address (get_node n db)

-- The rows that the join keeps: running on a port of a node with an address.
unfoldable pub is_routed : ℕ → Db → Deployment → Bool
is_routed p db d = running_of p d && ltb 0 d.host_port && on_node d.node_id db

abbrev newer : Deployment → Option Deployment → Deployment
newer d none = d
newer d (some e) = if ltb d.created_at e.created_at then e else d

-- ORDER BY created_at DESC LIMIT 1
abbrev newest_of : List Deployment → Option Deployment
newest_of [] = none
newest_of (d ∷ ds) = some (newer d (newest_of ds))

-- The deployment and the domain prefix of its project.
unfoldable pub with_prefix : Option Deployment → Option Project → Option (Deployment × String)
with_prefix (some d) (some p) = some (d, p.domain_prefix)
with_prefix _ _ = none

unfoldable pub get_running_deployment_by_project : ℕ → Db → Option (Deployment × String)
unfolding is_routed with_prefix
get_running_deployment_by_project p db =
    with_prefix (newest_of (select (is_routed p db) db.deployments)) (get_project p db)

-- What a handler answers: 403, 409, or 200 with the task and the deployment where there is one.
pub data Answer : Type 0 where
  forbidden no_running_deployment deployment_node_unknown : Answer
  done : Option (ℕ × ℕ) → Answer

unfoldable pub dispatch_on :
    TaskType → ℕ → String → Deployment → Option ℕ → Db → Option (ℕ × ℕ) × Db
dispatch_on kind now prefix d none db = (none, db)
dispatch_on kind now prefix d (some node) db =
    let (task, db') = dispatch_simple now kind node d.id prefix db in (some (task, d.id), db')

unfoldable pub dispatch_loaded :
    TaskType → ℕ → String → Option Deployment → Db → Option (ℕ × ℕ) × Db
unfolding dispatch_on
dispatch_loaded kind now prefix none db = (none, db)
dispatch_loaded kind now prefix (some d) db = dispatch_on kind now prefix d d.node_id db

-- The task for the project's running deployment, if it has one and its row names a node.
unfoldable pub dispatch_running :
    TaskType → ℕ → Option (Deployment × String) → Db → Option (ℕ × ℕ) × Db
unfolding dispatch_loaded
dispatch_running kind now none db = (none, db)
dispatch_running kind now (some (d, prefix)) db =
    dispatch_loaded kind now prefix (get_deployment d.id db) db

-- triggerPause: the flag is set before the containers are stopped.
unfoldable pub trigger_pause : Bool → ℕ → ℕ → Db → Answer × Db
unfolding dispatch_running get_running_deployment_by_project
trigger_pause false now p db = (forbidden, db)
trigger_pause true now p db =
    let marked : Db = set_project_paused p true db in
    let (task, db') =
      dispatch_running TaskType.pause now (get_running_deployment_by_project p marked) marked in
    (done task, db')

-- triggerResume: the flag is cleared after the task that starts the containers is there.
unfoldable pub trigger_resume : Bool → ℕ → ℕ → Db → Answer × Db
unfolding dispatch_running get_running_deployment_by_project
trigger_resume false now p db = (forbidden, db)
trigger_resume true now p db =
    let (task, db') =
      dispatch_running TaskType.unpause now (get_running_deployment_by_project p db) db in
    (done task, set_project_paused p false db')

unfoldable pub restart_answer : Option (ℕ × ℕ) → Answer
restart_answer none = deployment_node_unknown
restart_answer (some task) = done (some task)

unfoldable pub restart_running : ℕ → Option (Deployment × String) → Db → Answer × Db
unfolding dispatch_running restart_answer
restart_running now none db = (no_running_deployment, db)
restart_running now (some r) db =
    let (task, db') = dispatch_running TaskType.restart now (some r) db in
    (restart_answer task, db')

unfoldable pub trigger_restart : Bool → ℕ → ℕ → Db → Answer × Db
unfolding restart_running get_running_deployment_by_project
trigger_restart false now p db = (forbidden, db)
trigger_restart true now p db = restart_running now (get_running_deployment_by_project p db) db
