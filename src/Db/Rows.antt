-- ===== src/Db/Rows.antt =====
-- Tests on the columns of a row that the SQL of internal/store/store.go makes.
use muvee.Prelude.{ℕ, Bool, true, false, Option, none, some, ◌==◌, ◌&&◌}
use muvee.Db.{DeploymentStatus, TaskType, TaskStatus, Deployment, GitSource}

-- inFlightDeploymentStatuses
abbrev pub in_flight : DeploymentStatus → Bool
in_flight DeploymentStatus.pending = true
in_flight DeploymentStatus.building = true
in_flight DeploymentStatus.deploying = true
in_flight _ = false

abbrev pub is_queued : DeploymentStatus → Bool
is_queued DeploymentStatus.queued = true
is_queued _ = false

abbrev pub is_running : DeploymentStatus → Bool
is_running DeploymentStatus.running = true
is_running _ = false

abbrev pub is_building : DeploymentStatus → Bool
is_building DeploymentStatus.building = true
is_building _ = false

-- type IN ('build','deploy')
abbrev pub is_rollout : TaskType → Bool
is_rollout TaskType.build = true
is_rollout TaskType.deploy = true
is_rollout _ = false

abbrev pub is_build : TaskType → Bool
is_build TaskType.build = true
is_build _ = false

-- status IN ('pending','running')
abbrev pub is_open : TaskStatus → Bool
is_open TaskStatus.pending = true
is_open TaskStatus.running = true
is_open _ = false

abbrev pub is_pending_task : TaskStatus → Bool
is_pending_task TaskStatus.pending = true
is_pending_task _ = false

abbrev pub is_running_task : TaskStatus → Bool
is_running_task TaskStatus.running = true
is_running_task _ = false

abbrev pub is_completed_task : TaskStatus → Bool
is_completed_task TaskStatus.completed = true
is_completed_task _ = false

abbrev pub is_hosted : GitSource → Bool
is_hosted GitSource.hosted = true
is_hosted _ = false

-- A column that may be NULL equals only a value that is there.
abbrev pub at : Option ℕ → ℕ → Bool
at none n = false
at (some m) n = m == n

abbrev pub has_id : ℕ → Deployment → Bool
has_id n d = d.id == n

-- project_id = $1 AND status IN ('pending','building','deploying')
abbrev pub in_flight_of : ℕ → Deployment → Bool
in_flight_of p d = (d.project_id == p) && in_flight d.status

-- project_id = $1 AND status = 'queued'
abbrev pub queued_of : ℕ → Deployment → Bool
queued_of p d = (d.project_id == p) && is_queued d.status

abbrev pub running_of : ℕ → Deployment → Bool
running_of p d = (d.project_id == p) && is_running d.status
