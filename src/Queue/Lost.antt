-- ===== src/Queue/Lost.antt =====
-- What step 1 of AdvanceDeployQueue calls lost and what it fails, as its comment says, without the
-- tests of the code.
use muvee.Prelude.{Some, ℕ, ◌+◌, ◌<◌, ◌≡◌, ◌⊎◌, Option, some, List, [], ◌∷◌, ◌++◌}
use muvee.Db.{Db, Deployment, DeploymentStatus, Task, TaskStatus, TaskType, Node}
use muvee.Queue.{DeployQueuePolicy, presumed_lost}

-- The node that the task is on was seen within the grace period.
abbrev pub IsSeen : ℕ → ℕ → Option ℕ → Node → Type 0
IsSeen now grace node v = (node ≡ some v.id) × (now < v.last_seen_at + grace)

-- The task still works for the deployment: it is an open build or deploy on a node that was seen,
-- or a completed build of a deployment that is building.
abbrev pub IsWorking : ℕ → ℕ → List Node → Deployment → Task → Type 0
IsWorking now grace nodes d t =
    (t.deployment_id ≡ d.id)
    × ((t.kind ≡ TaskType.build) ⊎ (t.kind ≡ TaskType.deploy))
    × ((((t.status ≡ TaskStatus.pending) ⊎ (t.status ≡ TaskStatus.running))
          × Some (IsSeen now grace t.node_id) nodes)
        ⊎ ((t.kind ≡ TaskType.build)
            × (t.status ≡ TaskStatus.completed)
            × (d.status ≡ DeploymentStatus.building)))

abbrev pub IsInFlight : ℕ → Deployment → Type 0
IsInFlight p d =
    (d.project_id ≡ p)
    × ((d.status ≡ DeploymentStatus.pending)
        ⊎ (d.status ≡ DeploymentStatus.building)
        ⊎ (d.status ≡ DeploymentStatus.deploying))

-- A deployment in flight is lost after the hard timeout, or after the grace period if no task works
-- for it.
abbrev pub IsLost : ℕ → DeployQueuePolicy → ℕ → List Node → List Task → Deployment → Type 0
IsLost now policy p nodes tasks d =
    IsInFlight p d
    × ((d.updated_at + policy.hard_timeout < now)
        ⊎ ((d.updated_at + policy.grace < now)
            × (¬ Some (IsWorking now policy.grace nodes d) tasks)))

-- The rows before, the ids that are returned, and the rows after.
pub data LostFail (now p : ℕ) (policy : DeployQueuePolicy) (nodes : List Node) (tasks : List Task)
    : List Deployment → List ℕ → List Deployment → Type 0 where
  done : LostFail now p policy nodes tasks [] [] []
  fails :
      (d : Deployment) (ds : List Deployment) (ns : List ℕ) (ds' : List Deployment)
      → IsLost now policy p nodes tasks d
      → LostFail now p policy nodes tasks ds ns ds'
      → LostFail now p policy nodes tasks (d ∷ ds) (d.id ∷ ns) (
          record d {
            status = DeploymentStatus.failed;
            logs = d.logs ++ presumed_lost ∷ [];
            updated_at = now;
          }
          ∷ ds')
  stays :
      (d : Deployment) (ds : List Deployment) (ns : List ℕ) (ds' : List Deployment)
      → (¬ IsLost now policy p nodes tasks d)
      → LostFail now p policy nodes tasks ds ns ds'
      → LostFail now p policy nodes tasks (d ∷ ds) ns (d ∷ ds')

-- An open build or deploy of one of the deployments.
abbrev pub IsOpenOf : List ℕ → Task → Type 0
IsOpenOf lost t =
    Some (λ n. t.deployment_id ≡ n) lost
    × ((t.kind ≡ TaskType.build) ⊎ (t.kind ≡ TaskType.deploy))
    × ((t.status ≡ TaskStatus.pending) ⊎ (t.status ≡ TaskStatus.running))

pub data TasksFail (lost : List ℕ) : List Task → List Task → Type 0 where
  done : TasksFail lost [] []
  fails :
      (t : Task) (ts ts' : List Task)
      → IsOpenOf lost t
      → TasksFail lost ts ts'
      → TasksFail lost
          (t ∷ ts)
          (record t { status = TaskStatus.failed; result = "deployment presumed lost" } ∷ ts')
  stays :
      (t : Task) (ts ts' : List Task)
      → (¬ IsOpenOf lost t)
      → TasksFail lost ts ts'
      → TasksFail lost (t ∷ ts) (t ∷ ts')

-- Step 1: exactly the lost deployments are returned and fail, with their open builds and deploys;
-- no other row of the database changes.
pub record Reaped (now : ℕ) (policy : DeployQueuePolicy) (p : ℕ) (db : Db) (lost : List ℕ)
    (db' : Db) : Type 0 where
  pub rows : LostFail now p policy db.nodes db.tasks db.deployments lost db'.deployments
  pub tasks : TasksFail lost db.tasks db'.tasks
  pub rest : db' ≡ record db { deployments = db'.deployments; tasks = db'.tasks }
