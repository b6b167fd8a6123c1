-- ===== src/Examples.antt =====
-- A small installation on which the theorems are applied: two nodes, one project, and its
-- deployments in several states.
pub mod Queues
pub mod Triggers
pub mod Agents
pub mod Records
pub mod Builders
pub mod Tunnels
pub mod Names
pub mod Logins
pub mod States
pub mod Polls
pub mod Access
use muvee.Prelude.{
  ℕ, ◌+◌, ◌*◌, String, Bool, true, false, Option, none, some, List, [], ◌∷◌, arith, count, ◌==◌,
  ◌≤◌,
}
use muvee.Db.{
  Db, Deployment, DeploymentStatus, Task, TaskType, TaskStatus, Node, NodeRole, NodeDataset,
  Project, ProjectType, GitSource, GitCredential, minute,
}
use muvee.Scheduler.{Scheduler, NodeScore, default_deploy_queue_policy}
use muvee.Agent.{Json, Report}

abbrev pub noon : ℕ
noon = 720 * minute

abbrev pub builder_node : Node
builder_node = record {
  id = 1;
  hostname = "builder";
  role = NodeRole.builder;
  host_ip = "10.0.0.1";
  max_storage_bytes = 100;
  used_storage_bytes = 0;
  last_seen_at = noon;
  created_at = 0;
}

abbrev pub deploy_node : Node
deploy_node = record {
  id = 2;
  hostname = "worker";
  role = NodeRole.deploy;
  host_ip = "10.0.0.2";
  max_storage_bytes = 100;
  used_storage_bytes = 90;
  last_seen_at = noon;
  created_at = 1;
}

abbrev pub web : Project
web = record {
  id = 7;
  name = "web";
  owner_id = 3;
  project_type = ProjectType.deployment;
  git_url = "https://example.org/web.git";
  git_branch = "main";
  git_source = GitSource.external;
  dockerfile_path = "Dockerfile";
  domain_prefix = "web";
  auth_required = false;
  auth_allowed_domains = "";
  container_port = 8080;
  memory_limit = "";
  volume_mount_path = "";
  compose_file_path = "";
  expose_service = "";
  expose_port = 0;
  pinned_node_id = none;
  image_ref = "";
  auto_deploy_enabled = true;
  paused = false;
  last_image_tag = "";
  triggers_redeploy_of = [];
  last_tracked_commit_sha = "";
  last_tracked_image_digests = [];
  fixed_host_port = none;
  fixed_node_id = none;
}

abbrev pub row : ℕ → DeploymentStatus → ℕ → Deployment
row n st at = record {
  id = n;
  project_id = 7;
  image_tag = "";
  status = st;
  node_id = some 2;
  host_port = 0;
  logs = [];
  created_at = at;
  updated_at = at;
}

abbrev pub task : ℕ → TaskType → ℕ → Task
task n kind dep = record {
  id = n;
  kind = kind;
  node_id = some 2;
  deployment_id = dep;
  payload = [];
  status = TaskStatus.running;
  result = "";
  created_at = 0;
}

abbrev pub installation : List Deployment → List Task → Db
installation ds ts = record {
  deployments = ds;
  tasks = ts;
  nodes = builder_node ∷ deploy_node ∷ [];
  node_datasets =
      record { node_id = 2; dataset_id = 4; last_used_at = 30; size_bytes = 8 }
      ∷ record { node_id = 2; dataset_id = 5; last_used_at = 10; size_bytes = 4 }
      ∷ record { node_id = 2; dataset_id = 6; last_used_at = 20; size_bytes = 3 }
      ∷ [];
  projects = web ∷ [];
  uuids = λ n. 100 + n;
  dataset_size = λ n. none;
  project_datasets = λ n. [];
  git_credential = λ n. record { username = ""; token = ""; ssh_key = "" };
  env_vars = λ n. [];
  registry_auths = λ n. [];
}

-- One deployment runs, one has been in flight since midnight, two wait, and one has failed.
abbrev pub busy : Db
busy =
    installation
      (row 10 DeploymentStatus.running 0
        ∷ row 11 DeploymentStatus.deploying 0
        ∷ row 12 DeploymentStatus.queued (700 * minute)
        ∷ row 13 DeploymentStatus.queued (710 * minute)
        ∷ row 14 DeploymentStatus.failed 0
        ∷ [])
      (task 20 TaskType.deploy 11 ∷ task 21 TaskType.describe 10 ∷ task 22 TaskType.build 14 ∷ [])

abbrev pub in_order : Scheduler
in_order = record { agent_secret = "secret"; policy = default_deploy_queue_policy; rank = λ xs. xs }

abbrev pub json : Json
json = record { marshal_tag = λ tag. tag; unmarshal_tag = λ text. text }

abbrev pub report : TaskStatus → ℕ → Report
report st port = record { status = st; result = ""; image_tag = ""; host_port = port }
