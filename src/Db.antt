-- ===== src/Db.antt =====
-- internal/store/models.go: the rows of the tables that scheduling reads and writes, and the
-- database as one record. A uuid is a number, and 0 is uuid.Nil. A time is a number of
-- nanoseconds; NOW() and time.Now() are an argument `now`. `uuids` is what uuid.New() will return,
-- one after another. A table is the list of its rows, the oldest insertion first. What the store
-- decrypts (credentials, variables) is a function of the id under which it is kept.
pub mod Rows
pub mod Deployments
pub mod Tasks
pub mod Nodes
pub mod Eviction
pub mod Projects
use muvee.Prelude.{ℕ, ◌*◌, suc, String, Bool, Option, List}

abbrev pub second : ℕ
second = 1_000_000_000

abbrev pub minute : ℕ
minute = 60 * second

pub data DeploymentStatus : Type 0 where
  pending building deploying running failed stopped queued superseded : DeploymentStatus

-- What a deployment's `logs` column was extended by.
pub data LogLine : Type 0 where
  line : String → LogLine
  superseded_by : ℕ → LogLine

pub record Deployment : Type 0 where
  pub id : ℕ
  pub project_id : ℕ
  pub image_tag : String
  pub status : DeploymentStatus
  pub node_id : Option ℕ
  pub host_port : ℕ
  pub logs : List LogLine
  pub created_at : ℕ
  pub updated_at : ℕ

pub data TaskType : Type 0 where
  build deploy cleanup runtime_logs restart env describe pause unpause : TaskType

pub data TaskStatus : Type 0 where
  pending running completed failed : TaskStatus

-- A value of a task's JSON payload.
pub data Value : Type 0 where
  text : String → Value
  number : ℕ → Value
  uuid : ℕ → Value
  flag : Bool → Value
  table : List (String × String) → Value
  auths : List (String × String × String) → Value
  mounts : List (ℕ × Bool) → Value

-- `result` is the text that the agent sent, with "_dispatched" after it once a build's deploy was
-- dispatched.
pub record Task : Type 0 where
  pub id : ℕ
  pub kind : TaskType
  pub node_id : Option ℕ
  pub deployment_id : ℕ
  pub payload : List (String × Value)
  pub status : TaskStatus
  pub result : String
  pub created_at : ℕ

pub data NodeRole : Type 0 where
  builder deploy : NodeRole

pub record Node : Type 0 where
  pub id : ℕ
  pub hostname : String
  pub role : NodeRole
  pub host_ip : String
  pub max_storage_bytes : ℕ
  pub used_storage_bytes : ℕ
  pub last_seen_at : ℕ
  pub created_at : ℕ

pub record NodeDataset : Type 0 where
  pub node_id : ℕ
  pub dataset_id : ℕ
  pub last_used_at : ℕ
  pub size_bytes : ℕ

pub data MountMode : Type 0 where
  dependency readwrite : MountMode

pub record ProjectDataset : Type 0 where
  pub dataset_id : ℕ
  pub mount_mode : MountMode

-- The columns of a user that the tunnels read.
pub data UserRole : Type 0 where
  admin member : UserRole

pub record User : Type 0 where
  pub id : ℕ
  pub email : String
  pub role : UserRole

pub data ProjectType : Type 0 where
  deployment domain_only compose image build : ProjectType

pub data GitSource : Type 0 where
  external hosted unset : GitSource

pub record Project : Type 0 where
  pub id : ℕ
  pub name : String
  pub owner_id : ℕ
  pub project_type : ProjectType
  pub git_url : String
  pub git_branch : String
  pub git_source : GitSource
  pub dockerfile_path : String
  pub domain_prefix : String
  pub auth_required : Bool
  pub auth_allowed_domains : String
  pub container_port : ℕ
  pub memory_limit : String
  pub volume_mount_path : String
  pub compose_file_path : String
  pub expose_service : String
  pub expose_port : ℕ
  pub pinned_node_id : Option ℕ
  pub image_ref : String
  pub auto_deploy_enabled : Bool
  pub paused : Bool
  pub last_image_tag : String
  pub triggers_redeploy_of : List ℕ
  pub last_tracked_commit_sha : String
  pub last_tracked_image_digests : List (String × String)
  pub fixed_host_port : Option ℕ
  pub fixed_node_id : Option ℕ

pub record GitCredential : Type 0 where
  pub username : String
  pub token : String
  pub ssh_key : String

pub record EnvVar : Type 0 where
  pub key : String
  pub value : String
  pub runtime : Bool
  pub build : Bool

pub record RegistryAuth : Type 0 where
  pub addr : String
  pub username : String
  pub password : String

pub record Db : Type 0 where
  pub deployments : List Deployment
  pub tasks : List Task
  pub nodes : List Node
  pub node_datasets : List NodeDataset
  pub projects : List Project
  pub uuids : ℕ → ℕ
  pub dataset_size : ℕ → Option ℕ
  pub project_datasets : ℕ → List ProjectDataset
  pub git_credential : ℕ → GitCredential
  pub env_vars : ℕ → List EnvVar
  pub registry_auths : ℕ → List RegistryAuth

-- uuid.New()
abbrev pub fresh : Db → ℕ × Db
fresh db = (db.uuids 0, record db { uuids = λ n. db.uuids (suc n) })
