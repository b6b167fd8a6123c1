-- ===== src/Scheduler.antt =====
-- internal/scheduler/scheduler.go: what its functions share. They run over the database and may
-- fail; a failure does not undo what was written before it, since the statements of one function
-- do not share a transaction.
pub mod Pick
pub mod Payload
pub mod Dispatch
pub mod Trigger
pub mod Keeps
pub mod Serial
pub mod Settled
pub mod Refusals
pub mod Placement
pub mod Binding
pub mod FirstTask
use muvee.Prelude.{
  ℕ, ◌+◌, ◌-◌, ◌*◌, ◌≤◌, ◌≡◌, String, Bool, true, false, Option, none, some, List, ◌==◌, ltb,
  if◌then◌else◌, str_append,
}
use muvee.Db.{Db, Node, ProjectType, minute}
use muvee.Queue.{DeployQueuePolicy}

-- The errors that the functions make themselves. Those of the database driver are not modelled.
pub data Error : Type 0 where
  project_not_found domain_only_project project_paused : Error
  no_deploy_nodes no_active_deploy_nodes no_scorable_nodes no_active_builder_nodes : Error
  cannot_build_domain_only cannot_build_compose cannot_build_image : Error
  cannot_deploy no_git_url no_expose no_image_ref no_container_port : Error
  fixed_node_gone fixed_node_offline pinned_node_gone pinned_node_offline : Error
  lookup_failed branch_not_present : Error
  wrapped : String → Error → Error

-- The text of an error, without the ids and host names that it prints.
unfoldable pub message : Error → String
message project_not_found = "project not found"
message domain_only_project = "domain_only projects cannot be deployed"
message project_paused = "project is paused"
message no_deploy_nodes = "no deploy nodes available"
message no_active_deploy_nodes = "no active deploy nodes"
message no_scorable_nodes = "no scorable nodes"
message no_active_builder_nodes = "no active builder nodes"
message cannot_build_domain_only = "cannot dispatch build for domain_only project"
message cannot_build_compose =
    "cannot dispatch build for compose project (compose deploys must use image: only)"
message cannot_build_image = "cannot dispatch build for image project (pulls a pre-built image)"
message cannot_deploy = "cannot dispatch deploy for domain_only project"
message no_git_url = "compose project has no git_url"
message no_expose = "compose project must declare expose_service and expose_port"
message no_image_ref = "image project has no image_ref"
message no_container_port = "image project has no container_port"
message fixed_node_gone = "project's fixed deploy node no longer exists"
message fixed_node_offline = "project's fixed deploy node is offline; refusing to dispatch"
message pinned_node_gone = "compose project's pinned deploy node no longer exists"
message pinned_node_offline =
    "compose project's pinned deploy node is offline; data is on that node, refusing to migrate"
message lookup_failed = "lookup failed"
message branch_not_present = "branch not present on remote"
message (wrapped what e) = str_append what (message e)

pub data Result {ℓ} (A : Type ℓ) : Type ℓ where
  ok : A → Result A
  err : Error → Result A

abbrev pub M : Type 0 → Type 0
M A = Db → Result A × Db

abbrev pub pure : {A : Type 0} → A → M A
pure a db = (ok a, db)

abbrev pub raise : {A : Type 0} → Error → M A
raise e db = (err e, db)

-- What comes after a result.
abbrev pub after : {A B : Type 0} → Result A → (A → M B) → M B
after (ok a) f db = f a db
after (err e) f db = (err e, db)

infixl 5 ◌>>=◌ ◌>>◌
abbrev pub ◌>>=◌ : {A B : Type 0} → M A → (A → M B) → M B
◌>>=◌ m f db = after (m db).0 f (m db).1

abbrev pub ◌>>◌ : {B : Type 0} → M (Unit {0}) → M B → M B
m >> k = m >>= λ _. k

abbrev pub gets : {A : Type 0} → (Db → A) → M A
gets f db = (ok (f db), db)

abbrev pub modify : (Db → Db) → M (Unit {0})
modify f db = (ok tt, f db)

abbrev pub run : {A : Type 0} → (Db → A × Db) → M A
run f db = (ok (f db).0, (f db).1)

abbrev pub rewrap : {A : Type 0} → String → Result A → Result A
rewrap what (ok a) = ok a
rewrap what (err e) = err (wrapped what e)

-- fmt.Errorf("…: %w", err)
abbrev pub wrap : {A : Type 0} → String → M A → M A
wrap what m db = (rewrap what (m db).0, (m db).1)

-- defaultDeployQueuePolicy
abbrev pub default_deploy_queue_policy : DeployQueuePolicy
default_deploy_queue_policy = record { grace = 10 * minute; hard_timeout = 360 * minute }

-- A candidate node with what its score is made of.
pub record NodeScore : Type 0 where
  pub node : Node
  pub cache_hits : ℕ
  pub missing_bytes : ℕ

-- Scheduler. `rank` is sort.Slice by falling score, and `policy` is deployQueuePolicy().
pub record Scheduler : Type 0 where
  pub agent_secret : String
  pub policy : DeployQueuePolicy
  pub rank : List NodeScore → List NodeScore
