-- ===== src/Db/Deployments.antt =====
-- The deployments table of internal/store/store.go.
use muvee.Prelude.{
  ℕ, String, Bool, Option, none, some, List, [], ◌∷◌, ◌++◌, map, ◌==◌, ◌&&◌, not, if◌then◌else◌,
  select, first, update, str_eq,
}
use muvee.Db.{Db, Deployment, DeploymentStatus, LogLine, line, fresh}
use muvee.Db.Rows.{has_id, running_of}

-- Replaces the table.
abbrev pub with_deployments : Db → List Deployment → Db
with_deployments db ds = record db { deployments = ds }

-- CreateDeployment of a row that names the project, the image tag and the status; the id is new.
unfoldable pub create_deployment : ℕ → ℕ → String → DeploymentStatus → Db → Deployment × Db
create_deployment now p tag status db =
    let (n, db') = fresh db in
    let d : Deployment = record {
      id = n;
      project_id = p;
      image_tag = tag;
      status = status;
      node_id = none;
      host_port = 0;
      logs = [];
      created_at = now;
      updated_at = now;
    } in
    (d, with_deployments db' (db'.deployments ++ d ∷ []))

unfoldable pub get_deployment : ℕ → Db → Option Deployment
get_deployment n db = first (has_id n) db.deployments

-- logs || text, where the text is not empty.
abbrev pub log_line : String → List LogLine
log_line msg = if str_eq msg "" then [] else line msg ∷ []

abbrev pub set_status : ℕ → DeploymentStatus → List LogLine → Deployment → Deployment
set_status now status log d = record d { status = status; logs = d.logs ++ log; updated_at = now }

unfoldable pub update_deployment_status : ℕ → ℕ → DeploymentStatus → String → Db → Db
update_deployment_status now n status msg db =
    with_deployments db (update (has_id n) (set_status now status (log_line msg)) db.deployments)

unfoldable pub set_deployment_image_tag : ℕ → ℕ → String → Db → Db
set_deployment_image_tag now n tag db =
    with_deployments db
      (update (has_id n) (λ d. record d { image_tag = tag; updated_at = now }) db.deployments)

unfoldable pub set_deployment_host_port : ℕ → ℕ → ℕ → Db → Db
set_deployment_host_port now n port db = with_deployments db (
    update (has_id n)
      (λ d. record d { host_port = port; status = DeploymentStatus.running; updated_at = now })
      db.deployments)

unfoldable pub set_deployment_node : ℕ → ℕ → ℕ → Db → Db
set_deployment_node now n node db =
    with_deployments db
      (update (has_id n) (λ d. record d { node_id = some node; updated_at = now }) db.deployments)

unfoldable pub append_deployment_log : ℕ → ℕ → String → Db → Db
append_deployment_log now n msg db = with_deployments db (
    update (has_id n) (λ d. record d { logs = d.logs ++ line msg ∷ []; updated_at = now })
      db.deployments)

-- project_id=$1 AND id != $2 AND status='running'
abbrev pub stale_run : ℕ → ℕ → Deployment → Bool
stale_run p n d = running_of p d && not (d.id == n)

abbrev pub stop : ℕ → Deployment → Deployment
stop now d = record d { status = DeploymentStatus.stopped; updated_at = now }

-- The rows that were stopped are returned as they now stand.
unfoldable pub stop_project_deployments : ℕ → ℕ → ℕ → Db → List Deployment × Db
stop_project_deployments now p n db = (
  map (stop now) (select (stale_run p n) db.deployments),
  with_deployments db (update (stale_run p n) (stop now) db.deployments),
)
