-- ===== src/Scheduler/Payload.antt =====
-- The payloads of the tasks that internal/scheduler/scheduler.go creates.
use muvee.Prelude.{
  ℕ, String, Bool, true, false, Option, none, some, List, [], ◌∷◌, ◌++◌, map, ◌&&◌, not, select,
  if◌then◌else◌, str_eq,
}
use muvee.Db.{
  Db, Project, MountMode, GitCredential, EnvVar, RegistryAuth, Deployment, Value, text, number,
  uuid, flag, table, auths, mounts,
}
use muvee.Db.Rows.{is_hosted}
use muvee.Scheduler.{Scheduler}

abbrev pub Payload : Type 0
Payload = List (String × Value)

abbrev pub is_empty : String → Bool
is_empty s = str_eq s ""

-- A key that is set only under a condition.
abbrev pub when : Bool → Payload → Payload
when true p = p
when false p = []

abbrev pub is_dependency : MountMode → Bool
is_dependency MountMode.dependency = true
is_dependency MountMode.readwrite = false

-- The URL, branch and credential that an agent is given. A hosted repository is cloned from the
-- control plane under the agents' secret; its URL is a path, here shown by its two constant parts.
pub record GitAccess : Type 0 where
  pub url : Value
  pub branch : String
  pub credential : GitCredential

unfoldable pub git_access : Scheduler → Project → Db → GitAccess
git_access s p db =
    if is_hosted p.git_source
    then record {
      url = table (("/git/", ".git") ∷ []);
      branch = if is_empty p.git_branch then "main" else p.git_branch;
      credential = record { username = "agent"; token = s.agent_secret; ssh_key = "" };
    }
    else record { url = text p.git_url; branch = p.git_branch; credential = db.git_credential p.id }

unfoldable pub git_payload : GitCredential → Payload
git_payload c =
    when (not (is_empty c.ssh_key)) (("git_ssh_key", text c.ssh_key) ∷ [])
    ++ when (not (is_empty c.username) && not (is_empty c.token))
        (("git_username", text c.username) ∷ ("git_token", text c.token) ∷ [])

-- The variables that pass a test, by key.
abbrev pub env_pairs : (EnvVar → Bool) → List EnvVar → List (String × String)
env_pairs q vs = map (λ v. (v.key, v.value)) (select q vs)

abbrev pub project_runtime_env : ℕ → Db → List (String × String)
project_runtime_env p db = env_pairs (λ v. v.runtime) (db.env_vars p)

abbrev pub is_nonempty {ℓ} : {A : Type ℓ} → List A → Bool
is_nonempty [] = false
is_nonempty (x ∷ xs) = true

-- buildRegistryAuthsPayload
unfoldable pub build_registry_auths_payload : List RegistryAuth → List (String × String × String)
build_registry_auths_payload rs =
    map (λ r. (r.addr, r.username, r.password)) (select (λ r. not (is_empty r.addr)) rs)

abbrev pub port_payload : Option ℕ → Payload
port_payload none = []
port_payload (some port) = ("fixed_host_port", number port) ∷ []

unfoldable pub build_payload : Scheduler → Deployment → Project → Db → Payload
unfolding git_access git_payload
build_payload s dep p db =
    let git = git_access s p db in
    let secrets = env_pairs (λ v. v.build) (db.env_vars p.id) in
    ("git_url", git.url)
    ∷ ("git_branch", text git.branch)
    ∷ ("dockerfile_path", text p.dockerfile_path)
    ∷ ("deployment_id", uuid dep.id)
    ∷ ("project_id", uuid p.id)
    ∷ ("domain_prefix", text p.domain_prefix)
    ∷ (git_payload git.credential
        ++ when (is_nonempty secrets) (("build_secrets", table secrets) ∷ []))

unfoldable pub compose_payload : Scheduler → Deployment → Project → Db → Payload
unfolding git_access git_payload build_registry_auths_payload
compose_payload s dep p db =
    let git = git_access s p db in
    let owner_auths = build_registry_auths_payload (db.registry_auths p.owner_id) in
    ("mode", text "compose")
    ∷ ("deployment_id", uuid dep.id)
    ∷ ("project_id", uuid p.id)
    ∷ ("domain_prefix", text p.domain_prefix)
    ∷ ("git_url", git.url)
    ∷ ("git_branch", text git.branch)
    ∷ ("compose_file_path", text p.compose_file_path)
    ∷ ("expose_service", text p.expose_service)
    ∷ ("expose_port", number p.expose_port)
    ∷ ("memory_limit", text p.memory_limit)
    ∷ ("env_vars", table (project_runtime_env p.id db))
    ∷ (port_payload p.fixed_host_port
        ++ git_payload git.credential
        ++ when (is_nonempty owner_auths) (("registry_auths", auths owner_auths) ∷ []))

-- buildImageDeployPayload. The inline compose file is shown by the image that it names.
unfoldable pub image_payload : Deployment → Project → Db → Payload
unfolding build_registry_auths_payload
image_payload dep p db =
    let owner_auths = build_registry_auths_payload (db.registry_auths p.owner_id) in
    ("mode", text "compose")
    ∷ ("deployment_id", uuid dep.id)
    ∷ ("project_id", uuid p.id)
    ∷ ("domain_prefix", text p.domain_prefix)
    ∷ ("inline_compose_yaml", text p.image_ref)
    ∷ ("expose_service", text "app")
    ∷ ("expose_port", number p.container_port)
    ∷ ("volume_mount_path", text p.volume_mount_path)
    ∷ ("memory_limit", text p.memory_limit)
    ∷ ("env_vars", table (project_runtime_env p.id db))
    ∷ (port_payload p.fixed_host_port
        ++ when (is_nonempty owner_auths) (("registry_auths", auths owner_auths) ∷ []))

-- The datasets that exist, with the way in which they are mounted.
abbrev pub mount_list : ℕ → Db → List (ℕ × Bool)
mount_list p db =
    map (λ d. (d.dataset_id, is_dependency d.mount_mode))
      (select (λ d. elim (db.dataset_size d.dataset_id) [ none ↦ false | some n ↦ true ])
        (db.project_datasets p))

unfoldable pub container_payload : Deployment → Project → String → Db → Payload
container_payload dep p tag db =
    ("image_tag", text tag)
    ∷ ("deployment_id", uuid dep.id)
    ∷ ("project_id", uuid p.id)
    ∷ ("domain_prefix", text p.domain_prefix)
    ∷ ("auth_required", flag p.auth_required)
    ∷ ("auth_domains", text p.auth_allowed_domains)
    ∷ ("container_port", number p.container_port)
    ∷ ("memory_limit", text p.memory_limit)
    ∷ ("volume_mount_path", text p.volume_mount_path)
    ∷ ("datasets", mounts (mount_list p.id db))
    ∷ ("env_vars", table (project_runtime_env p.id db))
    ∷ port_payload p.fixed_host_port
