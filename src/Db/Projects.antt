-- ===== src/Db/Projects.antt =====
-- The columns of the projects table of internal/store/store.go that scheduling reads and writes.
use muvee.Prelude.{
  ℕ, String, Bool, true, false, not, ◌&&◌, Option, none, some, List, ◌==◌, first, select, update,
}
use muvee.Db.{Db, Project, ProjectType, GitSource}

unfoldable pub get_project : ℕ → Db → Option Project
get_project n db = first (λ p. p.id == n) db.projects

abbrev pub update_project : ℕ → (Project → Project) → Db → Db
update_project n f db = record db { projects = update (λ p. p.id == n) f db.projects }

unfoldable pub set_project_paused : ℕ → Bool → Db → Db
set_project_paused n paused = update_project n (λ p. record p { paused = paused })

unfoldable pub set_project_pinned_node : ℕ → ℕ → Db → Db
set_project_pinned_node n node = update_project n (λ p. record p { pinned_node_id = some node })

unfoldable pub set_project_last_image_tag : ℕ → String → Db → Db
set_project_last_image_tag n tag = update_project n (λ p. record p { last_image_tag = tag })

unfoldable pub set_project_last_tracked_commit_sha : ℕ → String → Db → Db
set_project_last_tracked_commit_sha n sha =
    update_project n (λ p. record p { last_tracked_commit_sha = sha })

-- The column holds the map as JSON; a text that cannot be read counts as the empty map.
unfoldable pub set_project_last_tracked_image_digests : ℕ → List (String × String) → Db → Db
set_project_last_tracked_image_digests n digests =
    update_project n (λ p. record p { last_tracked_image_digests = digests })

abbrev is_source : GitSource → GitSource → Bool
is_source GitSource.external GitSource.external = true
is_source GitSource.hosted GitSource.hosted = true
is_source _ _ = false

abbrev has_source : Option GitSource → Project → Bool
has_source none p = true
has_source (some source) p = is_source source p.git_source

abbrev has_deployments : ProjectType → Bool
has_deployments ProjectType.domain_only = false
has_deployments _ = true

-- An empty git source, which is `none`, stands for any.
unfoldable pub list_auto_deploy_projects : Option GitSource → Db → List Project
list_auto_deploy_projects source db =
    select
      (λ p.
        p.auto_deploy_enabled
        && not p.paused
        && has_deployments p.project_type
        && has_source source p)
      db.projects
