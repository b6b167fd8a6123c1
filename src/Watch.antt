-- ===== src/Watch.antt =====
-- internal/scheduler/autodeploy.go: the poll of the projects' remote branches. What git ls-remote
-- gives for a branch is the argument `remote_head`: `none` for an error, and the empty text for a
-- branch that is not there.
pub mod Images
pub mod Intervals
pub mod Once
pub mod Quiet
pub mod Serial
pub mod Credentials
use muvee.Prelude.{
  ℕ, ◌*◌, ◌%◌, ◌^◌, Bool, Option, none, some, List, [], ◌∷◌, ◌||◌, ltb, leb, String, str_eq,
  if◌then◌else◌,
}
use muvee.Db.{Db, Project, GitSource, second, minute}
use muvee.Db.Projects.{list_auto_deploy_projects, set_project_last_tracked_commit_sha}
use muvee.Scheduler.{
  lookup_failed, branch_not_present, M, pure, raise, wrap, modify, ◌>>=◌, ◌>>◌, Scheduler,
}
use muvee.Scheduler.Trigger.{trigger_deployment}

-- A duration of Go is a word of 64 bits, negative from 2 ^ 63 on. `atoi` gives the word of the
-- number, or none for an error.
unfoldable pub interval_of : ℕ → ℕ → Option ℕ → ℕ
interval_of least default none = default
interval_of least default (some secs) =
    let d : ℕ = secs * second % 2 ^ 64 in if leb (2 ^ 63) d || ltb d least then default else d

unfoldable pub current_auto_deploy_interval : (atoi : String → Option ℕ) → String → ℕ
unfolding interval_of
current_auto_deploy_interval atoi setting = interval_of (10 * second) (60 * second) (atoi setting)

unfoldable pub or_default : String → String → String
or_default default s = if str_eq s "" then default else s

unfoldable pub branch_of : Project → String
unfolding or_default
branch_of p = or_default "main" p.git_branch

module _ (s : Scheduler) (remote_head : Project → String → Option String) where
  -- A commit that was not there at the last deployment triggers one and is recorded after it.
  unfoldable pub deploy_commit : ℕ → Project → String → M (Unit {0})
  deploy_commit now p sha = wrap "trigger: " (trigger_deployment s now p.id) >>= λ _.
      modify (set_project_last_tracked_commit_sha p.id sha)

  unfoldable pub compare_head : ℕ → Project → Option String → M (Unit {0})
  unfolding deploy_commit
  compare_head now p none = wrap "ls-remote: " (raise lookup_failed)
  compare_head now p (some sha) =
      if str_eq sha ""
      then raise branch_not_present
      else if str_eq sha p.last_tracked_commit_sha
      then pure tt
      else deploy_commit now p sha

  unfoldable pub check_and_trigger_external : ℕ → Project → M (Unit {0})
  unfolding compare_head branch_of
  check_and_trigger_external now p =
      if str_eq p.git_url "" then pure tt else compare_head now p (remote_head p (branch_of p))

  -- The errors are logged.
  unfoldable pub check_each : ℕ → List Project → Db → Db
  unfolding check_and_trigger_external
  check_each now [] db = db
  check_each now (p ∷ ps) db = check_each now ps (check_and_trigger_external now p db).1

  -- One tick, with the setting auto_deploy_master_enabled.
  unfoldable pub tick_auto_deploy : ℕ → String → Db → Db
  unfolding check_each
  tick_auto_deploy now master db =
      if str_eq master "false"
      then db
      else check_each now (list_auto_deploy_projects (some GitSource.external) db) db
