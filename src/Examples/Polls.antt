-- ===== src/Examples/Polls.antt =====
-- The theorems on the polls of branches and images and on pausing, applied to the project `web`.
use muvee.Prelude.{
  ℕ, ◌+◌, ◌*◌, ◌^◌, ◌≤◌, ◌<◌, ◌≡◌, refl, sym, ◌∙◌, Bool, true, false, String, Option, none, some,
  List, [], ◌∷◌, str_eq, if◌then◌else◌,
}
use muvee.Db.{Db, Project, RegistryAuth, ProjectType, second}
use muvee.Db.Projects.{get_project, set_project_last_tracked_commit_sha}
use muvee.Queue.Serial.{IsSerial}
use muvee.Scheduler.{ok, err, project_paused}
use muvee.Scheduler.Trigger.{trigger_deployment}
use muvee.Text.{codes}
use muvee.Watch.{check_and_trigger_external, current_auto_deploy_interval}
use muvee.Watch.Images.{check_compose_images, watch_project, current_image_watch_interval}
use muvee.Watch.Intervals.{interval-bounds}
use muvee.Watch.Once.{check-once}
use muvee.Watch.Quiet.{IsStill, IsQuiet, check_compose_images-IsQuiet}
use muvee.Watch.Serial.{polls-IsSerial}
use muvee.Watch.Credentials.{OwnRegistry, IsMeantFor, auth_for_image, auth_for_image-IsMeantFor}
use muvee.Pause.{trigger_pause, trigger_resume}
use muvee.Pause.Undone.{resume-pause}
use muvee.Queue.{advance_deploy_queue, is_lost}
use muvee.Db.Deployments.{create_deployment}
use muvee.Db.{DeploymentStatus}
use muvee.Examples.{installation, row, noon, busy, in_order, web}
use muvee.Examples.Queues.{busy-IsSerial}
use muvee.Examples.Names.{ascii_lower}

-- An Atoi that reads a number whose product with a second overflows.
abbrev huge : String → Option ℕ
huge s = some (2 ^ 63)

interval-bounds_example :
    (10 * second ≤ current_auto_deploy_interval huge "9223372036854775808")
    × (current_auto_deploy_interval huge "9223372036854775808" < 2 ^ 63)
    × (60 * second ≤ current_image_watch_interval huge "9223372036854775808")
    × (current_image_watch_interval huge "9223372036854775808" < 2 ^ 63)
interval-bounds_example = interval-bounds huge "9223372036854775808"

abbrev head : Project → String → Option String
head p branch = some "c0ffee"

-- The project whose last deployment was of the head.
abbrev tracked : Project
tracked = record web { last_tracked_commit_sha = "c0ffee" }

-- A deployment has just started.
abbrev waiting : Db
waiting = installation (row 11 DeploymentStatus.deploying noon ∷ []) []

abbrev first_check : Db
first_check = (check_and_trigger_external in_order head noon web waiting).1

check-once_example :
    check_and_trigger_external in_order head (noon + noon) tracked first_check
    ≡ (ok tt, first_check)
unfolding get_project check_and_trigger_external trigger_deployment advance_deploy_queue
    create_deployment is_lost set_project_last_tracked_commit_sha
check-once_example =
    check-once in_order head noon (noon + noon) web tracked waiting first_check refl refl refl refl

abbrev no_trim : String → String
no_trim s = s

abbrev two_images : Project → Option (List String)
two_images p = some ("redis:7" ∷ "ghcr.io/ann/app:1" ∷ [])

abbrev stack : Project
stack = record web {
  project_type = ProjectType.compose;
  last_tracked_image_digests = ("redis:7", "sha256:1") ∷ [];
}

-- The digest of the known image is as it was, and the lookup of the new one fails.
abbrev digests : Project → String → Option String
digests p image = if str_eq image "redis:7" then some "sha256:1" else none

polls-IsSerial_example :
    IsSerial (check_and_trigger_external in_order head noon web busy).1
    × IsSerial (watch_project in_order digests no_trim two_images noon web busy).1
polls-IsSerial_example =
    polls-IsSerial in_order noon web busy head digests no_trim two_images refl busy-IsSerial

abbrev ghcr : RegistryAuth
ghcr = record { addr = "ghcr.io"; username = "ann"; password = "pw" }

abbrev own : OwnRegistry
own = record { addr = "registry.example.org:5000"; user = "muvee"; password = "secret" }

auth_for_image-IsMeantFor_example :
    IsMeantFor ascii_lower own
      (codes "ghcr.io")
      (ghcr ∷ [])
      (auth_for_image ascii_lower own (codes "ghcr.io") (ghcr ∷ []))
auth_for_image-IsMeantFor_example =
    auth_for_image-IsMeantFor ascii_lower own (codes "ghcr.io") (ghcr ∷ [])

resume-pause_example :
    let db : Db = (trigger_pause true noon 7 busy).1 in
    (trigger_deployment in_order noon 7 db ≡ (err project_paused, db))
    × (get_project 7 (trigger_resume true noon 7 db).1 ≡ some web)
unfolding get_project
resume-pause_example = resume-pause in_order noon noon 7 web busy refl refl

only : (b : Bool) (x y : String) → (if b then some x else none) ≡ some y → x ≡ y
only true x y h = cc h
only false x y h = cc h

digests-IsStill : IsStill (digests stack) stack.last_tracked_image_digests
digests-IsStill image prev digest h k =
    sym (only (str_eq "redis:7" image) "sha256:1" prev h)
    ∙ only (str_eq image "redis:7") "sha256:1" digest k

check_compose_images-IsQuiet_example :
    IsQuiet busy (check_compose_images in_order digests no_trim two_images noon stack busy).1
check_compose_images-IsQuiet_example =
    check_compose_images-IsQuiet in_order digests no_trim two_images noon stack busy digests-IsStill
