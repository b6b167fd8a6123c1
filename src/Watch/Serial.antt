-- ===== src/Watch/Serial.antt =====
-- The polls and the invariant of the deployments.
use muvee.Prelude.{ℕ, ◌||◌, Option, none, some, String, str_eq, Bool-cases, inl, inr, List, [], ◌∷◌}
use muvee.Db.{Db, Deployment, Project, ProjectType}
use muvee.Db.Projects.{
  update_project, set_project_last_tracked_commit_sha, set_project_last_tracked_image_digests,
}
use muvee.Queue.Serial.{IsSerial}
use muvee.Text.{codes}
use muvee.Scheduler.{
  lookup_failed, Result, ok, err, M, pure, raise, wrap, rewrap, after, modify, ◌>>=◌, Scheduler,
}
use muvee.Scheduler.Trigger.{trigger_deployment}
use muvee.Scheduler.Serial.Triggers.{IsFresh, trigger-IsSerial}
use muvee.Watch.{branch_of, deploy_commit, compare_head, check_and_trigger_external}
use muvee.Watch.Images.{
  Digests, any_moved, is_empty, same_keys, current_digests, redeploy, check_digest,
  contains_interpolation, is_current, check_single_image, check_images, check_listed,
  check_compose_images, parse_compose_images, watch_project,
}

-- A column of a project is none of the deployments.
update_project-IsSerial :
    (n : ℕ) (f : Project → Project) (db : Db) → IsSerial db → IsSerial (update_project n f db)
update_project-IsSerial n f db h = record { unique = h.unique; one = h.one }

recorded-IsSerial :
    (n : ℕ) (f : Project → Project) (what : String) (r : Result Deployment) (db : Db)
    → IsSerial db
    → IsSerial (after (rewrap what r) (λ _. modify (update_project n f)) db).1
recorded-IsSerial n f what (ok d) db h = update_project-IsSerial n f db h
recorded-IsSerial n f what (err e) db h = h

module _ (s : Scheduler) (now : ℕ) (p : Project) (db : Db) (f : IsFresh db) (h : IsSerial db) where
  triggered-IsSerial :
      (n : ℕ) (g : Project → Project) (what : String)
      → IsSerial
          ((wrap what (trigger_deployment s now p.id) >>= λ _. modify (update_project n g)) db).1
  triggered-IsSerial n g what =
      let (r, db1) = trigger_deployment s now p.id db in
      recorded-IsSerial n g what r db1 (trigger-IsSerial s now p.id db f h)

  module _ (remote : Project → String → Option String) where
    compare_head-IsSerial : (o : Option String) → IsSerial (compare_head s remote now p o db).1
    unfolding compare_head deploy_commit set_project_last_tracked_commit_sha
    compare_head-IsSerial none = h
    compare_head-IsSerial (some sha) = elim (Bool-cases (str_eq sha "")) [
      | inl e ↦ rw e h
      | inr e ↦ elim (Bool-cases (str_eq sha p.last_tracked_commit_sha)) [
        | inl t ↦ rw (e, t) h
        | inr t ↦
            rw (e, t)
              (triggered-IsSerial p.id (λ q. record q { last_tracked_commit_sha = sha })
                "trigger: ")
      ]
    ]

    check-IsSerial : IsSerial (check_and_trigger_external s remote now p db).1
    unfolding check_and_trigger_external
    check-IsSerial = elim (Bool-cases (str_eq p.git_url "")) [
      | inl e ↦ rw e h
      | inr e ↦ rw e (compare_head-IsSerial (remote p (branch_of p)))
    ]

  module _ (fetch : Project → String → Option String) where
    redeploy-IsSerial : (current : Digests) → IsSerial (redeploy s fetch now p current db).1
    unfolding redeploy set_project_last_tracked_image_digests
    redeploy-IsSerial current =
        triggered-IsSerial p.id (λ q. record q { last_tracked_image_digests = current }) "trigger: "

    persist-IsSerial :
        (current : Digests) → IsSerial (set_project_last_tracked_image_digests p.id current db)
    unfolding set_project_last_tracked_image_digests
    persist-IsSerial current =
        update_project-IsSerial p.id (λ q. record q { last_tracked_image_digests = current }) db h

    check_digest-IsSerial : (o : Option String) → IsSerial (check_digest s fetch now p o db).1
    unfolding check_digest
    check_digest-IsSerial none = h
    check_digest-IsSerial (some digest) =
        let prior : Digests = p.last_tracked_image_digests in
        elim (Bool-cases (is_empty prior)) [
          | inl e ↦ rw e (persist-IsSerial ((p.image_ref, digest) ∷ []))
          | inr e ↦ elim (Bool-cases (is_current s fetch prior p.image_ref digest)) [
            | inl t ↦ rw (e, t) h
            | inr t ↦ rw (e, t) (redeploy-IsSerial ((p.image_ref, digest) ∷ []))
          ]
        ]

    check_single_image-IsSerial : IsSerial (check_single_image s fetch now p db).1
    unfolding check_single_image
    check_single_image-IsSerial =
        elim (Bool-cases (str_eq p.image_ref "" || contains_interpolation (codes p.image_ref))) [
          | inl e ↦ rw e h
          | inr e ↦ rw e (check_digest-IsSerial (fetch p p.image_ref))
        ]

    check_images-IsSerial :
        (images : List String) → IsSerial (check_images s fetch now p images db).1
    unfolding check_images
    check_images-IsSerial images =
        let prior : Digests = p.last_tracked_image_digests in
        let current : Digests = current_digests (fetch p) prior images in
        elim (Bool-cases (is_empty prior)) [
          | inl e ↦ rw e (persist-IsSerial current)
          | inr e ↦ elim (Bool-cases (any_moved (fetch p) prior images)) [
            | inl m ↦ rw (e, m) (redeploy-IsSerial current)
            | inr m ↦ elim (Bool-cases (same_keys prior current)) [
              | inl k ↦ rw (e, m, k) h
              | inr k ↦ rw (e, m, k) (persist-IsSerial current)
            ]
          ]
        ]

    check_listed-IsSerial :
        (images : List String) → IsSerial (check_listed s fetch now p images db).1
    unfolding check_listed
    check_listed-IsSerial [] = h
    check_listed-IsSerial (image ∷ images) = check_images-IsSerial (image ∷ images)

    module _ (trim : String → String) (compose_images : Project → Option (List String)) where
      compose_case :
          (o : Option (List String))
          → IsSerial
              (let out : M (Unit {0}) = elim o [
                | none ↦ wrap "fetch compose: " (raise lookup_failed)
                | some raws ↦ check_listed s fetch now p (parse_compose_images trim [] raws)
              ] in
                out db).1
      compose_case none = h
      compose_case (some raws) = check_listed-IsSerial (parse_compose_images trim [] raws)

      type_case :
          (k : ProjectType)
          → IsSerial
              (let out : M (Unit {0}) = elim k [
                | ProjectType.compose ↦ check_compose_images s fetch trim compose_images now p
                | ProjectType.image ↦ check_single_image s fetch now p
                | _ ↦ pure tt
              ] in
                out db).1
      unfolding check_compose_images
      type_case ProjectType.compose = compose_case (compose_images p)
      type_case ProjectType.image = check_single_image-IsSerial
      type_case _ = h

      watch_project-IsSerial : IsSerial (watch_project s fetch trim compose_images now p db).1
      unfolding watch_project
      watch_project-IsSerial = type_case p.project_type

-- A poll of a project's branch or of its images, whatever the remote and the registry answer,
-- keeps deployment ids unique and at most one deployment of every project in flight. The id that
-- uuid.New() gives next is assumed not to be in use.
pub polls-IsSerial :
    (s : Scheduler) (now : ℕ) (p : Project) (db : Db) (remote : Project → String → Option String)
    (fetch : Project → String → Option String) (trim : String → String)
    (compose_images : Project → Option (List String))
    → IsFresh db
    → IsSerial db
    → IsSerial (check_and_trigger_external s remote now p db).1
      × IsSerial (watch_project s fetch trim compose_images now p db).1
polls-IsSerial s now p db remote fetch trim compose_images f h = (
  check-IsSerial s now p db f h remote,
  watch_project-IsSerial s now p db f h fetch trim compose_images,
)
