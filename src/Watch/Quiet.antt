-- ===== src/Watch/Quiet.antt =====
-- Polls of the images that trigger nothing.
use muvee.Prelude.{
  ℕ, ◌≡◌, refl, false, Option, none, some, String, Bool-cases, inl, inr, List, [], ◌∷◌,
}
use muvee.Datasets.Replay.{str_eq_self}
use muvee.Db.{Db, Project}
use muvee.Db.Projects.{set_project_last_tracked_image_digests}
use muvee.Scheduler.{lookup_failed, M, raise, wrap, Scheduler}
use muvee.Watch.Images.{
  Digests, digest_of, moved, any_moved, is_empty, same_keys, current_digests, check_images,
  check_listed, check_compose_images, parse_compose_images,
}

-- Every image that is known and is looked up is as it was.
abbrev pub IsStill : (String → Option String) → Digests → Type 0
IsStill fetch prior =
    (image prev digest : String)
    → digest_of image prior ≡ some prev
    → fetch image ≡ some digest
    → prev ≡ digest

moved-still :
    (a b : Option String)
    → ((prev digest : String) → a ≡ some prev → b ≡ some digest → prev ≡ digest)
    → moved a b ≡ false
unfolding moved
moved-still none b h = refl
moved-still (some prev) none h = refl
moved-still (some prev) (some digest) h = rw (h prev digest refl refl, str_eq_self digest) refl

any_moved-still :
    (fetch : String → Option String) (prior : Digests) (images : List String)
    → IsStill fetch prior
    → any_moved fetch prior images ≡ false
unfolding any_moved
any_moved-still fetch prior [] h = refl
any_moved-still fetch prior (image ∷ images) h =
    rw (moved-still (digest_of image prior) (fetch image) (h image))
      (any_moved-still fetch prior images h)

-- No deployment and no task is touched.
abbrev pub IsQuiet : Db → Db → Type 0
IsQuiet db db' = (db'.deployments ≡ db.deployments) × (db'.tasks ≡ db.tasks)

module _ (s : Scheduler) (fetch : Project → String → Option String) where
  check_images-IsQuiet :
      (now : ℕ) (p : Project) (images : List String) (db : Db)
      → IsStill (fetch p) p.last_tracked_image_digests
      → IsQuiet db (check_images s fetch now p images db).1
  unfolding check_images set_project_last_tracked_image_digests
  check_images-IsQuiet now p images db h =
      let prior : Digests = p.last_tracked_image_digests in
      elim (Bool-cases (is_empty prior)) [
        | inl e ↦ rw e (refl, refl)
        | inr e ↦
            rw (e, any_moved-still (fetch p) prior images h)
              (elim (Bool-cases (same_keys prior (current_digests (fetch p) prior images))) [
                | inl k ↦ rw k (refl, refl)
                | inr k ↦ rw k (refl, refl)
              ])
      ]

  check_listed-IsQuiet :
      (now : ℕ) (p : Project) (images : List String) (db : Db)
      → IsStill (fetch p) p.last_tracked_image_digests
      → IsQuiet db (check_listed s fetch now p images db).1
  unfolding check_listed
  check_listed-IsQuiet now p [] db h = (refl, refl)
  check_listed-IsQuiet now p (image ∷ images) db h =
      check_images-IsQuiet now p (image ∷ images) db h

  compose_case :
      (now : ℕ) (p : Project) (trim : String → String) (o : Option (List String)) (db : Db)
      → IsStill (fetch p) p.last_tracked_image_digests
      → IsQuiet db
          (let out : M (Unit {0}) = elim o [
            | none ↦ wrap "fetch compose: " (raise lookup_failed)
            | some raws ↦ check_listed s fetch now p (parse_compose_images trim [] raws)
          ] in
            out db).1
  compose_case now p trim none db h = (refl, refl)
  compose_case now p trim (some raws) db h =
      check_listed-IsQuiet now p (parse_compose_images trim [] raws) db h

  -- A poll of a compose project touches no deployment and no task, unless an image whose digest is
  -- known now has another one: an image that is new, or whose lookup fails, triggers nothing.
  pub check_compose_images-IsQuiet :
      (trim : String → String) (compose_images : Project → Option (List String)) (now : ℕ)
      (p : Project) (db : Db)
      → IsStill (fetch p) p.last_tracked_image_digests
      → IsQuiet db (check_compose_images s fetch trim compose_images now p db).1
  unfolding check_compose_images
  check_compose_images-IsQuiet trim compose_images now p db h =
      compose_case now p trim (compose_images p) db h
