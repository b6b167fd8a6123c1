-- ===== src/Watch/Images.antt =====
-- internal/scheduler/imagewatch.go: the poll of the digests of the images that projects run. What
-- the registry gives for an image is the argument `fetch_digest`, with `none` for an error;
-- `compose_images` is the list of the images in the project's compose file, as the YAML parser
-- gives them, none for an error and the empty list where there is no file.
use muvee.Prelude.{
  ℕ, ◌*◌, Bool, true, false, ◌&&◌, ◌||◌, not, Option, none, some, List, [], ◌∷◌, ◌++◌, ◌==◌, String,
  str_eq, if◌then◌else◌, any, length,
}
use muvee.Db.{Db, Project, ProjectType, second, minute}
use muvee.Db.Projects.{list_auto_deploy_projects, set_project_last_tracked_image_digests}
use muvee.Scheduler.{lookup_failed, M, pure, raise, wrap, modify, ◌>>=◌, Scheduler}
use muvee.Scheduler.Trigger.{trigger_deployment}
use muvee.Text.{Text, codes}
use muvee.Watch.{interval_of}

abbrev pub Digests : Type 0
Digests = List (String × String)

unfoldable pub current_image_watch_interval : (atoi : String → Option ℕ) → String → ℕ
unfolding interval_of
current_image_watch_interval atoi setting = interval_of (60 * second) (10 * minute) (atoi setting)

abbrev pub digest_of : String → Digests → Option String
digest_of image [] = none
digest_of image (e ∷ es) = if str_eq e.0 image then some e.1 else digest_of image es

abbrev pub has_key : String → Digests → Bool
has_key image = any (λ e. str_eq e.0 image)

abbrev all_keys_in : Digests → Digests → Bool
all_keys_in b [] = true
all_keys_in b (e ∷ es) = has_key e.0 b && all_keys_in b es

-- Maps of one size with the keys of the one in the other: the keys of a list are different here.
unfoldable pub same_keys : Digests → Digests → Bool
same_keys a b = (length a == length b) && all_keys_in b a

-- strings.ReplaceAll s "$$" ""
unfoldable pub without_escapes : Text → Text
without_escapes [] = []
without_escapes (c ∷ []) = c ∷ []
without_escapes (c ∷ d ∷ cs) =
    let skipped : Text = without_escapes cs in
    let rest : Text = without_escapes (d ∷ cs) in
    if (c == b'$') && (d == b'$') then skipped else c ∷ rest

abbrev dollar : Text → Bool
dollar = any (λ c. c == b'$')

unfoldable pub contains_interpolation : Text → Bool
unfolding without_escapes
contains_interpolation s = dollar s && dollar (without_escapes s)

abbrev pub seen : String → List String → Bool
seen image = any (str_eq image)

-- The images to watch of a compose file: each once, without the empty ones and those with a
-- variable. `trim` is strings.TrimSpace.
unfoldable pub parse_compose_images :
    (trim : String → String) → List String → List String → List String
unfolding contains_interpolation
parse_compose_images trim known [] = []
parse_compose_images trim known (raw ∷ raws) =
    let image : String = trim raw in
    let rest : List String = parse_compose_images trim (image ∷ known) raws in
    if str_eq image "" || seen image known
    then parse_compose_images trim known raws
    else if contains_interpolation (codes image)
    then rest
    else image ∷ rest

-- One image in the loop of checkComposeImages: whether a known digest moved, and the new entry.
unfoldable pub moved : Option String → Option String → Bool
moved (some prev) (some digest) = not (str_eq prev digest)
moved _ _ = false

unfoldable pub entry_for : String → Option String → Option String → Digests
entry_for image prev (some digest) = (image, digest) ∷ []
entry_for image (some prev) none = (image, prev) ∷ []
entry_for image none none = []

unfoldable pub any_moved : (String → Option String) → Digests → List String → Bool
unfolding moved
any_moved fetch prior [] = false
any_moved fetch prior (image ∷ images) =
    moved (digest_of image prior) (fetch image) || any_moved fetch prior images

unfoldable pub current_digests : (String → Option String) → Digests → List String → Digests
unfolding entry_for
current_digests fetch prior [] = []
current_digests fetch prior (image ∷ images) =
    entry_for image (digest_of image prior) (fetch image) ++ current_digests fetch prior images

abbrev pub is_empty : Digests → Bool
is_empty [] = true
is_empty (e ∷ es) = false

abbrev persist_digests : Project → Digests → M (Unit {0})
persist_digests p digests = modify (set_project_last_tracked_image_digests p.id digests)

module _ (s : Scheduler) (fetch_digest : Project → String → Option String) where
  unfoldable pub redeploy : ℕ → Project → Digests → M (Unit {0})
  redeploy now p current =
      wrap "trigger: " (trigger_deployment s now p.id) >>= λ _. persist_digests p current

  abbrev pub is_current : Digests → String → String → Bool
  is_current prior image digest = elim (digest_of image prior) [
    | none ↦ false
    | some prev ↦ str_eq prev digest && same_keys prior ((image, digest) ∷ [])
  ]

  unfoldable pub check_digest : ℕ → Project → Option String → M (Unit {0})
  unfolding redeploy same_keys
  check_digest now p none = wrap "digest: " (raise lookup_failed)
  check_digest now p (some digest) =
      let current : Digests = (p.image_ref, digest) ∷ [] in
      if is_empty p.last_tracked_image_digests
      then persist_digests p current
      else if is_current p.last_tracked_image_digests p.image_ref digest
      then pure tt
      else redeploy now p current

  unfoldable pub check_single_image : ℕ → Project → M (Unit {0})
  unfolding check_digest contains_interpolation
  check_single_image now p =
      if str_eq p.image_ref "" || contains_interpolation (codes p.image_ref)
      then pure tt
      else check_digest now p (fetch_digest p p.image_ref)

  -- The loop over the images, and what follows it.
  unfoldable pub check_images : ℕ → Project → List String → M (Unit {0})
  unfolding redeploy same_keys any_moved current_digests
  check_images now p images =
      let prior : Digests = p.last_tracked_image_digests in
      let current : Digests = current_digests (fetch_digest p) prior images in
      if is_empty prior
      then persist_digests p current
      else if any_moved (fetch_digest p) prior images
      then redeploy now p current
      else if same_keys prior current
      then pure tt
      else persist_digests p current

  unfoldable pub check_listed : ℕ → Project → List String → M (Unit {0})
  unfolding check_images
  check_listed now p [] = pure tt
  check_listed now p (image ∷ images) = check_images now p (image ∷ images)

  module _ (trim : String → String) (compose_images : Project → Option (List String)) where
    unfoldable pub check_compose_images : ℕ → Project → M (Unit {0})
    unfolding check_listed parse_compose_images
    check_compose_images now p = elim (compose_images p) [
      | none ↦ wrap "fetch compose: " (raise lookup_failed)
      | some raws ↦ check_listed now p (parse_compose_images trim [] raws)
    ]

    unfoldable pub watch_project : ℕ → Project → M (Unit {0})
    unfolding check_compose_images check_single_image
    watch_project now p = elim p.project_type [
      | ProjectType.compose ↦ check_compose_images now p
      | ProjectType.image ↦ check_single_image now p
      | _ ↦ pure tt
    ]

    -- The errors are logged.
    unfoldable pub watch_each : ℕ → List Project → Db → Db
    unfolding watch_project
    watch_each now [] db = db
    watch_each now (p ∷ ps) db = watch_each now ps (watch_project now p db).1

    unfoldable pub tick_image_watch : ℕ → String → Db → Db
    unfolding watch_each
    tick_image_watch now master db =
        if str_eq master "false" then db else watch_each now (list_auto_deploy_projects none db) db
