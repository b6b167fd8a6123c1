-- ===== src/Watch/Credentials.antt =====
-- The credentials with which internal/scheduler/imagewatch.go asks a registry. The registry's host in
-- an image reference is the argument `host`, as the container registry library parses it, and
-- `to_lower` is unicode.ToLower.
use muvee.Prelude.{
  ℕ, ◌≡◌, ◌⊎◌, refl, Bool, true, ◌&&◌, ◌||◌, not, Option, none, some, List, [], ◌∷◌, String, str_eq,
  if◌then◌else◌, Bool-cases, inl, inr, arith, any,
}
use muvee.Datasets.Replay.{str_eq_self}
use muvee.Db.{RegistryAuth}
use muvee.Text.{Text, codes, same_text}
use muvee.Text.Words.{split_last}
use muvee.Domains.{clean}

abbrev without_port : Text → Option (Text × Text) → Text
without_port host none = host
without_port host (some (front, back)) = front

unfoldable pub strip_port : Text → Text
strip_port host = without_port host (split_last b':' host)

abbrev docker_hub : Text
docker_hub = codes "docker.io"

unfoldable pub fold_docker_hub : Text → Text
fold_docker_hub h =
    if same_text h (codes "index.docker.io") || same_text h (codes "registry-1.docker.io")
    then docker_hub
    else h

-- authn.Authenticator: anonymous, or a user and a password.
pub data Authenticator : Type 0 where
  anonymous : Authenticator
  basic : String → String → Authenticator

-- The registry of the installation.
pub record OwnRegistry : Type 0 where
  pub addr : String
  pub user : String
  pub password : String

module _ (to_lower : ℕ → ℕ) where
  unfoldable pub normalize_registry_host : Text → Text
  unfolding fold_docker_hub strip_port
  normalize_registry_host h = fold_docker_hub (strip_port (clean to_lower h))

  unfoldable pub registry_host_matches : Text → Text → Bool
  unfolding normalize_registry_host
  registry_host_matches ref_host secret_addr =
      same_text (normalize_registry_host ref_host) (normalize_registry_host secret_addr)

  unfoldable pub host_matches_registry_addr : Text → Text → Bool
  unfolding strip_port
  host_matches_registry_addr ref_host configured_addr =
      let h : Text = clean to_lower ref_host in
      let a : Text = clean to_lower configured_addr in
      not (same_text h [])
      && not (same_text a [])
      && (same_text h a || same_text (strip_port h) (strip_port a))

  unfoldable pub image_belongs_to_our_registry : OwnRegistry → Text → Bool
  unfolding host_matches_registry_addr
  image_belongs_to_our_registry own host =
      not (str_eq own.addr "") && host_matches_registry_addr host (codes own.addr)

  abbrev is_complete : RegistryAuth → Bool
  is_complete a = not (str_eq a.username "" || str_eq a.password "" || str_eq a.addr "")

  -- The loop over the owner's credentials.
  unfoldable pub owner_auth : Text → List RegistryAuth → Authenticator
  unfolding registry_host_matches
  owner_auth host [] = anonymous
  owner_auth host (a ∷ rest) =
      if is_complete a && registry_host_matches host (codes a.addr)
      then basic a.username a.password
      else owner_auth host rest

  unfoldable pub auth_for_image : OwnRegistry → Text → List RegistryAuth → Authenticator
  unfolding owner_auth image_belongs_to_our_registry
  auth_for_image own host owner_auths =
      if image_belongs_to_our_registry own host
        && not (str_eq own.user "")
        && not (str_eq own.password "")
      then basic own.user own.password
      else owner_auth host owner_auths

  abbrev pub is_for : Text → String → String → RegistryAuth → Bool
  is_for host user password a =
      registry_host_matches host (codes a.addr)
      && str_eq a.username user
      && str_eq a.password password

  -- A credential that may be sent to the host.
  abbrev pub IsMeantFor : OwnRegistry → Text → List RegistryAuth → Authenticator → Type 0
  IsMeantFor own host auths anonymous = Unit {0}
  IsMeantFor own host auths (basic user password) =
      ((image_belongs_to_our_registry own host ≡ true)
        × (user ≡ own.user)
        × (password ≡ own.password))
      ⊎ (any (is_for host user password) auths ≡ true)

  IsMeantFor-more :
      (own : OwnRegistry) (host : Text) (a : RegistryAuth) (auths : List RegistryAuth)
      (x : Authenticator)
      → IsMeantFor own host auths x
      → IsMeantFor own host (a ∷ auths) x
  IsMeantFor-more own host a auths anonymous h = tt
  IsMeantFor-more own host a auths (basic user password) (inl h) = inl h
  IsMeantFor-more own host a auths (basic user password) (inr h) = inr (rw h (ground arith))

  owner_auth-IsMeantFor :
      (own : OwnRegistry) (host : Text) (auths : List RegistryAuth)
      → IsMeantFor own host auths (owner_auth host auths)
  unfolding owner_auth
  owner_auth-IsMeantFor own host [] = tt
  owner_auth-IsMeantFor own host (a ∷ auths) =
      elim (Bool-cases (is_complete a && registry_host_matches host (codes a.addr))) [
        | inl e ↦
            let matches : registry_host_matches host (codes a.addr) ≡ true = ground arith in
            rw e (inr (rw (matches, str_eq_self a.username, str_eq_self a.password) refl))
        | inr e ↦ rw e (
            IsMeantFor-more own host a auths (owner_auth host auths)
              (owner_auth-IsMeantFor own host auths))
      ]

  -- The credential that the watcher sends to a registry is the installation's, and the registry is
  -- the installation's, or it is one of the owner's for the registry's host.
  pub auth_for_image-IsMeantFor :
      (own : OwnRegistry) (host : Text) (auths : List RegistryAuth)
      → IsMeantFor own host auths (auth_for_image own host auths)
  unfolding auth_for_image
  auth_for_image-IsMeantFor own host auths =
      elim (Bool-cases (
        image_belongs_to_our_registry own host
        && not (str_eq own.user "")
        && not (str_eq own.password ""))) [
          | inl e ↦ rw e (inl (ground arith, refl, refl))
          | inr e ↦ rw e (owner_auth-IsMeantFor own host auths)
        ]
