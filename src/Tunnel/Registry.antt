-- ===== src/Tunnel/Registry.antt =====
-- The registry of tunnels in internal/api/tunnel.go: who may connect under which domain prefix, and
-- to which tunnel a request goes. A domain prefix is a text.
use muvee.Prelude.{
  ◌≡◌, ℕ, Bool, true, false, ◌&&◌, ◌||◌, not, Option, none, some, List, [], ◌∷◌, ◌==◌, leb, String,
  str_eq, if◌then◌else◌, length, first, drop, select, any,
}
use muvee.Db.{Db, User, UserRole, Project, ProjectType}
use muvee.Text.{Text, codes, same_text, has_prefix, has_suffix, every}
use muvee.Text.Words.{split, split_last, member, trim_suffix}

-- tunnelConn as the registry knows it; `handle` is the identity of the pointer.
pub record Tunnel : Type 0 where
  pub handle : ℕ
  pub user : User
  pub auth_required : Bool
  pub project_name : String

abbrev pub Registry : Type 0
Registry = List (Text × Tunnel)

abbrev pub is_of : Text → Text × Tunnel → Bool
is_of domain e = same_text domain e.0

unfoldable pub get : Text → Registry → Option (Text × Tunnel)
get domain reg = first (is_of domain) reg

-- register: false where a tunnel is already there.
unfoldable pub register : Text → Tunnel → Registry → Bool × Registry
register domain tc reg = if any (is_of domain) reg then (false, reg) else (true, (domain, tc) ∷ reg)

-- unregister: only the tunnel itself.
unfoldable pub unregister : Text → Tunnel → Registry → Registry
unregister domain tc reg = select (λ e. not (is_of domain e && (e.1.handle == tc.handle))) reg

abbrev is_word : Text → Bool
is_word w =
    not (same_text w []) && every (λ c. (leb b'a' c && leb c b'z') || (leb b'0' c && leb c b'9')) w

abbrev all_words : List Text → Bool
all_words [] = true
all_words (w ∷ ws) = is_word w && all_words ws

unfoldable pub is_valid_tunnel_domain : Text → Bool
is_valid_tunnel_domain domain =
    has_prefix (b't' ∷ b'-' ∷ []) domain
    && leb 2 (length (split b'-' (drop 2 domain)))
    && all_words (split b'-' (drop 2 domain))

-- What handleTunnelConnect answers instead of a tunnel.
pub data Refusal : Type 0 where
  mutually_exclusive project_not_found not_domain_only invalid_domain missing_param : Refusal
  noauth_requires_admin already_connected : Refusal

unfoldable pub status_code : Refusal → ℕ
status_code mutually_exclusive = 400
status_code project_not_found = 404
status_code not_domain_only = 409
status_code invalid_domain = 400
status_code missing_param = 400
status_code noauth_requires_admin = 403
status_code already_connected = 409

pub data Answer : Type 0 where
  refused : Refusal → Answer
  accepted : Text → String → Answer

-- GetProjectByOwnerAndName
unfoldable pub get_project_by_owner_and_name : ℕ → String → Db → Option Project
get_project_by_owner_and_name owner name db =
    first (λ p. (p.owner_id == owner) && str_eq p.name name) db.projects

-- The switch that resolves the domain prefix and the project that the tunnel is bound to.
unfoldable pub resolve_type : ProjectType → Project → Answer
resolve_type ProjectType.domain_only p = accepted (codes p.domain_prefix) p.name
resolve_type _ p = refused not_domain_only

unfoldable pub resolve_project : Option Project → Answer
unfolding resolve_type
resolve_project none = refused project_not_found
resolve_project (some p) = resolve_type p.project_type p

unfoldable pub resolve : Db → User → String → String → Answer
unfolding resolve_project get_project_by_owner_and_name is_valid_tunnel_domain
resolve db user raw_domain project_name =
    if not (str_eq raw_domain "") && not (str_eq project_name "")
    then refused mutually_exclusive
    else if not (str_eq project_name "")
    then resolve_project (get_project_by_owner_and_name user.id project_name db)
    else if not (str_eq raw_domain "")
    then if is_valid_tunnel_domain (codes raw_domain)
      then accepted (codes raw_domain) ""
      else refused invalid_domain
    else refused missing_param

abbrev pub is_admin : UserRole → Bool
is_admin UserRole.admin = true
is_admin UserRole.member = false

unfoldable pub guard_free : Option (Text × Tunnel) → Answer → Answer
guard_free none a = a
guard_free (some _) a = refused already_connected

-- The guards after it, for a request with `noauth`.
unfoldable pub guard_connect : Registry → User → Bool → Answer → Answer
unfolding get guard_free
guard_connect reg user noauth (refused r) = refused r
guard_connect reg user noauth (accepted domain bound) =
    if noauth && str_eq bound "" && not (is_admin user.role)
    then refused noauth_requires_admin
    else guard_free (get domain reg) (accepted domain bound)

-- handleTunnelConnect up to the upgrade to a WebSocket.
unfoldable pub handle_tunnel_connect : Db → Registry → User → String → String → Bool → Answer
unfolding guard_connect resolve
handle_tunnel_connect db reg user raw_domain project_name noauth =
    guard_connect reg user noauth (resolve db user raw_domain project_name)

-- The tunnel of a connection that was accepted.
unfoldable pub tunnel_of : ℕ → User → Bool → String → Tunnel
tunnel_of handle user noauth bound = record {
  handle = handle;
  user = user;
  auth_required = not noauth;
  project_name = bound;
}

abbrev without_port : Text → Option (Text × Text) → Text
without_port host none = host
without_port host (some (front, back)) = front

-- The domain prefix of a host under the base domain, without its port.
unfoldable pub tunnel_prefix : Text → Text → Option Text
tunnel_prefix base_domain host =
    let h : Text = without_port host (split_last b':' host) in
    if has_suffix (b'.' ∷ base_domain) h then some (trim_suffix (b'.' ∷ base_domain) h) else none

-- `domain_only` are the prefixes of the projects without a container.
unfoldable pub is_tunnel_request : List Text → Text → Text → Bool
unfolding tunnel_prefix
is_tunnel_request domain_only base_domain host = elim (tunnel_prefix base_domain host) [
  | none ↦ false
  | some prefix ↦ has_prefix (b't' ∷ b'-' ∷ []) prefix || member prefix domain_only
]

-- What handleTunnelTraffic does with a request: 502, 502, the placeholder with 503, or a stream of
-- the tunnel.
pub data Traffic : Type 0 where
  unknown_tunnel_host tunnel_not_connected offline_page : Traffic
  through : Tunnel → Traffic

unfoldable pub route : Registry → List Text → Option Text → Traffic
unfolding get
route reg domain_only none = unknown_tunnel_host
route reg domain_only (some domain) = elim (get domain reg) [
  | none ↦ if member domain domain_only then offline_page else tunnel_not_connected
  | some e ↦ through e.1
]

unfoldable pub handle_tunnel_traffic : Registry → List Text → Text → Text → Traffic
unfolding route tunnel_prefix
handle_tunnel_traffic reg domain_only base_domain host =
    route reg domain_only (tunnel_prefix base_domain host)

-- Connections that come and go, in any order; what a connection was admitted to may have changed
-- when it registers.
pub data Step : Registry → Registry → Type 0 where
  registers :
      (db : Db) (before reg : Registry) (user : User) (raw_domain project_name : String)
      (noauth : Bool) (handle : ℕ) (domain : Text) (bound : String)
      → handle_tunnel_connect db before user raw_domain project_name noauth ≡ accepted domain bound
      → Step reg (register domain (tunnel_of handle user noauth bound) reg).1
  unregisters : (reg : Registry) (domain : Text) (tc : Tunnel) → Step reg (unregister domain tc reg)

pub data Reachable : Registry → Type 0 where
  new : Reachable []
  next : (reg reg' : Registry) → Reachable reg → Step reg reg' → Reachable reg'
