-- ===== src/Access.antt =====
-- Who may reach a project's service: the allow-list and the requests to be added to it, in
-- internal/store/store.go and the handlers of internal/api/server.go. `project_id` and the other
-- ids are numbers; `next_id` is what the database gives the next request.
pub mod Grants
pub mod Requests
use muvee.Prelude.{
  ℕ, ◌+◌, Bool, true, false, ◌&&◌, ◌||◌, not, Option, none, some, List, [], ◌∷◌, ◌++◌, ◌==◌, String,
  str_eq, if◌then◌else◌, first, any, update, select,
}
use muvee.Db.{UserRole}

pub data AccessMode : Type 0 where
  public private : AccessMode

pub record ProjectRow : Type 0 where
  pub id : ℕ
  pub owner_id : ℕ
  pub access_mode : AccessMode

pub record UserRow : Type 0 where
  pub id : ℕ
  pub email : String
  pub role : UserRole

pub record ProjectAccessUser : Type 0 where
  pub project_id : ℕ
  pub user_id : ℕ
  pub added_by : ℕ
  pub added_at : ℕ

pub data RequestStatus : Type 0 where
  pending approved denied : RequestStatus

pub record ProjectAccessRequest : Type 0 where
  pub id : ℕ
  pub project_id : ℕ
  pub user_id : ℕ
  pub reason : String
  pub status : RequestStatus
  pub requested_at : ℕ
  pub decided_at : Option ℕ
  pub decided_by : Option ℕ

pub record AccessDb : Type 0 where
  pub projects : List ProjectRow
  pub users : List UserRow
  pub access_users : List ProjectAccessUser
  pub requests : List ProjectAccessRequest
  pub next_id : ℕ

abbrev pub is_admin : UserRole → Bool
is_admin UserRole.admin = true
is_admin UserRole.member = false

abbrev pub is_pending : RequestStatus → Bool
is_pending RequestStatus.pending = true
is_pending _ = false

abbrev pub is_approved : RequestStatus → Bool
is_approved RequestStatus.approved = true
is_approved _ = false

abbrev pub is_grant : ℕ → ℕ → ProjectAccessUser → Bool
is_grant p u a = (a.project_id == p) && (a.user_id == u)

abbrev pub is_open : ℕ → ℕ → ProjectAccessRequest → Bool
is_open p u r = (r.project_id == p) && (r.user_id == u) && is_pending r.status

abbrev pub is_listed : ℕ → ℕ → AccessDb → Bool
is_listed p u db = any (is_grant p u) db.access_users

abbrev pub get_row : ℕ → AccessDb → Option ProjectRow
get_row p db = first (λ q. q.id == p) db.projects

unfoldable pub get_access_request : ℕ → AccessDb → Option ProjectAccessRequest
get_access_request n db = first (λ r. r.id == n) db.requests

-- INSERT … ON CONFLICT (project_id, user_id) DO NOTHING
unfoldable pub add_project_access_user : ℕ → ℕ → ℕ → ℕ → AccessDb → AccessDb
add_project_access_user now p u by db = if is_listed p u db then db else record db {
  access_users =
      db.access_users
      ++ (record { project_id = p; user_id = u; added_by = by; added_at = now } ∷ []);
}

unfoldable pub remove_project_access_user : ℕ → ℕ → AccessDb → AccessDb
remove_project_access_user p u db = record db {
  access_users = select (λ a. not (is_grant p u a)) db.access_users;
}

-- The rules for a user who is no administrator.
unfoldable pub row_allows : ℕ → AccessDb → Option ProjectRow → Bool
row_allows u db none = false
row_allows u db (some p) = elim p.access_mode [
  | AccessMode.public ↦ true
  | AccessMode.private ↦ (p.owner_id == u) || is_listed p.id u db
]

unfoldable pub project_access_for_user : ℕ → UserRole → ℕ → AccessDb → Bool
unfolding row_allows
project_access_for_user u role p db = is_admin role || row_allows u db (get_row p db)

abbrev allowed_of : Option UserRow → ℕ → AccessDb → Bool
allowed_of none p db = false
allowed_of (some u) p db = project_access_for_user u.id u.role p db

unfoldable pub is_project_access_allowed_by_email : String → ℕ → AccessDb → Bool
unfolding project_access_for_user
is_project_access_allowed_by_email email p db =
    allowed_of (first (λ u. str_eq u.email email) db.users) p db

unfoldable pub is_project_access_allowed_by_user_id : ℕ → ℕ → AccessDb → Bool
unfolding project_access_for_user
is_project_access_allowed_by_user_id u p db = allowed_of (first (λ r. r.id == u) db.users) p db

pub data CreateAnswer : Type 0 where
  already_approved project_missing : CreateAnswer
  requested : Option ProjectAccessRequest → CreateAnswer

-- Without a pending request of the user there is a new one; else its reason is replaced, unless
-- the new one is blank. `trim` is strings.TrimSpace.
unfoldable pub reuse_or_insert :
    (trim : String → String)
    → ℕ
    → ℕ
    → ℕ
    → String
    → AccessDb
    → Option ProjectAccessRequest
    → CreateAnswer × AccessDb
unfolding get_access_request
reuse_or_insert trim now p u reason db none =
    let r : ProjectAccessRequest = record {
      id = db.next_id;
      project_id = p;
      user_id = u;
      reason = reason;
      status = RequestStatus.pending;
      requested_at = now;
      decided_at = none;
      decided_by = none;
    } in
    (requested (some r), record db { requests = db.requests ++ r ∷ []; next_id = db.next_id + 1 })
reuse_or_insert trim now p u reason db (some old) =
    let db' : AccessDb = if str_eq (trim reason) "" then db else record db {
      requests =
          update (λ r. r.id == old.id) (λ r. record r { reason = reason; requested_at = now })
            db.requests;
    } in
    (requested (get_access_request old.id db'), db')

unfoldable pub create_for_row :
    (trim : String → String)
    → ℕ
    → ℕ
    → ℕ
    → String
    → AccessDb
    → Option ProjectRow
    → CreateAnswer × AccessDb
unfolding reuse_or_insert
create_for_row trim now p u reason db none = (project_missing, db)
create_for_row trim now p u reason db (some row) =
    if row.owner_id == u
    then (already_approved, db)
    else reuse_or_insert trim now p u reason db (first (is_open p u) db.requests)

-- CreateAccessRequest
unfoldable pub create_access_request :
    (trim : String → String) → ℕ → ℕ → ℕ → String → AccessDb → CreateAnswer × AccessDb
unfolding create_for_row
create_access_request trim now p u reason db =
    if is_listed p u db
    then (already_approved, db)
    else create_for_row trim now p u reason db (get_row p db)

-- What an owner may answer.
pub data Decision : Type 0 where
  approve deny : Decision

abbrev pub status_of : Decision → RequestStatus
status_of approve = RequestStatus.approved
status_of deny = RequestStatus.denied

unfoldable pub grant : Decision → ℕ → ℕ → ProjectAccessRequest → AccessDb → AccessDb
unfolding add_project_access_user
grant approve now by r db = add_project_access_user now r.project_id r.user_id by db
grant deny now by r db = db

unfoldable pub settle_request : Decision → ℕ → ℕ → ProjectAccessRequest → AccessDb → AccessDb
unfolding grant
settle_request d now by r db = grant d now by r (record db {
  requests =
      update (λ x. x.id == r.id)
        (λ x. record x { status = status_of d; decided_at = some now; decided_by = some by })
        db.requests;
})

unfoldable pub decide_row : Decision → ℕ → ℕ → Option ProjectAccessRequest → AccessDb → AccessDb
unfolding settle_request
decide_row d now by none db = db
decide_row d now by (some r) db = if is_pending r.status then settle_request d now by r db else db

-- DecideAccessRequest, one transaction; the row that it returns is read after it.
unfoldable pub decide_access_request :
    Decision → ℕ → ℕ → ℕ → AccessDb → Option ProjectAccessRequest × AccessDb
unfolding decide_row get_access_request
decide_access_request d now by n db =
    let db' : AccessDb = decide_row d now by (get_access_request n db) db in
    (get_access_request n db', db')

-- The status code of an error, or the request as it then stands.
pub data DecideAnswer : Type 0 where
  failed : ℕ → DecideAnswer
  decided : ProjectAccessRequest → DecideAnswer

abbrev answer_of : Option ProjectAccessRequest → DecideAnswer
answer_of none = failed 404
answer_of (some r) = decided r

abbrev pub may_manage : UserRow → ProjectRow → Bool
may_manage caller p = is_admin caller.role || (p.owner_id == caller.id)

unfoldable pub handle_for_row :
    Decision → ℕ → UserRow → ℕ → AccessDb → Option ProjectRow → DecideAnswer × AccessDb
unfolding decide_access_request
handle_for_row d now caller n db none = (failed 404, db)
handle_for_row d now caller n db (some p) =
    if not (may_manage caller p)
    then (failed 403, db)
    else let (r, db') = decide_access_request d now caller.id n db in (answer_of r, db')

unfoldable pub handle_existing :
    Decision → ℕ → UserRow → ℕ → AccessDb → Option ProjectAccessRequest → DecideAnswer × AccessDb
unfolding handle_for_row
handle_existing d now caller n db none = (failed 404, db)
handle_existing d now caller n db (some r) =
    handle_for_row d now caller n db (get_row r.project_id db)

-- decideAccessRequest, the handler behind approveAccessRequest and denyAccessRequest.
unfoldable pub handle_decide : Decision → ℕ → UserRow → ℕ → AccessDb → DecideAnswer × AccessDb
unfolding handle_existing get_access_request
handle_decide d now caller n db = handle_existing d now caller n db (get_access_request n db)
