-- ===== src/Access/Grants.antt =====
-- Who is on a project's allow-list after a request was decided.
use muvee.Prelude.{
  update, ℕ, ◌≡◌, refl, ap, ◌∙◌, Bool, true, false, ◌&&◌, ◌||◌, some, List, [], ◌∷◌, ◌++◌, ◌==◌,
  any, if◌then◌else◌, Bool-cases, inl, inr, arith, first, ==_iff, ==_refl,
}
use mathlib.Core.Path.{subst}
use muvee.Prelude.Keys.{first-holds}
use muvee.Db.{UserRole}
use muvee.Access.{
  AccessMode, ProjectRow, UserRow, ProjectAccessUser, RequestStatus, ProjectAccessRequest, AccessDb,
  is_admin, is_pending, is_grant, is_listed, get_row, get_access_request, add_project_access_user,
  row_allows, project_access_for_user, Decision, approve, deny, grant, settle_request, decide_row,
  decide_access_request, may_manage, handle_for_row, handle_existing, handle_decide,
}

any-snoc :
    {A : Type 0} (p : A → Bool) (xs : List A) (x : A) → any p (xs ++ x ∷ []) ≡ any p xs || p x
any-snoc p [] x = ground arith
any-snoc p (y ∷ ys) x = ground (arith, any-snoc p ys x)

abbrev pub is_approval : Decision → Bool
is_approval approve = true
is_approval deny = false

-- Whether a decision puts a user on the list of a project.
abbrev pub is_granted : Decision → ProjectAccessRequest → ℕ → ℕ → Bool
is_granted d r q v = is_approval d && is_pending r.status && (r.project_id == q) && (r.user_id == v)

listed_twice :
    (p u q v : ℕ) (db : AccessDb)
    → is_listed p u db ≡ true
    → is_listed q v db ≡ is_listed q v db || ((p == q) && (u == v))
listed_twice p u q v db e = elim (Bool-cases ((p == q) && (u == v))) [
  | inl h ↦
      let first_same : p ≡ q = (==_iff p q).0 (ground arith) in
      let second_same : u ≡ v = (==_iff u v).0 (ground arith) in
      let listed : is_listed q v db ≡ true =
        subst (λ x. is_listed x v db ≡ true) first_same
          (subst (λ y. is_listed p y db ≡ true) second_same e) in
      rw (h, listed) refl
  | inr h ↦ rw h (ground arith)
]

add-listed :
    (now p u by q v : ℕ) (db : AccessDb)
    → is_listed q v (add_project_access_user now p u by db)
      ≡ is_listed q v db || ((p == q) && (u == v))
unfolding add_project_access_user
add-listed now p u by q v db = elim (Bool-cases (is_listed p u db)) [
  | inl e ↦ rw e (listed_twice p u q v db e)
  | inr e ↦
      let a : ProjectAccessUser = record {
        project_id = p;
        user_id = u;
        added_by = by;
        added_at = now;
      } in
      rw e (any-snoc (is_grant q v) db.access_users a)
]

decide_row-listed :
    (d : Decision) (now by q v : ℕ) (r : ProjectAccessRequest) (db : AccessDb)
    → is_listed q v (decide_row d now by (some r) db) ≡ is_listed q v db || is_granted d r q v
unfolding decide_row settle_request grant
decide_row-listed deny now by q v r db = elim (Bool-cases (is_pending r.status)) [
  | inl e ↦ rw e (ground arith)
  | inr e ↦ rw e (ground arith)
]
decide_row-listed approve now by q v r db = elim (Bool-cases (is_pending r.status)) [
  | inl e ↦
      let marked : AccessDb = record db {
        requests =
            update (λ x. x.id == r.id)
              (λ x. record x {
                status = RequestStatus.approved;
                decided_at = some now;
                decided_by = some by;
              })
              db.requests;
      } in
      rw e (add-listed now r.project_id r.user_id by q v marked)
  | inr e ↦ rw e (ground arith)
]

-- The projects stay as they are.
decide_row-projects :
    (d : Decision) (now by : ℕ) (r : ProjectAccessRequest) (db : AccessDb)
    → (decide_row d now by (some r) db).projects ≡ db.projects
unfolding decide_row settle_request grant add_project_access_user
decide_row-projects deny now by r db = elim (Bool-cases (is_pending r.status)) [
  | inl e ↦ rw e refl
  | inr e ↦ rw e refl
]
decide_row-projects approve now by r db = elim (Bool-cases (is_pending r.status)) [
  | inl e ↦ rw e (elim (Bool-cases (is_listed r.project_id r.user_id db)) [
    | inl l ↦ rw l refl
    | inr l ↦ rw l refl
  ])
  | inr e ↦ rw e refl
]

-- What the handler does where the request and its project are there.
handle_decide-row :
    (d : Decision) (now n : ℕ) (caller : UserRow) (r : ProjectAccessRequest) (p : ProjectRow)
    (db : AccessDb)
    → get_access_request n db ≡ some r
    → get_row r.project_id db ≡ some p
    → (handle_decide d now caller n db).1
      ≡ (if may_manage caller p then decide_row d now caller.id (some r) db else db)
unfolding handle_decide handle_existing handle_for_row decide_access_request
handle_decide-row d now n caller r p db h k = elim (Bool-cases (may_manage caller p)) [
  | inl e ↦ rw (h, k, e) (rw h refl)
  | inr e ↦ rw (h, k, e) refl
]

-- When the owner of the project or an administrator decides a request, the allow-lists are as they
-- were, and with an approval of a pending request its user is on its project's list. When another
-- user does, nothing changes. The request and its project are there.
pub handle_decide-listed :
    (d : Decision) (now n q v : ℕ) (caller : UserRow) (r : ProjectAccessRequest) (p : ProjectRow)
    (db : AccessDb)
    → get_access_request n db ≡ some r
    → get_row r.project_id db ≡ some p
    → (is_listed q v (handle_decide d now caller n db).1
        ≡ is_listed q v db || (may_manage caller p && is_granted d r q v))
      × (may_manage caller p ≡ false → (handle_decide d now caller n db).1 ≡ db)
handle_decide-listed d now n q v caller r p db h k =
    let after = handle_decide-row d now n caller r p db h k in
    elim (Bool-cases (may_manage caller p)) [
      | inl e ↦
          let same : (handle_decide d now caller n db).1 ≡ decide_row d now caller.id (some r) db =
            after ∙ rw e refl in
          (
            ap (is_listed q v) same ∙ decide_row-listed d now caller.id q v r db ∙ rw e refl,
            λ f. cc (e, f),
          )
      | inr e ↦
          let same : (handle_decide d now caller n db).1 ≡ db = after ∙ rw e refl in
          (ap (is_listed q v) same ∙ rw e (ground arith), λ _. same)
    ]

row_allows-listed :
    (m : AccessMode) (u : ℕ) (p : ProjectRow) (db : AccessDb)
    → is_listed p.id u db ≡ true
    → row_allows u db (some (record p { access_mode = m })) ≡ true
unfolding row_allows
row_allows-listed AccessMode.public u p db h = refl
row_allows-listed AccessMode.private u p db h = ground arith

-- After the owner of the project or an administrator approved a pending request, its user may reach
-- the project, whatever the access mode.
pub approved-allowed :
    (now n : ℕ) (caller : UserRow) (role : UserRole) (r : ProjectAccessRequest) (p : ProjectRow)
    (db : AccessDb)
    → get_access_request n db ≡ some r
    → get_row r.project_id db ≡ some p
    → is_pending r.status ≡ true
    → may_manage caller p ≡ true
    → project_access_for_user r.user_id role r.project_id (handle_decide approve now caller n db).1
      ≡ true
unfolding project_access_for_user
approved-allowed now n caller role r p db h k pending allowed =
    let db' : AccessDb = (handle_decide approve now caller n db).1 in
    let same : db' ≡ decide_row approve now caller.id (some r) db =
      handle_decide-row approve now n caller r p db h k ∙ rw allowed refl in
    let rows : db'.projects ≡ db.projects =
      ap (λ x. x.projects) same ∙ decide_row-projects approve now caller.id r db in
    let found : get_row r.project_id db' ≡ some p =
      ap (first (λ q. q.id == r.project_id)) rows ∙ k in
    let key : p.id ≡ r.project_id =
      (==_iff p.id r.project_id).0 (first-holds (λ q. q.id == r.project_id) db.projects p k) in
    let listed : is_listed r.project_id r.user_id db' ≡ true =
      (handle_decide-listed approve now n r.project_id r.user_id caller r p db h k).0
      ∙ rw (allowed, pending, ==_refl r.project_id, ==_refl r.user_id) (ground arith) in
    ap (λ b. is_admin role || b)
      (ap (row_allows r.user_id db') found
        ∙ row_allows-listed p.access_mode r.user_id p db'
            (ap (λ x. is_listed x r.user_id db') key ∙ listed))
    ∙ ground arith
